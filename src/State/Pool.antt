-- ===== src/State/Pool.antt =====
-- core/state/ServicePool.hpp and ServicePool.cpp: the backends, by index.
use bit_bridge.Prelude.{
  ℕ, zero, suc, ◌+◌, ◌≤◌, ◌<◌, ◌≡◌, refl, List, [], ◌∷◌, if◌then◌else◌, length, get_elem?, set,
  Outcome, ◌>>=◌, returns, at, arith, get_elem?-lt,
}
use mathlib.Core.Option
use bit_bridge.Model.Node.{ServiceNode}
use bit_bridge.State.Service
use bit_bridge.State.Service.{ServiceState}

abbrev pub ServicePool : Type 0
ServicePool = List ServiceState

-- The constructor, which makes a state for each configured node.
unfoldable pub make_pool : List ServiceNode → ServicePool
unfolding Service.new
make_pool [] = []
make_pool (node ∷ nodes) = Service.new node ∷ make_pool nodes

abbrev pub pool_size : ServicePool → ℕ
pool_size pool = length pool

-- `GetService`, which throws where the index is out of range.
abbrev pub get_service : ServicePool → ℕ → Outcome ServiceState
get_service pool index = at pool index

-- What a call through the reference that `GetService` returns does to the pool.
abbrev pub update_service : ServicePool → ℕ → (ServiceState → ServiceState) → Outcome ServicePool
update_service pool index f = do s ← get_service pool index; returns (set pool index (f s))

unfoldable pub healthy_count_from : ℕ → ServicePool → ℕ
healthy_count_from count [] = count
healthy_count_from count (s ∷ pool) =
    healthy_count_from (if s.healthy then count + 1 else count) pool

unfoldable pub healthy_count : ServicePool → ℕ
unfolding healthy_count_from
healthy_count pool = healthy_count_from 0 pool

-- What the clients need of an update through a valid index.
pub update_service-lt :
    (pool : ServicePool) (i : ℕ) (f : ServiceState → ServiceState)
    → i < pool_size pool
    → (s : ServiceState) × (get_service pool i ≡ returns s)
      × (update_service pool i f ≡ returns (set pool i (f s)))
update_service-lt pool i f h = let (s, e) = get_elem?-lt pool i h in (s, ground arith, ground arith)

healthy_count_from-le :
    (n : ℕ) (pool : ServicePool) → healthy_count_from n pool ≤ n + pool_size pool
unfolding healthy_count_from
healthy_count_from-le n [] = omega arith
healthy_count_from-le n (s ∷ pool) =
    ground (arith, healthy_count_from-le n pool, healthy_count_from-le (n + 1) pool)

le-healthy_count_from : (n : ℕ) (pool : ServicePool) → n ≤ healthy_count_from n pool
unfolding healthy_count_from
le-healthy_count_from n [] = omega arith
le-healthy_count_from n (s ∷ pool) =
    ground (arith, le-healthy_count_from n pool, le-healthy_count_from (n + 1) pool)

pub make_pool-get_elem? :
    (nodes : List ServiceNode) (i : ℕ)
    → get_elem? (make_pool nodes) i ≡ Option.map Service.new (get_elem? nodes i)
unfolding make_pool
make_pool-get_elem? [] i = refl
make_pool-get_elem? (node ∷ nodes) zero = refl
make_pool-get_elem? (node ∷ nodes) (suc i) = make_pool-get_elem? nodes i
