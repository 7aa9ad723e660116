-- ===== src/Proxy/TcpProxy/Lists.antt =====
-- The lists of services and sessions of core/proxy/TcpProxy.cpp.
use mathlib.Core.Option
use bit_bridge.Prelude.{
  ℕ, zero, suc, ◌+◌, ◌≤◌, ◌==◌, if◌then◌else◌, ◌≡◌, refl, ap, List, [], ◌∷◌, length, get_elem?, set,
  All, some, arith, inl, inr, Option-cases,
}
use bit_bridge.State.Service.{ServiceState}
use bit_bridge.State.Pool.{ServicePool}
use bit_bridge.Proxy.Session.{Session}
use bit_bridge.Proxy.TcpProxy.{modify, remove}

-- How many sessions a backend serves.
abbrev pub count : ℕ → List Session → ℕ
count i [] = 0
count i (s ∷ sessions) = (if s.backend == i then 1 else 0) + count i sessions

pub count-le : (i : ℕ) (sessions : List Session) → count i sessions ≤ length sessions
count-le i [] = omega arith
count-le i (s ∷ sessions) = ground (arith, count-le i sessions)

pub length-modify :
    (pool : ServicePool) (i : ℕ) (f : ServiceState → ServiceState)
    → length (modify pool i f) ≡ length pool
unfolding modify
length-modify [] i f = refl
length-modify (s ∷ pool) zero f = refl
length-modify (s ∷ pool) (suc i) f = ap suc (length-modify pool i f)

pub get_elem?-modify :
    (pool : ServicePool) (i j : ℕ) (f : ServiceState → ServiceState)
    → get_elem? (modify pool i f) j ≡ Option.map (λ s. if i == j then f s else s) (get_elem? pool j)
unfolding modify
get_elem?-modify [] i j f = refl
get_elem?-modify (s ∷ pool) zero zero f = refl
get_elem?-modify (s ∷ pool) zero (suc j) f = elim (Option-cases (get_elem? pool j)) [
  | inl e ↦ ground arith
  | inr (a, e) ↦ ground arith
]
get_elem?-modify (s ∷ pool) (suc i) zero f = ground arith
get_elem?-modify (s ∷ pool) (suc i) (suc j) f = elim (Option-cases (get_elem? pool j)) [
  | inl e ↦ ground (arith, get_elem?-modify pool i j f)
  | inr (a, e) ↦ ground (arith, get_elem?-modify pool i j f)
]

pub count-remove :
    (i k : ℕ) (sessions : List Session) {s : Session}
    → get_elem? sessions k ≡ some s
    → count i (remove sessions k) + (if s.backend == i then 1 else 0) ≡ count i sessions
unfolding remove
count-remove i k [] h = absurd (cc)
count-remove i zero (s ∷ sessions) h = ground arith
count-remove i (suc k) (s ∷ sessions) h = ground (arith, count-remove i k sessions h)

pub count-set :
    (i k : ℕ) (sessions : List Session) {s : Session} (t : Session)
    → get_elem? sessions k ≡ some s
    → t.backend ≡ s.backend
    → count i (set sessions k t) ≡ count i sessions
count-set i k [] t h e = refl
count-set i zero (s ∷ sessions) t h e = ground arith
count-set i (suc k) (s ∷ sessions) t h e = ground (arith, count-set i k sessions t h e)

pub length-remove : (sessions : List Session) (k : ℕ) → length (remove sessions k) ≤ length sessions
unfolding remove
length-remove [] k = omega arith
length-remove (s ∷ sessions) zero = omega arith
length-remove (s ∷ sessions) (suc k) = omega (arith, length-remove sessions k)

module _ (P : Session → Type 0) where
  pub All-get_elem? :
      (sessions : List Session) (k : ℕ) {s : Session}
      → All P sessions
      → get_elem? sessions k ≡ some s
      → P s
  All-get_elem? [] k a h = absurd (cc)
  All-get_elem? (t ∷ sessions) zero {s} a h = let same : t ≡ s = cc in rw (← same) a.0
  All-get_elem? (t ∷ sessions) (suc k) a h = All-get_elem? sessions k a.1 h

  pub All-set :
      (sessions : List Session) (k : ℕ) (t : Session)
      → All P sessions
      → P t
      → All P (set sessions k t)
  All-set [] k t a h = tt
  All-set (s ∷ sessions) zero t a h = (h, a.1)
  All-set (s ∷ sessions) (suc k) t a h = (a.0, All-set sessions k t a.1 h)

  pub All-remove : (sessions : List Session) (k : ℕ) → All P sessions → All P (remove sessions k)
  unfolding remove
  All-remove [] k a = tt
  All-remove (s ∷ sessions) zero a = a.1
  All-remove (s ∷ sessions) (suc k) a = (a.0, All-remove sessions k a.1)

pub modify-inv :
    (pool : ServicePool) (i j : ℕ) (f : ServiceState → ServiceState) {b : ServiceState}
    → get_elem? (modify pool i f) j ≡ some b
    → (a : ServiceState) × (get_elem? pool j ≡ some a) × (b ≡ (if i == j then f a else a))
modify-inv pool i j f h = elim (Option-cases (get_elem? pool j)) [
  | inl e ↦ absurd (ground (arith, get_elem?-modify pool i j f))
  | inr (a, e) ↦ (a, e, ground (arith, get_elem?-modify pool i j f))
]
