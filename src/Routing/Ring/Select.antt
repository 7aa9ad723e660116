-- ===== src/Routing/Ring/Select.antt =====
-- `SelectService` of core/routing/ConsistentHashStrategy.cpp.
use bit_bridge.Prelude.{
  ℕ, zero, suc, ◌+◌, ◌%◌, ◌==◌, ◌||◌, if◌then◌else◌, List, length, at, Bytes, Outcome, returns,
  ◌>>=◌, value, unexpected,
}
use bit_bridge.State.Pool.{ServicePool, pool_size, get_service}
use bit_bridge.Routing.Fnv.{hash64}
use bit_bridge.Routing.Strategy.{no_healthy_services, pool_empty, Selection}
use bit_bridge.Routing.Ring.Sort.{Point}
use bit_bridge.Routing.Ring.Bound.{lower_bound}

-- The loop over `walked`, with the rounds that are left.
unfoldable pub walk : List Point → ServicePool → ℕ → ℕ → ℕ → Outcome Selection
walk ring pool start walked zero = returns (unexpected no_healthy_services)
walk ring pool start walked (suc rounds) =
    let rest = walk ring pool start (walked + 1) rounds in
    do
      p ← at ring ((start + walked) % length ring)
      s ← get_service pool p.service
      if s.healthy then returns (value p.service) else rest

unfoldable pub select_hash : List Point → ServicePool → ℕ → Outcome Selection
unfolding walk
select_hash ring pool hash = walk ring pool (lower_bound ring hash) 0 (length ring)

unfoldable pub select_service : List Point → ServicePool → Bytes → Outcome Selection
unfolding select_hash
select_service ring pool key =
    if pool_size pool == 0 || length ring == 0
    then returns (unexpected pool_empty)
    else select_hash ring pool (hash64 key)
