-- ===== src/Bench/Load/Counts.antt =====
-- The counters of the load of bench/main.cpp.
pub mod Waves
pub mod Ends
pub mod Steps
use bit_bridge.Prelude.{
  ℕ, zero, suc, ◌+◌, ◌-◌, ◌*◌, ◌≤◌, ◌<◌, ltb, ◌≡◌, refl, Bool, true, false, if◌then◌else◌, List, [],
  ◌∷◌, ◌++◌, length, arith,
}
use bit_bridge.Bench.Load.{ConnResult, Phase, LoadContext}

module _ {Time : Type 0} where
  -- The bytes of the connections that ended well.
  abbrev pub ok_bytes : List (ConnResult Time) → ℕ
  ok_bytes [] = 0
  ok_bytes (r ∷ results) = (if r.ok then r.bytes else 0) + ok_bytes results

  -- The counters count what they are named for, and stay within the limits.
  pub record IsCounted (c : LoadContext Time) : Type 0 where
    pub live : c.inflight ≡ length c.connections
    pub ended : c.done ≡ length c.results
    pub split : c.launched ≡ c.inflight + c.done
    pub limited : c.inflight ≤ c.concurrency
    pub within : c.launched ≤ c.total
    pub peaked : c.inflight ≤ c.peak_inflight
    pub peak_limited : c.peak_inflight ≤ c.concurrency
    pub received : c.bytes_received ≡ ok_bytes c.results

  -- No more connections can be launched now.
  abbrev pub Filled : LoadContext Time → Type 0
  Filled c = c.launched < c.total → c.concurrency ≤ c.inflight

  pub ok_bytes-append :
      (xs ys : List (ConnResult Time)) → ok_bytes (xs ++ ys) ≡ ok_bytes xs + ok_bytes ys
  ok_bytes-append [] ys = omega arith
  ok_bytes-append (x ∷ xs) ys = ground (arith, ok_bytes-append xs ys)
