-- ===== src/Bench/Load/Counts/Steps.antt =====
-- `OnConnect`, `OnWriteDone` and `OnReadSome` of bench/main.cpp.
use bit_bridge.Prelude.{
  ℕ, zero, suc, ◌+◌, ◌≤◌, ◌<◌, ◌≡◌, sym, ◌∙◌, Bool, true, false, if◌then◌else◌, List, [], ◌∷◌,
  length-set, get_elem?, set, some, arith,
}
use bit_bridge.Bench.Load.{
  LoadContext, Phase, connecting, writing, reading, Completion, success, closed, error, Event,
  finish, wait_for, on_connect, on_write_done, on_read_some, handle,
}
use bit_bridge.Bench.Load.Counts.Ends.{IsServing, finish-IsServing}
use bit_bridge.Bench.Load.Counts.Waves.{waits, all_waits, left}

all_waits-set :
    (ps : List Phase) (i : ℕ) (q : Phase) {p : Phase}
    → get_elem? ps i ≡ some p
    → all_waits (set ps i q) + waits p ≡ all_waits ps + waits q
all_waits-set [] i q e = absurd (cc)
all_waits-set (r ∷ ps) zero q {p} e = let same : r ≡ p = cc in rw (← same) (omega arith)
all_waits-set (r ∷ ps) (suc i) q e = omega (arith, all_waits-set ps i q e)

-- Part of a response has come.
abbrev pub is_part : Phase → Completion → Bool
is_part (reading bytes_read) (success n) = true
is_part _ _ = false

waits-positive : (p : Phase) → 0 < waits p
waits-positive connecting = omega arith
waits-positive writing = omega arith
waits-positive (reading n) = omega arith

module _ {Time : Type 0} (total concurrency : ℕ) where
  -- A live connection waits for another operation.
  wait_for-IsServing :
      (i : ℕ) (q : Phase) (c : LoadContext Time) {p : Phase}
      → get_elem? c.connections i ≡ some p
      → IsServing total concurrency c
      → IsServing total concurrency (wait_for i q c)
        × (left (wait_for i q c) + waits p ≡ left c + waits q)
  unfolding wait_for
  wait_for-IsServing i q c at s = (
    record {
      counted = record {
        live = s.counted.live ∙ sym (length-set c.connections i q);
        ended = s.counted.ended;
        split = s.counted.split;
        limited = s.counted.limited;
        within = s.counted.within;
        peaked = s.counted.peaked;
        peak_limited = s.counted.peak_limited;
        received = s.counted.received;
      };
      filled = s.filled;
      stopping = s.stopping;
      running = s.running;
      same_total = s.same_total;
      same_concurrency = s.same_concurrency;
    },
    omega (arith, all_waits-set c.connections i q at),
  )

  ends :
      (i : ℕ) (ok : Bool) (ms : Time) (bytes : ℕ) (c : LoadContext Time) (p : Phase)
      → c.stopped ≡ false
      → get_elem? c.connections i ≡ some p
      → IsServing total concurrency c
      → IsServing total concurrency (finish i ok ms bytes c)
        × (left (finish i ok ms bytes c) + 1 ≤ left c)
  ends i ok ms bytes c p unstopped at s =
      let (serving, fewer) = finish-IsServing total concurrency i ok ms bytes c unstopped at s in
      (serving, omega (arith, waits-positive p))

  goes_on :
      (i : ℕ) (q p : Phase) (c : LoadContext Time)
      → waits q < waits p
      → get_elem? c.connections i ≡ some p
      → IsServing total concurrency c
      → IsServing total concurrency (wait_for i q c) × (left (wait_for i q c) + 1 ≤ left c)
  goes_on i q p c h at s =
      let (serving, fewer) = wait_for-IsServing i q c at s in (serving, omega arith)

  pub handle-IsServing :
      (p : Phase) (e : Event Time) (c : LoadContext Time)
      → c.stopped ≡ false
      → get_elem? c.connections e.index ≡ some p
      → IsServing total concurrency c
      → IsServing total concurrency (handle p e c)
        × (left (handle p e c) + (if is_part p e.completion then 0 else 1) ≤ left c)
  unfolding handle on_connect on_write_done on_read_some
  handle-IsServing connecting e c u at s =
      elim e.completion
        as (λ x.
          IsServing total concurrency (on_connect e.index x e.ms c)
          × (left (on_connect e.index x e.ms c) + (if is_part connecting x then 0 else 1)
              ≤ left c)) [
                | success n ↦ goes_on e.index writing connecting c (omega arith) at s
                | closed ↦ ends e.index false e.ms 0 c connecting u at s
                | error ↦ ends e.index false e.ms 0 c connecting u at s
              ]
  handle-IsServing writing e c u at s =
      elim e.completion
        as (λ x.
          IsServing total concurrency (on_write_done e.index x e.ms c)
          × (left (on_write_done e.index x e.ms c) + (if is_part writing x then 0 else 1)
              ≤ left c)) [
                | success n ↦ goes_on e.index (reading 0) writing c (omega arith) at s
                | closed ↦ ends e.index false e.ms 0 c writing u at s
                | error ↦ ends e.index false e.ms 0 c writing u at s
              ]
  handle-IsServing (reading b) e c u at s =
      elim e.completion
        as (λ x.
          IsServing total concurrency (on_read_some e.index b x e.ms c)
          × (left (on_read_some e.index b x e.ms c) + (if is_part (reading b) x then 0 else 1)
              ≤ left c)) [
                | success n ↦
                    let (serving, equal) = wait_for-IsServing e.index (reading (b + n)) c at s in
                    (serving, omega arith)
                | closed ↦ ends e.index true e.ms b c (reading b) u at s
                | error ↦ ends e.index false e.ms b c (reading b) u at s
              ]
