-- ===== src/Bench/Load/Counts/Ends.antt =====
-- The end of a connection in bench/main.cpp.
use bit_bridge.Prelude.{
  ℕ, zero, suc, ◌+◌, ◌-◌, ◌<◌, leb, ◌≡◌, refl, ap, ◌∙◌, Bool, true, false, if◌then◌else◌, List, [],
  ◌∷◌, ◌++◌, length, length-append, lt-get_elem?, get_elem?, some, Bool-cases, inl, inr, arith,
}
use bit_bridge.Model.Balancer.{erase_at}
use bit_bridge.Model.Balancer.Services.{length-erase_at}
use bit_bridge.Bench.Load.{LoadContext, Phase, launch_wave, finish}
use bit_bridge.Bench.Load.Counts.{IsCounted, Filled, ok_bytes-append}
use bit_bridge.Bench.Load.Counts.Waves.{
  waits, all_waits, left, launch_wave-IsWave, launch_wave-Filled,
}

all_waits-erase_at :
    (ps : List Phase) (i : ℕ) {p : Phase}
    → get_elem? ps i ≡ some p
    → all_waits (erase_at i ps) + waits p ≡ all_waits ps
all_waits-erase_at [] i e = absurd (cc)
all_waits-erase_at (q ∷ ps) zero {p} e = let same : q ≡ p = cc in rw (← same) (omega arith)
all_waits-erase_at (q ∷ ps) (suc i) e = omega (arith, all_waits-erase_at ps i e)

module _ {Time : Type 0} (total concurrency : ℕ) where
  -- Between two turns: the counters are right, no connection could be launched, and the loop is stopped
  -- exactly when every connection has ended, but never where there is none.
  pub record IsServing (c : LoadContext Time) : Type 0 where
    pub counted : IsCounted c
    pub filled : Filled c
    pub stopping : c.stopped ≡ true → (0 < c.total) × (c.done ≡ c.total)
    pub running : c.stopped ≡ false → 0 < c.total → c.done < c.total
    pub same_total : c.total ≡ total
    pub same_concurrency : c.concurrency ≡ concurrency

  -- The context in which the last part of a handler launches the next wave.
  abbrev ended_at : ℕ → Bool → Time → ℕ → LoadContext Time → LoadContext Time
  ended_at i ok ms bytes c = record c {
    results = c.results ++ record { ok = ok; ms = ms; bytes = bytes } ∷ [];
    bytes_received = if ok then c.bytes_received + bytes else c.bytes_received;
    connections = erase_at i c.connections;
    inflight = c.inflight - 1;
    done = c.done + 1;
  }

  ended_at-IsCounted :
      (i : ℕ) (ok : Bool) (ms : Time) (bytes : ℕ) (c : LoadContext Time)
      → i < length c.connections
      → IsCounted c
      → IsCounted (ended_at i ok ms bytes c)
  ended_at-IsCounted i ok ms bytes c h k = record {
    live = omega (arith, k.live, length-erase_at i c.connections h);
    ended =
        omega (
          arith,
          k.ended,
          length-append c.results (record { ok = ok; ms = ms; bytes = bytes } ∷ []),
        );
    split = omega (arith, k.split, k.live);
    limited = omega (arith, k.limited);
    within = k.within;
    peaked = omega (arith, k.peaked);
    peak_limited = k.peak_limited;
    received = ground (
      arith,
      k.received,
      ok_bytes-append c.results (record { ok = ok; ms = ms; bytes = bytes } ∷ []),
    );
  }

  finish-stopped :
      (c : LoadContext Time)
      → IsCounted c
      → Filled c
      → c.stopped ≡ false
      → 0 < c.total
      → c.total ≡ total
      → c.concurrency ≡ concurrency
      → IsServing (if leb c.total c.done then record c { stopped = true } else c)
  finish-stopped c k f unstopped some_request t n = elim (Bool-cases (leb c.total c.done)) [
    | inl all ↦ rw all (record {
      counted = record {
        live = k.live;
        ended = k.ended;
        split = k.split;
        limited = k.limited;
        within = k.within;
        peaked = k.peaked;
        peak_limited = k.peak_limited;
        received = k.received;
      };
      filled = f;
      stopping = λ _. (some_request, ground (arith, k.split, k.within));
      running = λ h. absurd (cc);
      same_total = t;
      same_concurrency = n;
    })
    | inr more ↦ rw more (record {
      counted = k;
      filled = f;
      stopping = λ h. absurd (cc);
      running = λ _ _. ground arith;
      same_total = t;
      same_concurrency = n;
    })
  ]

  stop-left :
      (b : Bool) (c : LoadContext Time)
      → left (if b then record c { stopped = true } else c) ≡ left c
  stop-left true c = refl
  stop-left false c = refl

  -- The end of a live connection.
  pub finish-IsServing :
      (i : ℕ) (ok : Bool) (ms : Time) (bytes : ℕ) (c : LoadContext Time) {p : Phase}
      → c.stopped ≡ false
      → get_elem? c.connections i ≡ some p
      → IsServing c
      → IsServing (finish i ok ms bytes c) × (left (finish i ok ms bytes c) + waits p ≡ left c)
  finish-IsServing i ok ms bytes c {p} unstopped at s =
      let here = lt-get_elem? c.connections i at in
      let before = ended_at i ok ms bytes c in
      let counted = ended_at-IsCounted i ok ms bytes c here s.counted in
      let w = launch_wave-IsWave before counted in
      let next = launch_wave before in
      let same : finish i ok ms bytes c
          ≡ (if leb next.total next.done then record next { stopped = true } else next) =
        unfold finish in refl in
      (
        rw same (
            finish-stopped next w.counted (launch_wave-Filled before) (w.same_stopped ∙ unstopped)
              (omega (arith, w.same_total, s.counted.within, s.counted.live, s.counted.split))
              (w.same_total ∙ s.same_total) (w.same_concurrency ∙ s.same_concurrency)),
        ap (λ x. left x + waits p) same
            ∙ ap (λ n. n + waits p) (stop-left (leb next.total next.done) next ∙ w.same_left)
            ∙ omega (arith, all_waits-erase_at c.connections i at),
      )
