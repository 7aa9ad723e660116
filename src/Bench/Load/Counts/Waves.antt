-- ===== src/Bench/Load/Counts/Waves.antt =====
-- `LaunchWave` of bench/main.cpp.
use bit_bridge.Prelude.{
  ℕ, zero, suc, ◌+◌, ◌-◌, ◌*◌, ◌≤◌, ◌<◌, ltb, leb, ◌≡◌, refl, ◌&&◌, List, [], ◌∷◌, ◌++◌, length,
  length-append, Bool-cases, inl, inr, ◌∙◌, arith,
}
use bit_bridge.Bench.Load.{
  LoadContext, Phase, connecting, writing, reading, launch_one, launch, launch_wave,
}
use bit_bridge.Bench.Load.Counts.{IsCounted, Filled}

-- How many operations a connection still waits for at most.
abbrev pub waits : Phase → ℕ
waits connecting = 3
waits writing = 2
waits (reading n) = 1

abbrev pub all_waits : List Phase → ℕ
all_waits [] = 0
all_waits (p ∷ ps) = waits p + all_waits ps

pub all_waits-append : (ps qs : List Phase) → all_waits (ps ++ qs) ≡ all_waits ps + all_waits qs
all_waits-append [] qs = omega arith
all_waits-append (p ∷ ps) qs = omega (arith, all_waits-append ps qs)

pub length-all_waits : (ps : List Phase) → length ps ≤ all_waits ps
length-all_waits [] = omega arith
length-all_waits (connecting ∷ ps) = omega (arith, length-all_waits ps)
length-all_waits (writing ∷ ps) = omega (arith, length-all_waits ps)
length-all_waits (reading n ∷ ps) = omega (arith, length-all_waits ps)

module _ {Time : Type 0} where
  -- The operations that are left, those of the connections to come included.
  abbrev pub left : LoadContext Time → ℕ
  left c = 3 * (c.total - c.launched) + all_waits c.connections

  launch_one-IsCounted :
      (c : LoadContext Time)
      → IsCounted c
      → c.inflight < c.concurrency
      → c.launched < c.total
      → IsCounted (launch_one c)
  unfolding launch_one
  launch_one-IsCounted c k room more = record {
    live = omega (arith, k.live, length-append c.connections (connecting ∷ []));
    ended = k.ended;
    split = omega (arith, k.split);
    limited = omega arith;
    within = omega arith;
    peaked = ground arith;
    peak_limited = ground (arith, k.peak_limited);
    received = k.received;
  }

  launch_one-left : (c : LoadContext Time) → c.launched < c.total → left (launch_one c) ≡ left c
  unfolding launch_one
  launch_one-left c more = omega (arith, all_waits-append c.connections (connecting ∷ []))

  -- What a wave leaves as it is.
  pub record IsWave (c d : LoadContext Time) : Type 0 where
    pub same_results : d.results ≡ c.results
    pub same_done : d.done ≡ c.done
    pub same_total : d.total ≡ c.total
    pub same_concurrency : d.concurrency ≡ c.concurrency
    pub same_stopped : d.stopped ≡ c.stopped
    pub same_left : left d ≡ left c
    pub counted : IsCounted d

  unchanged-IsWave : (c : LoadContext Time) → IsCounted c → IsWave c c
  unchanged-IsWave c k = record {
    same_results = refl;
    same_done = refl;
    same_total = refl;
    same_concurrency = refl;
    same_stopped = refl;
    same_left = refl;
    counted = k;
  }

  longer-IsWave :
      (c d : LoadContext Time) → c.launched < c.total → IsWave (launch_one c) d → IsWave c d
  longer-IsWave c d more w = record {
    same_results = w.same_results ∙ unfold launch_one in refl;
    same_done = w.same_done ∙ unfold launch_one in refl;
    same_total = w.same_total ∙ unfold launch_one in refl;
    same_concurrency = w.same_concurrency ∙ unfold launch_one in refl;
    same_stopped = w.same_stopped ∙ unfold launch_one in refl;
    same_left = w.same_left ∙ launch_one-left c more;
    counted = w.counted;
  }

  launch-IsWave : (fuel : ℕ) (c : LoadContext Time) → IsCounted c → IsWave c (launch fuel c)
  launch-IsWave zero c k = unfold launch in (unchanged-IsWave c k)
  launch-IsWave (suc fuel) c k =
      elim (Bool-cases (ltb c.inflight c.concurrency && ltb c.launched c.total)) [
        | inr full ↦
            let same : launch (suc fuel) c ≡ c = unfold launch in (ground arith) in
            rw same (unchanged-IsWave c k)
        | inl free ↦
            let room : c.inflight < c.concurrency = ground arith in
            let more : c.launched < c.total = ground arith in
            let same : launch (suc fuel) c ≡ launch fuel (launch_one c) =
              unfold launch in (ground arith) in
            rw same (
              longer-IsWave c _ more
                (launch-IsWave fuel (launch_one c) (launch_one-IsCounted c k room more)))
      ]

  -- Fuel for every connection that is left is enough.
  launch-Filled :
      (fuel : ℕ) (c : LoadContext Time) → c.total ≤ c.launched + fuel → Filled (launch fuel c)
  launch-Filled zero c h = unfold launch in (λ more. absurd (omega arith))
  launch-Filled (suc fuel) c h =
      elim (Bool-cases (ltb c.inflight c.concurrency && ltb c.launched c.total)) [
        | inr full ↦
            let same : launch (suc fuel) c ≡ c = unfold launch in (ground arith) in
            rw same (λ more. ground arith)
        | inl free ↦
            let same : launch (suc fuel) c ≡ launch fuel (launch_one c) =
              unfold launch in (ground arith) in
            rw same (launch-Filled fuel (launch_one c) (unfold launch_one in (omega arith)))
      ]

  pub launch_wave-IsWave : (c : LoadContext Time) → IsCounted c → IsWave c (launch_wave c)
  launch_wave-IsWave c k = elim (Bool-cases (leb c.total c.launched)) [
    | inl all ↦
        let same : launch_wave c ≡ c = unfold launch_wave in (ground arith) in
        rw same (unchanged-IsWave c k)
    | inr more ↦
        let same : launch_wave c ≡ launch (c.total - c.launched) c =
          unfold launch_wave in (ground arith) in
        rw same (launch-IsWave (c.total - c.launched) c k)
  ]

  pub launch_wave-Filled : (c : LoadContext Time) → Filled (launch_wave c)
  launch_wave-Filled c = elim (Bool-cases (leb c.total c.launched)) [
    | inl all ↦
        let same : launch_wave c ≡ c = unfold launch_wave in (ground arith) in
        rw same (λ more. absurd (ground arith))
    | inr more ↦
        let same : launch_wave c ≡ launch (c.total - c.launched) c =
          unfold launch_wave in (ground arith) in
        rw same (launch-Filled (c.total - c.launched) c (omega arith))
  ]
