-- ===== src/Bench/Load/Runs.antt =====
-- The event loop of `RunLoad` of bench/main.cpp.
use bit_bridge.Prelude.{
  ℕ, ◌+◌, ◌*◌, ◌<◌, ◌≡◌, ◌⊎◌, refl, ap, ◌∙◌, true, false, List, [], ◌∷◌, length, length-zero,
  dec_lt, Bool-cases, inl, inr, arith,
}
use bit_bridge.Bench.Load.{LoadContext, Event, fresh, step, run, start}
use bit_bridge.Bench.Load.Counts.{IsCounted}
use bit_bridge.Bench.Load.Counts.Waves.{
  length-all_waits, left, launch_wave-IsWave, launch_wave-Filled,
}
use bit_bridge.Bench.Load.Counts.Ends.{IsServing}
use bit_bridge.Bench.Load.Turns.{idle_turns, run-IsServing, run-left}

module _ (Time : Type 0) (total concurrency : ℕ) where
  fresh-IsCounted : IsCounted (fresh Time total concurrency)
  unfolding fresh
  fresh-IsCounted = record {
    live = refl;
    ended = refl;
    split = omega arith;
    limited = omega arith;
    within = omega arith;
    peaked = omega arith;
    peak_limited = omega arith;
    received = refl;
  }

  start-IsServing :
      IsServing total concurrency (start Time total concurrency)
      × ((start Time total concurrency).stopped ≡ false)
      × (left (start Time total concurrency) ≡ 3 * total)
  unfolding start
  start-IsServing =
      let w = launch_wave-IsWave (fresh Time total concurrency) fresh-IsCounted in
      let going = w.same_stopped ∙ unfold fresh in refl in
      (
        record {
          counted = w.counted;
          filled = launch_wave-Filled (fresh Time total concurrency);
          stopping = λ over. absurd (cc);
          running = λ _ some_request. rw w.same_done (unfold fresh in some_request);
          same_total = w.same_total ∙ unfold fresh in refl;
          same_concurrency = w.same_concurrency ∙ unfold fresh in refl;
        },
        going,
        w.same_left ∙ unfold fresh in (omega arith),
      )

  -- The counters of the load, after any turns of the loop, for whatever numbers of requests and connections at
  -- once. The live connections are as many as `m_inflight` says and never more than asked for, nor was the
  -- peak; each launched connection is live or has one result; no more are launched than there are requests, so
  -- no counter leaves its type where that number does not; the bytes received are those of the results that
  -- are good; as many connections are live as can be; and the loop is stopped exactly when there are requests
  -- and each has its result.
  pub load_counts :
      (es : List (Event Time)) → IsServing total concurrency (run es (start Time total concurrency))
  load_counts es =
      run-IsServing Time total concurrency es (start Time total concurrency) start-IsServing.0

  idle_run :
      (es : List (Event Time)) (c : LoadContext Time)
      → c.connections ≡ []
      → c.stopped ≡ false
      → run es c ≡ c
  unfolding run
  idle_run [] c empty going = refl
  idle_run (e ∷ es) c empty going =
      let same : step e c ≡ c = unfold step in (ground arith) in
      ap (run es) same ∙ idle_run es c empty going

  start-nil : (total ≡ 0) ⊎ (concurrency ≡ 0) → (start Time total concurrency).connections ≡ []
  start-nil nothing =
      let k = start-IsServing.0.counted in
      let t = start-IsServing.0.same_total in
      let n = start-IsServing.0.same_concurrency in
      length-zero (start Time total concurrency).connections (elim nothing [
        | inl no_request ↦ omega (arith, k.live, k.split, k.within)
        | inr no_room ↦ omega (arith, k.live, k.limited)
      ])

  -- Where there are requests and connections at once.
  load_ends :
      (es : List (Event Time))
      → 0 < total
      → 0 < concurrency
      → (((run es (start Time total concurrency)).stopped ≡ true)
          × (length (run es (start Time total concurrency)).results ≡ total)
          × ((run es (start Time total concurrency)).connections ≡ []))
        ⊎ (((run es (start Time total concurrency)).stopped ≡ false)
            × (0 < length (run es (start Time total concurrency)).connections)
            × (length es < 3 * total + idle_turns es (start Time total concurrency)))
  load_ends es requests some_room =
      let s = load_counts es in
      let (serving, going, all) = start-IsServing in
      let last = run es (start Time total concurrency) in
      elim (Bool-cases last.stopped) [
        | inl over ↦
            let (_, every) = s.stopping over in
            inl (
              over,
              omega (arith, s.counted.ended, s.same_total),
              length-zero last.connections
                  (omega (arith, s.counted.live, s.counted.split, s.counted.within)),
            )
        | inr more ↦
            let unfinished = s.running more (omega (arith, s.same_total)) in
            let fewer =
              run-left Time total concurrency es (start Time total concurrency) serving more in
            let live : 0 < length last.connections = elim (dec_lt last.launched last.total) [
              | yes h ↦ omega (arith, s.filled h, s.same_concurrency, s.counted.live)
              | no h ↦ omega (arith, s.counted.live, s.counted.split)
            ] in
            inr (more, live, omega (arith, all, length-all_waits last.connections))
      ]

  -- Where there is no request or no connection at once.
  load_waits :
      (es : List (Event Time))
      → (total ≡ 0) ⊎ (concurrency ≡ 0)
      → ((total ≡ 0) ⊎ (concurrency ≡ 0))
        × (run es (start Time total concurrency) ≡ start Time total concurrency)
        × ((start Time total concurrency).stopped ≡ false)
        × ((start Time total concurrency).connections ≡ [])
  load_waits es nothing =
      let (_, going, _) = start-IsServing in
      (
        nothing,
        idle_run es (start Time total concurrency) (start-nil nothing) going,
        going,
        start-nil nothing,
      )

  -- The load comes to its end, or never starts. A run has stopped with a result for each request and no live
  -- connection; or it has not stopped, a live connection has an operation that can end, and, besides the
  -- idle ones, the run had fewer than three turns for each request; or there is no request or no connection
  -- at once, and then no turn does anything: the loop waits, nothing is live in it and nothing has ended.
  pub load_finishes :
      (es : List (Event Time))
      → (((run es (start Time total concurrency)).stopped ≡ true)
          × (length (run es (start Time total concurrency)).results ≡ total)
          × ((run es (start Time total concurrency)).connections ≡ []))
        ⊎ (((run es (start Time total concurrency)).stopped ≡ false)
            × (0 < length (run es (start Time total concurrency)).connections)
            × (length es < 3 * total + idle_turns es (start Time total concurrency)))
        ⊎ (((total ≡ 0) ⊎ (concurrency ≡ 0))
            × (run es (start Time total concurrency) ≡ start Time total concurrency)
            × ((start Time total concurrency).stopped ≡ false)
            × ((start Time total concurrency).connections ≡ []))
  load_finishes es = elim (dec_lt 0 total) [
    | no h ↦ inr (inr (load_waits es (inl (omega arith))))
    | yes requests ↦ elim (dec_lt 0 concurrency) [
      | no h ↦ inr (inr (load_waits es (inr (omega arith))))
      | yes some_room ↦ elim (load_ends es requests some_room) [
        | inl over ↦ inl over
        | inr more ↦ inr (inl more)
      ]
    ]
  ]
