-- ===== src/Bench/Load/Turns.antt =====
-- The turns of the event loop of `RunLoad` of bench/main.cpp.
use bit_bridge.Prelude.{
  ℕ, ◌+◌, ◌≤◌, ◌≡◌, refl, ap, ◌∙◌, Bool, true, false, not, ◌&&◌, if◌then◌else◌, List, [], ◌∷◌,
  length, get_elem?, some, none, Option, Bool-cases, Option-cases, inl, inr, arith,
}
use bit_bridge.Bench.Load.{LoadContext, Phase, Event, handle, step, run}
use bit_bridge.Bench.Load.Counts.Waves.{left}
use bit_bridge.Bench.Load.Counts.Ends.{IsServing}
use bit_bridge.Bench.Load.Counts.Steps.{is_part, handle-IsServing}

module _ {Time : Type 0} where
  -- A turn that brings no connection further: the loop has not stopped, and there is no live connection at
  -- the index, or it has read a part of the response.
  abbrev pub is_idle_at : Option Phase → Event Time → Bool
  is_idle_at none e = true
  is_idle_at (some p) e = is_part p e.completion

  abbrev pub is_idle : LoadContext Time → Event Time → Bool
  is_idle c e = not c.stopped && is_idle_at (get_elem? c.connections e.index) e

  -- How many turns of a run are idle.
  unfoldable pub idle_turns : List (Event Time) → LoadContext Time → ℕ
  idle_turns [] c = 0
  idle_turns (e ∷ es) c = (if is_idle c e then 1 else 0) + idle_turns es (step e c)

module _ (Time : Type 0) (total concurrency : ℕ) where
  step-IsServing :
      (e : Event Time) (c : LoadContext Time)
      → IsServing total concurrency c
      → IsServing total concurrency (step e c)
        × (c.stopped ≡ false → left (step e c) + 1 ≤ left c + (if is_idle c e then 1 else 0))
        × (c.stopped ≡ true → step e c ≡ c)
  step-IsServing e c s = elim (Bool-cases c.stopped) [
    | inl over ↦
        let same : step e c ≡ c = unfold step in (ground arith) in
        (rw same s, λ going. absurd (cc), λ _. same)
    | inr going ↦ elim (Option-cases (get_elem? c.connections e.index)) [
      | inl nobody ↦
          let same : step e c ≡ c = unfold step in (ground arith) in
          let idle : is_idle c e ≡ true = ground arith in
          (rw same s, λ _. rw (same, idle) (omega arith), λ _. same)
      | inr (p, at) ↦
          let same : step e c ≡ handle p e c = unfold step in (ground arith) in
          let idle : is_idle c e ≡ is_part p e.completion = ground arith in
          let (serving, fewer) = handle-IsServing total concurrency p e c going at s in
          (rw same serving, λ _. rw (same, idle) (ground arith), λ over. absurd (cc))
    ]
  ]

  pub run-stopped :
      (es : List (Event Time)) (c : LoadContext Time) → c.stopped ≡ true → run es c ≡ c
  unfolding run
  run-stopped [] c h = refl
  run-stopped (e ∷ es) c h =
      let same : step e c ≡ c = unfold step in (ground arith) in
      ap (run es) same ∙ run-stopped es c h

  pub run-IsServing :
      (es : List (Event Time)) (c : LoadContext Time)
      → IsServing total concurrency c
      → IsServing total concurrency (run es c)
  unfolding run
  run-IsServing [] c s = s
  run-IsServing (e ∷ es) c s = run-IsServing es (step e c) (step-IsServing e c s).0

  -- While the loop goes on, each turn but the idle ones takes something off what is left.
  pub run-left :
      (es : List (Event Time)) (c : LoadContext Time)
      → IsServing total concurrency c
      → (run es c).stopped ≡ false
      → left (run es c) + length es ≤ left c + idle_turns es c
  unfolding run idle_turns
  run-left [] c s h = omega arith
  run-left (e ∷ es) c s h =
      let (serving, fewer, over) = step-IsServing e c s in
      let rest = run-left es (step e c) serving h in
      elim (Bool-cases c.stopped) [
        | inr going ↦ omega (arith, fewer going)
        | inl stopped ↦
            let same =
              ap (λ d. d.stopped) (ap (run es) (over stopped) ∙ run-stopped es c stopped) in
            absurd (cc)
      ]
