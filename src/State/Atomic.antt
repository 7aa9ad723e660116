-- ===== src/State/Atomic.antt =====
-- The counter `m_activeConnections` of core/state/ServiceState.cpp with any number of threads in
-- `IncrementConnections` and `DecrementConnections`, one atomic access at a time.
use bit_bridge.Prelude.{
  ℕ, ◌+◌, ◌-◌, ◌%◌, ◌<◌, ◌≡◌, refl, ◌⊎◌, inl, inr, ◌≢◌, List, [], ◌∷◌, ap, sym, ◌∙◌, ℕ_discrete,
  arith,
}
use mathlib.Core.List.{Mem, mem-cons_self, mem-cons_of_mem}
use mathlib.Core.Logic.{ite}
use bit_bridge.State.Service.{size_mod}

-- Where a thread stands: outside both functions, or at the head of the loop of
-- `DecrementConnections` with the value of its local `current`.
pub data Pc : Type 0 where
  outside : Pc
  looping : (current : ℕ) → Pc

-- The counter, with three numbers that the program does not keep: increments done, calls of
-- `DecrementConnections` that took one away, and calls that returned without doing so.
pub record Cell : Type 0 where
  pub counter : ℕ
  pub added : ℕ
  pub taken : ℕ
  pub refused : ℕ

pub data Move (c : Cell) : Pc → Cell → Pc → Type 0 where
  increment :
      Move c outside
        (record c { counter = (c.counter + 1) % size_mod; added = c.added + 1 })
        outside
  load : Move c outside c (looping c.counter)
  give_up :
      {current : ℕ}
      → current ≡ 0
      → Move c (looping current) (record c { refused = c.refused + 1 }) outside
  exchange :
      {current : ℕ}
      → 0 < current
      → c.counter ≡ current
      → Move c (looping current) (record c { counter = current - 1; taken = c.taken + 1 }) outside
  -- The weak exchange may fail although the values agree; it loads the counter.
  retry : {current : ℕ} → 0 < current → Move c (looping current) c (looping c.counter)

abbrev pub update : (ℕ → Pc) → ℕ → Pc → ℕ → Pc
update f i p j = ite (ℕ_discrete i j) p (f j)

pub record System : Type 0 where
  pub cell : Cell
  pub pc : ℕ → Pc

pub data Step (s : System) : System → Type 0 where
  pick :
      (i : ℕ) {c : Cell} {p : Pc}
      → Move s.cell (s.pc i) c p
      → Step s (record { cell = c; pc = update s.pc i p })

abbrev pub start : System
start = record {
  cell = record { counter = 0; added = 0; taken = 0; refused = 0 };
  pc = λ i. outside;
}

pub data Reach : System → Type 0 where
  initial : Reach start
  later : {s t : System} → Reach s → Step s t → Reach t

abbrev Balanced : Cell → Type 0
Balanced c = c.added < size_mod → c.counter + c.taken ≡ c.added

Move-Balanced : {c d : Cell} {p q : Pc} → Move c p d q → Balanced c → Balanced d
Move-Balanced {c} increment b h = omega (arith, b (omega arith))
Move-Balanced load b h = b h
Move-Balanced (give_up e) b h = b h
Move-Balanced (exchange pos e) b h = omega (arith, b h)
Move-Balanced (retry pos) b h = b h

Step-Balanced : {s t : System} → Step s t → Balanced s.cell → Balanced t.cell
Step-Balanced (pick i m) b = Move-Balanced m b

Reach-Balanced : {s : System} → Reach s → Balanced s.cell
Reach-Balanced initial h = refl
Reach-Balanced (later r st) h = Step-Balanced st (Reach-Balanced r) h

-- In every interleaving of any number of threads, with fewer than 2^64 increments, the counter is
-- the number of increments less the number of decrements that took effect: no update is lost and
-- the counter never wraps around below zero.
pub counter_exact :
    {s : System} → Reach s → s.cell.added < size_mod → s.cell.counter + s.cell.taken ≡ s.cell.added
counter_exact r h = Reach-Balanced r h

-- A thread in a call of `DecrementConnections`, with the values that the counter had in front of the steps, of
-- any threads, that were taken since the call began, the last one first.
pub data Calling (i : ℕ) : List ℕ → System → Type 0 where
  enters :
      {s t : System}
      → s.pc i ≡ outside
      → Step s t
      → t.pc i ≢ outside
      → Calling i (s.cell.counter ∷ []) t
  goes_on :
      {seen : List ℕ} {s t : System}
      → Calling i seen s
      → Step s t
      → t.pc i ≢ outside
      → Calling i (s.cell.counter ∷ seen) t

-- A thread that takes a step gets to its loop only by reading the counter.
Move-looping :
    {c d : Cell} {p q : Pc} (current : ℕ) → Move c p d q → q ≡ looping current → current ≡ c.counter
Move-looping current increment e = ground arith
Move-looping current load e = ground arith
Move-looping current (give_up z) e = ground arith
Move-looping current (exchange pos z) e = ground arith
Move-looping current (retry pos) e = ground arith

update_same : (f : ℕ → Pc) (j i : ℕ) (p : Pc) → j ≡ i → update f j p i ≡ p
update_same f j i p e = elim (ℕ_discrete j i) as (λ x. ite x p (f i) ≡ p) [
  | yes same ↦ refl
  | no other ↦ absurd (other e)
]

update_other : (f : ℕ → Pc) (j i : ℕ) (p : Pc) → j ≢ i → update f j p i ≡ f i
update_other f j i p ne = elim (ℕ_discrete j i) as (λ x. ite x p (f i) ≡ f i) [
  | yes same ↦ absurd (ne same)
  | no other ↦ refl
]

-- A step changes where one thread stands, or not where this one does.
Step-pc :
    (i current : ℕ) {s t : System}
    → Step s t
    → t.pc i ≡ looping current
    → (current ≡ s.cell.counter) ⊎ (s.pc i ≡ looping current)
Step-pc i current {s} (pick j {p = p} m) e = elim (ℕ_discrete j i) [
  | yes same ↦ inl (Move-looping current m (sym (update_same s.pc j i p same) ∙ e))
  | no other ↦ inr (sym (update_other s.pc j i p other) ∙ e)
]

Pc-looping : (p : Pc) → p ≢ outside → (current : ℕ) × (p ≡ looping current)
Pc-looping outside ne = absurd (ne refl)
Pc-looping (looping current) ne = (current, refl)

-- What the loop compares with was the counter's value at some time of the call.
Calling-seen :
    (i current : ℕ) {seen : List ℕ} {s : System}
    → Calling i seen s
    → s.pc i ≡ looping current
    → Mem current seen
Calling-seen i current (enters out st ne) e = elim (Step-pc i current st e) [
  | inl read ↦ rw read mem-cons_self
  | inr stayed ↦ absurd (cc)
]
Calling-seen i current (goes_on k st ne) e = elim (Step-pc i current st e) [
  | inl read ↦ rw read mem-cons_self
  | inr stayed ↦ mem-cons_of_mem _ (Calling-seen i current k stayed)
]

Calling-looping :
    (i : ℕ) {seen : List ℕ} {s : System}
    → Calling i seen s
    → (current : ℕ) × (s.pc i ≡ looping current)
Calling-looping i (enters {t} out st ne) = Pc-looping (t.pc i) ne
Calling-looping i (goes_on {t} k st ne) = Pc-looping (t.pc i) ne

Move-effect :
    {c d : Cell} {p q : Pc} (current : ℕ)
    → Move c p d q
    → p ≡ looping current
    → ((d ≡ c) × (q ≡ looping c.counter))
      ⊎ ((q ≡ outside) × (0 < c.counter) × (d.counter ≡ c.counter - 1) × (d.taken ≡ c.taken + 1))
      ⊎ ((q ≡ outside) × (current ≡ 0) × (d.counter ≡ c.counter) × (d.taken ≡ c.taken))
Move-effect current increment e = absurd (cc)
Move-effect current load e = absurd (cc)
Move-effect current (give_up z) e = inr (inr (refl, ground arith, refl, refl))
Move-effect current (exchange pos z) e =
    inr (inl (refl, omega (arith, pos, z), ap (λ n. n - 1) (sym z), refl))
Move-effect current (retry pos) e = inl (refl, refl)

-- The shared effect of `DecrementConnections` is that of one atomic "subtract one unless zero", in any
-- interleaving. Every step of a thread that is in a call leaves the counter alone and the call unfinished, now
-- with the counter's value to compare with; or it ends the call, and takes one from a positive counter; or it
-- ends the call, leaves the counter alone, and the counter was zero at some time since the call began.
pub decrement_effect :
    (i : ℕ) {seen : List ℕ} {s : System} {d : Cell} {q : Pc}
    → Calling i seen s
    → Move s.cell (s.pc i) d q
    → ((d ≡ s.cell) × (q ≡ looping s.cell.counter))
      ⊎ ((q ≡ outside)
          × (0 < s.cell.counter)
          × (d.counter ≡ s.cell.counter - 1)
          × (d.taken ≡ s.cell.taken + 1))
      ⊎ ((q ≡ outside) × Mem 0 seen × (d.counter ≡ s.cell.counter) × (d.taken ≡ s.cell.taken))
decrement_effect i k m =
    let (current, at_i) = Calling-looping i k in
    elim (Move-effect current m at_i) [
      | inl again ↦ inl again
      | inr (inl taken) ↦ inr (inl taken)
      | inr (inr (over, zero_seen, counter, taken)) ↦
          inr (inr (over, rw (← zero_seen) (Calling-seen i current k at_i), counter, taken))
    ]
