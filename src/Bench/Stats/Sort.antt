-- ===== src/Bench/Stats/Sort.antt =====
-- The sorted latencies of `ComputeStats` of bench/main.cpp.
use bit_bridge.Prelude.{
  ℕ, zero, suc, ◌+◌, ◌≤◌, ◌<◌, ◌≡◌, refl, ap, ◌∙◌, true, if◌then◌else◌, List, [], ◌∷◌, length,
  get_elem?, All, All-get_elem?, Bool-cases, some, inl, inr, arith,
}
use bit_bridge.Bench.Stats.{Clock, insert, sort}

module _ (clock : Clock) where
  open clock use {Time, leq, leq_total, leq_trans}

  abbrev pub IsSorted : List Time → Type 0
  IsSorted [] = Unit {0}
  IsSorted (x ∷ xs) = All (λ y. leq x y ≡ true) xs × IsSorted xs

  -- How many times are not above a given one.
  abbrev pub not_above : Time → List Time → ℕ
  not_above t [] = 0
  not_above t (x ∷ xs) = (if leq x t then 1 else 0) + not_above t xs

  pub leq_refl : (a : Time) → leq a a ≡ true
  leq_refl a = elim (Bool-cases (leq a a)) [ inl h ↦ h | inr h ↦ leq_total a a h ]

  insert-All :
      (P : Time → Type 0) (t : Time) (xs : List Time) → P t → All P xs → All P (insert clock t xs)
  unfolding insert
  insert-All P t [] h k = (h, tt)
  insert-All P t (x ∷ xs) h k = ground (arith, insert-All P t xs h)

  pub sort-All : (P : Time → Type 0) (xs : List Time) → All P xs → All P (sort clock xs)
  unfolding sort
  sort-All P [] h = tt
  sort-All P (x ∷ xs) h = insert-All P x (sort clock xs) h.0 (sort-All P xs h.1)

  All-insert :
      (P : Time → Type 0) (t : Time) (xs : List Time) → All P (insert clock t xs) → P t × All P xs
  unfolding insert
  All-insert P t [] h = (h.0, tt)
  All-insert P t (x ∷ xs) h = ground (arith, All-insert P t xs)

  pub All-sort : (P : Time → Type 0) (xs : List Time) → All P (sort clock xs) → All P xs
  unfolding sort
  All-sort P [] h = tt
  All-sort P (x ∷ xs) h =
      let (first, others) = All-insert P x (sort clock xs) h in (first, All-sort P xs others)

  above_trans :
      (a b : Time) (xs : List Time)
      → leq a b ≡ true
      → All (λ y. leq b y ≡ true) xs
      → All (λ y. leq a y ≡ true) xs
  above_trans a b [] h k = tt
  above_trans a b (x ∷ xs) h k = (leq_trans a b x h k.0, above_trans a b xs h k.1)

  insert-IsSorted : (t : Time) (xs : List Time) → IsSorted xs → IsSorted (insert clock t xs)
  insert-IsSorted t [] h = unfold insert in (tt, tt)
  insert-IsSorted t (x ∷ xs) h = elim (Bool-cases (leq t x)) [
    | inl below ↦
        let same : insert clock t (x ∷ xs) ≡ t ∷ x ∷ xs = unfold insert in (ground arith) in
        rw same ((below, above_trans t x xs below h.0), h)
    | inr above ↦
        let same : insert clock t (x ∷ xs) ≡ x ∷ insert clock t xs =
          unfold insert in (ground arith) in
        rw same (
          insert-All (λ y. leq x y ≡ true) t xs (leq_total t x above) h.0,
          insert-IsSorted t xs h.1,
        )
  ]

  pub sort-IsSorted : (xs : List Time) → IsSorted (sort clock xs)
  unfolding sort
  sort-IsSorted [] = tt
  sort-IsSorted (x ∷ xs) = insert-IsSorted x (sort clock xs) (sort-IsSorted xs)

  length-insert : (t : Time) (xs : List Time) → length (insert clock t xs) ≡ suc (length xs)
  unfolding insert
  length-insert t [] = refl
  length-insert t (x ∷ xs) = ground (arith, length-insert t xs)

  pub length-sort : (xs : List Time) → length (sort clock xs) ≡ length xs
  unfolding sort
  length-sort [] = refl
  length-sort (x ∷ xs) = length-insert x (sort clock xs) ∙ ap suc (length-sort xs)

  not_above-insert :
      (t u : Time) (xs : List Time) → not_above t (insert clock u xs) ≡ not_above t (u ∷ xs)
  unfolding insert
  not_above-insert t u [] = refl
  not_above-insert t u (x ∷ xs) = ground (arith, not_above-insert t u xs)

  pub not_above-sort : (t : Time) (xs : List Time) → not_above t (sort clock xs) ≡ not_above t xs
  unfolding sort
  not_above-sort t [] = refl
  not_above-sort t (x ∷ xs) =
      not_above-insert t x (sort clock xs)
      ∙ ap (λ n. (if leq x t then 1 else 0) + n) (not_above-sort t xs)

  -- What stands at a later place is not less.
  pub get_elem?-leq :
      (xs : List Time) (i j : ℕ) {a b : Time}
      → IsSorted xs
      → i ≤ j
      → get_elem? xs i ≡ some a
      → get_elem? xs j ≡ some b
      → leq a b ≡ true
  get_elem?-leq [] i j s h e f = absurd (cc)
  get_elem?-leq (x ∷ xs) zero zero {a} {b} s h e f = let same : a ≡ b = cc in rw same (leq_refl b)
  get_elem?-leq (x ∷ xs) zero (suc j) {a} s h e f =
      let same : x ≡ a = cc in rw (← same) (All-get_elem? (λ y. leq x y ≡ true) xs j s.0 f)
  get_elem?-leq (x ∷ xs) (suc i) zero s h e f = absurd (omega arith)
  get_elem?-leq (x ∷ xs) (suc i) (suc j) s h e f = get_elem?-leq xs i j s.1 (omega arith) e f

  -- What stands at a place has that many times, and itself, not above it.
  pub not_above-get_elem? :
      (xs : List Time) (i : ℕ) {t : Time}
      → IsSorted xs
      → get_elem? xs i ≡ some t
      → i < not_above t xs
  not_above-get_elem? [] i s e = absurd (cc)
  not_above-get_elem? (x ∷ xs) zero {t} s e =
      let same : x ≡ t = cc in rw same (ground (arith, leq_refl t))
  not_above-get_elem? (x ∷ xs) (suc i) {t} s e =
      let below : leq x t ≡ true = All-get_elem? (λ y. leq x y ≡ true) xs i s.0 e in
      ground (arith, not_above-get_elem? xs i s.1 e)
