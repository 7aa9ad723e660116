-- ===== src/Routing/Ring/Sort.antt =====
-- The points of the hash ring of core/routing/ConsistentHashStrategy.hpp, and `std::ranges::sort` by
-- their hash.
use mathlib.Core.List.{Perm}
use mathlib.Core.List.Perm
use bit_bridge.Prelude.{
  ℕ, ◌+◌, ◌≤◌, ◌<◌, ◌≡◌, refl, List, [], ◌∷◌, ◌++◌, leb, ◌==◌, if◌then◌else◌, All, Any, ◌⊎◌, inl,
  inr, Bool-cases, arith,
}

-- `std::pair<uint64_t, size_t>`
pub record Point : Type 0 where
  pub hash : ℕ
  pub service : ℕ

unfoldable pub insert : Point → List Point → List Point
insert p [] = p ∷ []
insert p (q ∷ ring) = if leb p.hash q.hash then p ∷ q ∷ ring else q ∷ insert p ring

unfoldable pub sort : List Point → List Point
unfolding insert
sort [] = []
sort (p ∷ ring) = insert p (sort ring)

abbrev pub IsSorted : List Point → Type 0
IsSorted [] = Unit {0}
IsSorted (p ∷ ring) = All (λ q. p.hash ≤ q.hash) ring × IsSorted ring

-- Strictly: no hash stands twice.
abbrev pub IsAscending : List Point → Type 0
IsAscending [] = Unit {0}
IsAscending (p ∷ ring) = All (λ q. p.hash < q.hash) ring × IsAscending ring

-- How many points have a given hash.
abbrev pub occurrences : ℕ → List Point → ℕ
occurrences h [] = 0
occurrences h (p ∷ ring) = (if p.hash == h then 1 else 0) + occurrences h ring

pub All-insert :
    (P : Point → Type 0) (p : Point) (ring : List Point) → P p → All P ring → All P (insert p ring)
unfolding insert
All-insert P p [] hp h = (hp, tt)
All-insert P p (q ∷ ring) hp h = ground (arith, All-insert P p ring hp h.1)

pub All-sort : (P : Point → Type 0) (ring : List Point) → All P ring → All P (sort ring)
unfolding sort
All-sort P [] h = tt
All-sort P (p ∷ ring) h = All-insert P p (sort ring) h.0 (All-sort P ring h.1)

All-le_trans :
    (m n : ℕ) (ring : List Point) → m ≤ n → All (λ q. n ≤ q.hash) ring → All (λ q. m ≤ q.hash) ring
All-le_trans m n [] h a = tt
All-le_trans m n (q ∷ ring) h a = (omega arith, All-le_trans m n ring h a.1)

insert-IsSorted : (p : Point) (ring : List Point) → IsSorted ring → IsSorted (insert p ring)
unfolding insert
insert-IsSorted p [] h = (tt, tt)
insert-IsSorted p (q ∷ ring) h = ground (
  arith,
  insert-IsSorted p ring h.1,
  All-le_trans p.hash q.hash ring,
  All-insert (λ r. q.hash ≤ r.hash) p ring,
)

pub sort-IsSorted : (ring : List Point) → IsSorted (sort ring)
unfolding sort
sort-IsSorted [] = tt
sort-IsSorted (p ∷ ring) = insert-IsSorted p (sort ring) (sort-IsSorted ring)

insert-perm : (p : Point) (ring : List Point) → Perm (insert p ring) (p ∷ ring)
unfolding insert
insert-perm p [] = Perm.refl _
insert-perm p (q ∷ ring) = elim (Bool-cases (leb p.hash q.hash)) [
  | inl first ↦ rw first (Perm.refl _)
  | inr behind ↦ rw behind (Perm.trans (Perm.cons q (insert-perm p ring)) (Perm.swap p q ring))
]

pub sort-perm : (ring : List Point) → Perm (sort ring) ring
unfolding sort
sort-perm [] = Perm.nil
sort-perm (p ∷ ring) = Perm.trans (insert-perm p (sort ring)) (Perm.cons p (sort-perm ring))

occurrences-insert :
    (h : ℕ) (p : Point) (ring : List Point)
    → occurrences h (insert p ring) ≡ occurrences h (p ∷ ring)
unfolding insert
occurrences-insert h p [] = refl
occurrences-insert h p (q ∷ ring) = ground (arith, occurrences-insert h p ring)

pub occurrences-sort : (h : ℕ) (ring : List Point) → occurrences h (sort ring) ≡ occurrences h ring
unfolding sort
occurrences-sort h [] = refl
occurrences-sort h (p ∷ ring) =
    omega (arith, occurrences-insert h p (sort ring), occurrences-sort h ring)

pub occurrences-append :
    (h : ℕ) (xs ys : List Point) → occurrences h (xs ++ ys) ≡ occurrences h xs + occurrences h ys
occurrences-append h [] ys = omega arith
occurrences-append h (p ∷ xs) ys = omega (arith, occurrences-append h xs ys)

Any-insert :
    (P : Point → Type 0) (p : Point) (ring : List Point) → P p ⊎ Any P ring → Any P (insert p ring)
unfolding insert
Any-insert P p [] h = h
Any-insert P p (q ∷ ring) h = elim (Bool-cases (leb p.hash q.hash)) [
  | inl first ↦ rw first h
  | inr behind ↦ rw behind (elim h [
    | inl hp ↦ inr (Any-insert P p ring (inl hp))
    | inr (inl hq) ↦ inl hq
    | inr (inr hr) ↦ inr (Any-insert P p ring (inr hr))
  ])
]

pub Any-sort : (P : Point → Type 0) (ring : List Point) → Any P ring → Any P (sort ring)
unfolding sort
Any-sort P [] h = h
Any-sort P (p ∷ ring) (inl h) = Any-insert P p (sort ring) (inl h)
Any-sort P (p ∷ ring) (inr h) = Any-insert P p (sort ring) (inr (Any-sort P ring h))
