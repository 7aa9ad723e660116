-- ===== src/Bench/Baseline/Search.antt =====
-- `find` in texts in which quotes stand around names, for `CompareBaseline` of bench/main.cpp.
use bit_bridge.Prelude.{
  ℕ, suc, ◌≤◌, ◌≡◌, refl, ◌∙◌, Bool, true, false, ◌==◌, if◌then◌else◌, List, [], ◌∷◌, ◌++◌, Bytes,
  same_text, some, All, arith, format_nat, format_nat-All, format_int, ℤ, pos, negsuc,
}
use bit_bridge.Model.Node.{first_is}
use bit_bridge.Bench.Baseline.{starts_with, find, pour}

-- No quote.
abbrev pub clean : Bytes → Bool
clean [] = true
clean (c ∷ s) = if c == b'"' then false else clean s

starts_with-append : (s t : Bytes) → starts_with s (s ++ t) ≡ true
starts_with-append [] t = refl
starts_with-append (c ∷ s) t = ground (arith, starts_with-append s t)

pub find_here :
    (needle s : Bytes) (c : ℕ) → find (c ∷ needle) (c ∷ (needle ++ s)) ≡ some (c ∷ (needle ++ s))
unfolding find
find_here needle s c = ground (arith, starts_with-append needle s)

find_past :
    (needle s : Bytes) (c : ℕ)
    → starts_with needle (c ∷ s) ≡ false
    → find needle (c ∷ s) ≡ find needle s
unfolding find
find_past needle s c h = ground arith

-- A needle that starts with a quote is not found in a text without one.
pub find-clean :
    (needle s t : Bytes) → clean s ≡ true → find (b'"' ∷ needle) (s ++ t) ≡ find (b'"' ∷ needle) t
find-clean needle [] t h = refl
find-clean needle (c ∷ s) t h =
    find_past (b'"' ∷ needle) (s ++ t) c (ground arith) ∙ find-clean needle s t (ground arith)

pub find-pour :
    (needle : Bytes) (xs : List Bytes) (t : Bytes)
    → All (λ x. clean x ≡ true) xs
    → find (b'"' ∷ needle) (pour xs t) ≡ find (b'"' ∷ needle) t
find-pour needle [] t h = refl
find-pour needle (x ∷ xs) t h = find-clean needle x (pour xs t) h.0 ∙ find-pour needle xs t h.1

-- Another name up to its quote.
starts_with_other :
    (name other s t : Bytes)
    → clean name ≡ true
    → clean other ≡ true
    → same_text name other ≡ false
    → starts_with (name ++ b'"' ∷ s) (other ++ b'"' ∷ t) ≡ false
starts_with_other [] [] s t h k n = absurd (cc)
starts_with_other [] (d ∷ other) s t h k n = ground arith
starts_with_other (c ∷ name) [] s t h k n = ground arith
starts_with_other (c ∷ name) (d ∷ other) s t h k n =
    ground (arith, starts_with_other name other s t)

starts_with_first :
    (name s t : Bytes) (c : ℕ)
    → first_is c name ≡ false
    → (c == b'"') ≡ false
    → starts_with (name ++ b'"' ∷ s) (c ∷ t) ≡ false
starts_with_first [] s t c h k = ground arith
starts_with_first (d ∷ name) s t c h k = ground arith

-- The search for a name in quotes passes another name in quotes, and a character and pieces behind it.
pub find_other :
    (name s other : Bytes) (c : ℕ) (xs : List Bytes) (t : Bytes)
    → clean name ≡ true
    → clean other ≡ true
    → same_text name other ≡ false
    → first_is c name ≡ false
    → (c == b'"') ≡ false
    → All (λ x. clean x ≡ true) xs
    → find (b'"' ∷ (name ++ b'"' ∷ s)) (b'"' ∷ (other ++ b'"' ∷ c ∷ pour xs t))
      ≡ find (b'"' ∷ (name ++ b'"' ∷ s)) t
find_other name s other c xs t h k n f q x =
    find_past _ _ b'"' (starts_with_other name other s (c ∷ pour xs t) h k n)
    ∙ find-clean _ other (b'"' ∷ c ∷ pour xs t) k
    ∙ find_past _ _ b'"' (starts_with_first name s (pour xs t) c f q)
    ∙ find_past _ _ c (ground arith)
    ∙ find-pour _ xs t x

All-clean : (s : Bytes) → All (λ c. b'0' ≤ c) s → clean s ≡ true
All-clean [] h = refl
All-clean (c ∷ s) h = ground (arith, All-clean s h.1)

pub format_nat-clean : (n : ℕ) → clean (format_nat n) ≡ true
format_nat-clean n = All-clean (format_nat n) (format_nat-All n)

pub format_int-clean : (z : ℤ) → clean (format_int z) ≡ true
unfolding format_int
format_int-clean (pos n) = format_nat-clean n
format_int-clean (negsuc n) = ground (arith, format_nat-clean (suc n))
