-- ===== src/Prelude/Integers.antt =====
-- The signed integers of the code, their text and `std::stoi`.
use Prim.Native.Nat.{ℕ, zero, suc, ◌+◌, ◌-◌, ◌*◌, ◌%◌, ◌^◌, ◌≤◌, ◌<◌}
use mathlib.Core.Path.{◌≡◌, refl, ap, sym, ◌∙◌}
use mathlib.Core.Logic.{inl, inr}
use mathlib.Core.Bool.{Bool, true, false, not}
use mathlib.Core.List.{[], ◌∷◌, ◌++◌, append-nil}
use native.Mathlib.Omega.{arith}
use bit_bridge.Prelude.Lists.{Bytes, All, length, take, List-cases}
use bit_bridge.Prelude.Tests.{ltb, leb, ◌==◌, if◌then◌else◌}
use bit_bridge.Prelude.Results.{Outcome, returns, throws, invalid_argument, out_of_range}
use bit_bridge.Prelude.Decimal.{
  stoi, stoi_from, format_nat, stoi-format_nat, format_nat-digits, format_nat-ne-nil,
  length-format_nat,
}

-- `negsuc n` is - (n + 1).
pub data ℤ : Type 0 where
  pos negsuc : ℕ → ℤ

-- The integer that `static_cast` makes unsigned, modulo 2 ^ bits.
abbrev pub cast_unsigned : ℕ → ℤ → ℕ
cast_unsigned bits (pos n) = n % 2 ^ bits
cast_unsigned bits (negsuc n) = 2 ^ bits - 1 - n % 2 ^ bits

-- `std::format("{}", z)`
unfoldable pub format_int : ℤ → Bytes
format_int (pos n) = format_nat n
format_int (negsuc n) = b'-' ∷ format_nat (suc n)

abbrev pub is_digit : ℕ → Bool
is_digit c = if ltb c b'0' then false else leb c b'9'

-- `isspace`
abbrev is_space : ℕ → Bool
is_space c = if c == 32 then true else if ltb c 9 then false else leb c 13

-- The value of the digits in front, behind others of a value.
abbrev pub digits_in_front : ℕ → Bytes → ℕ
digits_in_front n [] = n
digits_in_front n (c ∷ s) =
    let rest = digits_in_front (n * 10 + (c - b'0')) s in if is_digit c then rest else n

abbrev pub negative : ℕ → ℤ
negative zero = pos 0
negative (suc n) = negsuc n

-- Digits behind an optional sign; `int` has 32 bits.
abbrev pub positive_int : Bytes → Outcome ℤ
positive_int [] = throws invalid_argument
positive_int (c ∷ s) =
    if is_digit c
    then (if ltb (digits_in_front 0 (c ∷ s)) (2 ^ 31)
        then returns (pos (digits_in_front 0 (c ∷ s)))
        else throws out_of_range)
    else throws invalid_argument

abbrev negative_int : Bytes → Outcome ℤ
negative_int [] = throws invalid_argument
negative_int (c ∷ s) =
    if is_digit c
    then (if leb (digits_in_front 0 (c ∷ s)) (2 ^ 31)
        then returns (negative (digits_in_front 0 (c ∷ s)))
        else throws out_of_range)
    else throws invalid_argument

abbrev signed_int : Bytes → Outcome ℤ
signed_int [] = throws invalid_argument
signed_int (c ∷ s) =
    if c == b'-' then negative_int s else if c == b'+' then positive_int s else positive_int (c ∷ s)

-- `std::stoi`: white space, a sign and digits, and what follows is not read.
unfoldable pub stoi_int : Bytes → Outcome ℤ
stoi_int [] = throws invalid_argument
stoi_int (c ∷ s) = let rest = stoi_int s in if is_space c then rest else signed_int (c ∷ s)

-- No digit stands in front.
abbrev pub stops : Bytes → Bool
stops [] = true
stops (c ∷ t) = not (is_digit c)

-- Digits with something else behind them.
digits_in_front-append :
    (n : ℕ) (s t : Bytes)
    → All (λ d. is_digit d ≡ true) s
    → stops t ≡ true
    → digits_in_front n (s ++ t) ≡ stoi_from n s
digits_in_front-append n [] [] h k = refl
digits_in_front-append n [] (c ∷ t) h k = ground arith
digits_in_front-append n (d ∷ s) t h k =
    ground (arith, digits_in_front-append (n * 10 + (d - b'0')) s t h.1)

All-is_digit : (s : Bytes) → All (λ e. (b'0' ≤ e) × (e ≤ b'9')) s → All (λ e. is_digit e ≡ true) s
All-is_digit [] h = tt
All-is_digit (c ∷ s) h = (ground arith, All-is_digit s h.1)

stoi_int-digits :
    (n d : ℕ) (s t : Bytes)
    → n < 2 ^ 31
    → All (λ e. (b'0' ≤ e) × (e ≤ b'9')) (d ∷ s)
    → stops t ≡ true
    → stoi (d ∷ s) ≡ n
    → stoi_int (d ∷ (s ++ t)) ≡ returns (pos n)
unfolding stoi_int
stoi_int-digits n d s t small h k e =
    ground (arith, digits_in_front-append 0 (d ∷ s) t (All-is_digit (d ∷ s) h) k)

stoi_int-append :
    (n : ℕ) (t : Bytes)
    → n < 2 ^ 31
    → stops t ≡ true
    → stoi_int (format_nat n ++ t) ≡ returns (pos n)
stoi_int-append n t small k = elim (List-cases (format_nat n)) [
  | inl empty ↦ absurd (format_nat-ne-nil n empty)
  | inr (d, s, some_digit) ↦
      let digits_alone = rw some_digit at (format_nat-digits n) in
      let same = rw some_digit at (stoi-format_nat n) in
      rw some_digit (stoi_int-digits n d s t small digits_alone k same)
]

take-append :
    (places : ℕ) (s t : Bytes)
    → length s ≤ places
    → take places (s ++ t) ≡ s ++ take (places - length s) t
take-append places [] t h = ap (λ n. take n t) (omega arith)
take-append zero (c ∷ s) t h = absurd (omega arith)
take-append (suc places) (c ∷ s) t h = ground (arith, take-append places s t)

stops-take : (places : ℕ) (t : Bytes) → stops t ≡ true → stops (take places t) ≡ true
stops-take zero t h = refl
stops-take (suc places) [] h = refl
stops-take (suc places) (c ∷ t) h = h

-- A printed number is read back from ten characters, when no digit stands behind it.
pub stoi_int-take :
    (n : ℕ) (t : Bytes)
    → n < 2 ^ 31
    → stops t ≡ true
    → stoi_int (take 10 (format_nat n ++ t)) ≡ returns (pos n)
stoi_int-take n t small k =
    ap stoi_int (take-append 10 (format_nat n) t (length-format_nat n small))
    ∙ stoi_int-append n _ small (stops-take (10 - length (format_nat n)) t k)

-- The integers of an `int`.
abbrev pub IsInt : ℤ → Type 0
IsInt (pos n) = n < 2 ^ 31
IsInt (negsuc n) = n < 2 ^ 31

digits_in_front-digits :
    (n : ℕ) (s : Bytes) → All (λ d. is_digit d ≡ true) s → digits_in_front n s ≡ stoi_from n s
digits_in_front-digits n [] h = refl
digits_in_front-digits n (d ∷ s) h =
    ground (arith, digits_in_front-digits (n * 10 + (d - b'0')) s h.1)

signed_int-digits :
    (n d : ℕ) (s : Bytes)
    → n < 2 ^ 31
    → All (λ e. (b'0' ≤ e) × (e ≤ b'9')) (d ∷ s)
    → stoi (d ∷ s) ≡ suc n
    → stoi_int (b'-' ∷ d ∷ s) ≡ returns (negsuc n)
unfolding stoi_int
signed_int-digits n d s small h e =
    ground (arith, digits_in_front-digits 0 (d ∷ s) (All-is_digit (d ∷ s) h))

pub stoi_int-format_int : (z : ℤ) → IsInt z → stoi_int (format_int z) ≡ returns z
stoi_int-format_int (pos n) h =
    unfold format_int in
    (ap stoi_int (sym (append-nil (format_nat n))) ∙ stoi_int-append n [] h refl)
stoi_int-format_int (negsuc n) h = elim (List-cases (format_nat (suc n))) [
  | inl empty ↦ absurd (format_nat-ne-nil (suc n) empty)
  | inr (d, s, some_digit) ↦
      let digits_alone = rw some_digit at (format_nat-digits (suc n)) in
      let same = rw some_digit at (stoi-format_nat (suc n)) in
      let spelt : format_int (negsuc n) ≡ b'-' ∷ d ∷ s =
        unfold format_int in (ap (◌∷◌ b'-') some_digit) in
      ap stoi_int spelt ∙ signed_int-digits n d s h digits_alone same
]
