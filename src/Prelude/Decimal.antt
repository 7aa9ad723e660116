-- ===== src/Prelude/Decimal.antt =====
-- Decimal text: `std::format("{}", n)` and `std::stoi`.
use Prim.Native.Nat.{ℕ, zero, suc, ◌+◌, ◌-◌, ◌*◌, ◌/◌, ◌%◌, ◌<◌, ◌≤◌, ◌^◌}
use mathlib.Core.Path.{◌≡◌, ap, sym, ◌∙◌}
use mathlib.Core.Logic.{◌≢◌}
use mathlib.Core.List.{[], ◌∷◌}
use native.Mathlib.Omega.{arith}
use bit_bridge.Prelude.Lists.{Bytes, All, length}
use bit_bridge.Prelude.Tests.{ltb, if◌then◌else◌}

-- `std::stoi` of a text of digits.
abbrev pub stoi_from : ℕ → Bytes → ℕ
stoi_from n [] = n
stoi_from n (c ∷ s) = stoi_from (n * 10 + (c - b'0')) s

abbrev pub stoi : Bytes → ℕ
stoi s = stoi_from 0 s

digits : ℕ → ℕ → Bytes → Bytes
digits zero n out = out
digits (suc fuel) n out =
    let rest = digits fuel (n / 10) ((b'0' + n % 10) ∷ out) in
    if ltb n 10 then (b'0' + n) ∷ out else rest

unfoldable pub format_nat : ℕ → Bytes
unfolding digits
format_nat n = digits (suc n) n []

stoi-digits :
    (fuel n : ℕ) (out : Bytes) → n < fuel → stoi_from 0 (digits fuel n out) ≡ stoi_from n out
unfolding digits
stoi-digits zero n out h = absurd (omega arith)
stoi-digits (suc fuel) n out h = ground (arith, stoi-digits fuel (n / 10) ((b'0' + n % 10) ∷ out))

-- The printed digits spell the number.
pub stoi-format_nat : (n : ℕ) → stoi (format_nat n) ≡ n
unfolding format_nat
stoi-format_nat n = stoi-digits (suc n) n [] (omega arith)

pub format_nat-injective : (m n : ℕ) → format_nat m ≡ format_nat n → m ≡ n
format_nat-injective m n e = sym (stoi-format_nat m) ∙ ap stoi e ∙ stoi-format_nat n

digits-All :
    (fuel n : ℕ) (out : Bytes) → All (λ c. b'0' ≤ c) out → All (λ c. b'0' ≤ c) (digits fuel n out)
unfolding digits
digits-All zero n out h = h
digits-All (suc fuel) n out h = ground (arith, digits-All fuel (n / 10) ((b'0' + n % 10) ∷ out))

-- A printed number has no character below the digits.
pub format_nat-All : (n : ℕ) → All (λ c. b'0' ≤ c) (format_nat n)
unfolding format_nat
format_nat-All n = digits-All (suc n) n [] tt

digits-digits :
    (fuel n : ℕ) (out : Bytes)
    → All (λ c. (b'0' ≤ c) × (c ≤ b'9')) out
    → All (λ c. (b'0' ≤ c) × (c ≤ b'9')) (digits fuel n out)
unfolding digits
digits-digits zero n out h = h
digits-digits (suc fuel) n out h =
    ground (arith, digits-digits fuel (n / 10) ((b'0' + n % 10) ∷ out))

-- A printed number has digits alone.
pub format_nat-digits : (n : ℕ) → All (λ c. (b'0' ≤ c) × (c ≤ b'9')) (format_nat n)
unfolding format_nat
format_nat-digits n = digits-digits (suc n) n [] tt

-- The power of ten with one place more.
abbrev power : ℕ → ℕ
power zero = 10
power (suc places) = 10 * power places

length-digits :
    (places fuel n : ℕ) (out : Bytes)
    → n < power places
    → length (digits fuel n out) ≤ suc places + length out
unfolding digits
length-digits places zero n out h = omega arith
length-digits zero (suc fuel) n out h = ground arith
length-digits (suc places) (suc fuel) n out h =
    ground (arith, length-digits places fuel (n / 10) ((b'0' + n % 10) ∷ out) (omega arith))

-- At most ten digits for an `int`.
pub length-format_nat : (n : ℕ) → n < 2 ^ 31 → length (format_nat n) ≤ 10
unfolding format_nat
length-format_nat n h = omega (arith, length-digits 9 (suc n) n [] (omega arith))

digits-longer : (fuel n : ℕ) (out : Bytes) → length out < length (digits (suc fuel) n out)
unfolding digits
digits-longer zero n out = ground arith
digits-longer (suc fuel) n out = ground (arith, digits-longer fuel (n / 10) ((b'0' + n % 10) ∷ out))

pub format_nat-ne-nil : (n : ℕ) → format_nat n ≢ []
unfolding format_nat
format_nat-ne-nil n e = omega (arith, digits-longer n n [], ap length e)
