-- ===== src/Routing/Xoshiro/Bits.antt =====
-- Laws of `^` and `|` that the generator of core/routing/Xoshiro256.cpp rests on.
use Prim.Native.Nat.{bit_or, bit_xor, digits, differ, max, bit_or-bitwise, bit_xor-bitwise}
use native.Mathlib.Nat.{pow-suc}
use bit_bridge.Prelude.{ℕ, zero, suc, ◌+◌, ◌*◌, ◌/◌, ◌%◌, ◌^◌, ◌≤◌, ◌<◌, ◌≡◌, refl, arith}

-- More fuel than digits changes nothing.
module _ (f : ℕ → ℕ → ℕ) where
  digits-fuel : (n m a b : ℕ) → a ≤ n → a ≤ m → digits (λ d. d) f n a b ≡ digits (λ d. d) f m a b
  digits-fuel zero zero zero b h k = refl
  digits-fuel zero (suc m) zero b h k = refl
  digits-fuel (suc n) zero zero b h k = refl
  digits-fuel (suc n) (suc m) zero b h k = refl
  digits-fuel zero m (suc a) b h k = absurd (omega arith)
  digits-fuel (suc n) zero (suc a) b h k = absurd (omega arith)
  digits-fuel (suc n) (suc m) (suc a) b h k =
      rw (digits-fuel n m (suc a / 2) (b / 2) (omega arith) (omega arith))

differ-bits : (a b : ℕ) → a < 2 → b < 2 → differ a b ≡ (a + b) % 2
differ-bits zero zero h k = refl
differ-bits zero (suc zero) h k = refl
differ-bits (suc zero) zero h k = refl
differ-bits (suc zero) (suc zero) h k = refl
differ-bits zero (suc (suc b)) h k = absurd (omega arith)
differ-bits (suc zero) (suc (suc b)) h k = absurd (omega arith)
differ-bits (suc (suc a)) b h k = absurd (omega arith)

pub zero-bit_xor : (b : ℕ) → bit_xor 0 b ≡ b
zero-bit_xor b = bit_xor-bitwise 0 b

pub zero-bit_or : (b : ℕ) → bit_or 0 b ≡ b
zero-bit_or b = bit_or-bitwise 0 b

xor_step : (a b : ℕ) → bit_xor a b ≡ bit_xor (a / 2) (b / 2) * 2 + (a + b) % 2
xor_step zero b = omega (arith, zero-bit_xor b, zero-bit_xor (b / 2))
xor_step (suc a) b = omega (
  arith,
  bit_xor-bitwise (suc a) b,
  bit_xor-bitwise (suc a / 2) (b / 2),
  digits-fuel differ a (suc a / 2) (suc a / 2) (b / 2) (omega arith) (omega arith),
  differ-bits (suc a % 2) (b % 2) (omega arith) (omega arith),
)

or_step : (a b : ℕ) → bit_or a b ≡ bit_or (a / 2) (b / 2) * 2 + max (a % 2) (b % 2)
or_step zero b = omega (arith, zero-bit_or b, zero-bit_or (b / 2))
or_step (suc a) b = omega (
  arith,
  bit_or-bitwise (suc a) b,
  bit_or-bitwise (suc a / 2) (b / 2),
  digits-fuel max a (suc a / 2) (suc a / 2) (b / 2) (omega arith) (omega arith),
)

eq_of_xor_fuel : (n a b : ℕ) → a + b ≤ n → bit_xor a b ≡ 0 → a ≡ b
eq_of_xor_fuel zero a b h e = omega arith
eq_of_xor_fuel (suc n) a b h e = omega (
  arith,
  xor_step a b,
  eq_of_xor_fuel n (a / 2) (b / 2) (omega arith) (omega (arith, xor_step a b)),
)

-- `a ^ b` is zero only where `a` and `b` agree.
pub eq_of_xor : (a b : ℕ) → bit_xor a b ≡ 0 → a ≡ b
eq_of_xor a b e = eq_of_xor_fuel (a + b) a b (omega arith) e

-- `a | b` is zero only where both are.
or-eq-zero_fuel : (n a b : ℕ) → a + b ≤ n → bit_or a b ≡ 0 → (a ≡ 0) × (b ≡ 0)
or-eq-zero_fuel zero a b h e = omega arith
or-eq-zero_fuel (suc n) a b h e = omega (
  arith,
  or_step a b,
  or-eq-zero_fuel n (a / 2) (b / 2) (omega arith) (omega (arith, or_step a b)),
)

pub or-eq-zero : (a b : ℕ) → bit_or a b ≡ 0 → (a ≡ 0) × (b ≡ 0)
or-eq-zero a b e = or-eq-zero_fuel (a + b) a b (omega arith) e

-- `^` and `|` of numbers of `k` bits have `k` bits.
pub xor-lt : (k a b : ℕ) → a < 2 ^ k → b < 2 ^ k → bit_xor a b < 2 ^ k
xor-lt zero zero b h l = omega (arith, zero-bit_xor b)
xor-lt zero (suc a) b h l = absurd (omega arith)
xor-lt (suc k) a b h l = omega (
  arith,
  pow-suc 2 k,
  xor_step a b,
  xor-lt k (a / 2) (b / 2) (omega (arith, pow-suc 2 k)) (omega (arith, pow-suc 2 k)),
)

pub or-lt : (k a b : ℕ) → a < 2 ^ k → b < 2 ^ k → bit_or a b < 2 ^ k
or-lt zero zero b h l = omega (arith, zero-bit_or b)
or-lt zero (suc a) b h l = absurd (omega arith)
or-lt (suc k) a b h l = omega (
  arith,
  pow-suc 2 k,
  or_step a b,
  or-lt k (a / 2) (b / 2) (omega (arith, pow-suc 2 k)) (omega (arith, pow-suc 2 k)),
)
