-- ===== src/Prelude/Results.antt =====
-- Exceptions and `std::expected` as values.
use Prim.Native.Nat.{ℕ}
use mathlib.Core.Option.{none, some}
use mathlib.Core.Path.{◌≡◌, refl}
use mathlib.Core.List.{List}
use bit_bridge.Prelude.Lists.{get_elem?}

-- What the code throws: `std::out_of_range` of `vector::at` and `std::stoi`, its `std::invalid_argument`,
-- `std::length_error` of `vector::reserve`, `HashCollisionError` with its vnode index, and Boost's
-- `system_error`.
pub data Exception : Type 0 where
  out_of_range : Exception
  invalid_argument : Exception
  length_error : Exception
  hash_collision : ℕ → Exception
  system_error : Exception

-- A call returns, or leaves by an exception.
pub data Outcome {ℓ} (A : Type ℓ) : Type ℓ where
  returns : A → Outcome A
  throws : Exception → Outcome A

infixl 5 ◌>>=◌
abbrev pub ◌>>=◌ {ℓ κ} : {A : Type ℓ} {B : Type κ} → Outcome A → (A → Outcome B) → Outcome B
returns a >>= f = f a
throws e >>= f = throws e

-- `std::expected<A, E>`
pub data Expected (E : Type 0) (A : Type 0) : Type 0 where
  value : A → Expected E A
  unexpected : E → Expected E A

-- `vector::at`
abbrev pub at {ℓ} : {A : Type ℓ} → List A → ℕ → Outcome A
at xs i = elim (get_elem? xs i) [ some a ↦ returns a | none ↦ throws out_of_range ]

-- A call that returned is a chain of calls that returned.
pub >>=-eq-returns {ℓ κ} :
    {A : Type ℓ} {B : Type κ} (m : Outcome A) (f : A → Outcome B) {b : B}
    → (m >>= f) ≡ returns b
    → (a : A) × (m ≡ returns a) × (f a ≡ returns b)
>>=-eq-returns (returns a) f h = (a, refl, h)
>>=-eq-returns (throws e) f h = cc
