-- ===== src/Routing/Ring/Keys.antt =====
-- The keys of the virtual nodes of core/routing/ConsistentHashStrategy.cpp.
use bit_bridge.Prelude.{
  ℕ, ◌≤◌, ◌≡◌, refl, [], ◌∷◌, ◌++◌, Bytes, All, format_nat, format_nat-All, format_nat-injective,
  arith,
}
use bit_bridge.Routing.Ring.Points.{vnode_key}

-- The sign `#` is no digit.
abbrev IsNumeral : Bytes → Type 0
IsNumeral = All (λ c. b'0' ≤ c)

sign_lem : (xs s : Bytes) → ¬ IsNumeral (xs ++ b'#' ∷ s)
sign_lem [] s h = absurd (omega (arith, h.0))
sign_lem (x ∷ xs) s h = sign_lem xs s h.1

tails : {c d : ℕ} {s t : Bytes} → c ∷ s ≡ d ∷ t → (c ≡ d) × (s ≡ t)
tails e = (cc, cc)

-- What stands behind the last sign.
split_at_sign :
    (xs ys s t : Bytes)
    → IsNumeral s
    → IsNumeral t
    → xs ++ b'#' ∷ s ≡ ys ++ b'#' ∷ t
    → (xs ≡ ys) × (s ≡ t)
split_at_sign [] [] s t hs ht e = (refl, (tails e).1)
split_at_sign [] (y ∷ ys) s t hs ht e =
    let same : s ≡ ys ++ b'#' ∷ t = (tails e).1 in absurd (sign_lem ys t (rw same at hs))
split_at_sign (x ∷ xs) [] s t hs ht e =
    let same : xs ++ b'#' ∷ s ≡ t = (tails e).1 in absurd (sign_lem xs s (rw (← same) at ht))
split_at_sign (x ∷ xs) (y ∷ ys) s t hs ht e =
    let (front, back) = split_at_sign xs ys s t hs ht (tails e).1 in
    let head : x ≡ y = (tails e).0 in (cc, back)

-- Different virtual nodes have different keys, whatever signs the names hold: the keys of two virtual
-- nodes are the same text only where the names and the numbers are the same.
pub vnode_key-injective :
    (name name' : Bytes) (v v' : ℕ)
    → vnode_key name v ≡ vnode_key name' v'
    → (name ≡ name') × (v ≡ v')
vnode_key-injective name name' v v' e =
    let (names, numbers) =
      split_at_sign name name' (format_nat v) (format_nat v') (format_nat-All v) (format_nat-All v')
        e in
    (names, format_nat-injective v v' numbers)
