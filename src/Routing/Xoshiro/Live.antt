-- ===== src/Routing/Xoshiro/Live.antt =====
-- The states of the generator of core/routing/Xoshiro256.cpp against the all-zero one, in which every
-- result would be zero.
use Prim.Native.Nat.{bit_xor}
use bit_bridge.Prelude.{ℕ, zero, suc, ◌+◌, ◌-◌, ◌*◌, ◌/◌, ◌%◌, ◌^◌, ◌<◌, ◌≡◌, refl, sym, ◌∙◌, arith}
use bit_bridge.Routing.Xoshiro.Bits.{eq_of_xor, or-eq-zero, xor-lt, or-lt}
use bit_bridge.Routing.Xoshiro.{word, Xoshiro, rotate_left, split_mix64, seeded, advance, after}

-- Four 64-bit words that are not all zero.
pub record IsLive (r : Xoshiro) : Type 0 where
  pub w0 : r.s0 < word
  pub w1 : r.s1 < word
  pub w2 : r.s2 < word
  pub w3 : r.s3 < word
  pub live : ¬ ((r.s0 ≡ 0) × (r.s1 ≡ 0) × (r.s2 ≡ 0) × (r.s3 ≡ 0))

-- Shifting right and `^` keep a word from becoming zero, and so does multiplying by an odd constant.
xorshift-zero : (z k : ℕ) → bit_xor z (z / (k + 2)) ≡ 0 → z ≡ 0
xorshift-zero z k e = grind (arith, eq_of_xor z (z / (k + 2)) e)

mul_first-zero : (x : ℕ) → x < word → x * 0xbf58476d1ce4e5b9 % word ≡ 0 → x ≡ 0
mul_first-zero x h e = omega arith

mul_second-zero : (x : ℕ) → x < word → x * 0x94d049bb133111eb % word ≡ 0 → x ≡ 0
mul_second-zero x h e = omega arith

shifted-lt : (z k : ℕ) → z < word → bit_xor z (z / (k + 1)) < word
shifted-lt z k h = xor-lt 64 z (z / (k + 1)) h (grind arith)

split_mix64-lt : (state : ℕ) → ((split_mix64 state).0 < word) × ((split_mix64 state).1 < word)
unfolding split_mix64
split_mix64-lt state = (shifted-lt _ (2 ^ 31 - 1) (omega arith), omega arith)

-- The output is zero only where the new state is.
split_mix64-zero : (state : ℕ) → (split_mix64 state).0 ≡ 0 → (split_mix64 state).1 ≡ 0
unfolding split_mix64
split_mix64-zero state e =
    let moved = (state + 0x9e3779b97f4a7c15) % word in
    let first = bit_xor moved (moved / 2 ^ 30) * 0xbf58476d1ce4e5b9 % word in
    let second = bit_xor first (first / 2 ^ 27) * 0x94d049bb133111eb % word in
    let second0 : second ≡ 0 = xorshift-zero second (2 ^ 31 - 2) e in
    let first0 : first ≡ 0 =
      xorshift-zero first (2 ^ 27 - 2)
        (mul_second-zero _ (shifted-lt first (2 ^ 27 - 1) (omega arith)) second0) in
    xorshift-zero moved (2 ^ 30 - 2)
      (mul_first-zero _ (shifted-lt moved (2 ^ 30 - 1) (omega arith)) first0)

rotate_left-lt : (x k : ℕ) → x < word → rotate_left x k < word
unfolding rotate_left
rotate_left-lt x k h = or-lt 64 _ _ (omega arith) (grind arith)

rotate_left_45-zero : (x : ℕ) → x < word → rotate_left x 45 ≡ 0 → x ≡ 0
unfolding rotate_left
rotate_left_45-zero x h e = omega (arith, or-eq-zero (x * 2 ^ 45 % word) (x / 2 ^ 19) e)

split_mix64-state : (state : ℕ) → (split_mix64 state).1 ≡ (state + 0x9e3779b97f4a7c15) % word
unfolding split_mix64
split_mix64-state state = refl

seeded-live : (seed : ℕ) → ¬ (((seeded seed).s0 ≡ 0) × ((seeded seed).s1 ≡ 0))
unfolding seeded
seeded-live seed (z0, z1) =
    let moved = (split_mix64 seed).1 in
    absurd (
      omega (
        arith,
        split_mix64-zero seed z0,
        split_mix64-zero moved z1,
        split_mix64-state seed,
        split_mix64-state moved,
      ))

-- From every seed the generator starts in a state that is not all zero.
pub seeded-IsLive : (seed : ℕ) → IsLive (seeded seed)
unfolding seeded
seeded-IsLive seed = record {
  w0 = (split_mix64-lt _).0;
  w1 = (split_mix64-lt _).0;
  w2 = (split_mix64-lt _).0;
  w3 = (split_mix64-lt _).0;
  live = λ z. seeded-live seed (z.0, z.1);
}

module _ (r : Xoshiro) (l : IsLive r) where
  open l use {w0, w1, w2, w3}

  abbrev a2 : ℕ
  a2 = bit_xor r.s2 r.s0

  abbrev a3 : ℕ
  a3 = bit_xor r.s3 r.s1

  a2-lt : a2 < word
  a2-lt = xor-lt 64 r.s2 r.s0 w2 w0

  a3-lt : a3 < word
  a3-lt = xor-lt 64 r.s3 r.s1 w3 w1

  -- The update is invertible at zero.
  advance-zero :
      bit_xor r.s0 a3 ≡ 0
      → bit_xor r.s1 a2 ≡ 0
      → bit_xor a2 (r.s1 * 2 ^ 17 % word) ≡ 0
      → rotate_left a3 45 ≡ 0
      → (r.s0 ≡ 0) × (r.s1 ≡ 0) × (r.s2 ≡ 0) × (r.s3 ≡ 0)
  advance-zero e0 e1 e2 e3 =
      let z3 : a3 ≡ 0 = rotate_left_45-zero a3 a3-lt e3 in
      let z0 : r.s0 ≡ 0 = eq_of_xor r.s0 a3 e0 ∙ z3 in
      let q1 : r.s1 ≡ a2 = eq_of_xor r.s1 a2 e1 in
      let q2 : a2 ≡ r.s1 * 2 ^ 17 % word = eq_of_xor a2 (r.s1 * 2 ^ 17 % word) e2 in
      let z1 : r.s1 ≡ 0 = omega (arith, q1, q2, w1) in
      let z2 : a2 ≡ 0 = sym q1 ∙ z1 in
      (z0, z1, eq_of_xor r.s2 r.s0 z2 ∙ z0, eq_of_xor r.s3 r.s1 z3 ∙ z1)

  -- Every call keeps the state from becoming all zero.
  pub advance-IsLive : IsLive (advance r)
  unfolding advance
  advance-IsLive = record {
    w0 = xor-lt 64 r.s0 a3 w0 a3-lt;
    w1 = xor-lt 64 r.s1 a2 w1 a2-lt;
    w2 = xor-lt 64 a2 _ a2-lt (omega arith);
    w3 = rotate_left-lt a3 45 a3-lt;
    live = λ (e0, e1, e2, e3). l.live (advance-zero e0 e1 e2 e3);
  }

after-IsLive : (n : ℕ) (r : Xoshiro) → IsLive r → IsLive (after n r)
unfolding after
after-IsLive zero r l = l
after-IsLive (suc n) r l = after-IsLive n (advance r) (advance-IsLive r l)

-- Whatever the seed and however many numbers were drawn, the four words of the generator fit 64 bits
-- and are never all zero: it cannot get stuck in the one state that yields zeros for ever.
pub after-seeded-IsLive : (seed n : ℕ) → IsLive (after n (seeded seed))
after-seeded-IsLive seed n = after-IsLive n (seeded seed) (seeded-IsLive seed)
