-- ===== src/Routing/Xoshiro.antt =====
-- core/routing/Xoshiro256.hpp and Xoshiro256.cpp: the random number generator.
pub mod Bits
pub mod Live
use Prim.Native.Nat.{bit_or, bit_xor}
use bit_bridge.Prelude.{ℕ, zero, suc, ◌+◌, ◌-◌, ◌*◌, ◌/◌, ◌%◌, ◌^◌, ◌≡◌, refl}

abbrev pub word : ℕ
word = 2 ^ 64

-- `m_state`
pub record Xoshiro : Type 0 where
  pub s0 : ℕ
  pub s1 : ℕ
  pub s2 : ℕ
  pub s3 : ℕ

-- `(x << k) | (x >> (64 - k))`
unfoldable pub rotate_left : ℕ → ℕ → ℕ
rotate_left x k = bit_or (x * 2 ^ k % word) (x / 2 ^ (64 - k))

-- The returned word and the new `state`.
unfoldable pub split_mix64 : ℕ → ℕ × ℕ
split_mix64 state =
    let moved = (state + 0x9e3779b97f4a7c15) % word in
    let first = bit_xor moved (moved / 2 ^ 30) * 0xbf58476d1ce4e5b9 % word in
    let second = bit_xor first (first / 2 ^ 27) * 0x94d049bb133111eb % word in
    (bit_xor second (second / 2 ^ 31), moved)

-- The constructor.
unfoldable pub seeded : ℕ → Xoshiro
seeded seed0 =
    let (w0, seed1) = split_mix64 seed0 in
    let (w1, seed2) = split_mix64 seed1 in
    let (w2, seed3) = split_mix64 seed2 in
    let (w3, seed4) = split_mix64 seed3 in record { s0 = w0; s1 = w1; s2 = w2; s3 = w3 }

-- `operator()`: the state after the call, and the result.
unfoldable pub advance : Xoshiro → Xoshiro
advance r =
    let t = r.s1 * 2 ^ 17 % word in
    let a2 = bit_xor r.s2 r.s0 in
    let a3 = bit_xor r.s3 r.s1 in
    record { s0 = bit_xor r.s0 a3; s1 = bit_xor r.s1 a2; s2 = bit_xor a2 t; s3 = rotate_left a3 45 }

unfoldable pub result : Xoshiro → ℕ
result r = rotate_left (r.s1 * 5 % word) 7 * 9 % word

unfoldable pub next : Xoshiro → ℕ × Xoshiro
next r = (result r, advance r)

-- The state after a number of calls.
unfoldable pub after : ℕ → Xoshiro → Xoshiro
after zero r = r
after (suc n) r = after n (advance r)

-- SplitMix64's published outputs from seed 0.
split_mix64_vectors : (split_mix64 0).0 ≡ 0xe220a8397b1dcdaf
unfolding split_mix64
split_mix64_vectors = refl
