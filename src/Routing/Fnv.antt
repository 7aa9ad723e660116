-- ===== src/Routing/Fnv.antt =====
-- core/routing/FnvHash.hpp: the 64-bit FNV-1a hash of a text.
use Prim.Native.Nat.{bit_xor}
use bit_bridge.Prelude.{ℕ, ◌*◌, ◌%◌, ◌^◌, ◌<◌, ◌≡◌, refl, [], ◌∷◌, Bytes, codes, arith}

abbrev pub offset_basis : ℕ
offset_basis = 14695981039346656037

abbrev pub prime : ℕ
prime = 1099511628211

-- One round of the loop: `hash ^= c; hash *= FNV_PRIME`.
unfoldable pub hash_byte : ℕ → ℕ → ℕ
hash_byte hash c = bit_xor hash c * prime % 2 ^ 64

unfoldable pub hash_from : ℕ → Bytes → ℕ
unfolding hash_byte
hash_from hash [] = hash
hash_from hash (c ∷ text) = hash_from (hash_byte hash c) text

unfoldable pub hash64 : Bytes → ℕ
unfolding hash_from
hash64 text = hash_from offset_basis text

hash_from-lt : (hash : ℕ) (text : Bytes) → hash < 2 ^ 64 → hash_from hash text < 2 ^ 64
unfolding hash_from
hash_from-lt hash [] h = h
hash_from-lt hash (c ∷ text) h =
    hash_from-lt (hash_byte hash c) text (unfold hash_byte in (omega arith))

-- Every hash is a 64-bit number.
pub hash64-lt : (text : Bytes) → hash64 text < 2 ^ 64
unfolding hash64
hash64-lt text = hash_from-lt offset_basis text (omega arith)

-- Published test vectors of FNV-1a.
hash64_vectors :
    (hash64 [] ≡ 0xcbf29ce484222325)
    × (hash64 (codes "a") ≡ 0xaf63dc4c8601ec8c)
    × (hash64 (codes "foobar") ≡ 0x85944171f73967e8)
unfolding hash64
hash64_vectors = (refl, refl, refl)
