-- ===== src/Model/Node/Octets.antt =====
-- The texts that one round of the loop of `IsValidIpv4` accepts.
use bit_bridge.Prelude.{
  stoi, ℕ, ◌+◌, ◌/◌, ◌%◌, ◌<◌, ◌≡◌, true, [], ◌∷◌, ltb, if◌then◌else◌, Bytes, All, arith, ◌≢◌,
}
use bit_bridge.Model.Node.{token_accepted}

-- The decimal print of a number below 1000, with no leading zero.
abbrev pub decimal : ℕ → Bytes
decimal n =
    if ltb n 10
    then (b'0' + n) ∷ []
    else if ltb n 100
    then (b'0' + n / 10) ∷ (b'0' + n % 10) ∷ []
    else (b'0' + n / 100) ∷ (b'0' + n / 10 % 10) ∷ (b'0' + n % 10) ∷ []

pub token_accepted-decimal : (n : ℕ) → n < 256 → token_accepted (decimal n) ≡ true
unfolding token_accepted
token_accepted-decimal n h = ground arith

-- An accepted token is the print of a byte.
pub decimal-token_accepted :
    (t : Bytes) → token_accepted t ≡ true → (n : ℕ) × (n < 256) × (t ≡ decimal n)
unfolding token_accepted
decimal-token_accepted [] h = absurd (ground arith)
decimal-token_accepted (a ∷ []) h = (stoi (a ∷ []), ground arith, ground arith)
decimal-token_accepted (a ∷ b ∷ []) h = (stoi (a ∷ b ∷ []), ground arith, ground arith)
decimal-token_accepted (a ∷ b ∷ c ∷ []) h = (stoi (a ∷ b ∷ c ∷ []), ground arith, ground arith)
decimal-token_accepted (a ∷ b ∷ c ∷ d ∷ t) h = absurd (ground arith)

pub decimal-Lacks : (n : ℕ) → All (λ c. c ≢ b'.') (decimal n)
decimal-Lacks n = ground arith

pub decimal-ne-nil : (n : ℕ) → decimal n ≢ []
decimal-ne-nil n = ground arith
