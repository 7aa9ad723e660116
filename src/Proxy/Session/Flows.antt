-- ===== src/Proxy/Session/Flows.antt =====
-- One direction of a session of core/proxy/Session.cpp, with its buffer.
use mathlib.Core.List.{append-nil}
use bit_bridge.Prelude.{
  ℕ, zero, suc, ◌+◌, ◌≤◌, ◌≡◌, refl, ◌∙◌, ap, Bool, true, false, [], ◌∷◌, ◌++◌, Bytes, length, take,
  drop, length-drop, if◌then◌else◌, arith,
}
use bit_bridge.Proxy.Session.{
  buffer_size, Pending, idle, reading, Direction, relayed, settle, wrote, zeroes, is_writing,
  is_reading,
}

take-front : (bytes rest : Bytes) → take (length bytes) (bytes ++ rest) ≡ bytes
take-front [] rest = refl
take-front (b ∷ bytes) rest = ap (◌∷◌ b) (take-front bytes rest)

pub length-zeroes : (n : ℕ) → length (zeroes n) ≡ n
unfolding zeroes
length-zeroes zero = refl
length-zeroes (suc n) = ap suc (length-zeroes n)

length-join : (xs ys : Bytes) → length (xs ++ ys) ≡ length xs + length ys
length-join [] ys = omega arith
length-join (x ∷ xs) ys = omega (arith, length-join xs ys)

-- A read that fits leaves the buffer its length.
length-read :
    (bytes buffer : Bytes)
    → length bytes ≤ length buffer
    → length (bytes ++ drop (length bytes) buffer) ≡ length buffer
length-read bytes buffer h =
    omega (arith, length-join bytes (drop (length bytes) buffer), length-drop (length bytes) buffer)

-- The bytes of the buffer that a write under way was given.
abbrev pub in_flight : Direction → Bytes
in_flight d = if is_writing d.pending then take d.given d.buffer else []

abbrev pub is_idle : Pending → Bool
is_idle idle = true
is_idle _ = false

-- What holds of a direction of a session that is shutting down or not.
pub record Flows (shutting_down : Bool) (d : Direction) : Type 0 where
  -- What was written is where what was received begins.
  pub rest : Bytes
  pub begins : d.received ≡ d.written ++ rest
  -- As long as the session is not shut down, and as long as the direction is at work, only the bytes of
  -- the write under way are missing.
  pub open_kept : shutting_down ≡ false → d.received ≡ d.written ++ in_flight d
  pub busy_kept : is_idle d.pending ≡ false → d.received ≡ d.written ++ in_flight d
  -- The buffer has its size.
  pub sized : length d.buffer ≡ buffer_size

module _ {shutting_down : Bool} {d : Direction} (f : Flows shutting_down d) where
  pub Flows-shut : Flows true d
  Flows-shut = record {
    rest = f.rest;
    begins = f.begins;
    open_kept = λ h. absurd (cc);
    busy_kept = f.busy_kept;
    sized = f.sized;
  }

  -- Behind an operation that failed.
  pub Flows-settle : Flows true (settle d)
  Flows-settle = record {
    rest = f.rest;
    begins = f.begins;
    open_kept = λ h. absurd (cc);
    busy_kept = λ h. absurd (cc);
    sized = f.sized;
  }

  -- Behind a read that ended well.
  pub Flows-relayed :
      (bytes : Bytes)
      → is_reading d.pending ≡ true
      → length bytes ≤ buffer_size
      → Flows shutting_down (relayed (settle d) bytes)
  Flows-relayed bytes r h =
      let before : d.received ≡ d.written = ground (arith, f.busy_kept, append-nil d.written) in
      let after : d.received ++ bytes
          ≡ d.written ++ take (length bytes) (bytes ++ drop (length bytes) d.buffer) =
        ground (arith, before, take-front bytes (drop (length bytes) d.buffer)) in
      record {
        rest = _;
        begins = after;
        open_kept = λ h. after;
        busy_kept = λ h. after;
        sized = length-read bytes d.buffer (omega (arith, f.sized)) ∙ f.sized;
      }

  -- Behind a write that ended well, with the read that follows.
  pub Flows-wrote :
      is_writing d.pending ≡ true
      → Flows shutting_down (record (wrote d false) { pending = reading })
  Flows-wrote w =
      let same : d.received ≡ (d.written ++ take d.given d.buffer) ++ [] =
        ground (arith, f.busy_kept, append-nil (d.written ++ take d.given d.buffer)) in
      record {
        rest = [];
        begins = same;
        open_kept = λ h. same;
        busy_kept = λ h. same;
        sized = f.sized;
      }

-- Before anything is read.
abbrev pub Untouched : Direction → Type 0
Untouched d = (d.pending ≡ idle) × (d.received ≡ []) × (d.written ≡ [])

pub Flows-reading :
    (b : Bool) (d : Direction) → Untouched d → Flows b d → Flows b (record d { pending = reading })
Flows-reading b d u f =
    let same : d.received ≡ d.written ++ [] = ground arith in
    record {
      rest = [];
      begins = same;
      open_kept = λ h. same;
      busy_kept = λ h. same;
      sized = f.sized;
    }
