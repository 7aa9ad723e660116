-- ===== src/Model/Node.antt =====
-- lib/model/ServiceNode.hpp and ServiceNode.cpp: one backend, and the check of its address.
pub mod Octets
pub mod Ipv4
use bit_bridge.Prelude.{
  ℕ, suc, ◌+◌, ◌-◌, ◌*◌, ◌≡◌, refl, Bool, true, false, not, ◌&&◌, ◌||◌, List, [], ◌∷◌, ltb, ◌==◌,
  if◌then◌else◌, Bytes, codes, stoi, length,
}

pub record ServiceNode : Type 0 where
  pub name : Bytes
  pub ip : Bytes
  pub port : ℕ
  pub weight : ℕ

-- The default constructor.
unfoldable pub default_node : ServiceNode
default_node = record { name = []; ip = []; port = 0; weight = 1 }

unfoldable pub set_name : ServiceNode → Bytes → ServiceNode
set_name n name = record n { name = name }

unfoldable pub set_ip : ServiceNode → Bytes → ServiceNode
set_ip n ip = record n { ip = ip }

unfoldable pub set_port : ServiceNode → ℕ → ServiceNode
set_port n port = record n { port = port }

unfoldable pub set_weight : ServiceNode → ℕ → ServiceNode
set_weight n weight = record n { weight = weight }

abbrev pub is_empty {ℓ} : {A : Type ℓ} → List A → Bool
is_empty [] = true
is_empty (c ∷ s) = false

-- `ip.back() == c`; the source asks this of a text that is not empty.
abbrev pub back_is : ℕ → Bytes → Bool
back_is c [] = false
back_is c (d ∷ []) = d == c
back_is c (d ∷ e ∷ s) = back_is c (e ∷ s)

-- What the calls of `std::getline(stream, token, '.')` store in `token`, up to the call that fails:
-- a text that ends in the delimiter has no empty token behind it.
pub add_to_first : ℕ → List Bytes → List Bytes
add_to_first c [] = (c ∷ []) ∷ []
add_to_first c (t ∷ ts) = (c ∷ t) ∷ ts

unfoldable pub tokens : ℕ → Bytes → List Bytes
unfolding add_to_first
tokens sep [] = []
tokens sep (c ∷ s) = if c == sep then [] ∷ tokens sep s else add_to_first c (tokens sep s)

-- `for (char c: token)`: every character is a digit.
unfoldable pub all_digits : Bytes → Bool
all_digits [] = true
all_digits (c ∷ s) = if ltb c b'0' || ltb b'9' c then false else all_digits s

abbrev pub first_is : ℕ → Bytes → Bool
first_is c [] = false
first_is c (d ∷ s) = d == c

-- One round of the loop of `IsValidIpv4`, `false` where it returns.
unfoldable pub token_accepted : Bytes → Bool
unfolding all_digits
token_accepted t =
    if is_empty t || ltb 3 (length t)
    then false
    else if ltb 1 (length t) && first_is b'0' t
    then false
    else if not (all_digits t)
    then false
    else if ltb 255 (stoi t)
    then false
    else true

-- The loop, which counts the octets; a refused token ends the function.
unfoldable pub count_octets : List Bytes → ℕ → Bool × ℕ
unfolding token_accepted
count_octets [] n = (true, n)
count_octets (t ∷ ts) n = if token_accepted t then count_octets ts (n + 1) else (false, n)

unfoldable pub is_valid_ipv4 : Bytes → Bool
unfolding tokens count_octets
is_valid_ipv4 ip =
    let (accepted, octets) = count_octets (tokens b'.' ip) 0 in
    if accepted then octets == 4 && not (back_is b'.' ip) else false

unfoldable pub is_valid : ServiceNode → Bool
unfolding is_valid_ipv4
is_valid n = not (is_empty n.name) && not (is_empty n.ip) && not (n.port == 0) && is_valid_ipv4 n.ip

valid_address : is_valid_ipv4 (codes "192.168.0.255") ≡ true
unfolding is_valid_ipv4
valid_address = refl

refused_addresses :
    (is_valid_ipv4 (codes "192.168.0.256") ≡ false)
    × (is_valid_ipv4 (codes "192.168.0.1.") ≡ false)
    × (is_valid_ipv4 (codes "192.168.00.1") ≡ false)
    × (is_valid_ipv4 (codes "192.168..1") ≡ false)
    × (is_valid_ipv4 [] ≡ false)
unfolding is_valid_ipv4
refused_addresses = (refl, refl, refl, refl, refl)
