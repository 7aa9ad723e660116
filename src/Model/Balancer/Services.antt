-- ===== src/Model/Balancer/Services.antt =====
-- The list of services under `AddService` and `RemoveService` of lib/model/LoadBalancerConfig.cpp.
use bit_bridge.Prelude.{
  ℕ, zero, suc, ◌-◌, ◌<◌, ◌≡◌, refl, ap, List, [], ◌∷◌, ◌++◌, ltb, if◌then◌else◌, length,
  length-append, get_elem?, arith,
}
use bit_bridge.Model.Node.{ServiceNode}
use bit_bridge.Model.Balancer.{
  LoadBalancerConfig, erase_at, add_service, remove_service, service_count,
}

module _ {ℓ} {A : Type ℓ} where
  get_elem?-erase_at :
      (n : ℕ) (xs : List A) (j : ℕ)
      → get_elem? (erase_at n xs) j ≡ (if ltb j n then get_elem? xs j else get_elem? xs (suc j))
  get_elem?-erase_at zero [] j = ground arith
  get_elem?-erase_at (suc n) [] j = ground arith
  get_elem?-erase_at zero (x ∷ xs) j = ground arith
  get_elem?-erase_at (suc n) (x ∷ xs) zero = ground arith
  get_elem?-erase_at (suc n) (x ∷ xs) (suc j) = ground (arith, get_elem?-erase_at n xs j)

  pub length-erase_at :
      (n : ℕ) (xs : List A) → n < length xs → length (erase_at n xs) ≡ length xs - 1
  length-erase_at n [] h = absurd (omega arith)
  length-erase_at zero (x ∷ xs) h = omega arith
  length-erase_at (suc n) (x ∷ xs) h = omega (arith, length-erase_at n xs)

  pub erase_at-append : (xs : List A) (x : A) → erase_at (length xs) (xs ++ x ∷ []) ≡ xs
  erase_at-append [] x = refl
  erase_at-append (y ∷ xs) x = ap (◌∷◌ y) (erase_at-append xs x)

-- `RemoveService` inside the list takes out one service: the count falls by one, those before the
-- index stay where they are and those behind it move up by one.
pub remove_service_lem :
    (c : LoadBalancerConfig) (index : ℕ)
    → index < service_count c
    → (service_count (remove_service c index) ≡ service_count c - 1)
      × ((j : ℕ)
          → get_elem? (remove_service c index).services j
            ≡ (if ltb j index then get_elem? c.services j else get_elem? c.services (suc j)))
unfolding remove_service service_count
remove_service_lem c index h = (
  ground (arith, length-erase_at index c.services),
  λ j. ground (arith, get_elem?-erase_at index c.services j),
)

-- Removing the service that was added last gives the configuration back, in every field.
pub remove_service-add_service :
    (c : LoadBalancerConfig) (node : ServiceNode)
    → remove_service (add_service c node) (service_count c) ≡ c
unfolding remove_service add_service service_count
remove_service-add_service c node =
    ground (arith, length-append c.services (node ∷ []), erase_at-append c.services node)
