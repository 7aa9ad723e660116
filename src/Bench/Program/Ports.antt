-- ===== src/Bench/Program/Ports.antt =====
-- The ports of the echo services that `SpawnEchoServices` of bench/main.cpp makes.
use bit_bridge.Prelude.{
  ℕ, zero, suc, ◌+◌, ◌%◌, ◌^◌, ◌≤◌, ◌<◌, ◌≡◌, ◌≢◌, refl, ap, ◌∙◌, List, [], ◌∷◌, length, get_elem?,
  All, Option, some, pos, Outcome, Exception, returns, throws, Option-cases, ◌⊎◌, inl, inr, arith,
}
use bit_bridge.Bench.Program.{service_base_port, spawn_from, spawn_echo_services}

returned :
    (o : Outcome (List ℕ))
    → ((ports : List ℕ) × (o ≡ returns ports)) ⊎ ((x : Exception) × (o ≡ throws x))
returned (returns ports) = inl (ports, refl)
returned (throws x) = inr (x, refl)

module _ (bound : ℕ → Option ℕ) where
  -- An acceptor that asks for a port other than 0 has that port, where its constructor returns.
  abbrev pub IsHonest : Type 0
  IsHonest = (p q : ℕ) → p ≢ 0 → bound p ≡ some q → q ≡ p

  -- The ports that are asked for.
  abbrev pub ports_from : ℕ → ℕ → List ℕ
  ports_from i zero = []
  ports_from i (suc left) = (service_base_port + i) ∷ ports_from (suc i) left

  spawn_from-ports_from :
      (i left : ℕ) (ports : List ℕ)
      → IsHonest
      → service_base_port + i + left ≤ 2 ^ 16
      → spawn_from bound i left ≡ returns ports
      → ports ≡ ports_from i left
  unfolding spawn_from
  spawn_from-ports_from i zero ports honest h e = ground arith
  spawn_from-ports_from i (suc left) ports honest h e =
      elim (Option-cases (bound ((service_base_port + i) % 2 ^ 16))) [
        | inl refused ↦ absurd (ground arith)
        | inr (port, bind) ↦
            let asked : (service_base_port + i) % 2 ^ 16 ≡ service_base_port + i = omega arith in
            let same : port ≡ service_base_port + i =
              honest ((service_base_port + i) % 2 ^ 16) port (λ z. absurd (omega arith)) bind
              ∙ asked in
            elim (returned (spawn_from bound (suc i) left)) [
              | inl (rest, made) ↦
                  let tail = spawn_from-ports_from (suc i) left rest honest (omega arith) made in
                  ground arith
              | inr (x, thrown) ↦ absurd (ground arith)
            ]
      ]

  get_elem?-ports_from :
      (i left k : ℕ) → k < left → get_elem? (ports_from i left) k ≡ some (service_base_port + i + k)
  get_elem?-ports_from i zero k h = absurd (omega arith)
  get_elem?-ports_from i (suc left) zero h = ap some (omega arith)
  get_elem?-ports_from i (suc left) (suc k) h =
      get_elem?-ports_from (suc i) left k (omega arith) ∙ ap some (omega arith)

  ports_from-fit :
      (i left : ℕ)
      → service_base_port + i + left ≤ 2 ^ 16
      → All (λ p. p < 2 ^ 16) (ports_from i left) × (length (ports_from i left) ≡ left)
  ports_from-fit i zero h = (tt, refl)
  ports_from-fit i (suc left) h =
      let (fit, size) = ports_from-fit (suc i) left (omega arith) in
      ((omega arith, fit), ap suc size)

  -- The ports of the echo services. As long as 19100 plus their number is not above 2 ^ 16, so that no port
  -- wraps around, and an acceptor has the port that it asks for, `SpawnEchoServices`, where it returns, gives as
  -- many ports as services are asked for, all of them `uint16_t`, in order from 19100 on.
  pub spawn_echo_services_lem :
      (count k : ℕ) (ports : List ℕ)
      → IsHonest
      → service_base_port + count ≤ 2 ^ 16
      → spawn_echo_services bound (pos count) ≡ returns ports
      → k < count
      → All (λ p. p < 2 ^ 16) ports
        × (length ports ≡ count)
        × (get_elem? ports k ≡ some (service_base_port + k))
  unfolding spawn_echo_services
  spawn_echo_services_lem count k ports honest h e below =
      let (fit, size) = ports_from-fit 0 count (omega arith) in
      rw (spawn_from-ports_from 0 count ports honest (omega arith) e)
        (fit, size, get_elem?-ports_from 0 count k below)
