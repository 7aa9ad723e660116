-- ===== src/System/Starting.antt =====
-- How `main` of core/main.cpp starts, on every path.
use bit_bridge.Prelude.{
  same_text, same_text-eq, ℕ, ◌≤◌, ◌<◌, ◌≡◌, refl, ap, ◌∙◌, Bool, true, false, Bool-cases, [],
  List-cases, Bytes, codes, length, Option, none, some, Outcome, returns, throws, hash_collision,
  system_error, Expected, value, unexpected, dec_lt, ◌⊎◌, inl, inr, arith,
}
use bit_bridge.Model.Balancer.{LoadBalancerConfig, service_count}
use bit_bridge.State.Pool.{ServicePool, make_pool}
use bit_bridge.Routing.Ring.Points.{build_ring, vnodes_per_service}
use bit_bridge.Routing.Ring.Build.{build_ring_of-cases}
use bit_bridge.Routing.P2c
use bit_bridge.System.Startup.{
  AnyState, usage, no_services, not_loaded, unknown_algorithm, of_ring, make_strategy, make_system,
  with_strategy, start_up,
}
use bit_bridge.System.Program.{with_hash, start_up_started}

build_ring-cases :
    (pool : ServicePool)
    → ((st : AnyState) × (of_ring (build_ring pool) ≡ returns st))
      ⊎ ((i : ℕ) × (build_ring pool ≡ throws (hash_collision i)))
unfolding build_ring
build_ring-cases pool = elim (build_ring_of-cases vnodes_per_service pool) [
  | inl (made, _) ↦ inl (_, ap of_ring made)
  | inr (i, _, collides, _) ↦ inr (i, collides)
]

-- A strategy is made; or it is that of consistent hashing, whose ring has a collision; or the algorithm is
-- neither of the two.
pub make_strategy-cases :
    (algo : Bytes) (pool : ServicePool) (device : ℕ)
    → ((st : AnyState) × (make_strategy algo pool device ≡ some (returns st)))
      ⊎ ((algo ≡ codes "consistent-hash")
          × ((i : ℕ) × (build_ring pool ≡ throws (hash_collision i))))
      ⊎ ((same_text algo (codes "p2c") ≡ false)
          × (same_text algo (codes "consistent-hash") ≡ false)
          × (make_strategy algo pool device ≡ none))
unfolding make_strategy
make_strategy-cases algo pool device = elim (Bool-cases (same_text algo (codes "p2c"))) [
  | inl p2c ↦ inl (inl (P2c.make device), rw p2c refl)
  | inr other ↦ elim (Bool-cases (same_text algo (codes "consistent-hash"))) [
    | inr neither ↦ inr (inr (other, neither, rw (other, neither) refl))
    | inl hash ↦ elim (build_ring-cases pool) [
      | inl (st, made) ↦ inl (st, rw (other, hash) (ap some made))
      | inr collides ↦ inr (inl (same_text-eq algo (codes "consistent-hash") hash, collides))
    ]
  ]
]

module _ (can_listen : Bytes → ℕ → Bool) (argc device : ℕ) where
  -- What `main` does with a configuration that has services.
  abbrev pub Starts : LoadBalancerConfig → Type 0
  Starts config =
      let started = start_up can_listen argc (value config) device in
      let pool = make_pool config.services in
      ((st : AnyState) × (make_strategy config.routing_algorithm pool device ≡ some (returns st))
        × (((can_listen config.listen_address config.listen_port ≡ true)
              × (started ≡ returns (value (make_system can_listen config pool st))))
            ⊎ ((can_listen config.listen_address config.listen_port ≡ false)
                × (started ≡ throws system_error))))
      ⊎ ((config.routing_algorithm ≡ codes "consistent-hash")
          × ((i : ℕ) × (started ≡ throws (hash_collision i))))
      ⊎ ((same_text config.routing_algorithm (codes "p2c") ≡ false)
          × (same_text config.routing_algorithm (codes "consistent-hash") ≡ false)
          × (started ≡ returns (unexpected (unknown_algorithm config.routing_algorithm))))

  start_up-strategy :
      (config : LoadBalancerConfig) (made : Option (Outcome AnyState))
      → 2 ≤ argc
      → 0 < length config.services
      → make_strategy config.routing_algorithm (make_pool config.services) device ≡ made
      → start_up can_listen argc (value config) device
        ≡ with_strategy can_listen config (make_pool config.services) made
  unfolding start_up service_count
  start_up-strategy config made args some_service e = ground (arith, e)

  start_up-Starts :
      (config : LoadBalancerConfig) → 2 ≤ argc → 0 < length config.services → Starts config
  start_up-Starts config args some_service =
      let pool = make_pool config.services in
      elim (make_strategy-cases config.routing_algorithm pool device) [
        | inr (inl (hash, (i, collides))) ↦ inr (
            inl (
              hash,
              (i, with_hash can_listen argc device config i args some_service hash collides),
            ))
        | inr (inr (other, neither, nothing)) ↦ inr (
            inr (
              other,
              neither,
              start_up-strategy config none args some_service nothing
                  ∙ unfold with_strategy in refl,
            ))
        | inl (st, made) ↦ inl (
          st,
          made,
          elim (Bool-cases (can_listen config.listen_address config.listen_port)) [
            | inl listens ↦ inl (
              listens,
              start_up_started can_listen argc device config st args some_service made listens,
            )
            | inr deaf ↦ inr (
              deaf,
              start_up-strategy config (some (returns st)) args some_service made
                  ∙ unfold with_strategy in rw deaf refl,
            )
          ],
        )
      ]

  -- What `main` does with an argument and what loading the configuration gives.
  abbrev pub WithArgument : Expected Bytes LoadBalancerConfig → Type 0
  WithArgument loaded =
      ((e : Bytes) × (loaded ≡ unexpected e)
        × (start_up can_listen argc loaded device ≡ returns (unexpected (not_loaded e))))
      ⊎ ((config : LoadBalancerConfig) × (loaded ≡ value config)
          × (((config.services ≡ [])
                × (start_up can_listen argc loaded device ≡ returns (unexpected no_services)))
              ⊎ ((0 < length config.services) × Starts config)))

  with_argument : (loaded : Expected Bytes LoadBalancerConfig) → 2 ≤ argc → WithArgument loaded
  unfolding start_up service_count
  with_argument (unexpected e) args = inl (e, refl, ground arith)
  with_argument (value config) args = inr (
    config,
    refl,
    elim (List-cases config.services) [
      | inl none_there ↦ inl (none_there, ground arith)
      | inr (s, rest, there) ↦
          let some_service : 0 < length config.services = rw there (omega arith) in
          inr (some_service, start_up-Starts config args some_service)
    ],
  )

  -- `main` up to its event loop, on every path. Without an argument it shows its usage; with one it says that
  -- the configuration cannot be loaded or that it has no services. With services it makes a strategy and
  -- reaches the event loop, or throws where the acceptor cannot listen; or the algorithm is consistent
  -- hashing and its constructor throws for a collision; or the algorithm is neither of the two and is refused.
  pub start_up-cases :
      (loaded : Expected Bytes LoadBalancerConfig)
      → ((argc < 2) × (start_up can_listen argc loaded device ≡ returns (unexpected usage)))
        ⊎ ((2 ≤ argc) × WithArgument loaded)
  unfolding start_up
  start_up-cases loaded = elim (dec_lt argc 2) [
    | yes h ↦ inl (h, ground arith)
    | no h ↦ inr (omega arith, with_argument loaded (omega arith))
  ]
