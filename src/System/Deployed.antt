-- ===== src/System/Deployed.antt =====
-- ui/MainFrame.cpp with core/main.cpp: the configuration that the desktop tool saves, under the load
-- balancer.
use bit_bridge.Prelude.{
  ℕ, ◌≤◌, ◌<◌, ◌≡◌, sym, ◌∙◌, Bool, true, false, List, [], ◌∷◌, Bytes, length, All, Option, some,
  returns, value, inl, inr, ap, arith,
}
use bit_bridge.Model.Node.{ServiceNode}
use bit_bridge.Model.Node.Ipv4.{IsDotted}
use bit_bridge.Model.Balancer
use bit_bridge.Model.Balancer.{LoadBalancerConfig}
use bit_bridge.State.Service
use bit_bridge.State.Service.{size_mod}
use bit_bridge.State.Pool.{make_pool}
use bit_bridge.Routing.P2c.{Distribution}
use bit_bridge.Proxy.TcpProxy.Addresses.{Addressed}
use bit_bridge.Serialization.Serializer.{ConfigSerializer}
use bit_bridge.Serialization.Load.{loaded}
use bit_bridge.System.{System}
use bit_bridge.System.Startup.{AnyState, make_strategy, start_up}
use bit_bridge.System.Program.{KeepsRunning, program_serves}
use bit_bridge.Ui.Toml.{Toml}
use bit_bridge.Ui.App.{on_init, on_init-IsKept}
use bit_bridge.Ui.MainFrame.Adding.{IsAccepted}
use bit_bridge.Ui.MainFrame.Events
use bit_bridge.Ui.MainFrame.Events.{Desk}
use bit_bridge.Ui.MainFrame.Kept.{Filed, IsKept, make_frame-config, make_frame-none}
use bit_bridge.Ui.MainFrame.Runs.{run-IsKept}

make_pool-Addressed :
    (make_address : Bytes → Bool)
    → ((ip : Bytes) → IsDotted ip → make_address ip ≡ true)
    → (services : List ServiceNode) → All IsAccepted services
    → Addressed make_address (make_pool services)
unfolding make_pool Service.new
make_pool-Addressed make_address quads [] h = tt
make_pool-Addressed make_address quads (s ∷ services) h =
    (quads s.ip h.0.dotted, make_pool-Addressed make_address quads services h.1)

module _ (serializer : ConfigSerializer) where
  open serializer use {Document}

  -- What the load balancer reads of a kept window without unsaved changes.
  IsKept-load :
      (d : Desk Document)
      → IsKept serializer d
      → d.frame.has_unsaved_changes ≡ false
      → 0 < length d.frame.config.services
      → serializer.load d.file Balancer.defaults ≡ loaded d.frame.config
  IsKept-load d k unchanged some_service = elim k.filed [
    | inl no_file ↦ absurd (
        let none_there = make_frame-none serializer d.frame.settings d.file no_file in
        let same = ap (λ c. length c.services) (k.durable unchanged) in
        ground (arith, none_there, same))
    | inr (c, h, e) ↦
        let same : c ≡ d.frame.config =
          sym (make_frame-config serializer d.frame.settings c d.file h.in_range e)
          ∙ k.durable unchanged in
        ap (λ f. serializer.load f Balancer.defaults) e
        ∙ serializer.load_written c Balancer.defaults h.in_range
        ∙ ap loaded same
  ]

  returned-IsKept :
      (to_ulong : Bytes → Option ℕ) (es : List Events.Event) (start last : Desk Document)
      → IsKept serializer start
      → Events.run to_ulong serializer es start ≡ returns last
      → IsKept serializer last
  returned-IsKept to_ulong es start last k e = elim (run-IsKept to_ulong serializer es start k) [
    | inr (thrown, _) ↦ absurd (cc)
    | inl (end, ran, kept) ↦ let same : end ≡ last = cc in rw (← same) kept
  ]

  module _ (to_ulong : Bytes → Option ℕ) (make_address : Bytes → Bool)
      (can_listen : Bytes → ℕ → Bool) (dist : Distribution) (fuel argc device : ℕ) where
    -- From the window to the running load balancer. After any events of the desktop tool, from its start as
    -- in `window_keeps`, where no unsaved changes are marked and there is a service, the load balancer reads the
    -- window's configuration from the file. If, besides, it is given the file, a strategy can be made, the
    -- acceptor can listen and `make_address` takes every dotted quad, it reaches its event loop and, over any
    -- turns of it, fewer than 2 ^ 64 and with clients whose addresses can be had, it does not throw: it
    -- keeps running, or a call of a strategy that does not always answer has not returned.
    pub window_deploys :
        (toml : Toml) (opens : Bool) (settings_file : Option Bytes)
        (files : Bytes → Option Document) (es : List Events.Event) (last : Desk Document)
        (st : AnyState)
        → Filed serializer (on_init toml serializer opens settings_file files).file
        → Events.run to_ulong serializer es (on_init toml serializer opens settings_file files)
          ≡ returns last
        → last.frame.has_unsaved_changes ≡ false
        → 0 < length last.frame.config.services
        → 2 ≤ argc
        → make_strategy last.frame.config.routing_algorithm
            (make_pool last.frame.config.services)
            device
          ≡ some (returns st)
        → can_listen last.frame.config.listen_address last.frame.config.listen_port ≡ true
        → ((ip : Bytes) → IsDotted ip → make_address ip ≡ true)
        → (serializer.load last.file Balancer.defaults ≡ loaded last.frame.config)
          × ((t : System AnyState) × (start_up can_listen argc (value last.frame.config) device
                ≡ returns (value t))
              × KeepsRunning make_address dist fuel t)
    window_deploys toml opens settings_file files es last st h ran unchanged some_service args made
          listens quads =
        let kept =
          returned-IsKept to_ulong es _ last
            (on_init-IsKept toml serializer opens settings_file files h) ran in
        (
          IsKept-load last kept unchanged some_service,
          program_serves can_listen argc device last.frame.config make_address dist fuel st args
              some_service made listens
              (make_pool-Addressed make_address quads last.frame.config.services
                kept.sound.accepted),
        )
