-- ===== src/Ui/MainFrame/Adding.antt =====
-- `ValidateInput` and `OnAddService` of ui/MainFrame.cpp.
use bit_bridge.Prelude.{
  ℕ, ◌%◌, ◌^◌, ◌<◌, ◌==◌, ◌≡◌, ◌≢◌, ◌⊎◌, refl, ap, true, List, [], ◌∷◌, Bytes, codes, same_text,
  same_text_self, same_text-eq, Bool-cases, Option-cases, Option, none, some, inl, inr, All, Any,
  arith,
}
use bit_bridge.Model.Node.{ServiceNode, is_valid, is_valid_ipv4}
use bit_bridge.Model.Node.Ipv4.{IsDotted, is_valid_ipv4_iff}
use bit_bridge.Model.Balancer.{add_service}
use bit_bridge.Ui.MainFrame.{
  MainFrame, Message, refresh_service_list, mark_unsaved, duplicate, validate_input,
  entered_service, on_add_service, on_name,
}
use bit_bridge.Ui.Settings.{value_or}

-- A service that the window accepts.
pub record IsAccepted (s : ServiceNode) : Type 0 where
  pub named : s.name ≢ []
  pub dotted : IsDotted s.ip
  pub port_positive : 0 < s.port
  pub port_fits : s.port < 2 ^ 16
  pub weight_positive : 0 < s.weight
  pub weight_fits : s.weight < 2 ^ 16

-- Services that can stand in one configuration.
abbrev pub Differ : ServiceNode → ServiceNode → Type 0
Differ s t = (s.name ≢ t.name) × ¬ ((s.ip ≡ t.ip) × (s.port ≡ t.port))

module _ (to_ulong : Bytes → Option ℕ) where
  validate_input-none :
      (name ip port weight : Bytes)
      → validate_input to_ulong name ip port weight ≡ none
      → (p w : ℕ) × (to_ulong port ≡ some p)
        × (to_ulong weight ≡ some w)
        × (name ≢ [])
        × (is_valid_ipv4 ip ≡ true)
        × (0 < p)
        × (p < 2 ^ 16)
        × (0 < w)
        × (w < 2 ^ 16)
  unfolding validate_input is_valid
  validate_input-none name ip port weight h = elim (Option-cases (to_ulong port)) [
    | inl no_port ↦ absurd (ground arith)
    | inr (p, at_p) ↦ elim (Option-cases (to_ulong weight)) [
      | inl no_weight ↦ absurd (ground arith)
      | inr (w, at_w) ↦ (
        p,
        w,
        at_p,
        at_w,
        ground arith,
        ground arith,
        ground arith,
        ground arith,
        ground arith,
        ground arith,
      )
    ]
  ]

  entered_service-IsAccepted :
      (m : MainFrame)
      → validate_input to_ulong m.name_input m.ip_input m.port_input m.weight_input ≡ none
      → IsAccepted (entered_service to_ulong m)
  unfolding entered_service
  entered_service-IsAccepted m h =
      let (p, w, at_p, at_w, named, dotted, p_pos, p_fits, w_pos, w_fits) =
        validate_input-none m.name_input m.ip_input m.port_input m.weight_input h in
      record {
        named = named;
        dotted = (is_valid_ipv4_iff m.ip_input).0 dotted;
        port_positive = ground arith;
        port_fits = omega arith;
        weight_positive = ground arith;
        weight_fits = omega arith;
      }

duplicate-none :
    (services : List ServiceNode) (s : ServiceNode) (port : ℕ)
    → s.port ≡ port % 2 ^ 16
    → duplicate services s.name s.ip port ≡ none
    → All (λ t. Differ t s) services
unfolding duplicate
duplicate-none [] s port e h = tt
duplicate-none (t ∷ services) s port e h = (
  (
    λ same. ground (arith, same_text_self s.name, ap (λ x. same_text x s.name) same),
    λ (same, at). ground (arith, same_text_self s.ip, ap (λ x. same_text x s.ip) same),
  ),
  duplicate-none services s port e (ground arith),
)

-- The name or the address of a service is taken.
abbrev pub Clash : ServiceNode → ServiceNode → Type 0
Clash s t = (t.name ≡ s.name) ⊎ ((t.ip ≡ s.ip) × (t.port ≡ s.port))

duplicate-some :
    (services : List ServiceNode) (s : ServiceNode) (port : ℕ) {message : Message}
    → s.port ≡ port % 2 ^ 16
    → duplicate services s.name s.ip port ≡ some message
    → Any (Clash s) services
unfolding duplicate
duplicate-some [] s port e h = absurd (cc)
duplicate-some (t ∷ services) s port {message} e h = elim (Bool-cases (same_text t.name s.name)) [
  | inl named ↦ inl (inl (same_text-eq t.name s.name named))
  | inr other ↦ elim (Bool-cases (same_text t.ip s.ip)) [
    | inr away ↦ inr (duplicate-some services s port {message = message} e (ground arith))
    | inl there ↦ elim (Bool-cases (t.port == port % 2 ^ 16)) [
      | inr aside ↦ inr (duplicate-some services s port {message = message} e (ground arith))
      | inl here ↦ inl (inr (same_text-eq t.ip s.ip there, ground arith))
    ]
  ]
]

module _ (to_ulong : Bytes → Option ℕ) where
  -- The window behind an added service.
  abbrev pub added : MainFrame → MainFrame
  added m =
      record (mark_unsaved (
        refresh_service_list
          (record m { config = add_service m.config (entered_service to_ulong m) }))) {
            name_input = [];
            ip_input = [];
            port_input = [];
            weight_input = codes "1";
            focus = on_name;
          }

  -- `OnAddService` refuses the inputs with a message box and changes nothing, and then they are not valid
  -- or a service has the name, or the IP address together with the port, already. Otherwise the service of the inputs has a name, a
  -- dotted quad as its address and a port and a weight from 1 to 65535, no service has its name, or its
  -- IP address together with its port, and it becomes the last one, in the list too; the change is marked as unsaved and the inputs
  -- are cleared.
  pub on_add_service_lem :
      (m : MainFrame)
      → ((message : Message) × (on_add_service to_ulong m ≡ (m, some message))
          × ((validate_input to_ulong m.name_input m.ip_input m.port_input m.weight_input
                ≡ some message)
              ⊎ Any (Clash (entered_service to_ulong m)) m.config.services))
        ⊎ (IsAccepted (entered_service to_ulong m)
            × All (λ t. Differ t (entered_service to_ulong m)) m.config.services
            × (on_add_service to_ulong m ≡ (added m, none)))
  unfolding on_add_service
  on_add_service_lem m =
      let s = entered_service to_ulong m in
      let port = value_or (to_ulong m.port_input) 0 in
      let at_port : s.port ≡ port % 2 ^ 16 = unfold entered_service in refl in
      elim (Option-cases
        (validate_input to_ulong m.name_input m.ip_input m.port_input m.weight_input)) [
          | inr (message, refused) ↦ inl (message, ground arith, inl refused)
          | inl valid ↦
              elim (Option-cases (duplicate m.config.services m.name_input m.ip_input port)) [
                | inr (message, taken) ↦ inl (
                  message,
                  ground arith,
                  inr (
                      unfold entered_service in
                      (duplicate-some m.config.services s port refl taken)),
                )
                | inl free ↦ inr (
                  entered_service-IsAccepted to_ulong m valid,
                  unfold entered_service in (duplicate-none m.config.services s port refl free),
                  ground arith,
                )
              ]
        ]
