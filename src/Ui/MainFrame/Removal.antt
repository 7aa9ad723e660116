-- ===== src/Ui/MainFrame/Removal.antt =====
-- `OnRemoveService` of ui/MainFrame.cpp.
use mathlib.Core.List.{append_assoc}
use bit_bridge.Prelude.{
  ℕ, suc, ◌≡◌, ◌≢◌, ◌⊎◌, refl, ap, sym, ◌∙◌, if◌then◌else◌, List, [], ◌∷◌, ◌++◌, length,
  length-append, none, some, inl, inr, Bool-cases, List-cases, arith,
}
use bit_bridge.Model.Node.{ServiceNode}
use bit_bridge.Model.Balancer.{LoadBalancerConfig, erase_at, remove_service}
use bit_bridge.Ui.MainFrame.{
  Row, MainFrame, no_selection, refresh_service_list, mark_unsaved, selected_from, remove_reversed,
  on_remove_service,
}

-- The services whose lines are not selected.
abbrev pub unselected : List Row → List ServiceNode → List ServiceNode
unselected [] services = services
unselected (r ∷ rows) [] = []
unselected (r ∷ rows) (s ∷ services) =
    let rest = unselected rows services in if r.selected then rest else s ∷ rest

erase_at-middle :
    (before : List ServiceNode) (s : ServiceNode) (behind : List ServiceNode)
    → erase_at (length before) (before ++ s ∷ behind) ≡ before ++ behind
erase_at-middle [] s behind = refl
erase_at-middle (t ∷ before) s behind = ap (◌∷◌ t) (erase_at-middle before s behind)

remove_service-middle :
    (c : LoadBalancerConfig) (before : List ServiceNode) (s : ServiceNode)
    (behind : List ServiceNode)
    → c.services ≡ before ++ s ∷ behind
    → remove_service c (length before) ≡ record c { services = before ++ behind }
unfolding remove_service
remove_service-middle c before s behind e =
    let longer = length-append before (s ∷ behind) in
    ground (arith, erase_at-middle before s behind)

-- Under services that stand before the first line.
remove_reversed-selected :
    (rows : List Row) (c : LoadBalancerConfig) (before services : List ServiceNode)
    → c.services ≡ before ++ services
    → length rows ≡ length services
    → remove_reversed (selected_from (length before) rows) c
      ≡ record c { services = before ++ unselected rows services }
unfolding remove_reversed selected_from
remove_reversed-selected [] c before services e n = ground arith
remove_reversed-selected (r ∷ rows) c before [] e n = absurd (omega arith)
remove_reversed-selected (r ∷ rows) c before (s ∷ services) e n =
    let shift : suc (length before) ≡ length (before ++ s ∷ []) =
      omega (arith, length-append before (s ∷ [])) in
    let behind =
      remove_reversed-selected rows c (before ++ s ∷ []) services
        (e ∙ sym (append_assoc before (s ∷ []) services)) (omega arith) in
    let moved = append_assoc before (s ∷ []) (unselected rows services) in
    elim (Bool-cases r.selected) [
      | inl chosen ↦ ground (
        arith,
        shift,
        behind,
        moved,
        remove_service-middle
            (record c { services = (before ++ s ∷ []) ++ unselected rows services }) before s
            (unselected rows services) moved,
      )
      | inr kept ↦ ground (arith, shift, behind, moved)
    ]

selected_from-nil :
    (i : ℕ) (rows : List Row) (services : List ServiceNode)
    → length rows ≡ length services
    → selected_from i rows ≡ []
    → unselected rows services ≡ services
unfolding selected_from
selected_from-nil i [] services n h = refl
selected_from-nil i (r ∷ rows) [] n h = absurd (omega arith)
selected_from-nil i (r ∷ rows) (s ∷ services) n h = elim (Bool-cases r.selected) [
  | inl chosen ↦ absurd (ground arith)
  | inr kept ↦ ground (arith, selected_from-nil (suc i) rows services)
]

-- Where there is a line for each service, `OnRemoveService` without a selected line shows a message box and
-- changes nothing. Otherwise the services whose lines are not selected stay, in their order, and all others
-- are removed; the list is filled anew, and the change is marked as unsaved.
pub on_remove_service_lem :
    (m : MainFrame)
    → length m.rows ≡ length m.config.services
    → ((selected_from 0 m.rows ≡ []) × (on_remove_service m ≡ (m, some no_selection)))
      ⊎ ((selected_from 0 m.rows ≢ [])
          × (on_remove_service m ≡ (
            mark_unsaved (
                refresh_service_list (record m {
                  config = record m.config { services = unselected m.rows m.config.services };
                })),
            none,
          )))
unfolding on_remove_service
on_remove_service_lem m n =
    let removed = remove_reversed-selected m.rows m.config [] m.config.services refl n in
    elim (List-cases (selected_from 0 m.rows)) [
      | inl nothing ↦ inl (nothing, ground arith)
      | inr (i, is, some_line) ↦
          let named : remove_reversed (i ∷ is) m.config
              ≡ record m.config { services = unselected m.rows m.config.services } =
            ap (λ l. remove_reversed l m.config) (sym some_line) ∙ removed in
          inr (ground arith, ground arith)
    ]
