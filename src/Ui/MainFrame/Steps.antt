-- ===== src/Ui/MainFrame/Steps.antt =====
-- One event of the window of ui/MainFrame.cpp.
use bit_bridge.Prelude.{
  ◌≡◌, refl, ap, sym, ◌∙◌, Bool, true, false, map, Bytes, Option, none, some, Option-cases, returns,
  throws, system_error, ◌⊎◌, inl, inr, arith, ℕ,
}
use bit_bridge.Model.Node.{is_empty}
use bit_bridge.Model.Balancer
use bit_bridge.Model.Balancer.{LoadBalancerConfig, add_service}
use bit_bridge.Serialization.Serializer.{ConfigSerializer}
use bit_bridge.Ui.MainFrame.{
  Message, not_saved, Focus, on_name, on_ip, on_port, on_weight, elsewhere, MainFrame,
  refresh_service_list, mark_saved, mark_unsaved, input_index, row_of, handle_tab_navigation,
  on_add_service, on_remove_service, entered_service,
}
use bit_bridge.Ui.MainFrame.Files.{on_load_config, on_loaded, on_save_config, make_frame}
use bit_bridge.Ui.MainFrame.Removal.{on_remove_service_lem}
use bit_bridge.Ui.MainFrame.Adding.{on_add_service_lem}
use bit_bridge.Ui.MainFrame.Sound.{IsSound, unselected-IsSound, add_service-IsSound}
use bit_bridge.Ui.MainFrame.Events.{
  Desk, Event, typed, focused, selected, tab, add, remove, load, save, set_input, step,
}
use bit_bridge.Ui.MainFrame.Kept.{
  deselected, mirrored-length, select_row-deselected, unsaved-IsShown, saved-IsShown, IsKept,
  make_frame-config,
}

-- `Save` where the directory of the file cannot be made.
abbrev pub Unwritable : Event → Type 0
Unwritable e = (opens : Bool) × (e ≡ save false opens)

-- What a handler leaves that changes no service.
abbrev Alike : MainFrame → MainFrame → Type 0
Alike m n =
    (m.settings ≡ n.settings)
    × (m.config ≡ n.config)
    × (map deselected m.rows ≡ map deselected n.rows)
    × (m.empty_label ≡ n.empty_label)
    × (m.unsaved_label ≡ n.unsaved_label)
    × (m.has_unsaved_changes ≡ n.has_unsaved_changes)

set_input-Alike : (i : Focus) (text : Bytes) (m : MainFrame) → Alike (set_input i text m) m
set_input-Alike on_name text m = (refl, refl, refl, refl, refl, refl)
set_input-Alike on_ip text m = (refl, refl, refl, refl, refl, refl)
set_input-Alike on_port text m = (refl, refl, refl, refl, refl, refl)
set_input-Alike on_weight text m = (refl, refl, refl, refl, refl, refl)
set_input-Alike elsewhere text m = (refl, refl, refl, refl, refl, refl)

tab-Alike : (shift : Bool) (m : MainFrame) → Alike (handle_tab_navigation shift m) m
unfolding handle_tab_navigation
tab-Alike shift m = elim (Option-cases (input_index m.focus)) [
  | inl away ↦ (ground arith, ground arith, ground arith, ground arith, ground arith, ground arith)
  | inr (i, at) ↦
      (ground arith, ground arith, ground arith, ground arith, ground arith, ground arith)
]

module _ (to_ulong : Bytes → Option ℕ) (serializer : ConfigSerializer) where
  open serializer use {Document, written}

  Alike-IsKept :
      (d : Desk Document) (m : MainFrame)
      → Alike m d.frame
      → IsKept serializer d
      → IsKept serializer (record d { frame = m })
  Alike-IsKept d m (s, c, r, e, u, h) k = record {
    shown = record {
      mirrored = r ∙ k.shown.mirrored ∙ ap (λ x. map row_of x.services) (sym c);
      emptied = e ∙ k.shown.emptied ∙ ap (λ x. is_empty x.services) (sym c);
      marked = u ∙ k.shown.marked ∙ sym h;
    };
    sound = rw c k.sound;
    filed = k.filed;
    durable = λ unchanged.
        ap (λ t. (make_frame serializer t d.file).config) s ∙ k.durable (sym h ∙ unchanged) ∙ sym c;
  }

  add-IsKept :
      (d : Desk Document)
      → IsKept serializer d
      → IsKept serializer (record d { frame = (on_add_service to_ulong d.frame).0 })
  add-IsKept d k = elim (on_add_service_lem to_ulong d.frame) [
    | inl (message, refused, _) ↦ rw refused k
    | inr (accepted, free, accepts) ↦ rw accepts (
        let shown = unsaved-IsShown (record d.frame {
          config = add_service d.frame.config (entered_service to_ulong d.frame);
        }) in
        record {
          shown = record {
            mirrored = shown.mirrored;
            emptied = shown.emptied;
            marked = shown.marked;
          };
          sound =
              unfold mark_unsaved refresh_service_list in
              (add_service-IsSound d.frame.config (entered_service to_ulong d.frame) k.sound
                accepted free);
          filed = k.filed;
          durable = λ unchanged. absurd (unfold mark_unsaved in (ground arith));
        })
  ]

  remove-IsKept :
      (d : Desk Document)
      → IsKept serializer d
      → IsKept serializer (record d { frame = (on_remove_service d.frame).0 })
  remove-IsKept d k = elim (on_remove_service_lem d.frame (mirrored-length d.frame k.shown)) [
    | inl (nothing, refused) ↦ rw refused k
    | inr (some_line, removed) ↦ rw removed (record {
      shown = unsaved-IsShown _;
      sound =
          unfold mark_unsaved refresh_service_list in
          (unselected-IsSound d.frame.config d.frame.rows k.sound);
      filed = k.filed;
      durable = λ unchanged. absurd (unfold mark_unsaved in (ground arith));
    })
  ]

  loaded-IsKept :
      (d : Desk Document) (c : LoadBalancerConfig)
      → IsSound c
      → d.file ≡ some (written c)
      → IsKept serializer
          (record d { frame = mark_saved (refresh_service_list (record d.frame { config = c })) })
  loaded-IsKept d c h e = record {
    shown = saved-IsShown _;
    sound = unfold mark_saved refresh_service_list in h;
    filed = inr (c, h, e);
    durable =
        unfold mark_saved refresh_service_list in
        (λ unchanged. make_frame-config serializer d.frame.settings c d.file h.in_range e);
  }

  load-IsKept :
      (d : Desk Document)
      → IsKept serializer d
      → IsKept serializer (record d { frame = (on_load_config serializer d.file d.frame).0 })
  load-IsKept d k = elim k.filed [
    | inl no_file ↦
        let same : (on_load_config serializer d.file d.frame).0 ≡ d.frame =
          unfold on_load_config in (ap (λ f. (on_load_config serializer f d.frame).0) no_file) in
        rw same k
    | inr (c, h, e) ↦
        let same : (on_load_config serializer d.file d.frame).0
            ≡ mark_saved (refresh_service_list (record d.frame { config = c })) =
          unfold on_load_config in
          (ap (λ f. (on_load_config serializer f d.frame).0) e
            ∙ ap (λ l. (on_loaded serializer d.frame l).0)
                (serializer.load_written c Balancer.defaults h.in_range)) in
        rw same (loaded-IsKept d c h e)
  ]

  save-IsKept :
      (has_parent opens : Bool) (d : Desk Document)
      → IsKept serializer d
      → ((next : Desk Document) × (message : Option Message) × (step to_ulong serializer
              (save has_parent opens)
              d
            ≡ returns (next, message))
          × IsKept serializer next)
        ⊎ ((step to_ulong serializer (save has_parent opens) d ≡ throws system_error)
            × (has_parent ≡ false))
  unfolding step on_save_config
  save-IsKept false opens d k =
      inr (ground (arith, serializer.save_thrown opens d.file d.frame.config), refl)
  save-IsKept true false d k =
      inl (d, some not_saved, ground (arith, serializer.save_not_opened d.file d.frame.config), k)
  save-IsKept true true d k = inl (
    record { frame = mark_saved d.frame; file = some (written d.frame.config) },
    none,
    ground (arith, serializer.save_written d.file d.frame.config),
    unfold mark_saved in
        (record {
          shown = record { mirrored = k.shown.mirrored; emptied = k.shown.emptied; marked = refl };
          sound = k.sound;
          filed = inr (d.frame.config, k.sound, refl);
          durable = λ unchanged.
              make_frame-config serializer d.frame.settings d.frame.config _ k.sound.in_range refl;
        }),
  )

  pub step-IsKept :
      (e : Event) (d : Desk Document)
      → IsKept serializer d
      → ((next : Desk Document) × (message : Option Message) × (step to_ulong serializer e d
            ≡ returns (next, message))
          × IsKept serializer next)
        ⊎ ((step to_ulong serializer e d ≡ throws system_error) × Unwritable e)
  unfolding step
  step-IsKept (typed i text) d k =
      inl (_, _, refl, Alike-IsKept d _ (set_input-Alike i text d.frame) k)
  step-IsKept (focused i) d k =
      inl (_, _, refl, Alike-IsKept d _ (refl, refl, refl, refl, refl, refl) k)
  step-IsKept (selected i b) d k = inl (
    _,
    _,
    refl,
    Alike-IsKept d _ (refl, refl, select_row-deselected i b d.frame.rows, refl, refl, refl) k,
  )
  step-IsKept (tab shift) d k = inl (_, _, refl, Alike-IsKept d _ (tab-Alike shift d.frame) k)
  step-IsKept add d k = inl (_, _, refl, add-IsKept d k)
  step-IsKept remove d k = inl (_, _, refl, remove-IsKept d k)
  step-IsKept load d k = inl (_, _, refl, load-IsKept d k)
  step-IsKept (save has_parent opens) d k = elim (save-IsKept has_parent opens d k) [
    | inl kept ↦ inl kept
    | inr (thrown, no_parent) ↦ inr (thrown, (opens, ap (λ b. save b opens) no_parent))
  ]
