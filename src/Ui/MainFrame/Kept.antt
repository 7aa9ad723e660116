-- ===== src/Ui/MainFrame/Kept.antt =====
-- What the handlers of ui/MainFrame.cpp keep.
use bit_bridge.Prelude.{
  ℕ, zero, suc, ◌≡◌, refl, ap, sym, ◌∙◌, Bool, false, List, [], ◌∷◌, map, length, Option, none,
  some, ◌⊎◌, inl, inr,
}
use bit_bridge.Model.Node.{ServiceNode, is_empty}
use bit_bridge.Model.Balancer
use bit_bridge.Model.Balancer.{
  LoadBalancerConfig, set_listen_address, set_listen_port, set_routing_algorithm, set_health_check,
  set_connection,
}
use bit_bridge.Serialization.Serializer.{ConfigSerializer}
use bit_bridge.Serialization.RoundTrip.{IsInRange}
use bit_bridge.Ui.Settings.{AppSettings}
use bit_bridge.Ui.Settings.Ranges.{IsSettingsInRange}
use bit_bridge.Ui.MainFrame.{
  Row, MainFrame, row_of, refresh_service_list, mark_saved, mark_unsaved, apply_default_config,
  blank_frame, on_name,
}
use bit_bridge.Ui.MainFrame.Files.{load_existing_config, make_frame, taken}
use bit_bridge.Ui.MainFrame.Sound.{IsSound, apply_default_config-IsSound}
use bit_bridge.Ui.MainFrame.Events.{Desk, select_row}

abbrev pub deselected : Row → Row
deselected r = record r { selected = false }

-- The window shows its configuration: a line for each service, the label of an empty list where there is
-- none, and the mark of unsaved changes where there are some.
pub record IsShown (m : MainFrame) : Type 0 where
  pub mirrored : map deselected m.rows ≡ map row_of m.config.services
  pub emptied : m.empty_label ≡ is_empty m.config.services
  pub marked : m.unsaved_label ≡ m.has_unsaved_changes

length-map : {A B : Type 0} (f : A → B) (xs : List A) → length (map f xs) ≡ length xs
length-map f [] = refl
length-map f (x ∷ xs) = ap suc (length-map f xs)

pub mirrored-length : (m : MainFrame) → IsShown m → length m.rows ≡ length m.config.services
mirrored-length m h =
    sym (length-map deselected m.rows) ∙ ap length h.mirrored ∙ length-map row_of m.config.services

map-deselected :
    (services : List ServiceNode) → map deselected (map row_of services) ≡ map row_of services
unfolding row_of
map-deselected [] = refl
map-deselected (s ∷ services) = ap (◌∷◌ (row_of s)) (map-deselected services)

pub select_row-deselected :
    (i : ℕ) (b : Bool) (rows : List Row)
    → map deselected (select_row i b rows) ≡ map deselected rows
select_row-deselected i b [] = refl
select_row-deselected zero b (r ∷ rows) = refl
select_row-deselected (suc i) b (r ∷ rows) =
    ap (◌∷◌ (deselected r)) (select_row-deselected i b rows)

pub unsaved-IsShown : (m : MainFrame) → IsShown (mark_unsaved (refresh_service_list m))
unfolding mark_unsaved refresh_service_list
unsaved-IsShown m = record {
  mirrored = map-deselected m.config.services;
  emptied = refl;
  marked = refl;
}

pub saved-IsShown : (m : MainFrame) → IsShown (mark_saved (refresh_service_list m))
unfolding mark_saved refresh_service_list
saved-IsShown m = record {
  mirrored = map-deselected m.config.services;
  emptied = refl;
  marked = refl;
}

module _ (serializer : ConfigSerializer) where
  open serializer use {Document, written}

  -- There is no file, or one that was saved.
  abbrev pub Filed : Option Document → Type 0
  Filed file = (file ≡ none) ⊎ ((c : LoadBalancerConfig) × IsSound c × (file ≡ some (written c)))

  -- The window shows a sound configuration, and without the mark of unsaved changes a window that is opened
  -- anew has the same configuration.
  pub record IsKept (d : Desk Document) : Type 0 where
    pub shown : IsShown d.frame
    pub sound : IsSound d.frame.config
    pub filed : Filed d.file
    pub durable :
        d.frame.has_unsaved_changes ≡ false
        → (make_frame serializer d.frame.settings d.file).config ≡ d.frame.config

  -- A new window on a file that was saved.
  make_frame-filed :
      (s : AppSettings) (c : LoadBalancerConfig) (file : Option Document)
      → IsInRange c
      → file ≡ some (written c)
      → make_frame serializer s file
        ≡ record (mark_saved (refresh_service_list (record (blank_frame s) { config = c }))) {
          focus = on_name;
        }
  unfolding make_frame load_existing_config
  make_frame-filed s c file r e =
      let read = serializer.load_written c (blank_frame s).config r in
      ap (λ f. make_frame serializer s f) e
      ∙ ap (λ l. record (taken serializer (blank_frame s) l) { focus = on_name }) read

  pub make_frame-config :
      (s : AppSettings) (c : LoadBalancerConfig) (file : Option Document)
      → IsInRange c
      → file ≡ some (written c)
      → (make_frame serializer s file).config ≡ c
  unfolding mark_saved refresh_service_list
  make_frame-config s c file r e = ap (λ m. m.config) (make_frame-filed s c file r e)

  make_frame-settings :
      (s : AppSettings) (file : Option Document)
      → Filed file
      → (make_frame serializer s file).settings ≡ s
  make_frame-settings s file (inl no_file) =
      unfold make_frame load_existing_config blank_frame in
      (ap (λ f. (make_frame serializer s f).settings) no_file)
  make_frame-settings s file (inr (c, h, e)) =
      unfold mark_saved refresh_service_list blank_frame in
      (ap (λ m. m.settings) (make_frame-filed s c file h.in_range e))

  blank_frame-IsShown : (s : AppSettings) → IsShown (record (blank_frame s) { focus = on_name })
  unfolding blank_frame apply_default_config Balancer.defaults Balancer.set_name set_listen_address
      set_listen_port set_routing_algorithm set_health_check set_connection
  blank_frame-IsShown s = record { mirrored = refl; emptied = refl; marked = refl }

  make_frame-IsShown :
      (s : AppSettings) (file : Option Document)
      → Filed file
      → IsShown (make_frame serializer s file)
  make_frame-IsShown s file (inl no_file) =
      rw no_file (unfold make_frame load_existing_config in (blank_frame-IsShown s))
  make_frame-IsShown s file (inr (c, h, e)) = rw (make_frame-filed s c file h.in_range e) (
      let shown = saved-IsShown (record (blank_frame s) { config = c }) in
      record { mirrored = shown.mirrored; emptied = shown.emptied; marked = shown.marked })

  make_frame-IsSound :
      (s : AppSettings) (file : Option Document)
      → IsSettingsInRange s
      → Filed file
      → IsSound (make_frame serializer s file).config
  make_frame-IsSound s file r (inl no_file) =
      rw no_file
        (unfold make_frame load_existing_config blank_frame in (apply_default_config-IsSound s r))
  make_frame-IsSound s file r (inr (c, h, e)) = rw (make_frame-config s c file h.in_range e) h

  pub make_frame-none :
      (s : AppSettings) (file : Option Document)
      → file ≡ none
      → (make_frame serializer s file).config.services ≡ []
  unfolding make_frame load_existing_config blank_frame apply_default_config Balancer.defaults
      Balancer.set_name set_listen_address set_listen_port set_routing_algorithm set_health_check
      set_connection
  make_frame-none s file e = ap (λ f. (make_frame serializer s f).config.services) e

  -- A new window.
  pub make_frame-IsKept :
      (s : AppSettings) (file : Option Document)
      → IsSettingsInRange s
      → Filed file
      → IsKept (record { frame = make_frame serializer s file; file = file })
  make_frame-IsKept s file r h = record {
    shown = make_frame-IsShown s file h;
    sound = make_frame-IsSound s file r h;
    filed = h;
    durable =
        λ unchanged. ap (λ t. (make_frame serializer t file).config) (make_frame-settings s file h);
  }
