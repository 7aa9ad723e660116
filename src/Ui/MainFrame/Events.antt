-- ===== src/Ui/MainFrame/Events.antt =====
-- The events of the window of ui/MainFrame.cpp: the buttons and keys that its constructor binds to the
-- handlers, and what wxWidgets does to the inputs, the focus and the selected lines.
use bit_bridge.Prelude.{
  ℕ, Bool, List, [], ◌∷◌, zero, suc, Bytes, Option, none, Outcome, returns, ◌>>=◌,
}
use bit_bridge.Serialization.Serializer.{ConfigSerializer}
use bit_bridge.Ui.MainFrame.{
  Row, Focus, on_name, on_ip, on_port, on_weight, elsewhere, Message, MainFrame, on_add_service,
  on_remove_service, handle_tab_navigation,
}
use bit_bridge.Ui.MainFrame.Files.{on_load_config, on_save_config}

-- The window and the configuration file.
pub record Desk (Document : Type 0) : Type 0 where
  pub frame : MainFrame
  pub file : Option Document

-- `Save` is pressed where the directory can be made and the file be opened, or not.
pub data Event : Type 0 where
  typed : Focus → Bytes → Event
  focused : Focus → Event
  selected : ℕ → Bool → Event
  tab : Bool → Event
  add remove load : Event
  save : Bool → Bool → Event

abbrev pub set_input : Focus → Bytes → MainFrame → MainFrame
set_input on_name text m = record m { name_input = text }
set_input on_ip text m = record m { ip_input = text }
set_input on_port text m = record m { port_input = text }
set_input on_weight text m = record m { weight_input = text }
set_input elsewhere text m = m

abbrev pub select_row : ℕ → Bool → List Row → List Row
select_row i b [] = []
select_row zero b (r ∷ rows) = record r { selected = b } ∷ rows
select_row (suc i) b (r ∷ rows) = r ∷ select_row i b rows

module _ (to_ulong : Bytes → Option ℕ) (serializer : ConfigSerializer) where
  open serializer use {Document}

  unfoldable pub step : Event → Desk Document → Outcome (Desk Document × Option Message)
  unfolding on_add_service on_remove_service on_load_config on_save_config handle_tab_navigation
  step (typed i text) d = returns (record d { frame = set_input i text d.frame }, none)
  step (focused i) d = returns (record d { frame = record d.frame { focus = i } }, none)
  step (selected i b) d =
      returns (record d { frame = record d.frame { rows = select_row i b d.frame.rows } }, none)
  step (tab shift) d = returns (record d { frame = handle_tab_navigation shift d.frame }, none)
  step add d =
      let (m, message) = on_add_service to_ulong d.frame in
      returns (record d { frame = m }, message)
  step remove d =
      let (m, message) = on_remove_service d.frame in returns (record d { frame = m }, message)
  step load d =
      let (m, message) = on_load_config serializer d.file d.frame in
      returns (record d { frame = m }, message)
  step (save has_parent opens) d =
      on_save_config serializer has_parent opens d.file d.frame
      >>= (λ (m, message, file). returns (record { frame = m; file = file }, message))

  unfoldable pub run : List Event → Desk Document → Outcome (Desk Document)
  unfolding step
  run [] d = returns d
  run (e ∷ es) d = step e d >>= (λ (next, message). run es next)
