-- ===== src/Ui/MainFrame/Runs.antt =====
-- The window of ui/MainFrame.cpp over any events.
use bit_bridge.Prelude.{
  ◌≡◌, refl, Bool, List, [], ◌∷◌, Any, Bytes, Option, returns, throws, system_error, ◌⊎◌, inl, inr,
  arith, ℕ,
}
use bit_bridge.Serialization.Serializer.{ConfigSerializer}
use bit_bridge.Ui.Toml.{Toml}
use bit_bridge.Ui.App.{on_init, on_init-IsKept}
use bit_bridge.Ui.MainFrame.Steps.{Unwritable, step-IsKept}
use bit_bridge.Ui.MainFrame.Events.{Desk, Event, run}
use bit_bridge.Ui.MainFrame.Kept.{Filed, IsKept}

module _ (to_ulong : Bytes → Option ℕ) (serializer : ConfigSerializer) where
  open serializer use {Document}

  pub run-IsKept :
      (es : List Event) (d : Desk Document)
      → IsKept serializer d
      → ((last : Desk Document) × (run to_ulong serializer es d ≡ returns last)
          × IsKept serializer last)
        ⊎ ((run to_ulong serializer es d ≡ throws system_error) × Any Unwritable es)
  unfolding run
  run-IsKept [] d k = inl (d, refl, k)
  run-IsKept (e ∷ es) d k = elim (step-IsKept to_ulong serializer e d k) [
    | inr (thrown, unwritable) ↦ inr (ground arith, inl unwritable)
    | inl (next, message, stepped, kept) ↦ elim (run-IsKept es next kept) [
      | inl (last, ran, good) ↦ inl (last, ground arith, good)
      | inr (thrown, unwritable) ↦ inr (ground arith, inr unwritable)
    ]
  ]

-- The desktop tool over any events, from its start, with any serializer of the interface, a configuration file that is not there or was
-- saved by a window, and with nothing else that writes the file. A handler leaves the window by an exception
-- only where the directory of the file cannot be made on a save. Otherwise, at the end, the list has a line
-- for each service; every service has a name, a dotted quad as its address and a port and a weight from 1 to
-- 65535; no two share a name, or an IP address together with a port; the numbers fit their types; and where no unsaved changes are
-- marked, a window that is opened anew has the same configuration.
pub window_keeps :
    (to_ulong : Bytes → Option ℕ) (toml : Toml) (serializer : ConfigSerializer) (opens : Bool)
    (settings_file : Option Bytes) (files : Bytes → Option serializer.Document) (es : List Event)
    → Filed serializer (on_init toml serializer opens settings_file files).file
    → ((last : Desk serializer.Document) × (run to_ulong serializer es
            (on_init toml serializer opens settings_file files)
          ≡ returns last)
        × IsKept serializer last)
      ⊎ ((run to_ulong serializer es (on_init toml serializer opens settings_file files)
            ≡ throws system_error)
          × Any Unwritable es)
window_keeps to_ulong toml serializer opens settings_file files es h =
    run-IsKept to_ulong serializer es _ (on_init-IsKept toml serializer opens settings_file files h)
