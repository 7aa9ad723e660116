-- ===== src/Ui/App.antt =====
-- ui/BitBridgeApp.cpp: the start of the desktop tool.
use bit_bridge.Prelude.{Bool, Bytes, Option}
use bit_bridge.Serialization.Serializer.{ConfigSerializer}
use bit_bridge.Ui.Toml.{Toml}
use bit_bridge.Ui.Settings.{default_settings, load_from_file}
use bit_bridge.Ui.Settings.Ranges.{
  load_from_file-IsSettingsInRange, default_settings-IsSettingsInRange,
}
use bit_bridge.Ui.MainFrame.Files.{make_frame}
use bit_bridge.Ui.MainFrame.Events.{Desk}
use bit_bridge.Ui.MainFrame.Kept.{Filed, IsKept, make_frame-IsKept}

module _ (toml : Toml) (serializer : ConfigSerializer) where
  open serializer use {Document}

  -- `OnInit` with the file of settings, which can be opened for writing or not, and the file that stands
  -- under each path.
  unfoldable pub on_init : Bool → Option Bytes → (Bytes → Option Document) → Desk Document
  unfolding load_from_file make_frame default_settings
  on_init opens settings_file files =
      let settings = (load_from_file toml opens settings_file default_settings).1 in
      let file = files settings.config_file_path in
      record { frame = make_frame serializer settings file; file = file }

  pub on_init-IsKept :
      (opens : Bool) (settings_file : Option Bytes) (files : Bytes → Option Document)
      → Filed serializer (on_init opens settings_file files).file
      → IsKept serializer (on_init opens settings_file files)
  unfolding on_init
  on_init-IsKept opens settings_file files h =
      let settings = (load_from_file toml opens settings_file default_settings).1 in
      make_frame-IsKept serializer settings (files settings.config_file_path)
        (load_from_file-IsSettingsInRange toml opens settings_file default_settings
          default_settings-IsSettingsInRange)
        h
