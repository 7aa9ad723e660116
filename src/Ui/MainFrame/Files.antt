-- ===== src/Ui/MainFrame/Files.antt =====
-- The handlers of ui/MainFrame.cpp that read and write the configuration file, and its constructor.
use bit_bridge.Prelude.{Bool, Option, none, some, Outcome, returns, ◌>>=◌}
use bit_bridge.Model.Balancer
use bit_bridge.Model.Balancer.{
  LoadBalancerConfig, add_service, remove_service, set_listen_address, set_listen_port,
  set_routing_algorithm, set_health_check, set_connection,
}
use bit_bridge.Serialization.Serializer.{ConfigSerializer}
use bit_bridge.Serialization.Load.{Loading, loaded, failed, Saving, saved, not_opened}
use bit_bridge.Ui.Settings.{AppSettings}
use bit_bridge.Ui.MainFrame.{
  Message, MainFrame, on_name, not_found, not_parsed, not_saved, refresh_service_list, mark_saved,
  blank_frame,
}

-- The configuration file is what stands in it, `none` where there is none.
module _ (serializer : ConfigSerializer) where
  open serializer use {Document}

  abbrev pub taken : MainFrame → Loading → MainFrame
  taken m (loaded c) = mark_saved (refresh_service_list (record m { config = c }))
  taken m (failed c) = record m { config = c }

  -- It loads into the configuration of the window, which a failed `Load` leaves changed.
  unfoldable pub load_existing_config : Option Document → MainFrame → MainFrame
  unfolding refresh_service_list mark_saved
  load_existing_config none m = m
  load_existing_config (some document) m = taken m (serializer.load (some document) m.config)

  abbrev pub on_loaded : MainFrame → Loading → MainFrame × Option Message
  on_loaded m (loaded c) = (mark_saved (refresh_service_list (record m { config = c })), none)
  on_loaded m (failed c) = (m, some not_parsed)

  unfoldable pub on_load_config : Option Document → MainFrame → MainFrame × Option Message
  unfolding refresh_service_list mark_saved Balancer.defaults
  on_load_config none m = (m, some not_found)
  on_load_config (some document) m = on_loaded m (serializer.load (some document) Balancer.defaults)

  abbrev pub on_saved : MainFrame → Saving → MainFrame × Option Message
  on_saved m saved = (mark_saved m, none)
  on_saved m not_opened = (m, some not_saved)

  -- `has_parent` and `opens` as for `Save`, whose exception the handler does not catch.
  unfoldable pub on_save_config :
      Bool
      → Bool
      → Option Document
      → MainFrame
      → Outcome (MainFrame × Option Message × Option Document)
  unfolding mark_saved
  on_save_config has_parent opens file m =
      serializer.save has_parent opens file m.config
      >>= (λ (saving, file'). returns ((on_saved m saving).0, (on_saved m saving).1, file'))

  unfoldable pub make_frame : AppSettings → Option Document → MainFrame
  unfolding load_existing_config blank_frame
  make_frame settings file = record (load_existing_config file (blank_frame settings)) {
    focus = on_name;
  }
