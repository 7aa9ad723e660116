-- ===== src/Tests/Settings.antt =====
-- A file of settings that is written and read again, with a small library in place of toml++.
use mathlib.Core.List.{append_assoc, append-nil}
use bit_bridge.Prelude.{
  if◌then◌else◌, ◌≡◌, ℤ, pos, Bool, true, false, List, [], ◌∷◌, ◌++◌, Bytes, codes, same_text,
  same_text_self, sym, ◌∙◌, Option, none, some, arith, ap,
}
use bit_bridge.Ui.Toml.{Toml}
use bit_bridge.Ui.Settings.{AppSettings, default_settings, save_to_file, load_from_file}
use bit_bridge.Ui.Settings.Ranges.{IsSettingsInRange}
use bit_bridge.Ui.Settings.Lines.{
  Value, text, flag, integer, Line, lines_text, value_in, table_along, Reads,
}
use bit_bridge.Ui.Settings.RoundTrip.{settings_lines, load_from_file-save}

abbrev pub edited : AppSettings
edited = record {
  config_file_path = codes "lb.yaml";
  default_name = codes "edge";
  default_listen_address = codes "10.0.0.1";
  default_listen_port = 443;
  default_routing_algorithm = codes "maglev";
  default_health_check_enabled = false;
  default_health_check_interval_ms = 0;
  default_health_check_timeout_ms = 4294967295;
  default_health_check_unhealthy_threshold = 1;
  default_max_per_service = 10;
  default_idle_timeout_ms = 20;
  default_connect_timeout_ms = 30;
}

edited-IsSettingsInRange : IsSettingsInRange edited
edited-IsSettingsInRange = record {
  listen_port_fits = omega arith;
  interval_fits = omega arith;
  timeout_fits = omega arith;
  threshold_fits = omega arith;
  max_fits = omega arith;
  idle_fits = omega arith;
  connect_fits = omega arith;
}

-- A table is the keys on the way to it, in the file of the edited settings, the only one that is read.
abbrev pub as_text : Option Value → Option Bytes
as_text none = none
as_text (some (text s)) = some s
as_text (some (flag b)) = none
as_text (some (integer n)) = none

abbrev pub as_flag : Option Value → Option Bool
as_flag none = none
as_flag (some (text s)) = none
as_flag (some (flag b)) = some b
as_flag (some (integer n)) = none

abbrev pub as_integer : Option Value → Option ℤ
as_integer none = none
as_integer (some (text s)) = none
as_integer (some (flag b)) = none
as_integer (some (integer n)) = some (pos n)

abbrev pub edited_lines : List Line
edited_lines = settings_lines edited

abbrev pub parse_file : Bytes → Option (List Bytes)
parse_file s = if same_text s (lines_text edited_lines) then some [] else none

abbrev pub edited_file : Toml
edited_file = record {
  Table = List Bytes;
  parse_file = parse_file;
  table_at = λ path key. some (path ++ (key ∷ []));
  text_at = λ path key. as_text (value_in path key [] edited_lines);
  flag_at = λ path key. as_flag (value_in path key [] edited_lines);
  integer_at = λ path key. as_integer (value_in path key [] edited_lines);
}

table_along-path :
    (path next : List Bytes) → table_along edited_file path next ≡ some (path ++ next)
table_along-path path [] = ap some (sym (append-nil path))
table_along-path path (key ∷ next) =
    table_along-path (path ++ (key ∷ [])) next ∙ ap some (append_assoc path (key ∷ []) next)

edited_file-Reads : Reads edited_file edited_lines
edited_file-Reads = record {
  root = [];
  parsed = ground (arith, same_text_self (lines_text edited_lines));
  table = λ path. path;
  along = λ path e. table_along-path [] path;
  read = λ path e. record {
    text_read = λ key s e. ap as_text e;
    flag_read = λ key b e. ap as_flag e;
    integer_read = λ key n e. ap as_integer e;
  };
}

load_from_file-save_example :
    load_from_file edited_file true (save_to_file true none edited).1 default_settings
    ≡ (true, edited, (save_to_file true none edited).1)
load_from_file-save_example =
    load_from_file-save edited_file edited default_settings true none edited_file-Reads
      edited-IsSettingsInRange
