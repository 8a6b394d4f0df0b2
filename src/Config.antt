-- ===== src/Config.antt =====
-- src/config.c and file_is_debuginfo of src/helpers.c: what the program reads of server.ini. The
-- key file is GLib's: its lookups are given as fields.
use swupd_server.Prelude.{Bool, false, ◌||◌, Option, none, some}
use swupd_server.Text.{Text, starts_with}

-- The values of the keys that the model reads: [Debuginfo] banned, lib, src.
pub record Config : Type 0 where
  pub banned : Bool
  pub debuginfo_lib : Option Text
  pub debuginfo_src : Option Text

abbrev pub config_ban_debuginfo : Config → Bool
config_ban_debuginfo c = c.banned

abbrev pub has_prefix : Text → Option Text → Bool
has_prefix path none = false
has_prefix path (some p) = starts_with path p

unfoldable pub file_is_debuginfo : Config → Text → Bool
file_is_debuginfo c path = has_prefix path c.debuginfo_lib || has_prefix path c.debuginfo_src
