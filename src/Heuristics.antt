-- ===== src/Heuristics.antt =====
-- src/heuristics.c: which files are configuration, runtime state or boot files, by their path.
use swupd_server.Prelude.{
  ◌≡◌, ap, ◌∙◌, Bool, true, false, not, ◌&&◌, ◌||◌, List, [], ◌∷◌, map, arith, if◌then◌else◌,
}
use swupd_server.Text.{Text, codes, same, starts_with}
use swupd_server.File.{File}
use swupd_server.Manifest.{Manifest}
use Prim.Native.String.{String}

-- Whether a path is one of the list, and whether it starts with one of the list.
unfoldable pub is_any : Text → List String → Bool
is_any path [] = false
is_any path (p ∷ l) = same path (codes p) || is_any path l

unfoldable pub starts_with_any : Text → List String → Bool
starts_with_any path [] = false
starts_with_any path (p ∷ l) = starts_with path (codes p) || starts_with_any path l

unfoldable pub config_file_heuristics : File → File
config_file_heuristics f =
    if starts_with f.filename (codes "/etc/") then record f { is_config = true } else f

-- Shipped directories that are not themselves state, only their contents are.
abbrev pub shipped_directories : List String
shipped_directories =
    "/usr/src/debug" ∷ "/usr/src/kernel" ∷ "/dev" ∷ "/home" ∷ "/proc" ∷ "/root" ∷ "/run" ∷ "/sys"
    ∷ "/tmp" ∷ "/var" ∷ []

-- Directories whose contents are state.
abbrev pub state_directories : List String
state_directories =
    "/dev/" ∷ "/home/" ∷ "/proc/" ∷ "/root/" ∷ "/run/" ∷ "/sys/" ∷ "/tmp/" ∷ "/var/" ∷ "/usr/src/"
    ∷ []

-- Directories that are commonly added for user customization.
abbrev pub customized : List String
customized =
    "/acct" ∷ "/cache" ∷ "/data" ∷ "/lost+found" ∷ "/mnt/asec" ∷ "/mnt/obb" ∷ "/mnt/shell/emulated"
    ∷ "/mnt/swupd" ∷ "/oem" ∷ "/system/rt/audio" ∷ "/system/rt/gfx" ∷ "/system/rt/media"
    ∷ "/system/rt/wifi" ∷ "/system/etc/firmware/virtual" ∷ []

unfoldable pub runtime_state_heuristics : File → File
runtime_state_heuristics f =
    if is_any f.filename shipped_directories
    then f
    else if starts_with f.filename (codes "/usr/src/kernel/")
    then f
    else if starts_with_any f.filename state_directories
    then record f { is_state = true }
    else if starts_with_any f.filename customized
    then record f { is_state = true }
    else f

abbrev pub boot_paths : List String
boot_paths =
    "/boot/" ∷ "/usr/lib/modules/" ∷ "/usr/lib/kernel/" ∷ "/usr/share/kernel/"
    ∷ "/usr/lib/gummiboot" ∷ "/usr/bin/gummiboot" ∷ []

unfoldable pub boot_file_heuristics : File → File
boot_file_heuristics f =
    if starts_with_any f.filename boot_paths then record f { is_boot = true } else f

unfoldable pub file_heuristics : File → File
unfolding config_file_heuristics runtime_state_heuristics boot_file_heuristics
file_heuristics f = boot_file_heuristics (runtime_state_heuristics (config_file_heuristics f))

unfoldable pub apply_heuristics : Manifest → Manifest
apply_heuristics m = record m { files = map file_heuristics m.files }

-- The path says that the contents are state, and neither that it is a shipped directory nor a
-- kernel source.
abbrev pub is_state_path : Text → Bool
is_state_path path =
    not (is_any path shipped_directories)
    && not (starts_with path (codes "/usr/src/kernel/"))
    && (starts_with_any path state_directories || starts_with_any path customized)

config_lem :
    (f : File)
    → config_file_heuristics f
      ≡ record f { is_config = f.is_config || starts_with f.filename (codes "/etc/") }
unfolding config_file_heuristics
config_lem f = ground arith

state_lem :
    (f : File)
    → runtime_state_heuristics f ≡ record f { is_state = f.is_state || is_state_path f.filename }
unfolding runtime_state_heuristics
state_lem f = ground arith

boot_lem :
    (f : File)
    → boot_file_heuristics f
      ≡ record f { is_boot = f.is_boot || starts_with_any f.filename boot_paths }
unfolding boot_file_heuristics
boot_lem f = ground arith

-- What the heuristics do to a file: three marks are raised by its path, none is lowered, and
-- nothing else changes. The path is a state path if it is in a state directory or a customized one,
-- is not a shipped directory itself and is not a kernel source.
pub file_heuristics_lem :
    (f : File)
    → file_heuristics f ≡ record f {
      is_config = f.is_config || starts_with f.filename (codes "/etc/");
      is_state = f.is_state || is_state_path f.filename;
      is_boot = f.is_boot || starts_with_any f.filename boot_paths;
    }
unfolding file_heuristics
file_heuristics_lem f =
    ap boot_file_heuristics (ap runtime_state_heuristics (config_lem f) ∙ state_lem _) ∙ boot_lem _
