-- ===== src/Manifest/Flags.antt =====
-- The first field of a line of a manifest: file_type_to_string of src/manifest.c, and how
-- manifest_from_file reads it back.
use swupd_server.Prelude.{
  ℕ, zero, suc, ◌≡◌, refl, ap, ◌∙◌, ◌>>=◌, [], ◌∷◌, Option, none, some, true, false, not, ◌&&◌,
  ◌==◌, arith, if◌then◌else◌,
}
use swupd_server.Text.{Text}
use swupd_server.File.{File, no_stat, no_rename_data}
use Prim.Native.Char.{code}

-- Each `if` of the code, the last of which decides.
abbrev pub type_letter : File → ℕ
type_letter f =
    if f.is_manifest
    then code "M"
    else if f.is_file
    then code "F"
    else if f.is_link
    then code "L"
    else if f.is_dir
    then code "D"
    else code "."

abbrev pub status_letter : File → ℕ
status_letter f = if f.is_ghosted then code "g" else if f.is_deleted then code "d" else code "."

abbrev pub modifier_letter : File → ℕ
modifier_letter f =
    if f.is_boot
    then code "b"
    else if f.is_state
    then code "s"
    else if f.is_config
    then code "C"
    else code "."

abbrev pub rename_letter : File → ℕ
rename_letter f = if f.is_rename then code "r" else code "."

unfoldable pub file_type_to_string : File → Text
file_type_to_string f = type_letter f ∷ status_letter f ∷ modifier_letter f ∷ rename_letter f ∷ []

-- The letter at an index. Behind the end is the NUL, at which an index below 3 stops the program.
abbrev pub letter : ℕ → Text → ℕ
letter n [] = 0
letter zero (c ∷ t) = c
letter (suc n) (c ∷ t) = letter n t

-- A failed assertion is `none`.
abbrev pub read_type : ℕ → File → Option File
read_type c file =
    if c == code "F"
    then some (record file { is_file = true })
    else if c == code "D"
    then some (record file { is_dir = true })
    else if c == code "L"
    then some (record file { is_link = true })
    else if c == code "M"
    then some (record file { is_manifest = true })
    else if c == code "."
    then some file
    else none

abbrev pub read_status : ℕ → File → Option File
read_status c file =
    if c == code "d"
    then some (record file { is_deleted = true })
    else if c == code "g"
    then some (record file { is_ghosted = true })
    else if c == code "."
    then some file
    else none

abbrev pub read_modifier : ℕ → File → Option File
read_modifier c file =
    if c == code "C"
    then some (record file { is_config = true })
    else if c == code "s"
    then some (record file { is_state = true })
    else if c == code "b"
    then some (record file { is_boot = true })
    else if c == code "."
    then some file
    else none

abbrev pub read_rename : ℕ → File → File
read_rename c file = if c == code "r" then record file { is_rename = true } else file

-- The part of manifest_from_file that reads the field into a file that calloc has cleared.
unfoldable pub read_flags : Text → File → Option File
read_flags c file = do
  typed ← read_type (letter 0 c) file
  known ← read_status (letter 1 c) typed
  marked ← read_modifier (letter 2 c) known
  some (read_rename (letter 3 c) marked)

-- The flags of a file after it was written and read: one type, one status and one modifier.
abbrev pub one_of_each : File → File → File
one_of_each f file = record file {
  is_manifest = f.is_manifest;
  is_file = f.is_file && not f.is_manifest;
  is_link = f.is_link && not f.is_file && not f.is_manifest;
  is_dir = f.is_dir && not f.is_link && not f.is_file && not f.is_manifest;
  is_ghosted = f.is_ghosted;
  is_deleted = f.is_deleted && not f.is_ghosted;
  is_boot = f.is_boot;
  is_state = f.is_state && not f.is_boot;
  is_config = f.is_config && not f.is_state && not f.is_boot;
  is_rename = f.is_rename;
}

-- calloc: every flag is 0.
abbrev pub cleared : File
cleared = record {
  addr = 0;
  filename = [];
  hash = [];
  use_xattrs = false;
  last_change = 0;
  stat = no_stat;
  is_dir = false;
  is_file = false;
  is_link = false;
  is_deleted = false;
  is_ghosted = false;
  is_manifest = false;
  is_config = false;
  is_state = false;
  is_boot = false;
  is_rename = false;
  peer = none;
  rename_peer = none;
  rename_data = no_rename_data;
}

abbrev pub with_type : File → File
with_type f = record cleared {
  is_manifest = f.is_manifest;
  is_file = f.is_file && not f.is_manifest;
  is_link = f.is_link && not f.is_file && not f.is_manifest;
  is_dir = f.is_dir && not f.is_link && not f.is_file && not f.is_manifest;
}

abbrev pub with_status : File → File
with_status f = record (with_type f) {
  is_ghosted = f.is_ghosted;
  is_deleted = f.is_deleted && not f.is_ghosted;
}

abbrev pub with_modifier : File → File
with_modifier f = record (with_status f) {
  is_boot = f.is_boot;
  is_state = f.is_state && not f.is_boot;
  is_config = f.is_config && not f.is_state && not f.is_boot;
}

pub type_back : (f : File) → read_type (type_letter f) cleared ≡ some (with_type f)
type_back f = ground arith

pub status_back :
    (f g : File)
    → g.is_ghosted ≡ false
    → g.is_deleted ≡ false
    → read_status (status_letter f) g
      ≡ some (record g { is_ghosted = f.is_ghosted; is_deleted = f.is_deleted && not f.is_ghosted })
status_back f g h k = ground arith

pub modifier_back :
    (f g : File)
    → g.is_boot ≡ false
    → g.is_state ≡ false
    → g.is_config ≡ false
    → read_modifier (modifier_letter f) g
      ≡ some (record g {
        is_boot = f.is_boot;
        is_state = f.is_state && not f.is_boot;
        is_config = f.is_config && not f.is_state && not f.is_boot;
      })
modifier_back f g h k l = ground arith

pub rename_back :
    (f g : File)
    → g.is_rename ≡ false
    → read_rename (rename_letter f) g ≡ record g { is_rename = f.is_rename }
rename_back f g h = ground arith

abbrev pub after_modifier : File → File → Option File
after_modifier f g = some (read_rename (rename_letter f) g)

abbrev pub after_status : File → File → Option File
after_status f g = read_modifier (modifier_letter f) g >>= after_modifier f

abbrev pub after_type : File → File → Option File
after_type f g = read_status (status_letter f) g >>= after_status f

-- What file_type_to_string writes is read back, for every file: the flags are those of the file
-- where it has at most one type, one status and one modifier, and where it has more the one written
-- last is left of each.
pub read_flags-file_type_to_string :
    (f : File) → read_flags (file_type_to_string f) cleared ≡ some (one_of_each f cleared)
unfolding read_flags file_type_to_string
read_flags-file_type_to_string f =
    ap (λ o. o >>= after_type f) (type_back f)
    ∙ ap (λ o. o >>= after_status f) (status_back f (with_type f) refl refl)
    ∙ ap (λ o. o >>= after_modifier f) (modifier_back f (with_status f) refl refl refl)
    ∙ ap some (rename_back f (with_modifier f) refl)
