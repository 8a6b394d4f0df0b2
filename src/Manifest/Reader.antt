-- ===== src/Manifest/Reader.antt =====
-- manifest_from_file of src/manifest.c. A manifest of manifests is read with those it names, on fuel for
-- how deep they are nested; the files of one have addresses from `alloc` on. `files` gives the content of a file, `none` where it cannot be opened. A
-- version is an int below 2 ^ 31.
pub mod Lines
pub mod Entries
pub mod RoundTrip
pub mod Whole
use swupd_server.Prelude.{
  ℕ, zero, suc, ◌+◌, ◌%◌, List, [], ◌∷◌, ◌++◌, Option, none, some, Bool, true, false, ◌==◌,
  if◌then◌else◌, length, ◌>>=◌,
}
use swupd_server.Text.{Text, codes, starts_with}
use swupd_server.Text.Decimal.{decimal, strtoull}
use swupd_server.File.{File, hash_assign, file_sort_filename}
use swupd_server.Sorter.{Sorter}
use swupd_server.Manifest.{Manifest, alloc_manifest}
use swupd_server.Manifest.Flags.{cleared, read_flags}
use swupd_server.Analyze.Lines.{pieces}

-- The text up to the first tab, and what stands behind the tab.
abbrev pub put_first : ℕ → Text × Option Text → Text × Option Text
put_first c (field, rest) = (c ∷ field, rest)

unfoldable pub split_tab : Text → Text × Option Text
split_tab [] = ([], none)
split_tab (c ∷ s) = let rest = split_tab s in if c == b'\t' then ([], some s) else put_first c rest

-- What the header says.
pub record Header : Type 0 where
  pub version : ℕ
  pub previous : ℕ
  pub includes : List Text

-- strtoull, stored in an int.
abbrev pub to_int : Text → ℕ
to_int c = strtoull c % 4294967296

-- One line of the header, with what stands behind its tab.
abbrev pub header_field : Text → Text → Header → Header
header_field line c h = record {
  version = if starts_with line (codes "version:") then to_int c else h.version;
  previous = if starts_with line (codes "previous:") then to_int c else h.previous;
  includes = if starts_with line (codes "includes:") then c ∷ h.includes else h.includes;
}

abbrev pub header_line : Text → Option Text → Header → Option Header
header_line line none h = none
header_line line (some c) h = some (header_field line c h)

-- The loop over the header, which ends at an empty line: what it says, and the lines behind it. A line
-- without a tab stops the program.
unfoldable pub read_header : List Text → Header → Option (Header × List Text)
read_header [] h = some (h, [])
read_header (line ∷ lines) h =
    if length line == 0
    then some (h, lines)
    else (header_line line (split_tab line).1 h >>= λ h'. read_header lines h')

-- The fields of a line behind the flags; a line in which one is missing is passed over.
abbrev pub read_name : File → Text × Option Text → Option File
read_name file (last, none) = none
read_name file (last, some filename) =
    some (record file { last_change = to_int last; filename = filename })

abbrev pub read_change : File → Text × Option Text → Option File
read_change file (hash, none) = none
read_change file (hash, some c) = read_name (record file { hash = hash_assign hash }) (split_tab c)

abbrev pub read_hash : Option Text → File → Option File
read_hash none file = none
read_hash (some c) file = read_change file (split_tab c)

-- The file of a line, if it has one; the outer `none` is an abort of the program.
unfoldable pub file_of_line : ℕ → Text → Option (Option File)
file_of_line addr line =
    let (flags, rest) = split_tab line in
    read_flags flags (record cleared { addr = addr }) >>= λ file. some (read_hash rest file)

-- A manifest with the manifests that it names; NULL is `none`.
pub record Loaded : Type 0 where
  pub manifest : Manifest
  pub submanifests : List (Option Manifest)

abbrev pub loaded : Option Loaded → Option Manifest
loaded none = none
loaded (some l) = some l.manifest

module _ (manifest_from : ℕ → Text → Option (Option Loaded)) where
  unfoldable pub nest_manifest_file : Loaded → File → Option Loaded
  nest_manifest_file parent file = manifest_from file.last_change file.filename >>= λ sub.
      some (record {
        manifest = record parent.manifest {
          manifests = file ∷ parent.manifest.manifests;
          count = parent.manifest.count + 1;
        };
        submanifests = loaded sub ∷ parent.submanifests;
      })

  abbrev pub counted_once_more : Loaded → Loaded
  counted_once_more l = record l { manifest = record l.manifest { count = l.manifest.count + 1 } }

  abbrev pub put_file : Loaded → File → Option Loaded
  put_file l file =
      if file.is_manifest
      then nest_manifest_file l file
      else some (record l { manifest = record l.manifest { files = file ∷ l.manifest.files } })

  abbrev pub put_line : Loaded → Option File → Option Loaded
  put_line l none = some l
  put_line l (some file) = put_file l file >>= λ l'. some (counted_once_more l')

  -- The loop over the files; `addr` is the next free address.
  unfoldable pub read_files : ℕ → List Text → Loaded → Option Loaded
  read_files addr [] l = some l
  read_files addr (line ∷ lines) l =
      if length line == 0
      then some l
      else (file_of_line addr line >>= λ file.
          put_line l file >>= λ l'. read_files (addr + 1) lines l')

-- What is left of the first line, behind "MANIFEST" and a tab.
abbrev pub format_of : Text → Option ℕ
format_of line =
    if starts_with line (codes "MANIFEST" ++ b'\t' ∷ [])
    then (let n = strtoull (behind line) in if n == 0 then none else some n)
    else none
  where
    behind : Text → Text
    behind s = elim (split_tab s).1 [ none ↦ [] | some c ↦ c ]

module _ (sorter : Sorter File) (files : Text → Option Text) (output_dir : Text) (format : ℕ)
    (alloc : ℕ → Text → ℕ) where
  abbrev pub manifest_path : ℕ → Text → Text
  manifest_path version component =
      output_dir ++ codes "/" ++ decimal version ++ codes "/Manifest." ++ component

  abbrev pub start_files : ℕ → Text → Header → Loaded
  start_files number component h = record {
    manifest = record (alloc_manifest format h.version component []) {
      format = number;
      prevversion = h.previous;
      includes = h.includes;
    };
    submanifests = [];
  }

  abbrev pub sort_files : Loaded → Option Loaded
  sort_files l = some (record l {
    manifest = record l.manifest { files = sorter.sort file_sort_filename l.manifest.files };
  })

  -- What is read behind the first line.
  abbrev pub read_body :
      (ℕ → Text → Option (Option Loaded)) → ℕ → ℕ → Text → List Text → Option (Option Loaded)
  read_body manifest_from number version component lines =
      read_header lines (record { version = version; previous = 0; includes = [] }) >>= λ r.
      read_files manifest_from (alloc version component) r.1 (start_files number component r.0)
      >>= λ l. some (sort_files l)

  abbrev pub read_numbered :
      (ℕ → Text → Option (Option Loaded)) → Option ℕ → ℕ → Text → List Text → Option (Option Loaded)
  read_numbered manifest_from none version component lines = some none
  read_numbered manifest_from (some number) version component lines =
      read_body manifest_from number version component lines

  abbrev pub read_lines :
      (ℕ → Text → Option (Option Loaded)) → ℕ → Text → List Text → Option (Option Loaded)
  read_lines manifest_from version component [] = some none
  read_lines manifest_from version component (line ∷ lines) =
      read_numbered manifest_from (format_of line) version component lines

  abbrev pub read_content :
      (ℕ → Text → Option (Option Loaded)) → ℕ → Text → Option Text → Option (Option Loaded)
  read_content manifest_from version component none =
      some
        (some (record { manifest = alloc_manifest format version component []; submanifests = [] }))
  read_content manifest_from version component (some content) =
      read_lines manifest_from version component (pieces 8190 content)

  -- The outer `none` is an abort of the program or the end of the fuel, the inner one is NULL.
  unfoldable pub manifest_from_file : ℕ → ℕ → Text → Option (Option Loaded)
  manifest_from_file zero version component = none
  manifest_from_file (suc fuel) version component =
      read_content (manifest_from_file fuel) version component
        (files (manifest_path version component))
