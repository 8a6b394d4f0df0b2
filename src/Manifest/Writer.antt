-- ===== src/Manifest/Writer.antt =====
-- write_manifest_plain of src/manifest.c: the text of a manifest. The time, the status of the group and
-- the configured directories are parameters, as is tar, which gives the file system after it has
-- unpacked a manifest, `none` where it fails.
use swupd_server.Prelude.{
  ℕ, List, [], ◌∷◌, ◌++◌, Option, none, some, Bool, if◌then◌else◌, map, ◌>>=◌,
}
use swupd_server.Text.{Text, codes}
use swupd_server.Text.Decimal.{decimal}
use swupd_server.File.{File}
use swupd_server.Manifest.{Manifest}
use swupd_server.Manifest.Flags.{file_type_to_string}
use swupd_server.Manifest.Size.{compute_content_size}
use swupd_server.Analyze.{FileSystem, populate_file_struct, compute_hash}

-- A line of the header: its name, a tab and its value.
abbrev pub keyed : Text → Text → Text
keyed key value = key ++ b'\t' ∷ value

abbrev pub status_lines : Option Text → List Text
status_lines none = []
status_lines (some status) = keyed (codes "status:") status ∷ []

-- The lines in front of the empty one, but for the first.
abbrev pub header_lines : Manifest → ℕ → Option Text → List Text
header_lines m timestamp status =
    keyed (codes "version:") (decimal m.version)
      ∷ keyed (codes "previous:") (decimal m.prevversion)
      ∷ keyed (codes "filecount:") (decimal m.count)
      ∷ keyed (codes "timestamp:") (decimal timestamp)
      ∷ keyed (codes "contentsize:") (decimal m.contentsize)
      ∷ status_lines status
    ++ map (keyed (codes "includes:")) m.includes
    ++ map (keyed (codes "actions:")) m.actions

unfoldable pub file_line : File → Text
file_line file =
    keyed (file_type_to_string file)
      (keyed file.hash (keyed (decimal file.last_change) file.filename))

-- The lines with their newlines.
unfoldable pub text_of : List Text → Text
text_of [] = []
text_of (line ∷ lines) = line ++ b'\n' ∷ text_of lines

-- The lines of a manifest, with the entries of the nested ones at the end.
abbrev pub manifest_lines : ℕ → ℕ → Option Text → Manifest → List Text
manifest_lines format timestamp status m =
    keyed (codes "MANIFEST") (decimal format) ∷ header_lines m timestamp status
    ++ [] ∷ (map file_line m.files ++ map file_line m.manifests)

unfoldable pub manifest_text : ℕ → ℕ → Option Text → Manifest → Text
manifest_text format timestamp status m = text_of (manifest_lines format timestamp status m)

-- Whether the file is written, could not be opened, or the program aborts.
pub data Written : Type 0 where
  written : Text → Manifest → Written
  failed aborted : Written

module _ (fs : FileSystem) (untar : Text → Option FileSystem) (output_dir tempdir : Text) where
  abbrev pub submanifest_filename : File → Text
  submanifest_filename file =
      output_dir ++ codes "/" ++ decimal file.last_change ++ codes "/Manifest." ++ file.filename

  abbrev pub hash_unpacked : File → Option FileSystem → Option File
  hash_unpacked file none = none
  hash_unpacked file (some fs') =
      let tempmanifest = tempdir ++ codes "/Manifest." ++ file.filename in
      compute_hash fs' (populate_file_struct fs' file tempmanifest) tempmanifest

  -- The entry of a nested manifest, whose hash is that of the manifest in its tar file.
  unfoldable pub nested_entry : File → Option File
  nested_entry file =
      let found = populate_file_struct fs file (submanifest_filename file) in
      if found.is_deleted
      then some found
      else hash_unpacked found (untar (submanifest_filename file ++ codes ".tar"))

  unfoldable pub nested_entries : List File → Option (List File)
  nested_entries [] = some []
  nested_entries (file ∷ list) =
      nested_entry file >>= λ file'. nested_entries list >>= λ list'. some (file' ∷ list')

  abbrev pub with_entries : ℕ → ℕ → Option Text → Manifest → Option (List File) → Written
  with_entries format timestamp status m none = Written.aborted
  with_entries format timestamp status m (some manifests) =
      let m' = record m { manifests = manifests } in
      Written.written (manifest_text format timestamp status m') m'

  -- `opens` is whether the file can be opened for writing.
  unfoldable pub write_manifest_plain : Bool → ℕ → ℕ → Option Text → Manifest → Written
  write_manifest_plain opens format timestamp status m =
      if opens
      then with_entries format timestamp status (compute_content_size m)
          (nested_entries m.manifests)
      else Written.failed
