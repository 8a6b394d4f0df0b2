-- ===== src/Manifest/Reader/Whole.antt =====
-- A whole manifest file that src/manifest.c writes and reads.
use mathlib.Core.List.{append-nil}
use swupd_server.Prelude.{
  ℕ, suc, ◌+◌, ◌≡◌, ◌≤◌, ◌<◌, refl, sym, ap, ◌∙◌, List, [], ◌∷◌, ◌++◌, Option, some, Bool, true,
  false, not, ◌&&◌, ◌==◌, arith, if◌then◌else◌, length, All, ◌>>=◌, map, ltb,
}
use swupd_server.Text.{Text, codes, starts_with}
use swupd_server.Text.Decimal.{decimal, ullong_max, strtoull, strtoull-decimal}
use swupd_server.File.{File, file_sort_filename}
use swupd_server.Sorter.{Sorter}
use swupd_server.Manifest.{Manifest, alloc_manifest}
use swupd_server.Manifest.Flags.{file_type_to_string}
use swupd_server.Manifest.Writer.{keyed, header_lines, file_line, manifest_lines, manifest_text}
use swupd_server.Manifest.Reader.{
  Header, Loaded, split_tab, read_files, put_line, nest_manifest_file, counted_once_more, format_of,
  manifest_path, manifest_from_file, read_content, read_lines, read_numbered, sort_files,
  start_files,
}
use swupd_server.Manifest.Reader.Lines.{Lacks, IsLine, pieces-text_of}
use swupd_server.Manifest.Reader.Entries.{kept, file_of_line-file_line}
use swupd_server.Manifest.Reader.RoundTrip.{onto, header_back}

abbrev pub lacks : ℕ → Text → Bool
lacks c [] = true
lacks c (d ∷ s) = not (d == c) && lacks c s

-- Whether fgets reads a line whole.
abbrev pub is_line : Text → Bool
is_line line = lacks b'\n' line && ltb (length line) 8190

-- Whether a file is no manifest and has a version and a hash that can be read.
abbrev pub is_plain : File → Bool
is_plain f = lacks b'\t' f.hash && ltb f.last_change 2147483648 && not f.is_manifest

abbrev pub every {ℓ} : {A : Type ℓ} → (A → Bool) → List A → Bool
every p [] = true
every p (x ∷ l) = p x && every p l

lacks-Lacks : (c : ℕ) (s : Text) → lacks c s ≡ true → Lacks c s
lacks-Lacks c [] h = tt
lacks-Lacks c (d ∷ s) h = (ground (arith, h), lacks-Lacks c s (ground (arith, h)))

every-IsLine : (l : List Text) → every is_line l ≡ true → All IsLine l
every-IsLine [] h = tt
every-IsLine (x ∷ l) h = (
  (lacks-Lacks b'\n' x (ground (arith, h)), ground (arith, h)),
  every-IsLine l (ground (arith, h)),
)

-- What is read of a list of files, each in front of those before it.
abbrev pub read_back : ℕ → List File → List File → List File
read_back addr [] files = files
read_back addr (f ∷ l) files = read_back (addr + 1) l (kept addr f ∷ files)

line_full : (f : File) → (length (file_line f) == 0) ≡ false
unfolding file_line file_type_to_string
line_full f = ground arith

abbrev with_count : Loaded → ℕ → Option Loaded
with_count l n = some (record l { manifest = record l.manifest { count = n } })

module _ (manifest_from : ℕ → Text → Option (Option Loaded)) where
  put_kept :
      (addr : ℕ) (f : File) (l : Loaded)
      → f.is_manifest ≡ false
      → put_line manifest_from l (some (kept addr f))
        ≡ some (record l {
          manifest = record l.manifest {
            files = kept addr f ∷ l.manifest.files;
            count = l.manifest.count + 1;
          };
        })
  put_kept addr f l h =
      let there : Loaded = record l {
        manifest = record l.manifest { files = kept addr f ∷ l.manifest.files };
      } in
      ap
        (λ b. (if b then nest_manifest_file manifest_from l (kept addr f) else some there) >>= λ l'.
          some (counted_once_more manifest_from l'))
        h

  first_line :
      (addr : ℕ) (f : File) (lines : List Text) (l : Loaded)
      → is_plain f ≡ true
      → read_files manifest_from addr (file_line f ∷ lines) l
        ≡ read_files manifest_from (addr + 1) lines (record l {
          manifest = record l.manifest {
            files = kept addr f ∷ l.manifest.files;
            count = l.manifest.count + 1;
          };
        })
  unfolding read_files
  first_line addr f lines l h =
      let not_empty : (length (file_line f) == 0) ≡ false = line_full f in
      let read =
        file_of_line-file_line addr f (lacks-Lacks b'\t' f.hash (ground (arith, h)))
          (ground (arith, h)) in
      rw (not_empty, read, put_kept addr f l (ground (arith, h))) refl

  -- The entries are read back, each at an address of its own.
  read_files_back :
      (addr : ℕ) (fs : List File) (l : Loaded)
      → every is_plain fs ≡ true
      → read_files manifest_from addr (map file_line fs) l
        ≡ some (record l {
          manifest = record l.manifest {
            files = read_back addr fs l.manifest.files;
            count = l.manifest.count + length fs;
          };
        })
  unfolding read_files
  read_files_back addr [] l h = ap (with_count l) (omega arith)
  read_files_back addr (f ∷ fs) l h =
      let next : Loaded = record l {
        manifest = record l.manifest {
          files = kept addr f ∷ l.manifest.files;
          count = l.manifest.count + 1;
        };
      } in
      let last : Loaded = record l {
        manifest = record l.manifest {
          files = read_back (addr + 1) fs (kept addr f ∷ l.manifest.files);
        };
      } in
      first_line addr f (map file_line fs) l (ground (arith, h))
      ∙ read_files_back (addr + 1) fs next (ground (arith, h))
      ∙ ap (with_count last) (omega arith)

format_back :
    (n : ℕ)
    → n ≤ ullong_max
    → (n == 0) ≡ false
    → format_of (keyed (codes "MANIFEST") (decimal n)) ≡ some n
unfolding split_tab starts_with
format_back n h k =
    let whole : strtoull (decimal n) ≡ n =
      ap strtoull (sym (append-nil (decimal n))) ∙ strtoull-decimal n [] h refl in
    rw (whole, k) refl

module _ (sorter : Sorter File) (files : Text → Option Text) (output_dir : Text) (default : ℕ)
    (alloc : ℕ → Text → ℕ) where
  -- What is read of a manifest: a new one, but for the fields given. `kept` gives the fields of a file
  -- that are read.
  abbrev pub manifest_read : ℕ → ℕ → Text → Manifest → Loaded
  manifest_read format version component m = record {
    manifest = record (alloc_manifest default m.version component []) {
      format = format;
      prevversion = m.prevversion;
      includes = onto m.includes [];
      count = length m.files;
      files = sorter.sort file_sort_filename (read_back (alloc version component) m.files []);
    };
    submanifests = [];
  }

  -- A manifest without nested ones, in which no file is a manifest, that is written under a format that
  -- is neither 0 nor beyond 64 bits, where the versions fit in an int, each line is short
  -- enough for fgets and has no newline in it, and the hashes have no tab, is read back by manifest_from_file as far as the text has it, whatever else the file system
  -- has: the format, the component, the version, the previous version, the includes in the opposite
  -- order, as many files as are counted, and for each file, sorted by name, its name, its last change,
  -- the first 64 bytes of its hash, whether it is renamed, and the one type, the one status and the
  -- one modifier that were written. So a file that is both ghosted and deleted is read as ghosted
  -- alone, and of boot, state and config only the first that it is. What else a file or a manifest has,
  -- the content size among it, is read as it is in a new one.
  pub manifest_from_file-manifest_text :
      (fuel version : ℕ) (component : Text) (format timestamp : ℕ) (status : Option Text)
      (m : Manifest)
      → files (manifest_path sorter files output_dir default alloc version component)
        ≡ some (manifest_text format timestamp status m)
      → m.manifests ≡ []
      → every is_line (manifest_lines format timestamp status m) ≡ true
      → every is_plain m.files ≡ true
      → m.version < 2147483648
      → m.prevversion < 2147483648
      → format ≤ ullong_max
      → (format == 0) ≡ false
      → manifest_from_file sorter files output_dir default alloc (suc fuel) version component
        ≡ some (some (manifest_read format version component m))
  unfolding manifest_from_file manifest_text alloc_manifest
  manifest_from_file-manifest_text fuel version component format timestamp status m there flat short
        plain v p f nz =
      let mf : ℕ → Text → Option (Option Loaded) =
        manifest_from_file sorter files output_dir default alloc fuel in
      let entries : List Text = map file_line m.files ++ map file_line m.manifests in
      let lines : List Text = header_lines m timestamp status ++ [] ∷ entries in
      let h : Header = record {
        version = m.version;
        previous = m.prevversion;
        includes = onto m.includes [];
      } in
      let start : Loaded = start_files sorter files output_dir default alloc format component h in
      let finish : Option Loaded → Option (Option Loaded) =
        λ o. o >>= λ l. some (sort_files sorter files output_dir default alloc l) in
      let addr : ℕ = alloc version component in
      ap (read_content sorter files output_dir default alloc mf version component) there
      ∙ ap (read_lines sorter files output_dir default alloc mf version component) (
          pieces-text_of (manifest_lines format timestamp status m)
            (every-IsLine (manifest_lines format timestamp status m) short))
      ∙ ap (λ o. read_numbered sorter files output_dir default alloc mf o version component lines)
          (format_back format f nz)
      ∙ ap
          (λ o. o >>= λ r. finish (
            read_files mf addr r.1
              (start_files sorter files output_dir default alloc format component r.0)))
          (header_back m timestamp version status entries (omega (arith, v)) (omega (arith, p)))
      ∙ ap (λ ms. finish (read_files mf addr (map file_line m.files ++ map file_line ms) start))
          flat
      ∙ ap (λ l. finish (read_files mf addr l start)) (append-nil (map file_line m.files))
      ∙ ap finish (read_files_back mf addr m.files start plain)
      ∙ ap
          (λ n. some (
            some (record (manifest_read format version component m) {
              manifest = record (manifest_read format version component m).manifest { count = n };
            })))
          (omega arith)
