-- ===== src/Analyze/Directory.antt =====
-- The walk of a directory in src/analyze_fs.c: add_file, iterate_directory and the two functions that
-- make a manifest of a directory. The walk goes down with fuel for the depth. The hashes are tasks
-- of a thread pool, which run in any order before the files are sorted; a task is the address of
-- its file.
pub mod Below
pub mod Added
pub mod Keeps
pub mod Manifests
pub mod Tasks
pub mod Ends
pub mod Covers
pub mod Sound
pub mod Hashed
pub mod Full
use swupd_server.Prelude.{
  ℕ, zero, suc, ◌+◌, ◌-◌, List, [], ◌∷◌, ◌++◌, Option, none, some, Bool, true, false, not, ◌&&◌,
  ◌||◌, ◌==◌, if◌then◌else◌, length, take, ◌>>=◌,
}
use swupd_server.Text.{Text, codes, same, strcmp}
use swupd_server.Text.Decimal.{decimal}
use swupd_server.File.{File, no_stat, no_rename_data, file_sort_filename}
use swupd_server.Config.{Config, config_ban_debuginfo, file_is_debuginfo}
use swupd_server.Names.{illegal_characters}
use swupd_server.Sorter.{Sorter}
use swupd_server.Manifest.{Manifest, alloc_manifest}
use swupd_server.Analyze.Lines.{lines_of, get_sub_manifest_includes}
use swupd_server.Analyze.{FileSystem, Opened, Listing, populate_file_struct, get_hash}

-- A value, an abort of the program, or the fuel is used up.
pub data Outcome {ℓ} (A : Type ℓ) : Type ℓ where
  done : A → Outcome A
  aborted out_of_fuel : Outcome A

abbrev pub after {ℓ κ} : {A : Type ℓ} {B : Type κ} → Outcome A → (A → Outcome B) → Outcome B
after (Outcome.done a) f = f a
after Outcome.aborted f = Outcome.aborted
after Outcome.out_of_fuel f = Outcome.out_of_fuel

-- The manifest that is made, and the files whose hash is to be computed.
pub record Walked : Type 0 where
  pub manifest : Manifest
  pub tasks : List ℕ

-- calloc, at an address from `alloc` on.
abbrev pub calloc_file : ℕ → Text → ℕ → File
calloc_file addr filename last_change = record {
  addr = addr;
  filename = filename;
  hash = [];
  use_xattrs = false;
  last_change = last_change;
  stat = no_stat;
  is_dir = false;
  is_file = false;
  is_link = false;
  is_deleted = false;
  is_ghosted = false;
  is_manifest = false;
  is_config = false;
  is_state = false;
  is_boot = false;
  is_rename = false;
  peer = none;
  rename_peer = none;
  rename_data = no_rename_data;
}

abbrev pub push_file : File → Bool → Walked → Walked
push_file file do_hash s = record {
  manifest = record s.manifest { files = file ∷ s.manifest.files; count = s.manifest.count + 1 };
  tasks = if do_hash then file.addr ∷ s.tasks else s.tasks;
}

-- The part of a path up to and with its last slash, and what follows it.
abbrev pub has_slash : Text → Bool
has_slash [] = false
has_slash (c ∷ s) = c == b'/' || has_slash s

abbrev pub dir_part : Text → Text
dir_part [] = []
dir_part (c ∷ s) = if has_slash (c ∷ s) then c ∷ dir_part s else []

abbrev pub base_part : Text → Text
base_part [] = []
base_part (c ∷ s) = if has_slash (c ∷ s) then base_part s else c ∷ s

module _ (cfg : Config) (fs : FileSystem) (alloc : ℕ) where
  -- A file that is found, before it is put into the manifest.
  abbrev pub found_file : Text → Text → Walked → File
  found_file sub_filename fullname s =
      populate_file_struct fs
        (calloc_file (alloc + s.manifest.count) sub_filename s.manifest.version) fullname

  -- The names that are passed over.
  abbrev pub is_banned : Text → Text → Bool
  is_banned entry_name sub_filename =
      (config_ban_debuginfo cfg && file_is_debuginfo cfg sub_filename)
      || illegal_characters entry_name

  -- The file that is added, if there is one, and the state after it.
  unfoldable pub add_file : Text → Text → Text → Bool → Walked → Outcome (Option File × Walked)
  add_file entry_name sub_filename fullname do_hash s =
      let file = found_file sub_filename fullname s in
      if is_banned entry_name sub_filename
      then Outcome.done (none, s)
      else if file.is_deleted
      then Outcome.aborted
      else Outcome.done (some file, push_file file do_hash s)

  -- The loop over the lines of a content file; `full` is the directory with the files.
  unfoldable pub line_walk : Text → Bool → List Text → Walked → Outcome Walked
  line_walk full do_hash [] s = Outcome.done s
  line_walk full do_hash (line ∷ lines) s =
      after (add_file (base_part line) line (full ++ line) do_hash s)
        (λ added. line_walk full do_hash lines added.1)

  abbrev pub content_walk : Text → Bool → Option Opened → Walked → Outcome Walked
  content_walk full do_hash none s = Outcome.done s
  content_walk full do_hash (some fl) s = line_walk full do_hash (lines_of fl.content) s

  -- What is below a directory that was added.
  abbrev pub below : (Text → Walked → Outcome Walked) → Option File → Walked → Outcome Walked
  below descend none s = Outcome.done s
  below descend (some file) s = if file.is_dir then descend file.filename s else Outcome.done s

  -- The loop over the entries of a directory.
  unfoldable pub entry_walk :
      (Text → Walked → Outcome Walked) → Text → Text → Bool → List Text → Walked → Outcome Walked
  entry_walk descend fullpath subpath do_hash [] s = Outcome.done s
  entry_walk descend fullpath subpath do_hash (d_name ∷ entries) s =
      let rest = entry_walk descend fullpath subpath do_hash entries in
      if same d_name (codes ".") || same d_name (codes "..")
      then rest s
      else after
          (add_file d_name (subpath ++ codes "/" ++ d_name) (fullpath ++ codes "/" ++ d_name)
            do_hash s)
          (λ added. after (below descend added.0 added.1) rest)

  -- The directory, or the content file in its place.
  abbrev pub listing_walk :
      (Text → Walked → Outcome Walked) → Text → Text → Bool → Listing → Walked → Outcome Walked
  listing_walk descend pathprefix subpath do_hash Listing.refused s = Outcome.done s
  listing_walk descend pathprefix subpath do_hash Listing.missing s =
      if length subpath == 0
      then content_walk (dir_part pathprefix ++ codes "full/") do_hash
          (fs.fopen (pathprefix ++ codes ".content.txt")) s
      else Outcome.aborted
  listing_walk descend pathprefix subpath do_hash (Listing.entries l) s =
      entry_walk descend (pathprefix ++ codes "/" ++ subpath) subpath do_hash l s

  unfoldable pub iterate_directory : ℕ → Text → Bool → Text → Walked → Outcome Walked
  iterate_directory zero pathprefix do_hash subpath s = Outcome.out_of_fuel
  iterate_directory (suc fuel) pathprefix do_hash subpath s =
      listing_walk (iterate_directory fuel pathprefix do_hash) pathprefix subpath do_hash
        (fs.opendir (pathprefix ++ codes "/" ++ subpath)) s

-- One task of the pool: the first file at its address, which is the only one.
--
-- The pool runs a task at any time after it is pushed, while the walk goes on, and the walk is over
-- before the pool is freed. Here the tasks run one after the other when the walk is over, which comes
-- to the same: a task writes nothing but the file object that it was given, and of that object the walk
-- reads only `filename`, which no task writes, and, of an entry of a directory, `is_dir`, which a task
-- writes with the value that it has, since add_file has called populate_file_struct for the same path.
unfoldable pub run_task : FileSystem → Option Text → ℕ → List File → Option (List File)
run_task fs base task [] = some []
run_task fs base task (f ∷ files) =
    let rest = run_task fs base task files in
    if f.addr == task
    then (get_hash fs base f >>= λ f'. some (f' ∷ files))
    else (rest >>= λ files'. some (f ∷ files'))

unfoldable pub run_tasks : FileSystem → Option Text → List ℕ → List File → Option (List File)
run_tasks fs base [] files = some files
run_tasks fs base (task ∷ tasks) files =
    run_task fs base task files >>= λ files'. run_tasks fs base tasks files'

abbrev pub image_of : Text → ℕ → Text → Text
image_of image_dir version component =
    image_dir ++ codes "/" ++ decimal version ++ codes "/" ++ component

-- The state in which the walk starts.
abbrev pub walk_start : ℕ → ℕ → Text → Walked
walk_start format version component = record {
  manifest = alloc_manifest format version component [];
  tasks = [];
}

module _ (sorter : Sorter File) (cfg : Config) (fs : FileSystem) (alloc format : ℕ)
    (image_dir : Text) where
  abbrev pub with_hashes : Manifest → Option (List File) → Outcome Manifest
  with_hashes m none = Outcome.aborted
  with_hashes m (some files) =
      Outcome.done (record m { files = sorter.sort file_sort_filename files })

  abbrev pub finish_full : Text → (List ℕ → List ℕ) → Walked → Outcome Manifest
  finish_full dir schedule s =
      with_hashes s.manifest (run_tasks fs (some dir) (schedule s.tasks) s.manifest.files)

  -- `schedule` is the order in which the pool runs the tasks.
  unfoldable pub full_manifest_from_directory : ℕ → (List ℕ → List ℕ) → ℕ → Outcome Manifest
  full_manifest_from_directory fuel schedule version =
      let dir = image_of image_dir version (codes "full") in
      after
        (iterate_directory cfg fs alloc fuel dir true [] (walk_start format version (codes "full")))
        (finish_full dir schedule)

module _ (sorter : Sorter File) (names : Sorter Text) (cfg : Config) (fs : FileSystem)
    (alloc format : ℕ) (image_dir conf : Text) where
  abbrev pub finish_sub : Text → ℕ → Walked → Outcome Manifest
  finish_sub component version s = Outcome.done (record s.manifest {
    files = sorter.sort file_sort_filename s.manifest.files;
    includes = get_sub_manifest_includes names fs conf component version;
  })

  unfoldable pub sub_manifest_from_directory : ℕ → Text → ℕ → Outcome Manifest
  sub_manifest_from_directory fuel component version =
      after
        (iterate_directory cfg fs alloc fuel (image_of image_dir version component) false []
          (walk_start format version component))
        (finish_sub component version)
