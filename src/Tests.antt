-- ===== src/Tests.antt =====
-- Concrete files and manifests, on which the properties are tried, and tests of them.
mod Manifests
mod Matches
mod Others
mod Parts
mod Analysis
use swupd_server.Prelude.{
  ℕ, ◌≡◌, ◌≢◌, refl, List, [], ◌∷◌, ◌++◌, Option, none, some, Bool, true, false, not, ◌&&◌,
  Ordering, arith, length, All,
}
use swupd_server.Text.{Text, codes, strcmp, same}
use swupd_server.File.{File, no_stat, no_rename_data, Distinct}
use swupd_server.Manifest.{Manifest, alloc_manifest}
use swupd_server.Config.{Config}

-- A regular file.
abbrev pub file : ℕ → Text → Text → ℕ → File
file addr filename hash last_change = record {
  addr = addr;
  filename = filename;
  hash = hash;
  use_xattrs = false;
  last_change = last_change;
  stat = no_stat;
  is_dir = false;
  is_file = true;
  is_link = false;
  is_deleted = false;
  is_ghosted = false;
  is_manifest = false;
  is_config = false;
  is_state = false;
  is_boot = false;
  is_rename = false;
  peer = none;
  rename_peer = none;
  rename_data = no_rename_data;
}

-- The entry of a file that is gone.
abbrev pub gone : ℕ → Text → ℕ → File
gone addr filename last_change = record (file addr filename (codes "00") last_change) {
  is_file = false;
  is_deleted = true;
}

abbrev pub manifest_of : ℕ → Text → List File → Manifest
manifest_of version component files = record {
  format = 1;
  version = version;
  prevversion = 0;
  component = component;
  count = length files;
  contentsize = 0;
  files = files;
  manifests = [];
  includes = [];
  actions = [];
}

-- The files of one bundle in version 10, and in version 20 of the same bundle, where one file
-- changed, one is new and one is gone.
abbrev pub bundle_10 : Manifest
bundle_10 = manifest_of 10 (codes "shell") (
    file 1 (codes "/bin/sh") (codes "a1") 10
    ∷ file 2 (codes "/bin/ls") (codes "b1") 10
    ∷ file 3 (codes "/bin/ed") (codes "c1") 10
    ∷ [])

abbrev pub bundle_20 : Manifest
bundle_20 = manifest_of 20 (codes "shell") (
    file 4 (codes "/bin/ls") (codes "b2") 20
    ∷ file 5 (codes "/bin/sh") (codes "a1") 20
    ∷ file 6 (codes "/bin/vi") (codes "d1") 20
    ∷ [])

abbrev pub core_20 : Manifest
core_20 =
    manifest_of 20 (codes "core")
      (file 7 (codes "/bin/sh") (codes "a1") 15 ∷ gone 8 (codes "/bin/vi") 20 ∷ [])

abbrev pub config : Config
config = record {
  banned = true;
  debuginfo_lib = some (codes "/usr/lib/debug");
  debuginfo_src = some (codes "/usr/src/debug");
}

-- Whether a name is none of those of a list, and whether no name occurs twice.
abbrev is_absent : Text → List File → Bool
is_absent n [] = true
is_absent n (f ∷ l) = not (same n f.filename) && is_absent n l

abbrev pub is_distinct : List File → Bool
is_distinct [] = true
is_distinct (f ∷ l) = is_absent f.filename l && is_distinct l

absent-All :
    (n : Text) (l : List File)
    → is_absent n l ≡ true
    → All (λ f. strcmp n f.filename ≢ Ordering.eq) l
absent-All n [] h = tt
absent-All n (f ∷ l) h = (ground arith, absent-All n l (ground arith))

pub is_distinct→Distinct : (l : List File) → is_distinct l ≡ true → Distinct l
is_distinct→Distinct [] h = tt
is_distinct→Distinct (f ∷ l) h =
    (absent-All f.filename l (ground arith), is_distinct→Distinct l (ground arith))

pub bundle_10_Distinct : Distinct bundle_10.files
unfolding strcmp
bundle_10_Distinct = is_distinct→Distinct bundle_10.files refl

pub bundle_20_Distinct : Distinct bundle_20.files
unfolding strcmp
bundle_20_Distinct = is_distinct→Distinct bundle_20.files refl

pub core_20_Distinct : Distinct core_20.files
unfolding strcmp
core_20_Distinct = is_distinct→Distinct core_20.files refl
