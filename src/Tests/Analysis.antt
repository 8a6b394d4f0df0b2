-- ===== src/Tests/Analysis.antt =====
-- The analysis of a directory and the loops over the groups, at a concrete file system.

use swupd_server.Prelude.{
  ℕ, ◌≡◌, ◌↔◌, refl, List, [], ◌∷◌, ◌++◌, Option, none, some, true, false, Bool, All, if◌then◌else◌,
  compare,
}
use swupd_server.Text.{Text, codes, same, strcmp, starts_with}
use swupd_server.Text.Decimal.{decimal, digits}
use swupd_server.Names.{illegal_characters, strstr, has_bad}
use swupd_server.File.{UpdateStat}
use swupd_server.Config.{file_is_debuginfo}
use swupd_server.Sorter.Insertion.{insertion_sorter}
use swupd_server.Manifest.{Manifest}
use swupd_server.Analyze.{FileSystem, Listing, based, get_hash}
use swupd_server.Analyze.Hash.{is_unreadable, hash_result, get_hash_fails_iff, get_hash_same}
use swupd_server.Analyze.Directory.{
  Outcome, image_of, full_manifest_from_directory, sub_manifest_from_directory,
}
use swupd_server.Analyze.Directory.Manifests.{IsManifestOf, sub_manifest_from_directory_exact}
use swupd_server.Analyze.Directory.Hashed.{IsHashed, is_present, is_present_at}
use swupd_server.Analyze.Directory.Full.{full_manifest_from_directory_exact}
use swupd_server.Analyze.Directory.Ends.{is_settled}
use swupd_server.Groups.{check_group_file, populate_dirs, missing_dirs, visit_all}
use swupd_server.Groups.Visits.{groups_at, check_group_file_visits}
use swupd_server.Tests.{config, file}

-- A directory with a file, a link and a directory, in which there is one file.
abbrev opendir : Text → Listing
opendir path =
    if same path (codes "/i/20/core/")
    then Listing.entries (codes "." ∷ codes "motd" ∷ codes "lib" ∷ codes "usr" ∷ [])
    else if same path (codes "/i/20/core//usr")
    then Listing.entries (codes "vi" ∷ codes ".." ∷ [])
    else if same path (codes "/i/20/full/")
    then Listing.entries (codes "sh" ∷ codes "usr" ∷ codes "ls" ∷ [])
    else if same path (codes "/i/20/full//usr")
    then Listing.entries (codes "vi" ∷ [])
    else Listing.missing

abbrev status : ℕ → UpdateStat
status st_mode = record { st_mode = st_mode; st_uid = 0; st_gid = 0; st_rdev = 0; st_size = 5 }

-- Modes 0100644, 0120777 and 0040755.
abbrev lstat : Text → Option UpdateStat
lstat path =
    if same path (codes "/i/20/core//lib")
    then some (status 41471)
    else if same path (codes "/i/20/core//usr")
    then some (status 16877)
    else if same path (codes "/i/20/full//usr")
    then some (status 16877)
    else if same path (codes "/i/20/full//sh")
    then some (status 41471)
    else some (status 33188)

abbrev files : FileSystem
files = record {
  lstat = lstat;
  readlink = λ path. some (codes "usr/lib");
  fopen = λ path.
      if same path (codes "secret")
      then none
      else some (record { content = codes "hello"; maps = true });
  opendir = opendir;
  xattrs_get_blob = λ path. [];
  hmac = λ key content. some (key ++ content);
  stat_bytes = λ stat. stat.st_mode ∷ stat.st_size ∷ [];
}

get_hash_fails_iff_example :
    (get_hash files none (file 1 (codes "secret") [] 20) ≡ none)
    ↔ (is_unreadable files (based none (codes "secret")) ≡ true)
get_hash_fails_iff_example = get_hash_fails_iff files none (file 1 (codes "secret") [] 20) refl

get_hash_same_example :
    hash_result (get_hash files none (file 1 (codes "/a") (codes "x") 10))
    ≡ hash_result (get_hash files (some (codes "/i")) (file 2 (codes "/b") (codes "y") 20))
unfolding strcmp
get_hash_same_example =
    get_hash_same files none (some (codes "/i")) (file 1 (codes "/a") (codes "x") 10)
      (file 2 (codes "/b") (codes "y") 20) refl refl refl refl refl refl

abbrev full : Text
full = image_of (codes "/i") 20 (codes "full")

full_settled : is_settled config files 1 full 2 [] ≡ true
unfolding strcmp starts_with strstr has_bad illegal_characters file_is_debuginfo decimal digits
full_settled = refl

-- Every path that does not begin with the letter s can be read.
present_path : (x : Text) → is_present files (based (some full) x) ≡ true
unfolding strcmp
present_path x =
    present (same (based (some full) x) (codes "/i/20/core//lib"))
      (same (based (some full) x) (codes "/i/20/core//usr"))
      (same (based (some full) x) (codes "/i/20/full//usr"))
      (same (based (some full) x) (codes "/i/20/full//sh"))
  where
    present :
        (a b c d : Bool)
        → is_present_at files (based (some full) x) (
            if a
            then some (status 41471)
            else if b
            then some (status 16877)
            else if c
            then some (status 16877)
            else if d
            then some (status 41471)
            else some (status 33188))
          ≡ true
    present true b c d = refl
    present false true c d = refl
    present false false true d = refl
    present false false false true = refl
    present false false false false = refl

full_manifest_from_directory_exact_example :
    (m : Manifest) × (full_manifest_from_directory insertion_sorter config files 1 20
        (codes "/i")
        2
        (λ tasks. insertion_sorter.sort compare tasks)
        20
      ≡ Outcome.done m)
    × IsManifestOf config files 1 20 full m
    × All (IsHashed files full) m.files
full_manifest_from_directory_exact_example =
    full_manifest_from_directory_exact insertion_sorter config files 1 20 (codes "/i") 2
      (λ tasks. insertion_sorter.sort compare tasks) 20
      (λ tasks. insertion_sorter.perm compare tasks) full_settled (λ x b. present_path x)

core_settled : is_settled config files 1 (image_of (codes "/i") 20 (codes "core")) 2 [] ≡ true
unfolding strcmp starts_with strstr has_bad illegal_characters file_is_debuginfo decimal digits
core_settled = refl

sub_manifest_from_directory_exact_example :
    (m : Manifest) × (sub_manifest_from_directory insertion_sorter insertion_sorter config files 1
        20
        (codes "/i")
        (codes "/conf")
        2
        (codes "core")
        20
      ≡ Outcome.done m)
    × IsManifestOf config files 1 20 (image_of (codes "/i") 20 (codes "core")) m
sub_manifest_from_directory_exact_example =
    sub_manifest_from_directory_exact insertion_sorter insertion_sorter config files 1 20
      (codes "/i") (codes "/conf") 2 (codes "core") 20 core_settled

abbrev four_groups : List Text
four_groups = codes "editors" ∷ codes "os-core" ∷ codes "shell" ∷ codes "vi" ∷ []

-- Four groups, the second of which is os-core.
check_group_file_visits_example :
    ((check_group_file (groups_at four_groups 0)).0 ≡ true)
    × (populate_dirs (λ path. false) (codes "/i") 20 (check_group_file (groups_at four_groups 0)).1
        ≡ (
          missing_dirs (λ path. false) (codes "/i") 20 (codes "shell" ∷ codes "vi" ∷ []),
          groups_at four_groups 0,
        ))
    × (visit_all (groups_at four_groups 0) ≡ (four_groups, groups_at four_groups 0))
unfolding strcmp
check_group_file_visits_example =
    check_group_file_visits (λ path. false) (codes "/i") 20 (codes "editors" ∷ [])
      (codes "shell" ∷ codes "vi" ∷ []) refl (refl, tt)
