-- ===== src/Tests/Others.antt =====
-- The properties of the other parts, at concrete values.
use swupd_server.Prelude.{
  any, ℕ, ◌≡◌, ◌≢◌, ◌↔◌, ◌<◌, ◌⊎◌, refl, List, [], ◌∷◌, Option, some, true, false, All, arith, none,
}
use swupd_server.Text.{Text, starts_with, codes, strcmp}
use swupd_server.File.{File, file_sort_version, hash_compare}
use swupd_server.Sorter.Insertion.{insertion_sorter, insertion_sort, insert}
use swupd_server.Types.{type_change_detection, type_change_detection_iff, Compatible}
use swupd_server.Versions.{
  Entry, BuildType, get_build_type, get_jump_point, get_last_versions_list, select_walk,
  read_versions, compare_versions,
}
use swupd_server.Versions.Jump.{
  select_plain, get_last_versions_list-eq-plain, get_last_versions_list-All,
}
use swupd_server.Manifest.{Manifest}
use mathlib.Core.List.{mem-cons_self}
use swupd_server.Fullfiles.{get_deduplicated_fullfile_list}
use swupd_server.Fullfiles.Hashes.{
  OncePerHash, hash_refl, get_deduplicated_fullfile_list-OncePerHash,
}
use swupd_server.Packs.{
  consolidate_packs_delta_files, consolidate_packs_delta_files-OncePerDelta, OncePerDelta,
  consolidate_packs_delta_files_complete, has_delta_of,
}
use swupd_server.Manifest.Flags.{
  file_type_to_string, read_flags, cleared, one_of_each, read_flags-file_type_to_string,
}
use swupd_server.Renames.{
  Links, final_link, clean_renames, link_renames, clean_file, link_walk, link_rest,
  new_filtered_list, renamed_file_p,
}
use swupd_server.Renames.Pairs.{
  Sound, Pair, final_link-Sound, clean_renames_linked, link_renames_keeps,
}
use swupd_server.Names.{illegal_characters, illegal_characters_iff, strstr, bad_chars}
use swupd_server.Tests.{bundle_20, file, manifest_of}

-- Three regular versions, a fix, a development build and version 0.
abbrev staging : List Entry
staging =
    record { d_name = codes "100"; is_dir = true }
    ∷ record { d_name = codes "0"; is_dir = true }
    ∷ record { d_name = codes "latest"; is_dir = true }
    ∷ record { d_name = codes "121"; is_dir = true }
    ∷ record { d_name = codes "130"; is_dir = true }
    ∷ record { d_name = codes "119"; is_dir = true }
    ∷ record { d_name = codes "120"; is_dir = true }
    ∷ record { d_name = codes "110"; is_dir = true }
    ∷ []

get_last_versions_list-eq-plain_example :
    get_last_versions_list insertion_sorter staging 140 4
    ≡ select_plain 4 1 (insertion_sort compare_versions (read_versions 140 staging []))
get_last_versions_list-eq-plain_example =
    get_last_versions_list-eq-plain insertion_sorter staging 140 4 (omega arith)

get_last_versions_list-All_example :
    All
      (λ v. (v < 140) × (get_build_type v ≢ BuildType.dev))
      (get_last_versions_list insertion_sorter staging 140 4)
get_last_versions_list-All_example =
    get_last_versions_list-All insertion_sorter staging 140 4 (omega arith)

-- For 4 versions, three regular ones, the fix between them and version 0 are kept; 100, which is
-- their jump point, is not.
get_last_versions_list_example :
    get_last_versions_list insertion_sorter staging 140 4 ≡ 130 ∷ 121 ∷ 120 ∷ 110 ∷ 0 ∷ []
unfolding get_last_versions_list select_walk read_versions insertion_sort insert compare_versions
    get_build_type get_jump_point
get_last_versions_list_example = refl

-- A file that was a link before.
abbrev at : ℕ → Option File
at a = some (record (file a (codes "/bin/sh") (codes "a0") 10) { is_file = false; is_link = true })

abbrev linked : Manifest
linked =
    manifest_of 20 (codes "shell")
      (record (file 5 (codes "/bin/sh") (codes "a1") 20) { peer = some 1 } ∷ [])

type_change_detection_iff_example :
    (type_change_detection at linked ≡ true) ↔ All (Compatible at) linked.files
type_change_detection_iff_example = type_change_detection_iff at linked

get_deduplicated_fullfile_list-OncePerHash_example :
    OncePerHash (get_deduplicated_fullfile_list insertion_sorter bundle_20).1
get_deduplicated_fullfile_list-OncePerHash_example =
    get_deduplicated_fullfile_list-OncePerHash insertion_sorter bundle_20

-- The old file of each file.
abbrev old_at : ℕ → File
old_at a = file a (codes "/bin/sh") (codes "a0") 10

abbrev changed : File
changed = record (file 5 (codes "/bin/sh") (codes "a1") 20) { peer = some 1 }

consolidate_packs_delta_files-OncePerDelta_example : OncePerDelta old_at (
    consolidate_packs_delta_files old_at
      (λ f. false)
      (changed ∷ [])
      (record { from = 10; to = 20; end_manifest = some linked }))
consolidate_packs_delta_files-OncePerDelta_example =
    consolidate_packs_delta_files-OncePerDelta old_at (λ f. false) (changed ∷ [])
      (record { from = 10; to = 20; end_manifest = some linked }) (tt, tt)

consolidate_packs_delta_files_complete_example :
    any (has_delta_of old_at changed) (
      consolidate_packs_delta_files old_at
        (λ f. false)
        []
        (record { from = 10; to = 20; end_manifest = some linked }))
    ≡ true
consolidate_packs_delta_files_complete_example =
    consolidate_packs_delta_files_complete old_at (λ f. false) [] 10 20 linked changed mem-cons_self
      (omega arith) refl refl refl tt ((λ h v p. hash_refl (codes "a0")), tt)

-- A deleted configuration file that was renamed.
abbrev renamed : File
renamed = record (file 5 (codes "/etc/rc") (codes "a1") 20) {
  is_deleted = true;
  is_config = true;
  is_rename = true;
}

read_flags-file_type_to_string_example :
    read_flags (file_type_to_string renamed) cleared ≡ some (one_of_each renamed cleared)
read_flags-file_type_to_string_example = read_flags-file_type_to_string renamed

file_type_to_string_example : file_type_to_string renamed ≡ codes "FdCr"
unfolding file_type_to_string
file_type_to_string_example = refl

-- A file under its new name, the entry of its old name, and a mark that nothing matches.
abbrev moved : File
moved = record (file 5 (codes "/bin/new") (codes "a1") 20) { is_rename = true }

abbrev renames : Manifest
renames = manifest_of 20 (codes "shell") (
    moved
    ∷ record (file 6 (codes "/bin/old") (codes "a1") 20) { is_rename = true; is_deleted = true }
    ∷ record (file 7 (codes "/bin/stray") (codes "b1") 20) { is_rename = true }
    ∷ [])

abbrev unlinked : Links
unlinked a = none

final_link_example : final_link insertion_sorter renames.files unlinked 5 ≡ some 6
unfolding final_link link_walk link_rest new_filtered_list renamed_file_p insertion_sort insert
    file_sort_version strcmp hash_compare
final_link_example = refl

final_link-Sound_example :
    Sound renames.files unlinked (final_link insertion_sorter renames.files unlinked)
final_link-Sound_example = final_link-Sound insertion_sorter renames.files unlinked

clean_renames_linked_example :
    (b : ℕ) × ((clean_renames insertion_sorter renames unlinked).1 5 ≡ some b)
    × ((unlinked 5 ≡ some b) ⊎ Pair renames.files 5 b)
unfolding clean_renames clean_file final_link link_walk link_rest new_filtered_list renamed_file_p
    insertion_sort insert file_sort_version strcmp hash_compare
clean_renames_linked_example =
    clean_renames_linked insertion_sorter renames unlinked moved mem-cons_self refl

link_renames_keeps_example :
    (link_renames insertion_sorter 20 renames.files (λ a. some 1) unlinked).0 5 ≡ some 1
link_renames_keeps_example =
    link_renames_keeps insertion_sorter 20 renames.files (λ a. some 1) unlinked 5 1 refl

-- A name with a semicolon.
abbrev two_commands : Text
two_commands = codes "a;b"

illegal_characters_iff_example : (illegal_characters two_commands ≡ false) ↔ (
    (starts_with two_commands (codes "+") ≡ false)
    × (strstr two_commands (codes "+package+") ≡ false)
    × All (λ c. All (λ x. x ≢ c) two_commands) bad_chars)
illegal_characters_iff_example = illegal_characters_iff two_commands
