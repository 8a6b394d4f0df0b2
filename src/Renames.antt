-- ===== src/Renames.antt =====
-- The links between the two files of a rename: the filters and final_link of src/rename.c, and
-- clean_renames of src/manifest.c. The pointers `rename_peer` of all files are one function from the
-- address of a file to the address of its peer, which a call passes on.
pub mod Pairs
pub mod Score
pub mod Detect
use mathlib.Core.List.{Mem, mem-cons_self, mem-cons_of_mem}
use mathlib.Core.List.Perm
use swupd_server.Prelude.{
  ℕ, ◌≡◌, ◌⊎◌, refl, List, [], ◌∷◌, Option, some, Bool, true, false, not, ◌||◌, ◌&&◌, ◌==◌, arith,
  if◌then◌else◌, All, All-mem, All-perm, Bool-cases, inl, inr, map, ==_iff, Option-cases, none,
}
use swupd_server.File.{File, hash_compare, hash_set_zeros, file_sort_version, is_some}
use swupd_server.File.Order.{hash_compare_comm}
use swupd_server.Sorter.{Sorter}
use swupd_server.Manifest.{Manifest}
use swupd_server.Manifest.Subtract.{eqb}

abbrev pub Links : Type 0
Links = ℕ → Option ℕ

abbrev pub set : Links → ℕ → ℕ → Links
set links a b x = if x == a then some b else links x

-- A new list, in which each file is put in front.
unfoldable pub new_filtered_list : (File → Bool) → List File → List File → List File
new_filtered_list f [] newlist = newlist
new_filtered_list f (file ∷ list) newlist =
    new_filtered_list f list (if f file then file ∷ newlist else newlist)

unfoldable pub renamed_file_p : File → Bool
renamed_file_p file = file.is_rename

unfoldable pub new_file_p : ℕ → File → Bool
new_file_p version file =
    not (
      not (file.last_change == version) || file.is_deleted || not file.is_file || is_some file.peer)

-- The tests of the inner loop of final_link.
abbrev pub is_pair : File → File → Bool
is_pair file1 file2 =
    file1.last_change == file2.last_change
    && not (eqb file1.is_deleted file2.is_deleted)
    && hash_compare file2.hash file1.hash

-- The inner loop.
unfoldable pub link_rest : File → List File → Links → Links
link_rest file1 [] links = links
link_rest file1 (file2 ∷ list2) links = link_rest file1 list2 (
    if is_pair file1 file2
    then set (set links file1.addr file2.addr) file2.addr file1.addr
    else links)

-- The outer loop.
unfoldable pub link_walk : List File → Links → Links
link_walk [] links = links
link_walk (file1 ∷ list1) links =
    link_walk list1 (if is_some (links file1.addr) then links else link_rest file1 list1 links)

unfoldable pub final_link : Sorter File → List File → Links → Links
final_link s files links =
    link_walk (s.sort file_sort_version (new_filtered_list renamed_file_p files [])) links

-- The body of the loop of clean_renames.
unfoldable pub clean_file : Links → File → File
clean_file links file =
    if file.is_rename && not (is_some (links file.addr))
    then (if file.is_deleted
        then record file { is_rename = false; hash = hash_set_zeros }
        else record file { is_rename = false })
    else file

-- The manifest and the links after the call.
unfoldable pub clean_renames : Sorter File → Manifest → Links → Manifest × Links
clean_renames s m links =
    let links' = final_link s m.files links in
    (record m { files = map (clean_file links') m.files }, links')

-- The inner loop of link_renames: where the file came from. `peers` holds the pointers `peer`.
unfoldable pub find_origin : ℕ → Links → File → List File → Option ℕ
find_origin to_version peers file1 [] = none
find_origin to_version peers file1 (file2 ∷ list2) =
    let rest = find_origin to_version peers file1 list2 in
    elim (peers file2.addr) [
      | none ↦ rest
      | some p ↦
          if not file2.is_deleted || not (file2.last_change == to_version)
          then rest
          else if hash_compare file2.hash file1.hash
          then some p
          else rest
    ]

-- The outer loop: the pointers `peer` and `rename_peer` of all files after it.
unfoldable pub origin_walk : ℕ → List File → List File → Links → Links → Links × Links
origin_walk to_version targets [] peers links = (peers, links)
origin_walk to_version targets (file1 ∷ list1) peers links =
    if is_some (peers file1.addr) || file1.is_deleted
    then origin_walk to_version targets list1 peers links
    else elim (find_origin to_version peers file1 targets) [
      | none ↦ origin_walk to_version targets list1 peers links
      | some p ↦
          origin_walk to_version targets list1 (set peers file1.addr p)
            (set (set links file1.addr p) p file1.addr)
    ]

unfoldable pub link_renames : Sorter File → ℕ → List File → Links → Links → Links × Links
link_renames s to_version newfiles peers links =
    let targets = s.sort file_sort_version (new_filtered_list renamed_file_p newfiles []) in
    origin_walk to_version targets targets peers links
