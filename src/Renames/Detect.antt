-- ===== src/Renames/Detect.antt =====
-- rename_detection of src/rename.c: which deleted file each new file was renamed from. The loop is a
-- machine whose state is what the loop changes. The pointer `rename_peer` of a new file is its
-- `candidate`, that of a deleted file is in `taken`; no file is both.
pub mod Ends
pub mod Once
pub mod Filtered
pub mod Found
use swupd_server.Prelude.{
  ℕ, zero, suc, ◌+◌, ◌*◌, List, [], ◌∷◌, Option, none, some, Bool, true, false, not, ◌&&◌, ◌||◌,
  ◌==◌, ltb, compare, Ordering, if◌then◌else◌, length, map,
}
use swupd_server.Text.{Text, codes}
use swupd_server.File.{File, hash_assign, is_some}
use swupd_server.Sorter.{Sorter}
use swupd_server.Manifest.{Manifest}
use swupd_server.Renames.Score.{rename_score}
use swupd_server.Renames.{Links, set, new_filtered_list, new_file_p}

-- A new file with what score_file has found for it.
pub record Scored : Type 0 where
  pub file : File
  pub candidate : Option File
  pub rename_score : ℕ

unfoldable pub file_sort_score : Scored → Scored → Ordering
file_sort_score a b = compare b.rename_score a.rename_score

-- The score of a deleted file and a new one: that of the file that is gone, which is the peer of its
-- entry, and the new one, both after precompute_file_data.
abbrev pub peer_score : (ℕ → Text → File → File) → (File → Option File) → Manifest → File → File → ℕ
peer_score precompute peer_of m file2 file = elim (peer_of file2) [
  | none ↦ 0
  | some peer ↦
      rename_score (precompute peer.last_change (codes "full") peer)
        (precompute m.version m.component file)
]

-- The greatest score of the deleted files, if it is above `best`, and the first file that has it.
unfoldable pub best_walk : (File → File → ℕ) → File → List File → ℕ → Option File → Scored
best_walk score file [] best found = record { file = file; candidate = found; rename_score = best }
best_walk score file (file2 ∷ list2) best found =
    if ltb best (score file2 file)
    then best_walk score file list2 (score file2 file) (some file2)
    else best_walk score file list2 best found

-- score_file, for a file whose rename_peer is NULL. The score starts at -100.
unfoldable pub score_file : (File → File → ℕ) → List File → File → Scored
score_file score deleted_files file = best_walk score file deleted_files 100 none

-- A rename that is found: the new file and the entry of the deleted one.
pub record Rename : Type 0 where
  pub file : File
  pub origin : File

pub record State : Type 0 where
  pub new_files : List Scored
  pub deleted_files : List File
  pub taken : Links
  pub renames : List Rename

-- g_list_remove
unfoldable pub remove_file : File → List File → List File
remove_file file [] = []
remove_file file (f ∷ l) = if f.addr == file.addr then l else f ∷ remove_file file l

-- The link of a new file to its candidate; without deleted files the loop is left.
abbrev pub link_file : State → Scored → List Scored → File → State
link_file s x rest p =
    let deleted_files = remove_file p s.deleted_files in
    record {
      new_files = elim deleted_files [ [] ↦ [] | d ∷ l ↦ rest ];
      deleted_files = deleted_files;
      taken = set s.taken p.addr x.file.addr;
      renames = record { file = x.file; origin = p } ∷ s.renames;
    }

module _ (sorter : Sorter Scored) (score : File → File → ℕ) where
  -- The first new file, with its candidate: passed over, looked at again (goto redo), or linked.
  abbrev pub step_candidate : State → Scored → List Scored → Option File → State
  step_candidate s x rest none = record s { new_files = rest }
  step_candidate s x rest (some p) =
      if ltb x.rename_score 215
      then record s { new_files = rest }
      else if is_some (s.taken p.addr)
      then record s {
        new_files = sorter.sort file_sort_score (score_file score s.deleted_files x.file ∷ rest);
      }
      else link_file s x rest p

  abbrev pub step_files : State → List Scored → Option State
  step_files s [] = none
  step_files s (x ∷ rest) = some (step_candidate s x rest x.candidate)

  -- One round of the loop; `none` where it has ended.
  unfoldable pub detect_step : State → Option State
  detect_step s = step_files s s.new_files

  -- `none` where the fuel runs out.
  unfoldable pub detect : ℕ → State → Option State
  detect zero s = none
  detect (suc fuel) s = elim (detect_step s) [ none ↦ some s | some s' ↦ detect fuel s' ]

-- For n new files.
abbrev pub detect_fuel : ℕ → ℕ
detect_fuel n = suc (n * suc n + n)

-- The test of deleted_p; `peer` is the file that file->peer points at.
abbrev pub has_old_file : Option File → Bool
has_old_file none = false
has_old_file (some peer) = not (peer.is_dir || peer.is_link)

unfoldable pub deleted_p : (File → Option File) → ℕ → File → Bool
deleted_p peer_of version file =
    file.is_deleted && has_old_file (peer_of file) && file.last_change == version

-- Whether a file is the new one, or the deleted one, of a rename.
abbrev pub is_renamed_to : List Rename → File → Bool
is_renamed_to [] f = false
is_renamed_to (r ∷ renames) f = r.file.addr == f.addr || is_renamed_to renames f

-- The hash of the new file of the rename from a deleted file.
abbrev pub hash_from : List Rename → File → Option Text
hash_from [] f = none
hash_from (r ∷ renames) f =
    if r.origin.addr == f.addr then some (hash_assign r.file.hash) else hash_from renames f

-- What the loop has done to a file of the manifest.
unfoldable pub mark_renamed : List Rename → File → File
mark_renamed renames f = elim (hash_from renames f) [
  | none ↦ if is_renamed_to renames f then record f { is_rename = true } else f
  | some hash ↦ record f { is_rename = true; hash = hash }
]

module _ (sorter : Sorter Scored) (score : File → File → ℕ) (peer_of : File → Option File) where
  -- The new files in the order in which the loop sees them first; none without deleted files.
  abbrev pub first_list : List File → List File → List Scored
  first_list [] new_files = []
  first_list (d ∷ l) new_files =
      sorter.sort file_sort_score (map (score_file score (d ∷ l)) new_files)

  -- The state in which the loop starts; without new or deleted files it ends at once, as the early
  -- exits do.
  unfoldable pub detect_start : Manifest → State
  detect_start m =
      let new_files = new_filtered_list (new_file_p m.version) m.files [] in
      let deleted_files = new_filtered_list (deleted_p peer_of m.version) m.files [] in
      record {
        new_files = first_list deleted_files new_files;
        deleted_files = deleted_files;
        taken = λ a. none;
        renames = [];
      }

module _ (sorter : Sorter Scored) (precompute : ℕ → Text → File → File)
    (peer_of : File → Option File) where
  -- list_new_files computes the data of the new files.
  abbrev pub prepared : Manifest → File → File
  prepared m f = if new_file_p m.version f then precompute m.version m.component f else f

  -- The manifest after the call. The data of the peers, which are in the older manifest, is not kept.
  unfoldable pub rename_detection : Manifest → Option Manifest
  rename_detection m =
      let score = peer_score precompute peer_of m in
      elim (detect sorter score (detect_fuel (length m.files))
        (detect_start sorter score peer_of m)) [
          | none ↦ none
          | some s ↦
              some (record m { files = map (λ f. mark_renamed s.renames (prepared m f)) m.files })
        ]
