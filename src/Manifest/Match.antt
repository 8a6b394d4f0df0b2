-- ===== src/Manifest/Match.antt =====
-- match_manifests of src/manifest.c, which fills in the last change of each file of the new
-- manifest, links the files of one name, and adds an entry for each file that is gone.
pub mod Entries
pub mod Names
pub mod Result
pub mod Outcome
pub mod Changes
pub mod Verdict
use swupd_server.Prelude.{
  ℕ, ◌+◌, List, [], ◌∷◌, ◌++◌, Option, none, some, Bool, true, false, not, ◌&&◌, ◌||◌, Ordering,
  if◌then◌else◌, leb, length,
}
use swupd_server.Text.{strcmp}
use swupd_server.File.{
  File, no_stat, no_rename_data, hash_assign, hash_compare, hash_set_zeros, file_sort_filename,
}
use swupd_server.Sorter.{Sorter}
use swupd_server.Stats.{Stats, account_new_file, account_deleted_file, account_changed_file}
use swupd_server.Manifest.{Manifest}
use swupd_server.Manifest.Subtract.{eqb}

-- Only the old file is read.
unfoldable pub should_have_peer : File → File → Bool
should_have_peer file1 file2 = not (file1.is_deleted || file1.is_ghosted)

unfoldable pub same_file_contents : File → File → Bool
same_file_contents file1 file2 =
    eqb file1.is_dir file2.is_dir
    && eqb file1.is_link file2.is_link
    && eqb file1.is_deleted file2.is_deleted
    && eqb file1.is_file file2.is_file
    && eqb file1.is_config file2.is_config
    && eqb file1.is_state file2.is_state
    && eqb file1.is_boot file2.is_boot
    && hash_compare file1.hash file2.hash

-- The entry that add_deleted_file makes for `source` in a manifest of the version, at a fresh
-- address.
unfoldable pub add_deleted_file : ℕ → ℕ → File → File
add_deleted_file addr version source =
    let ghosted = source.is_ghosted || (source.is_boot && source.is_deleted) in
    let preserved = ghosted || source.is_deleted in
    record {
      addr = addr;
      filename = source.filename;
      hash = if preserved then hash_assign source.hash else hash_set_zeros;
      use_xattrs = false;
      last_change = if source.is_deleted then source.last_change else version;
      stat = no_stat;
      is_dir = false;
      is_file = false;
      is_link = false;
      is_deleted = true;
      is_ghosted = ghosted;
      is_manifest = false;
      is_config = source.is_config;
      is_state = source.is_state;
      is_boot = source.is_boot;
      is_rename = if preserved then source.is_rename else false;
      peer = some source.addr;
      rename_peer = none;
      rename_data = no_rename_data;
    }

-- What the walk carries: the next free address, the counters of stats.c and the changes so far.
pub record Tally : Type 0 where
  pub next : ℕ
  pub stats : Stats
  pub count : ℕ

-- The files of both manifests after the walk, and the entries put in front of the new ones.
pub record Matching : Type 0 where
  pub old : List File
  pub new : List File
  pub added : List File
  pub tally : Tally

abbrev pub is_unchanged : ℕ → File → File → Bool
is_unchanged minversion file1 file2 =
    same_file_contents file1 file2 && leb minversion file1.last_change

-- A new file whose name the old manifest has: an unchanged file keeps its last change.
unfoldable pub carried : ℕ → File → File → File
carried minversion file1 file2 =
    let linked = record file2 {
      peer = if should_have_peer file1 file2 then some file1.addr else none;
    } in
    if is_unchanged minversion file1 file2
    then record linked { last_change = file1.last_change; is_rename = file1.is_rename }
    else linked

unfoldable pub linked_old : File → File → File
linked_old file1 file2 = record file1 {
  peer = if should_have_peer file1 file2 then some file2.addr else none;
}

unfoldable pub tally_matched : ℕ → File → File → Tally → Tally
tally_matched minversion file1 file2 t =
    if is_unchanged minversion file1 file2
    then t
    else record t { stats = account_changed_file t.stats; count = t.count + 1 }

unfoldable pub tally_new : Tally → Tally
tally_new t = record t { stats = account_new_file t.stats; count = t.count + 1 }

-- An address is used; a file that was deleted before is not counted again.
unfoldable pub tally_deleted : File → Tally → Tally
tally_deleted file1 t =
    if file1.is_deleted
    then record t { next = t.next + 1 }
    else record t { next = t.next + 1; stats = account_deleted_file t.stats; count = t.count + 1 }

module _ (minversion version : ℕ) where
  -- The last loop: what is left of list2 is new.
  unfoldable pub new_tail : Tally → List File → Matching
  new_tail t [] = record { old = []; new = []; added = []; tally = t }
  new_tail t (file2 ∷ list2) =
      let rest = new_tail (tally_new t) list2 in record rest { new = file2 ∷ rest.new }

  -- One file of list1 is gone from the new manifest.
  abbrev pub with_deleted : Tally → File → Matching → Matching
  with_deleted t file1 rest = record rest {
    old = record file1 { peer = some t.next } ∷ rest.old;
    added = rest.added ++ add_deleted_file t.next version file1 ∷ [];
  }

  unfoldable pub deleted_tail : Tally → List File → Matching
  deleted_tail t [] = record { old = []; new = []; added = []; tally = t }
  deleted_tail t (file1 ∷ list1) = with_deleted t file1 (deleted_tail (tally_deleted file1 t) list1)

  -- The main loop. It resets the link of both files that it looks at: that of a file of list1 is
  -- always written before the walk passes it.
  unfoldable pub match_walk : Tally → List File → List File → Matching
  match_walk t [] list2 = new_tail t list2
  match_walk t (file1 ∷ list1) [] = deleted_tail t (file1 ∷ list1)
  match_walk t (file1 ∷ list1) (file2 ∷ list2) = elim (strcmp file1.filename file2.filename) [
    | Ordering.eq ↦
        let rest = match_walk (tally_matched minversion file1 file2 t) list1 list2 in
        record rest {
          old = linked_old file1 file2 ∷ rest.old;
          new = carried minversion file1 file2 ∷ rest.new;
        }
    | Ordering.lt ↦
        with_deleted t file1
          (match_walk (tally_deleted file1 t) list1 (record file2 { peer = none } ∷ list2))
    | Ordering.gt ↦
        let rest = match_walk (tally_new t) (file1 ∷ list1) list2 in
        record rest { new = record file2 { peer = none } ∷ rest.new }
  ]

-- Both manifests after the call, the counters, and the number that the function returns.
pub record Matched : Type 0 where
  pub m1 : Manifest
  pub m2 : Manifest
  pub next : ℕ
  pub stats : Stats
  pub count : ℕ

-- The list is sorted again if an entry was added.
abbrev pub sort_if_added : Sorter File → List File → List File → List File
sort_if_added s [] new = new
sort_if_added s (f ∷ added) new = s.sort file_sort_filename ((f ∷ added) ++ new)

-- The result `none` is -1, for a manifest that is NULL.
unfoldable pub match_manifests :
    Sorter File → ℕ → ℕ → Stats → Option Manifest → Option Manifest → Option Matched
match_manifests s minversion next stats none m2 = none
match_manifests s minversion next stats (some m1) none = none
match_manifests s minversion next stats (some m1) (some m2) =
    let files1 = s.sort file_sort_filename m1.files in
    let files2 = s.sort file_sort_filename m2.files in
    let w =
      match_walk minversion m2.version (record { next = next; stats = stats; count = 0 }) files1
        files2 in
    some (record {
      m1 = record m1 { files = w.old };
      m2 = record m2 { files = sort_if_added s w.added w.new; count = m2.count + length w.added };
      next = w.tally.next;
      stats = w.tally.stats;
      count = w.tally.count;
    })
