-- ===== src/Update.antt =====
-- main of src/create_update.c: what is done for one bundle, steps 4 to 6, in the default configuration,
-- which has no rename detection. The manifests that a bundle includes are given, as is whether a
-- manifest can be written.
pub mod Listed
use swupd_server.Prelude.{
  ℕ, ◌+◌, List, [], ◌∷◌, Option, none, some, Bool, true, false, not, ◌&&◌, ◌||◌, ◌==◌, ltb,
  if◌then◌else◌,
}
use swupd_server.Text.{Text, codes}
use swupd_server.File.{File}
use swupd_server.Config.{Config}
use swupd_server.Stats.{Stats}
use swupd_server.Sorter.{Sorter}
use swupd_server.Manifest.{Manifest}
use swupd_server.Manifest.Hashes.{add_component_hashes_to_manifest}
use swupd_server.Manifest.Subtract.{subtract_manifests_frontend}
use swupd_server.Manifest.Match.{Matched, match_manifests}
use swupd_server.Manifest.Deprecated.{both_ghosted, both_deleted, remove_deprecated_files}
use swupd_server.Manifest.Nested.{
  manifest_includes, changed_includes, sort_manifest_by_version, nest_manifest,
}
use swupd_server.Manifest.Prune.{prune_manifest}
use swupd_server.Heuristics.{apply_heuristics}
use swupd_server.Types.{type_change_detection}
use swupd_server.Renames.{Links, clean_renames}

-- What the bundles share: the next free address, the counters, the links of renames, the full
-- manifest, the manifest of manifests with those it names, and the manifests written so far.
pub record World : Type 0 where
  pub next : ℕ
  pub stats : Stats
  pub links : Links
  pub full : Manifest
  pub mom : Manifest
  pub submanifests : List Manifest
  pub written : List Manifest

-- os-core is added to the included manifests.
abbrev pub with_core : Manifest → Manifest
with_core m =
    if manifest_includes m (codes "os-core")
    then m
    else record m { includes = codes "os-core" ∷ m.includes }

-- The file at an address.
abbrev pub file_at : List File → ℕ → Option File
file_at [] a = none
file_at (f ∷ l) a = let rest = file_at l a in if f.addr == a then some f else rest

abbrev pub removed_of :
    Manifest → Manifest → Option (Manifest × Manifest × ℕ) → Manifest × Manifest × ℕ
removed_of m1 m2 none = (m1, m2, 0)
removed_of m1 m2 (some r) = r

-- A bundle that was looked at: its manifest, and whether it was written.
pub record Bundle : Type 0 where
  pub manifest : Manifest
  pub is_written : Bool
  pub links : Links

module _ (s : Sorter File) (c : Config) (stateless : Bool) (minversion : ℕ)
    (write_manifest : Manifest → Bool) where
  abbrev pub removal : (File → File → Bool) → Manifest → Manifest → Manifest × Manifest × ℕ
  removal deprecated m1 m2 =
      removed_of m1 m2 (remove_deprecated_files deprecated s (some m1) (some m2))

  -- Where the bundle has changes, its manifest is written, which may fail; else it stays at the old
  -- version.
  abbrev pub write_changed : Bool → Manifest → Manifest → Links → Option Bundle
  write_changed true oldm newm links =
      if write_manifest newm
      then some (record { manifest = newm; is_written = true; links = links })
      else none
  write_changed false oldm newm links = some (record {
    manifest = record newm { version = oldm.version };
    is_written = false;
    links = links;
  })

  abbrev pub has_changes : Manifest → Manifest → ℕ → ℕ → ℕ → Bool
  has_changes oldm newm newfiles old_deleted old_ghosted =
      ltb 0 newfiles || ltb 0 old_deleted || ltb 0 old_ghosted || changed_includes oldm newm

  -- The orphaned renames are cleaned and the manifest is pruned.
  abbrev pub prune_bundle : Manifest → ℕ → ℕ → Manifest × Links → Option Bundle
  prune_bundle oldm old_deleted old_ghosted (newm, links) =
      let pruned = prune_manifest stateless c newm in
      write_changed (has_changes oldm pruned.0 pruned.1 old_deleted old_ghosted) oldm pruned.0 links

  -- The entries that the new format does without are removed, and the types compared.
  abbrev pub remove_ghosted : ℕ → Links → Manifest × Manifest × ℕ → Option Bundle
  remove_ghosted old_deleted links (oldm, newm, old_ghosted) =
      let sorted = sort_manifest_by_version s newm in
      if type_change_detection (file_at oldm.files) sorted
      then prune_bundle oldm old_deleted old_ghosted (clean_renames s sorted links)
      else none

  abbrev pub remove_deleted : Links → Manifest × Manifest × ℕ → Option Bundle
  remove_deleted links (oldm, newm, old_deleted) =
      remove_ghosted old_deleted links (removal both_ghosted oldm newm)

  abbrev pub finish_changed : Links → Manifest → Manifest → Option Bundle
  finish_changed links oldm newm =
      remove_deleted links
        (if ltb oldm.format newm.format then removal both_deleted oldm newm else (oldm, newm, 0))

  -- Step 6, after match_manifests; `none` is an exit of the program.
  abbrev pub finish_bundle : Links → Matched → Option Bundle
  finish_bundle links out =
      if out.count == 0 && not (changed_includes out.m1 out.m2)
      then some (record {
        manifest = record out.m2 { version = out.m1.version };
        is_written = false;
        links = links;
      })
      else finish_changed links out.m1 (apply_heuristics out.m2)

  -- Steps 4 and 5: the two manifests that are compared. `included` are those that they include.
  abbrev pub old_bundle : Manifest → List Manifest → Manifest
  old_bundle oldm included =
      subtract_manifests_frontend s (with_core (apply_heuristics oldm)) included

  abbrev pub new_bundle : Manifest → Manifest → Manifest → List Manifest → Manifest
  new_bundle full oldm newm included =
      let hashed = (add_component_hashes_to_manifest s newm full).0 in
      subtract_manifests_frontend s
        (with_core (record (apply_heuristics hashed) { prevversion = oldm.version })) included

  -- The bundle goes into the manifest of manifests.
  abbrev pub nest_bundle : World → Matched → Option Bundle → Option World
  nest_bundle w out none = none
  nest_bundle w out (some b) =
      let nested = nest_manifest out.next w.mom w.submanifests b.manifest in
      some (record w {
        next = out.next + 1;
        stats = out.stats;
        links = b.links;
        mom = nested.0;
        submanifests = nested.1;
        written = if b.is_written then b.manifest ∷ w.written else w.written;
      })

  abbrev pub match_bundle : World → Option Matched → Option World
  match_bundle w none = none
  match_bundle w (some out) = nest_bundle w out (finish_bundle w.links out)

  -- The body of the loop over the bundles; `none` is an exit of the program.
  unfoldable pub process_bundle :
      World → Manifest → Manifest → List Manifest → List Manifest → Option World
  process_bundle w oldm newm old_included new_included =
      let full = (add_component_hashes_to_manifest s newm w.full).1 in
      match_bundle (record w { full = full })
        (match_manifests s minversion w.next w.stats (some (old_bundle oldm old_included))
          (some (new_bundle w.full oldm newm new_included)))
