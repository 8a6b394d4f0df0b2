-- ===== src/Tests/Manifests.antt =====
-- The properties of the operations on one or more manifests, at concrete manifests.
use mathlib.Core.List.{Mem}
use swupd_server.Prelude.{
  ◌*◌, ◌%◌, ℕ, ◌+◌, ◌≡◌, ◌↔◌, refl, [], ◌∷◌, none, some, true, false, ◌||◌, length, All, arith,
}
use swupd_server.Text.{codes, strcmp, starts_with}
use swupd_server.File.{File, Ascending, hash_compare, file_sort_filename}
use swupd_server.Sorter.Insertion.{insertion_sorter, insertion_sort, insert}
use swupd_server.Walk.{find}
use swupd_server.Walk.Names.{changed}
use swupd_server.Manifest.{Manifest, IsCounted}
use swupd_server.Manifest.Subtract.{
  subtract_walk, is_subtracted, subtract_manifests, subtract_manifests_frontend,
}
use swupd_server.Manifest.Subtract.Members.{
  IsLeftBy, subtract_manifests-members, subtract_manifests-IsCounted,
  subtract_manifests_frontend-members,
}
use swupd_server.Manifest.Deprecated.{remove_deprecated_files, both_deleted}
use swupd_server.Manifest.Deprecated.Members.{remove_deprecated_files-members, IsCurrent}
use swupd_server.Manifest.Prune.{prune_manifest, IsPruned, prune_manifest-IsPruned}
use swupd_server.Manifest.Maximize.{maximize_to_full, maximize_to_full-newest, updated}
use swupd_server.Manifest.Hashes.{
  add_component_hashes_to_manifest, add_component_hashes-find, hashed,
}
use swupd_server.Manifest.Consolidate.{
  matrix, classify, choose, choose-matrix, consolidate_submanifests, concat_files,
}
use swupd_server.Manifest.Consolidate.Names.{consolidate_submanifests-Ascending}
use swupd_server.Manifest.Consolidate.Live.{has_live, consolidate_submanifests-live}
use swupd_server.Manifest.Nested.{
  changed_includes, changed_includes_iff, nest_manifest, manifest_subversion,
}
use swupd_server.Manifest.Size.{
  compute_content_size, compute_content_size_total, file_sizes, links, directories, content_walk,
}
use swupd_server.Heuristics.{
  file_heuristics, file_heuristics_lem, is_state_path, starts_with_any, boot_paths,
}
use swupd_server.Tests.{
  file, bundle_10, bundle_20, core_20, config, bundle_10_Distinct, bundle_20_Distinct,
  core_20_Distinct, manifest_of, gone,
}

abbrev sh : File
sh = file 5 (codes "/bin/sh") (codes "a1") 20

subtract_manifests-members_example :
    Mem sh (subtract_manifests insertion_sorter false bundle_20 core_20).0.files
    ↔ (Mem sh bundle_20.files × IsLeftBy core_20.files sh)
subtract_manifests-members_example =
    subtract_manifests-members insertion_sorter bundle_20 core_20 bundle_20_Distinct
      core_20_Distinct sh

subtract_manifests-IsCounted_example :
    IsCounted (subtract_manifests insertion_sorter false bundle_20 core_20).0
subtract_manifests-IsCounted_example =
    subtract_manifests-IsCounted insertion_sorter bundle_20 core_20 refl

-- What the call computes: the shell is in the core, the editor is deleted there.
subtract_manifests_example :
    (subtract_manifests insertion_sorter false bundle_20 core_20).0.files
    ≡ file 4 (codes "/bin/ls") (codes "b2") 20 ∷ file 6 (codes "/bin/vi") (codes "d1") 20 ∷ []
unfolding subtract_manifests insertion_sort insert strcmp file_sort_filename subtract_walk
    is_subtracted
subtract_manifests_example = refl

subtract_manifests_frontend-members_example :
    Mem sh (subtract_manifests_frontend insertion_sorter bundle_20 (core_20 ∷ [])).files
    ↔ (Mem sh bundle_20.files × All (λ i. IsLeftBy i.files sh) (core_20 ∷ []))
subtract_manifests_frontend-members_example =
    subtract_manifests_frontend-members insertion_sorter bundle_20 (core_20 ∷ []) bundle_20_Distinct
      (core_20_Distinct, tt) sh

prune_manifest-IsPruned_example :
    All (IsPruned true config) (prune_manifest true config bundle_20).0.files
    × IsCounted (prune_manifest true config bundle_20).0
prune_manifest-IsPruned_example = prune_manifest-IsPruned true config bundle_20 refl

maximize_to_full-newest_example :
    find
      (codes "/bin/sh")
      (maximize_to_full insertion_sorter (some core_20 ∷ none ∷ []) bundle_10).1.files
    ≡ updated (codes "/bin/sh") (some core_20 ∷ none ∷ []) (find (codes "/bin/sh") bundle_10.files)
maximize_to_full-newest_example =
    maximize_to_full-newest insertion_sorter (some core_20 ∷ none ∷ []) bundle_10
      (core_20_Distinct, (tt, tt)) bundle_10_Distinct (codes "/bin/sh")

add_component_hashes-find_example :
    find
      (codes "/bin/ls")
      (add_component_hashes_to_manifest insertion_sorter bundle_10 bundle_20).0.files
    ≡ changed hashed
        (find (codes "/bin/ls") bundle_10.files)
        (find (codes "/bin/ls") bundle_20.files)
add_component_hashes-find_example =
    add_component_hashes-find insertion_sorter bundle_10 bundle_20 bundle_10_Distinct
      bundle_20_Distinct (codes "/bin/ls")

choose-matrix_example :
    matrix (classify sh) (classify sh) (hash_compare sh.hash sh.hash) (choose sh sh) ≡ true
choose-matrix_example = choose-matrix sh sh

consolidate_submanifests-Ascending_example :
    Ascending (consolidate_submanifests insertion_sorter (some core_20 ∷ none ∷ []) bundle_20).files
consolidate_submanifests-Ascending_example =
    consolidate_submanifests-Ascending insertion_sorter (some core_20 ∷ none ∷ []) bundle_20

consolidate_submanifests-live_example :
    has_live
      (codes "/bin/vi")
      (consolidate_submanifests insertion_sorter (some core_20 ∷ none ∷ []) bundle_20).files
    ≡ has_live (codes "/bin/vi") (concat_files (some core_20 ∷ none ∷ []) bundle_20.files)
unfolding concat_files hash_compare strcmp
consolidate_submanifests-live_example =
    consolidate_submanifests-live insertion_sorter (some core_20 ∷ none ∷ []) bundle_20
      (
        (refl, (refl, (refl, (refl, tt)))),
        ((refl, (refl, (refl, tt))), ((refl, (refl, tt)), ((refl, tt), (tt, tt)))),
      )
      (codes "/bin/vi")

file_heuristics_lem_example : file_heuristics sh ≡ record sh {
  is_config = sh.is_config || starts_with sh.filename (codes "/etc/");
  is_state = sh.is_state || is_state_path sh.filename;
  is_boot = sh.is_boot || starts_with_any sh.filename boot_paths;
}
file_heuristics_lem_example = file_heuristics_lem sh

remove_deprecated_files-members_example :
    (out : Manifest × Manifest × ℕ) × (remove_deprecated_files both_deleted insertion_sorter
        (some core_20)
        (some bundle_20)
      ≡ some out)
    × ((f : File) → Mem f out.1.files ↔ (Mem f bundle_20.files × IsCurrent both_deleted core_20 f))
    × IsCounted out.1
    × (out.2 + length out.1.files ≡ length bundle_20.files)
remove_deprecated_files-members_example =
    remove_deprecated_files-members both_deleted insertion_sorter core_20 bundle_20 core_20_Distinct
      bundle_20_Distinct refl

changed_includes_iff_example :
    (changed_includes bundle_10 (record bundle_20 { includes = codes "core" ∷ [] }) ≡ false)
    ↔ ([] ≡ codes "core" ∷ [])
changed_includes_iff_example =
    changed_includes_iff bundle_10 (record bundle_20 { includes = codes "core" ∷ [] })

-- A manifest nested in another is found by its component.
nest_manifest_example :
    manifest_subversion (nest_manifest 9 core_20 [] bundle_20).0 (codes "shell") ≡ 20
unfolding manifest_subversion nest_manifest strcmp
nest_manifest_example = refl

-- A link, a deleted file and one of 300 bytes.
abbrev sized : Manifest
sized = manifest_of 20 (codes "shell") (
    record sh { is_file = false; is_link = true }
    ∷ gone 8 (codes "/bin/vi") 20
    ∷ record sh { stat = record sh.stat { st_size = 300 } }
    ∷ [])

compute_content_size_total_example :
    (compute_content_size sized).contentsize
    ≡ (sized.contentsize
        + file_sizes sized.files
        + 1024 * links sized.files
        + 1024 * directories sized.files)
      % 18446744073709551616
compute_content_size_total_example = compute_content_size_total sized (omega arith)

content_size_example : (compute_content_size sized).contentsize ≡ 1324
unfolding compute_content_size content_walk
content_size_example = refl
