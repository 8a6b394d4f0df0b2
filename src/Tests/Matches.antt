-- ===== src/Tests/Matches.antt =====
-- The properties of match_manifests and of the step of main at two versions of a bundle.
use swupd_server.Prelude.{◌+◌, ◌≡◌, ◌↔◌, ◌⊎◌, refl, [], Option, none, some, true}
use swupd_server.Text.{Text, codes}
use swupd_server.Sorter.Insertion.{insertion_sorter}
use swupd_server.Stats.{no_stats}
use swupd_server.Walk.{find}
use swupd_server.Manifest.{IsCounted}
use swupd_server.Manifest.Match.{Matched, match_manifests}
use swupd_server.Manifest.Match.Outcome.{Outcome}
use swupd_server.Manifest.Match.Changes.{Unchanged}
use swupd_server.Manifest.Match.Result.{match_manifests-IsCounted}
use swupd_server.Manifest.Match.Verdict.{
  registered, match_manifests-registered, match_manifests-zero_iff,
}
use swupd_server.Update.{World, process_bundle}
use swupd_server.Update.Listed.{IsListed, process_bundle-IsListed}
use swupd_server.Tests.{
  config, manifest_of, bundle_10, bundle_20, bundle_10_Distinct, bundle_20_Distinct,
}

match_manifests-IsCounted_example :
    (out : Matched) × (match_manifests insertion_sorter 0 100 no_stats
        (some bundle_10)
        (some bundle_20)
      ≡ some out)
    × IsCounted out.m2
match_manifests-IsCounted_example =
    match_manifests-IsCounted insertion_sorter 0 100 no_stats bundle_10 bundle_20 bundle_10_Distinct
      bundle_20_Distinct (refl, (refl, (refl, tt))) refl

match_manifests-registered_example :
    (out : Matched) × (match_manifests insertion_sorter 0 100 no_stats
        (some bundle_10)
        (some bundle_20)
      ≡ some out)
    × (registered out.stats ≡ registered no_stats + out.count)
match_manifests-registered_example =
    match_manifests-registered insertion_sorter 0 100 no_stats bundle_10 bundle_20

match_manifests-zero_iff_example :
    (out : Matched) × (match_manifests insertion_sorter 0 100 no_stats
        (some bundle_10)
        (some bundle_20)
      ≡ some out)
    × ((out.count ≡ 0)
        ↔ ((n : Text) → Unchanged 0 (find n bundle_10.files) (find n bundle_20.files)))
match_manifests-zero_iff_example =
    match_manifests-zero_iff insertion_sorter 0 100 no_stats bundle_10 bundle_20 bundle_10_Distinct
      bundle_20_Distinct (refl, (refl, (refl, tt)))

-- Before the first bundle.
abbrev world : World
world = record {
  next = 100;
  stats = no_stats;
  links = λ a. none;
  full = bundle_20;
  mom = manifest_of 20 (codes "MoM") [];
  submanifests = [];
  written = [];
}

-- The bundle with every manifest written.
abbrev processed : Option World
processed =
    process_bundle insertion_sorter config true 0 (λ m. true) world bundle_10 bundle_20 [] []

process_bundle-IsListed_example :
    (processed ≡ none)
    ⊎ ((w : World) × (processed ≡ some w) × IsListed world w (codes "shell") 10 20)
process_bundle-IsListed_example =
    process_bundle-IsListed insertion_sorter config true 0 (λ m. true) world bundle_10 bundle_20 []
      []
