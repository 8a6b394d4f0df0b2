-- ===== src/Manifest/Match/Result.antt =====
-- What match_manifests (src/manifest.c) returns, as a whole.
use mathlib.Core.List.Perm
use mathlib.Core.Path.{subst}
use swupd_server.Prelude.{
  ℕ, ◌+◌, ◌≡◌, refl, ap, sym, ◌∙◌, List, [], ◌∷◌, ◌++◌, some, arith, length, length-append,
  length-perm, All-perm,
}
use swupd_server.Text.{Text}
use swupd_server.File.{File, Ascending, Distinct, file_sort_filename}
use swupd_server.File.Order.{sort-Ascending, sort-Distinct}
use swupd_server.Sorter.{Sorter}
use swupd_server.Stats.{Stats}
use swupd_server.Walk.{find, join}
use swupd_server.Walk.Members.{find-perm}
use swupd_server.Manifest.{Manifest, IsCounted}
use swupd_server.Manifest.Match.{Matching, Matched, match_walk, match_manifests, sort_if_added}
use swupd_server.Manifest.Match.Entries.{matched, Unlinked, walk-new, walk-added}
use swupd_server.Manifest.Match.Names.{
  Distinct-append, found, find-join, join-Distinct, walk-added-Distinct, apart, Entry, walk-Entry,
}

find-sort_if_added :
    (s : Sorter File) (n : Text) (a b : List File)
    → Distinct (a ++ b)
    → find n (sort_if_added s a b) ≡ find n (a ++ b)
find-sort_if_added s n [] b d = refl
find-sort_if_added s n (f ∷ a) b d =
    sym (find-perm n (Perm.symm (s.perm file_sort_filename ((f ∷ a) ++ b))) d)

length-sort_if_added :
    (s : Sorter File) (a b : List File) → length (sort_if_added s a b) ≡ length a + length b
length-sort_if_added s [] b = omega arith
length-sort_if_added s (f ∷ a) b =
    length-perm (s.perm file_sort_filename ((f ∷ a) ++ b)) ∙ length-append (f ∷ a) b

sort_if_added-Distinct :
    (s : Sorter File) (a b : List File) → Distinct (a ++ b) → Distinct (sort_if_added s a b)
sort_if_added-Distinct s [] b d = d
sort_if_added-Distinct s (f ∷ a) b d = sort-Distinct s ((f ∷ a) ++ b) file_sort_filename d

length-join-matched : (mv : ℕ) (l r : List File) → length (join (matched mv) r l) ≡ length r
unfolding join
length-join-matched mv l [] = refl
length-join-matched mv l (g ∷ r) = omega (arith, length-join-matched mv l r)

module _ (s : Sorter File) (mv next : ℕ) (stats : Stats) (m1 m2 : Manifest) (d1 : Distinct m1.files)
    (d2 : Distinct m2.files) (u : Unlinked m2.files) where
  abbrev pub files1 : List File
  files1 = s.sort file_sort_filename m1.files

  abbrev pub files2 : List File
  files2 = s.sort file_sort_filename m2.files

  abbrev walked : Matching
  walked = match_walk mv m2.version (record { next = next; stats = stats; count = 0 }) files1 files2

  pub ascending1 : Ascending files1
  ascending1 = sort-Ascending s m1.files d1

  pub ascending2 : Ascending files2
  ascending2 = sort-Ascending s m2.files d2

  pub unlinked2 : Unlinked files2
  unlinked2 = All-perm (λ f. hlevel) (Perm.symm (s.perm file_sort_filename m2.files)) u

  new_found : (n : Text) → find n walked.new ≡ found mv files1 n (find n files2)
  new_found n =
      ap (find n) (walk-new mv m2.version _ files1 files2 ascending1 ascending2 unlinked2)
      ∙ find-join mv files1 n files2

  walked-Distinct : Distinct (walked.added ++ walked.new)
  walked-Distinct =
      Distinct-append walked.added walked.new
        (walk-added-Distinct mv m2.version _ files1 files2 ascending1 ascending2 unlinked2)
        (subst Distinct
          (sym (walk-new mv m2.version _ files1 files2 ascending1 ascending2 unlinked2))
          (join-Distinct mv files1 files2 (sort-Distinct s m2.files file_sort_filename d2)))
        (λ n.
          apart mv m2.version n files1 (find n files1) (find n files2) (find n walked.added)
            (find n walked.new)
            (walk-added mv m2.version n _ files1 files2 ascending1 ascending2 unlinked2)
            (new_found n))

  -- Where no filename occurs twice in either manifest and no new file has a link yet, the call
  -- returns; under each filename that the old manifest or the new one has, the new
  -- manifest then has one entry, and no filename occurs twice: a new file that has no old namesake
  -- stays as it is, one that has is linked to it and, if it did not change, keeps its last change
  -- and its rename mark, and an old file that has no new namesake leaves a deleted entry.
  pub match_manifests-entries :
      (out : Matched) × (match_manifests s mv next stats (some m1) (some m2) ≡ some out)
      × Distinct out.m2.files
      × ((n : Text) → Entry mv m2.version (find n m1.files) (find n m2.files) (find n out.m2.files))
  unfolding match_manifests
  match_manifests-entries = (
    _,
    refl,
    sort_if_added-Distinct s walked.added walked.new walked-Distinct,
    λ n.
        rw
          (
            find-sort_if_added s n walked.added walked.new walked-Distinct,
            find-perm n (Perm.symm (s.perm file_sort_filename m1.files)) d1,
            find-perm n (Perm.symm (s.perm file_sort_filename m2.files)) d2,
          )
          (walk-Entry mv m2.version _ files1 files2 ascending1 ascending2 unlinked2 n),
  )

  -- Under the same conditions, if the count of the new manifest was the number of its files it is
  -- so afterwards: it goes up by the entries that are added.
  pub match_manifests-IsCounted :
      IsCounted m2
      → (out : Matched) × (match_manifests s mv next stats (some m1) (some m2) ≡ some out)
        × IsCounted out.m2
  unfolding match_manifests
  match_manifests-IsCounted c = (
    _,
    refl,
    omega (
      arith,
      length-sort_if_added s walked.added walked.new,
      ap length (walk-new mv m2.version _ files1 files2 ascending1 ascending2 unlinked2),
      length-join-matched mv files1 files2,
      length-perm (s.perm file_sort_filename m2.files),
    ),
  )
