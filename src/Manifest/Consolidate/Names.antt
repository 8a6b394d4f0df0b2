-- ===== src/Manifest/Consolidate/Names.antt =====
-- What consolidate_submanifests of src/manifest.c leaves of the files of the submanifests.
use mathlib.Core.List.{Mem}
use mathlib.Core.List.Perm
use swupd_server.Prelude.{
  ◌≡◌, ◌≢◌, List, [], ◌∷◌, Option, none, some, false, Ordering, arith, Bool-cases, inl, inr,
  All-imp, Pairs, Pairs-zip, All-of_mem, All-mem,
}
use swupd_server.Text.{strcmp, same}
use swupd_server.Text.Order.{strcmp_lt_le_trans}
use swupd_server.File.{File, Ascending, file_sort_filename}
use swupd_server.File.Order.{file_sort_filename-IsOrder}
use swupd_server.Sorter.{Sorter}
use swupd_server.Manifest.{Manifest}
use swupd_server.Manifest.Consolidate.{
  Choice, choose, consolidate_walk, concat_files, consolidate_submanifests, pointed, kept,
  walk-same, walk-differ, walk-All,
}

-- No filename comes after a greater one.
abbrev Rising : List File → Type 0
Rising = Pairs (λ f g. strcmp f.filename g.filename ≢ Ordering.gt)

le_of_sort :
    (f g : File) → file_sort_filename f g ≢ Ordering.gt → strcmp f.filename g.filename ≢ Ordering.gt
unfolding file_sort_filename
le_of_sort f g h = ground arith

lt_of_differ :
    (f g : File)
    → strcmp f.filename g.filename ≢ Ordering.gt
    → same f.filename g.filename ≡ false
    → strcmp f.filename g.filename ≡ Ordering.lt
lt_of_differ f g h k = ground arith

kept-Rising :
    (f g : File) (c : Choice) (l : List File) → Rising (f ∷ g ∷ l) → Rising (pointed (kept f g c) l)
kept-Rising f g Choice.first l h = (h.0.1, h.1.1)
kept-Rising f g Choice.second l h = h.1
kept-Rising f g Choice.neither l h = h.1.1

walk-Ascending :
    (o : Option File) (l : List File) → Rising (pointed o l) → Ascending (consolidate_walk o l)
unfolding consolidate_walk
walk-Ascending none [] h = tt
walk-Ascending none (f ∷ l) h = walk-Ascending (some f) l h
walk-Ascending (some f) [] h = h
walk-Ascending (some f) (g ∷ l) h = elim (Bool-cases (same f.filename g.filename)) [
  | inl e ↦
      rw (walk-same f g l e)
        (walk-Ascending (kept f g (choose f g)) l (kept-Rising f g (choose f g) l h))
  | inr e ↦
      let below : strcmp f.filename g.filename ≡ Ordering.lt = lt_of_differ f g h.0.0 e in
      rw (walk-differ f g l e) (
        walk-All (λ x. strcmp f.filename x.filename ≡ Ordering.lt) (some g) l
            (
              below,
              All-imp _ _ (λ x p. strcmp_lt_le_trans f.filename g.filename x.filename below p) l
                  h.1.0,
            ),
        walk-Ascending (some g) l h.1,
      )
]

-- Whatever the submanifests hold, the filenames of the consolidated list rise strictly, so that no
-- filename is left twice.
pub consolidate_submanifests-Ascending :
    (s : Sorter File) (subs : List (Option Manifest)) (m : Manifest)
    → Ascending (consolidate_submanifests s subs m).files
unfolding consolidate_submanifests
consolidate_submanifests-Ascending s subs m =
    let files : List File = s.sort file_sort_filename (concat_files subs m.files) in
    walk-Ascending none files (
      Pairs-zip _ _ _ (λ f g h _. le_of_sort f g h) files
        (s.sorted file_sort_filename file_sort_filename-IsOrder (concat_files subs m.files))
        (s.sorted file_sort_filename file_sort_filename-IsOrder (concat_files subs m.files)))

-- Every file of the consolidated list is one of the manifest or of a submanifest, unchanged.
pub consolidate_submanifests-members :
    (s : Sorter File) (subs : List (Option Manifest)) (m : Manifest) (f : File)
    → Mem f (consolidate_submanifests s subs m).files
    → Mem f (concat_files subs m.files)
unfolding consolidate_submanifests
consolidate_submanifests-members s subs m f h =
    let input : List File = concat_files subs m.files in
    let files : List File = s.sort file_sort_filename input in
    All-mem (λ x. hlevel) (consolidate_walk none files)
      (walk-All (λ x. Mem x input) none files
        (All-of_mem files (λ x k. (Perm.mem_iff (s.perm file_sort_filename input)).0 k)))
      f h
