-- ===== src/Manifest/Maximize.antt =====
-- maximize_version_manifests and maximize_to_full of src/manifest.c.
use swupd_server.Prelude.{
  ℕ, ◌≡◌, refl, ap, sym, ◌∙◌, List, [], ◌∷◌, Option, none, some, not, ◌&&◌, Ordering, arith,
  if◌then◌else◌, ltb, Ordering-cases, OrderingCase, All,
}
use mathlib.Core.Path.{subst}
use swupd_server.Text.{Text, strcmp}
use swupd_server.Text.Order.{strcmp_gt, strcmp_lt, strcmp_eq}
use swupd_server.File.{File, Ascending, Distinct, file_sort_filename}
use swupd_server.Sorter.{Sorter}
use swupd_server.Walk.{join, join_eq, join_lt, join_gt, join_nil, nil_join, find}
use swupd_server.Walk.Names.{total, changed, find-sorted_join, join-Distinct}
use swupd_server.File.Order.{sort-Ascending, sort-Distinct}
use swupd_server.Manifest.{Manifest}

-- The walk of maximize_version_manifests: the files of the full manifest m2 after it.
unfoldable pub maximize_walk : List File → List File → List File
maximize_walk [] list2 = list2
maximize_walk (file1 ∷ list1) [] = []
maximize_walk (file1 ∷ list1) (file2 ∷ list2) = elim (strcmp file1.filename file2.filename) [
  | Ordering.eq ↦
      (if not file1.is_deleted && ltb file2.last_change file1.last_change
        then record file2 { last_change = file1.last_change }
        else file2)
      ∷ maximize_walk list1 list2
  | Ordering.lt ↦ maximize_walk list1 (file2 ∷ list2)
  | Ordering.gt ↦ file2 ∷ maximize_walk (file1 ∷ list1) list2
]

abbrev pub max_version : ℕ → ℕ → ℕ
max_version a b = if ltb a b then b else a

-- The last change that a file of the bundle, if it is there and not deleted, makes of another.
abbrev pub newer : ℕ → Option File → ℕ
newer v none = v
newer v (some g) = if g.is_deleted then v else max_version v g.last_change

abbrev pub maximized : File → Option File → Option File
maximized file2 o = some (record file2 { last_change = newer file2.last_change o })

maximized_all : (r : List File) → join maximized r [] ≡ r
maximized_all [] = nil_join maximized []
maximized_all (y ∷ r) = join_nil maximized y r ∙ ap (◌∷◌ y) (maximized_all r)

pub maximize_walk-eq-join :
    (l r : List File) → Ascending l → Ascending r → maximize_walk l r ≡ join maximized r l
unfolding maximize_walk
maximize_walk-eq-join [] r h k = sym (maximized_all r)
maximize_walk-eq-join (x ∷ l) [] h k = sym (nil_join maximized (x ∷ l))
maximize_walk-eq-join (x ∷ l) (y ∷ r) h k = elim (Ordering-cases (strcmp x.filename y.filename)) [
  | OrderingCase.is_equal e ↦
      rw (e, maximize_walk, join_eq maximized y x r l (strcmp_eq x.filename y.filename e) k)
        (ground (arith, maximize_walk-eq-join l r h.1 k.1))
  | OrderingCase.is_lt e ↦
      rw (e, maximize_walk, join_gt maximized y x r l (strcmp_gt x.filename y.filename e) k)
        (maximize_walk-eq-join l (y ∷ r) h.1 k)
  | OrderingCase.is_gt e ↦
      rw (e, maximize_walk, join_lt maximized y x r l (strcmp_lt x.filename y.filename e) h)
        (ap (◌∷◌ y) (maximize_walk-eq-join (x ∷ l) r h k.1))
]

-- Both manifests after the call; nothing happens where the bundle's is NULL.
unfoldable pub maximize_version_manifests :
    Sorter File → Option Manifest → Manifest → Option Manifest × Manifest
maximize_version_manifests s none m2 = (none, m2)
maximize_version_manifests s (some m1) m2 =
    let files1 = s.sort file_sort_filename m1.files in
    let files2 = s.sort file_sort_filename m2.files in
    (some (record m1 { files = files1 }), record m2 { files = maximize_walk files1 files2 })

-- The submanifests of MoM and the full manifest after the call.
unfoldable pub maximize_to_full :
    Sorter File → List (Option Manifest) → Manifest → List (Option Manifest) × Manifest
maximize_to_full s [] full = ([], full)
maximize_to_full s (sub ∷ submanifests) full =
    let (sub', full') = maximize_version_manifests s sub full in
    let (submanifests', full'') = maximize_to_full s submanifests full' in
    (sub' ∷ submanifests', full'')

-- The greatest last change of a name in the bundles, where it is not deleted, and of `v`.
unfoldable pub newest : Text → ℕ → List (Option Manifest) → ℕ
newest n v [] = v
newest n v (none ∷ subs) = newest n v subs
newest n v (some m ∷ subs) = newest n (newer v (find n m.files)) subs

-- A file with the last change of its name in the bundles.
abbrev pub updated : Text → List (Option Manifest) → Option File → Option File
updated n subs none = none
updated n subs (some f) = some (record f { last_change = newest n f.last_change subs })

abbrev pub DistinctSub : Option Manifest → Type 0
DistinctSub none = Unit
DistinctSub (some m) = Distinct m.files

lifted : File → Option File → File
lifted f o = record f { last_change = newer f.last_change o }

module _ (s : Sorter File) (m : Manifest) (full : Manifest) (d : Distinct m.files)
    (df : Distinct full.files) where
  one_files :
      (maximize_version_manifests s (some m) full).1.files
      ≡ join
          (total lifted)
          (s.sort file_sort_filename full.files)
          (s.sort file_sort_filename m.files)
  unfolding maximize_version_manifests lifted
  one_files =
      maximize_walk-eq-join _ _ (sort-Ascending s m.files d) (sort-Ascending s full.files df)

  one_find :
      (n : Text)
      → find n (maximize_version_manifests s (some m) full).1.files
        ≡ changed lifted (find n full.files) (find n m.files)
  unfolding lifted
  one_find n =
      ap (find n) one_files ∙ find-sorted_join lifted (λ f o. refl) s n full.files m.files df d

  one_Distinct : Distinct (maximize_version_manifests s (some m) full).1.files
  unfolding lifted
  one_Distinct = subst Distinct (sym one_files) (
      join-Distinct lifted (λ f o. refl) (s.sort file_sort_filename full.files)
        (s.sort file_sort_filename m.files) (sort-Distinct s full.files file_sort_filename df))

updated_step :
    (n : Text) (m : Manifest) (subs : List (Option Manifest)) (o : Option File)
    → updated n subs (changed lifted o (find n m.files)) ≡ updated n (some m ∷ subs) o
unfolding lifted newest
updated_step n m subs none = refl
updated_step n m subs (some f) = refl

updated_all : (n : Text) (o : Option File) → updated n [] o ≡ o
unfolding newest
updated_all n none = refl
updated_all n (some f) = refl

updated_null :
    (n : Text) (subs : List (Option Manifest)) (o : Option File)
    → updated n subs o ≡ updated n (none ∷ subs) o
unfolding newest
updated_null n subs none = refl
updated_null n subs (some f) = refl

-- Where no filename occurs twice in a manifest, under each filename the full manifest keeps its file, with the greatest last change that the name
-- has in it and, where it is not deleted, in the bundles.
pub maximize_to_full-newest :
    (s : Sorter File) (subs : List (Option Manifest)) (full : Manifest)
    → All DistinctSub subs
    → Distinct full.files
    → (n : Text)
    → find n (maximize_to_full s subs full).1.files ≡ updated n subs (find n full.files)
unfolding maximize_to_full maximize_version_manifests
maximize_to_full-newest s [] full d df n = sym (updated_all n (find n full.files))
maximize_to_full-newest s (none ∷ subs) full d df n =
    maximize_to_full-newest s subs full d.1 df n ∙ updated_null n subs (find n full.files)
maximize_to_full-newest s (some m ∷ subs) full d df n =
    maximize_to_full-newest s subs (maximize_version_manifests s (some m) full).1 d.1
      (one_Distinct s m full d.0 df) n
    ∙ ap (updated n subs) (one_find s m full d.0 df n)
    ∙ updated_step n m subs (find n full.files)
