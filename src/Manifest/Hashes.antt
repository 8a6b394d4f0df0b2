-- ===== src/Manifest/Hashes.antt =====
-- add_component_hashes_to_manifest of src/analyze_fs.c.
use swupd_server.Prelude.{
  ◌≡◌, refl, ap, sym, ◌∙◌, List, [], ◌∷◌, Option, none, some, true, false, Ordering, arith,
  if◌then◌else◌, Ordering-cases, OrderingCase, Bool-cases, inl, inr,
}
use mathlib.Core.Path.{subst}
use swupd_server.Text.{Text, strcmp}
use swupd_server.Text.Order.{eq_of_strcmp}
use swupd_server.File.{File, Ascending, Distinct, Before, file_sort_filename, hash_assign}
use swupd_server.File.Order.{sort-Ascending, Before-trans}
use swupd_server.Sorter.{Sorter}
use swupd_server.Walk.{
  find, join, join_eq, join_lt, join_gt, join_absent, cons?, join_nil, nil_join,
}
use swupd_server.Walk.Names.{changed, find-sorted_join}
use swupd_server.Manifest.{Manifest}

-- The walk: the files of the component from `list1` on. A deleted file of the full manifest is
-- passed over before the names are compared.
unfoldable pub hashes_walk : List File → List File → List File
hashes_walk [] list2 = []
hashes_walk (file1 ∷ list1) [] = file1 ∷ list1
hashes_walk (file1 ∷ list1) (file2 ∷ list2) = elim file2.is_deleted [
  | true ↦ hashes_walk (file1 ∷ list1) list2
  | false ↦ elim (strcmp file1.filename file2.filename) [
    | Ordering.eq ↦ record file1 { hash = hash_assign file2.hash } ∷ hashes_walk list1 list2
    | Ordering.lt ↦ file1 ∷ hashes_walk list1 (file2 ∷ list2)
    | Ordering.gt ↦ hashes_walk (file1 ∷ list1) list2
  ]
]

-- A file of the component takes the hash of its namesake, if that is not deleted.
abbrev pub hashed : File → Option File → File
hashed f none = f
hashed f (some g) = if g.is_deleted then f else record f { hash = hash_assign g.hash }

abbrev total : File → Option File → Option File
total f o = some (hashed f o)

hashed_none : (l : List File) → join total l [] ≡ l
hashed_none [] = nil_join total []
hashed_none (x ∷ l) = join_nil total x l ∙ ap (◌∷◌ x) (hashed_none l)

hashed_deleted : (x y : File) → y.is_deleted ≡ true → total x (some y) ≡ some x
hashed_deleted x y d = ground arith

-- A file that the walk passes over leaves no hash.
join-deleted :
    (y : File) (l r : List File)
    → Ascending l
    → Ascending (y ∷ r)
    → y.is_deleted ≡ true
    → join total l (y ∷ r) ≡ join total l r
join-deleted y [] r h k d = nil_join total (y ∷ r) ∙ sym (nil_join total r)
join-deleted y (x ∷ l) r h k d = elim (Ordering-cases (strcmp x.filename y.filename)) [
  | OrderingCase.is_equal e ↦
      join_eq total x y l r e h
      ∙ ap (λ o. cons? o (join total l r)) (hashed_deleted x y d)
      ∙ sym (
          join_absent total x l r
            (subst (λ m. Before m r) (sym (eq_of_strcmp x.filename y.filename e)) k.0))
  | OrderingCase.is_lt e ↦
      join_lt total x y l r e k
      ∙ ap (◌∷◌ x) (join-deleted y l r h.1 k d)
      ∙ sym (join_absent total x l r (Before-trans x.filename y.filename r e k.0))
  | OrderingCase.is_gt e ↦ join_gt total x y l r e h
]

module _ (x y : File) (l r : List File) where
  walk_deleted : y.is_deleted ≡ true → hashes_walk (x ∷ l) (y ∷ r) ≡ hashes_walk (x ∷ l) r
  unfolding hashes_walk
  walk_deleted d = ground arith

  walk_eq :
      y.is_deleted ≡ false
      → strcmp x.filename y.filename ≡ Ordering.eq
      → hashes_walk (x ∷ l) (y ∷ r) ≡ record x { hash = hash_assign y.hash } ∷ hashes_walk l r
  unfolding hashes_walk
  walk_eq d e = ground arith

  walk_lt :
      y.is_deleted ≡ false
      → strcmp x.filename y.filename ≡ Ordering.lt
      → hashes_walk (x ∷ l) (y ∷ r) ≡ x ∷ hashes_walk l (y ∷ r)
  unfolding hashes_walk
  walk_lt d e = ground arith

  walk_gt :
      y.is_deleted ≡ false
      → strcmp x.filename y.filename ≡ Ordering.gt
      → hashes_walk (x ∷ l) (y ∷ r) ≡ hashes_walk (x ∷ l) r
  unfolding hashes_walk
  walk_gt d e = ground arith

  hashed_some :
      y.is_deleted ≡ false
      → cons? (total x (some y)) (join total l r)
        ≡ record x { hash = hash_assign y.hash } ∷ join total l r
  hashed_some d = ground arith

walk-eq-join : (l r : List File) → Ascending l → Ascending r → hashes_walk l r ≡ join total l r
walk-eq-join [] r h k = unfold hashes_walk in sym (nil_join total r)
walk-eq-join (x ∷ l) [] h k = unfold hashes_walk in sym (hashed_none (x ∷ l))
walk-eq-join (x ∷ l) (y ∷ r) h k = elim (Bool-cases y.is_deleted) [
  | inl d ↦
      walk_deleted x y l r d ∙ walk-eq-join (x ∷ l) r h k.1 ∙ sym (join-deleted y (x ∷ l) r h k d)
  | inr d ↦ elim (Ordering-cases (strcmp x.filename y.filename)) [
    | OrderingCase.is_equal e ↦
        walk_eq x y l r d e
        ∙ ap (◌∷◌ (record x { hash = hash_assign y.hash })) (walk-eq-join l r h.1 k.1)
        ∙ sym (hashed_some x y l r d)
        ∙ sym (join_eq total x y l r e h)
    | OrderingCase.is_lt e ↦
        walk_lt x y l r d e
        ∙ ap (◌∷◌ x) (walk-eq-join l (y ∷ r) h.1 k)
        ∙ sym (join_lt total x y l r e k)
    | OrderingCase.is_gt e ↦
        walk_gt x y l r d e ∙ walk-eq-join (x ∷ l) r h k.1 ∙ sym (join_gt total x y l r e h)
  ]
]

-- Both manifests after the call.
unfoldable pub add_component_hashes_to_manifest :
    Sorter File → Manifest → Manifest → Manifest × Manifest
add_component_hashes_to_manifest s compm fullm =
    let files1 = s.sort file_sort_filename compm.files in
    let files2 = s.sort file_sort_filename fullm.files in
    (record compm { files = hashes_walk files1 files2 }, record fullm { files = files2 })

hashed-name : (f : File) (o : Option File) → (hashed f o).filename ≡ f.filename
hashed-name f none = refl
hashed-name f (some g) = ground arith

-- Where no filename occurs twice in either manifest, under each filename the component then has the file that it had, with the hash of the full
-- manifest's file of that name if there is one that is not deleted, and else with its own.
pub add_component_hashes-find :
    (s : Sorter File) (compm fullm : Manifest)
    → Distinct compm.files
    → Distinct fullm.files
    → (n : Text)
    → find n (add_component_hashes_to_manifest s compm fullm).0.files
      ≡ changed hashed (find n compm.files) (find n fullm.files)
unfolding add_component_hashes_to_manifest
add_component_hashes-find s compm fullm dc df n =
    ap (find n)
      (walk-eq-join _ _ (sort-Ascending s compm.files dc) (sort-Ascending s fullm.files df))
    ∙ find-sorted_join hashed hashed-name s n compm.files fullm.files dc df
