-- ===== src/Manifest/Subtract.antt =====
-- subtract_manifests and subtract_manifests_frontend of src/manifest.c.
pub mod Members
use swupd_server.Prelude.{
  refl, ℕ, ◌+◌, ◌-◌, ◌≤◌, ◌≡◌, ap, sym, ◌∙◌, List, [], ◌∷◌, Option, none, some, Bool, true, false,
  not, ◌&&◌, Ordering, arith, if◌then◌else◌, length, Ordering-cases, OrderingCase,
}
use swupd_server.Text.{strcmp}
use swupd_server.File.{File, Ascending, file_sort_filename}
use swupd_server.Sorter.{Sorter}
use swupd_server.Walk.{join, join_eq, join_lt, join_gt, join_nil, nil_join}
use swupd_server.Manifest.{Manifest, Counted}

-- a == b on one-bit fields.
abbrev pub eqb : Bool → Bool → Bool
eqb true b = b
eqb false b = not b

-- Two files of one name: whether the first leaves its manifest. Where both are deleted the entry
-- stays, and so it does where only one is deleted or only one is a regular file.
unfoldable pub is_subtracted : File → File → Bool
is_subtracted file1 file2 =
    if file1.is_deleted && file2.is_deleted
    then false
    else eqb file1.is_deleted file2.is_deleted && eqb file1.is_file file2.is_file

-- The `while`: what is left of m1's files from `list1` on, and m1's count.
unfoldable pub subtract_walk : List File → List File → ℕ → Counted
subtract_walk [] list2 count = record { files = []; count = count }
subtract_walk (file1 ∷ list1) [] count = record { files = file1 ∷ list1; count = count }
subtract_walk (file1 ∷ list1) (file2 ∷ list2) count = elim (strcmp file1.filename file2.filename) [
  | Ordering.eq ↦ elim (is_subtracted file1 file2) [
    | true ↦ subtract_walk list1 list2 (count - 1)
    | false ↦
        let rest = subtract_walk list1 list2 count in record rest { files = file1 ∷ rest.files }
  ]
  | Ordering.lt ↦
      let rest = subtract_walk list1 (file2 ∷ list2) count in
      record rest { files = file1 ∷ rest.files }
  | Ordering.gt ↦ subtract_walk (file1 ∷ list1) list2 count
]

-- The file stays unless it has a namesake that takes it away.
abbrev pub unless_subtracted : File → Option File → Option File
unless_subtracted f none = some f
unless_subtracted f (some g) = if is_subtracted f g then none else some f

abbrev pub difference : List File → List File → List File
difference l r = join unless_subtracted l r

difference-nil : (l : List File) → difference l [] ≡ l
difference-nil [] = nil_join unless_subtracted []
difference-nil (f ∷ l) = join_nil unless_subtracted f l ∙ ap (◌∷◌ f) (difference-nil l)

-- The walk over files that rise strictly keeps exactly what no namesake takes away.
pub walk-eq-difference :
    (l r : List File) (n : ℕ)
    → Ascending l
    → Ascending r
    → (subtract_walk l r n).files ≡ difference l r
unfolding subtract_walk
walk-eq-difference [] r n h k = sym (nil_join unless_subtracted r)
walk-eq-difference (x ∷ l) [] n h k = sym (difference-nil (x ∷ l))
walk-eq-difference (x ∷ l) (y ∷ r) n h k = elim (Ordering-cases (strcmp x.filename y.filename)) [
  | OrderingCase.is_equal e ↦
      rw (e, subtract_walk, join_eq unless_subtracted x y l r e h)
        (ground (arith, walk-eq-difference l r n h.1 k.1, walk-eq-difference l r (n - 1) h.1 k.1))
  | OrderingCase.is_lt e ↦
      rw (e, subtract_walk, join_lt unless_subtracted x y l r e k)
        (ap (◌∷◌ x) (walk-eq-difference l (y ∷ r) n h.1 k))
  | OrderingCase.is_gt e ↦
      rw (e, subtract_walk, join_gt unless_subtracted x y l r e h)
        (walk-eq-difference (x ∷ l) r n h k.1)
]

-- Each file that leaves is counted off.
pub walk-counts :
    (l r : List File) (n : ℕ)
    → length l ≤ n
    → (subtract_walk l r n).count + length l ≡ n + length (subtract_walk l r n).files
unfolding subtract_walk
walk-counts [] r n h = omega arith
walk-counts (x ∷ l) [] n h = omega arith
walk-counts (x ∷ l) (y ∷ r) n h = ground (
  arith,
  walk-counts l r n,
  walk-counts l r (n - 1),
  walk-counts l (y ∷ r) n,
  walk-counts (x ∷ l) r n,
)

module _ (s : Sorter File) where
  -- The two manifests after the call, `aliased` where m1 and m2 are one object: then its files are
  -- sorted and nothing else happens.
  unfoldable pub subtract_manifests : Bool → Manifest → Manifest → Manifest × Manifest
  subtract_manifests true m1 m2 =
      let m = record m1 {
        files = s.sort file_sort_filename (s.sort file_sort_filename m1.files);
      } in
      (m, m)
  subtract_manifests false m1 m2 =
      let files1 = s.sort file_sort_filename m1.files in
      let files2 = s.sort file_sort_filename m2.files in
      let left = subtract_walk files1 files2 m1.count in
      (record m1 { files = left.files; count = left.count }, record m2 { files = files2 })

  -- subtract_manifests_frontend(m, m), as the program calls it. `included` is what
  -- get_unique_includes returns, the manifests that `m` includes, each once.
  subtract_all : Manifest → List Manifest → Manifest
  unfolding subtract_manifests
  subtract_all m [] = m
  subtract_all m (i ∷ included) = subtract_all (subtract_manifests false m i).0 included

  unfoldable pub subtract_manifests_frontend : Manifest → List Manifest → Manifest
  unfolding subtract_all
  subtract_manifests_frontend m included = subtract_all (subtract_manifests true m m).0 included

  subtract_all_keeps :
      (m : Manifest) (included : List Manifest)
      → ((subtract_all m included).version ≡ m.version)
        × ((subtract_all m included).component ≡ m.component)
  unfolding subtract_all subtract_manifests
  subtract_all_keeps m [] = (refl, refl)
  subtract_all_keeps m (i ∷ included) = subtract_all_keeps (subtract_manifests false m i).0 included

  pub subtract_manifests_frontend_keeps :
      (m : Manifest) (included : List Manifest)
      → ((subtract_manifests_frontend m included).version ≡ m.version)
        × ((subtract_manifests_frontend m included).component ≡ m.component)
  unfolding subtract_manifests_frontend subtract_manifests
  subtract_manifests_frontend_keeps m included =
      subtract_all_keeps (subtract_manifests true m m).0 included
