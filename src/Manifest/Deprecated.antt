-- ===== src/Manifest/Deprecated.antt =====
-- remove_deprecated_files of src/manifest.c with the two compare functions that main of
-- src/create_update.c passes.
pub mod Members
use swupd_server.Prelude.{
  ℕ, ◌+◌, ◌-◌, ◌≤◌, ◌≡◌, refl, ap, sym, ◌∙◌, List, [], ◌∷◌, Option, none, some, Bool, true, false,
  not, ◌&&◌, Ordering, arith, if◌then◌else◌, length, ltb, Ordering-cases, OrderingCase, Bool-cases,
  inl, inr,
}
use swupd_server.Text.{strcmp}
use swupd_server.Text.Order.{strcmp_gt, strcmp_lt, strcmp_eq}
use swupd_server.File.{File, Ascending, file_sort_filename}
use swupd_server.Sorter.{Sorter}
use swupd_server.Walk.{join, join_eq, join_lt, join_gt, join_nil, nil_join}
use swupd_server.Manifest.{Manifest, Counted}

unfoldable pub both_ghosted : File → File → Bool
both_ghosted file1 file2 = file1.is_ghosted && file2.is_ghosted

unfoldable pub both_deleted : File → File → Bool
both_deleted file1 file2 = file1.is_deleted && file2.is_deleted

-- What is left of m2's files, m2's count, and the number removed.
pub record Removal : Type 0 where
  pub files : List File
  pub count : ℕ
  pub removed : ℕ

module _ (compfunc : File → File → Bool) where
  -- The `while` over both lists; the files of m2 from `list2` on.
  unfoldable pub deprecated_walk : List File → List File → ℕ → ℕ → Removal
  deprecated_walk [] list2 count removed = record {
    files = list2;
    count = count;
    removed = removed;
  }
  deprecated_walk (file1 ∷ list1) [] count removed = record {
    files = [];
    count = count;
    removed = removed;
  }
  deprecated_walk (file1 ∷ list1) (file2 ∷ list2) count removed =
      elim (strcmp file1.filename file2.filename) [
        | Ordering.eq ↦ elim (compfunc file1 file2) [
          | true ↦ deprecated_walk list1 list2 (count - 1) (removed + 1)
          | false ↦
              let rest = deprecated_walk list1 list2 count removed in
              record rest { files = file2 ∷ rest.files }
        ]
        | Ordering.lt ↦ deprecated_walk list1 (file2 ∷ list2) count removed
        | Ordering.gt ↦
            let rest = deprecated_walk (file1 ∷ list1) list2 count removed in
            record rest { files = file2 ∷ rest.files }
      ]

  -- A file of m2 stays unless the function deprecates it against its namesake in m1.
  abbrev pub unless_deprecated : File → Option File → Option File
  unless_deprecated file2 none = some file2
  unless_deprecated file2 (some file1) = if compfunc file1 file2 then none else some file2

  kept_all : (r : List File) → join unless_deprecated r [] ≡ r
  kept_all [] = nil_join unless_deprecated []
  kept_all (y ∷ r) = join_nil unless_deprecated y r ∙ ap (◌∷◌ y) (kept_all r)

  pub deprecated_walk-files :
      (l r : List File) (n c : ℕ)
      → Ascending l
      → Ascending r
      → (deprecated_walk l r n c).files ≡ join unless_deprecated r l
  unfolding deprecated_walk
  deprecated_walk-files [] r n c h k = sym (kept_all r)
  deprecated_walk-files (x ∷ l) [] n c h k = sym (nil_join unless_deprecated (x ∷ l))
  deprecated_walk-files (x ∷ l) (y ∷ r) n c h k =
      elim (Ordering-cases (strcmp x.filename y.filename)) [
        | OrderingCase.is_equal e ↦
            rw
              (
                e,
                deprecated_walk,
                join_eq unless_deprecated y x r l (strcmp_eq x.filename y.filename e) k,
              )
              (ground (
                arith,
                deprecated_walk-files l r n c h.1 k.1,
                deprecated_walk-files l r (n - 1) (c + 1) h.1 k.1,
              ))
        | OrderingCase.is_lt e ↦
            rw
              (
                e,
                deprecated_walk,
                join_gt unless_deprecated y x r l (strcmp_gt x.filename y.filename e) k,
              )
              (deprecated_walk-files l (y ∷ r) n c h.1 k)
        | OrderingCase.is_gt e ↦
            rw
              (
                e,
                deprecated_walk,
                join_lt unless_deprecated y x r l (strcmp_lt x.filename y.filename e) h,
              )
              (ap (◌∷◌ y) (deprecated_walk-files (x ∷ l) r n c h k.1))
      ]

  -- What is removed is counted, and counted off.
  pub deprecated_walk-counts :
      (l r : List File) (n c : ℕ)
      → length r ≤ n
      → ((deprecated_walk l r n c).count + length r ≡ n + length (deprecated_walk l r n c).files)
        × ((deprecated_walk l r n c).removed + length (deprecated_walk l r n c).files
            ≡ c + length r)
  unfolding deprecated_walk
  deprecated_walk-counts [] r n c h = omega arith
  deprecated_walk-counts (x ∷ l) [] n c h = omega arith
  deprecated_walk-counts (x ∷ l) (y ∷ r) n c h = ground (
    arith,
    deprecated_walk-counts l r n c,
    deprecated_walk-counts l r (n - 1) (c + 1),
    deprecated_walk-counts l (y ∷ r) n c,
    deprecated_walk-counts (x ∷ l) r n c,
  )

  -- Both manifests after the call and the number returned; `none` is -1, for a manifest that is
  -- NULL.
  unfoldable pub remove_deprecated_files :
      Sorter File → Option Manifest → Option Manifest → Option (Manifest × Manifest × ℕ)
  remove_deprecated_files s none m2 = none
  remove_deprecated_files s (some m1) none = none
  remove_deprecated_files s (some m1) (some m2) =
      let files1 = s.sort file_sort_filename m1.files in
      let files2 = s.sort file_sort_filename m2.files in
      let w = deprecated_walk files1 files2 m2.count 0 in
      some (record m1 { files = files1 }, record m2 { files = w.files; count = w.count }, w.removed)
