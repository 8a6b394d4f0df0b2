-- ===== src/Manifest/Deprecated/Members.antt =====
-- Which files remove_deprecated_files of src/manifest.c leaves, said of lists in any order.
use mathlib.Core.List.{Mem}
use swupd_server.Prelude.{
  ℕ, ◌+◌, ◌≡◌, refl, ◌↔◌, none, some, Bool, false, arith, length, inl, inr, length-perm,
  Option-cases, List,
}
use swupd_server.File.{File, Distinct, file_sort_filename}
use swupd_server.File.Order.{sort-Ascending}
use swupd_server.Sorter.{Sorter}
use swupd_server.Walk.{find, join}
use swupd_server.Walk.Members.{Selects, find_of_mem, find_mem, find_name}
use swupd_server.Walk.Names.{sorted_join-members}
use swupd_server.Manifest.{Manifest, IsCounted}
use swupd_server.Manifest.Deprecated.{
  unless_deprecated, deprecated_walk, deprecated_walk-files, deprecated_walk-counts,
  remove_deprecated_files,
}

module _ (compfunc : File → File → Bool) where
  -- No file of the list has the name of `f` and deprecates it.
  abbrev pub IsCurrent : Manifest → File → Type 0
  IsCurrent m1 f = (g : File) → Mem g m1.files → f.filename ≡ g.filename → compfunc g f ≡ false

  unless_deprecated-Selects : Selects (unless_deprecated compfunc)
  unless_deprecated-Selects f none = inr refl
  unless_deprecated-Selects f (some g) = ground arith

  IsCurrent-iff :
      (m1 : Manifest) (f : File)
      → Distinct m1.files
      → (unless_deprecated compfunc f (find f.filename m1.files) ≡ some f) ↔ IsCurrent m1 f
  IsCurrent-iff m1 f d = (there, back)
    where
      there : unless_deprecated compfunc f (find f.filename m1.files) ≡ some f → IsCurrent m1 f
      there h g m e =
          let found : find f.filename m1.files ≡ some g = rw e (find_of_mem m1.files g d m) in
          ground arith

      back : IsCurrent m1 f → unless_deprecated compfunc f (find f.filename m1.files) ≡ some f
      back h = elim (Option-cases (find f.filename m1.files)) [
        | inl e ↦ rw e refl
        | inr (g, e) ↦
            ground
              (arith, h g (find_mem f.filename m1.files g e) (find_name f.filename m1.files g e))
      ]

  module _ (s : Sorter File) (m1 m2 : Manifest) (d1 : Distinct m1.files)
      (d2 : Distinct m2.files) where
    files1 : List File
    files1 = s.sort file_sort_filename m1.files

    files2 : List File
    files2 = s.sort file_sort_filename m2.files

    left :
        (deprecated_walk compfunc files1 files2 m2.count 0).files
        ≡ join (unless_deprecated compfunc) files2 files1
    unfolding files1 files2
    left =
        deprecated_walk-files compfunc files1 files2 m2.count 0 (sort-Ascending s m1.files d1)
          (sort-Ascending s m2.files d2)

    members_iff :
        (f : File)
        → Mem f (join (unless_deprecated compfunc) files2 files1)
          ↔ (Mem f m2.files × IsCurrent m1 f)
    unfolding files1 files2
    members_iff f =
        let h =
          sorted_join-members s (unless_deprecated compfunc) unless_deprecated-Selects m2.files
            m1.files d1 f in
        let c = IsCurrent-iff m1 f d1 in
        (λ m. let (k, e) = h.0 m in (k, c.0 e), λ p. h.1 (p.0, c.1 p.1))

    -- Where no filename occurs twice in either manifest, and the count of `m2` is the number of its
    -- files, the call returns; of the files of `m2` exactly those remain that no namesake in `m1`
    -- deprecates, in the sense of the function that is passed. The count of `m2` stays the
    -- number of its files, and the number returned is that of the files removed.
    pub remove_deprecated_files-members :
        IsCounted m2
        → (out : Manifest × Manifest × ℕ) × (remove_deprecated_files compfunc s (some m1) (some m2)
            ≡ some out)
          × ((f : File) → Mem f out.1.files ↔ (Mem f m2.files × IsCurrent m1 f))
          × IsCounted out.1
          × (out.2 + length out.1.files ≡ length m2.files)
    unfolding remove_deprecated_files files1 files2
    remove_deprecated_files-members c =
        let counts = deprecated_walk-counts compfunc files1 files2 m2.count 0 in
        let same_length = length-perm (s.perm file_sort_filename m2.files) in
        (_, refl, λ f. rw left (members_iff f), omega (arith, counts), omega (arith, counts))
