-- ===== src/Manifest/Subtract/Members.antt =====
-- Which files subtract_manifests and subtract_manifests_frontend of src/manifest.c leave, said of
-- lists in any order, and what becomes of the count.
use mathlib.Core.List.{Mem, Perm}
use mathlib.Core.List.Perm
use swupd_server.Prelude.{
  ◌≡◌, refl, ◌↔◌, List, [], ◌∷◌, none, some, true, false, arith, length, inl, inr, Option-cases,
  length-perm, All,
}
use swupd_server.File.{File, Distinct, file_sort_filename}
use swupd_server.File.Order.{sort-Ascending, sort-Distinct}
use swupd_server.Sorter.{Sorter}
use swupd_server.Walk.{find}
use swupd_server.Walk.Members.{
  find_name, find_mem, find_of_mem, Selects, join-mem, mem-join, join-Pairs,
}
use swupd_server.Manifest.{Manifest, IsCounted}
use swupd_server.Manifest.Subtract.{
  is_subtracted, unless_subtracted, difference, walk-eq-difference, walk-counts, subtract_manifests,
  subtract_all, subtract_manifests_frontend,
}

-- `g` takes `f` away: neither is deleted, and both or none are regular files.
abbrev pub Takes : File → File → Type 0
Takes g f = (f.is_deleted ≡ false) × (g.is_deleted ≡ false) × (f.is_file ≡ g.is_file)

-- No file of the list has the name of `f` and takes it away.
abbrev pub IsLeftBy : List File → File → Type 0
IsLeftBy r f = (g : File) → Mem g r → f.filename ≡ g.filename → ¬ Takes g f

subtracted_iff : (f g : File) → (is_subtracted f g ≡ true) ↔ Takes g f
unfolding is_subtracted
subtracted_iff f g = ground arith

unless_subtracted-Selects : Selects unless_subtracted
unless_subtracted-Selects f none = inr refl
unless_subtracted-Selects f (some g) = ground arith

left_iff :
    (r : List File) (f : File)
    → Distinct r
    → (unless_subtracted f (find f.filename r) ≡ some f) ↔ IsLeftBy r f
left_iff r f d = (there, back)
  where
    there : unless_subtracted f (find f.filename r) ≡ some f → IsLeftBy r f
    there h g m e t =
        let found : find f.filename r ≡ some g = rw e (find_of_mem r g d m) in
        ground (arith, (subtracted_iff f g).1 t)

    back : IsLeftBy r f → unless_subtracted f (find f.filename r) ≡ some f
    back h = elim (Option-cases (find f.filename r)) [
      | inl e ↦ rw e refl
      | inr (g, e) ↦ ground (
        arith,
        (subtracted_iff f g).0,
        h g (find_mem f.filename r g e) (find_name f.filename r g e),
      )
    ]

IsLeftBy-perm : {l r : List File} (f : File) → Perm l r → IsLeftBy l f → IsLeftBy r f
IsLeftBy-perm f p h g m e = h g ((Perm.mem_iff p).1 m) e

module _ (s : Sorter File) where
  module _ (m1 m2 : Manifest) (d1 : Distinct m1.files) (d2 : Distinct m2.files) where
    files1 : List File
    files1 = s.sort file_sort_filename m1.files

    files2 : List File
    files2 = s.sort file_sort_filename m2.files

    files-difference : (subtract_manifests s false m1 m2).0.files ≡ difference files1 files2
    unfolding subtract_manifests files1 files2
    files-difference =
        walk-eq-difference files1 files2 m1.count (sort-Ascending s m1.files d1)
          (sort-Ascending s m2.files d2)

    -- Of the files of `m1`, in whatever order the two lists stand, exactly those remain that no
    -- namesake in `m2` takes away, where a file takes its namesake away if neither is deleted and
    -- both or none are regular files.
    pub subtract_manifests-members :
        (f : File)
        → Mem f (subtract_manifests s false m1 m2).0.files ↔ (Mem f m1.files × IsLeftBy m2.files f)
    unfolding files1 files2
    subtract_manifests-members f = (there, back)
      where
        p1 : Perm files1 m1.files
        p1 = s.perm file_sort_filename m1.files

        p2 : Perm files2 m2.files
        p2 = s.perm file_sort_filename m2.files

        distinct : Distinct files2
        distinct = sort-Distinct s m2.files file_sort_filename d2

        there :
            Mem f (subtract_manifests s false m1 m2).0.files → Mem f m1.files × IsLeftBy m2.files f
        there m =
            let (k, e) =
              join-mem unless_subtracted unless_subtracted-Selects files2 files1 f
                (rw files-difference at m) in
            ((Perm.mem_iff p1).0 k, IsLeftBy-perm f p2 ((left_iff files2 f distinct).0 e))

        back :
            Mem f m1.files × IsLeftBy m2.files f → Mem f (subtract_manifests s false m1 m2).0.files
        back (k, h) = rw files-difference (
            mem-join unless_subtracted unless_subtracted-Selects files2 files1 f
              ((Perm.mem_iff p1).1 k)
              ((left_iff files2 f distinct).1 (IsLeftBy-perm f (Perm.symm p2) h)))

    -- No filename occurs twice afterwards.
    pub subtract_manifests-Distinct : Distinct (subtract_manifests s false m1 m2).0.files
    unfolding files1
    subtract_manifests-Distinct = rw files-difference (
        join-Pairs unless_subtracted unless_subtracted-Selects files2 _ files1
          (sort-Distinct s m1.files file_sort_filename d1))

  -- If the count of the first manifest is the number of its files it is so afterwards.
  pub subtract_manifests-IsCounted :
      (m1 m2 : Manifest) → IsCounted m1 → IsCounted (subtract_manifests s false m1 m2).0
  unfolding subtract_manifests
  subtract_manifests-IsCounted m1 m2 h =
      let same_length : length (s.sort file_sort_filename m1.files) ≡ length m1.files =
        length-perm (s.perm file_sort_filename m1.files) in
      omega (
        arith,
        walk-counts (s.sort file_sort_filename m1.files) (s.sort file_sort_filename m2.files)
            m1.count,
      )

  subtract_all-members :
      (m : Manifest) (included : List Manifest)
      → Distinct m.files
      → All (λ i. Distinct i.files) included
      → (f : File)
      → Mem f (subtract_all s m included).files
        ↔ (Mem f m.files × All (λ i. IsLeftBy i.files f) included)
  unfolding subtract_all
  subtract_all-members m [] d ds f = (λ h. (h, tt), λ h. h.0)
  subtract_all-members m (i ∷ included) d ds f =
      let next = subtract_manifests s false m i in
      let rest =
        subtract_all-members next.0 included (subtract_manifests-Distinct m i d ds.0) ds.1 f in
      let one = subtract_manifests-members m i d ds.0 f in
      (
        λ h. let (a, b) = rest.0 h in let (c, e) = one.0 a in (c, (e, b)),
        λ h. rest.1 (one.1 (h.0, h.1.0), h.1.1),
      )

  -- Of a manifest without a filename that occurs twice, exactly those files remain that no file of
  -- an included manifest, of the same name, takes away; a manifest that includes nothing keeps
  -- every file.
  pub subtract_manifests_frontend-members :
      (m : Manifest) (included : List Manifest)
      → Distinct m.files
      → All (λ i. Distinct i.files) included
      → (f : File)
      → Mem f (subtract_manifests_frontend s m included).files
        ↔ (Mem f m.files × All (λ i. IsLeftBy i.files f) included)
  unfolding subtract_manifests_frontend subtract_manifests
  subtract_manifests_frontend-members m included d ds f =
      let once = s.sort file_sort_filename m.files in
      let p = Perm.trans (s.perm file_sort_filename once) (s.perm file_sort_filename m.files) in
      let d' =
        sort-Distinct s once file_sort_filename (sort-Distinct s m.files file_sort_filename d) in
      let rest = subtract_all-members (subtract_manifests s true m m).0 included d' ds f in
      (
        λ h. let (a, b) = rest.0 h in ((Perm.mem_iff p).0 a, b),
        λ h. rest.1 ((Perm.mem_iff p).1 h.0, h.1),
      )
