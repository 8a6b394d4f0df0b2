-- ===== src/Manifest/Match/Verdict.antt =====
-- The number that match_manifests (src/manifest.c) returns: when it is 0, and how it ties up with
-- the counters of stats.c.
use mathlib.Core.List.Perm
use swupd_server.Prelude.{
  ℕ, ◌+◌, ◌≡◌, ◌↔◌, refl, List, [], ◌∷◌, none, some, arith, Ordering-cases, OrderingCase,
}
use swupd_server.Text.{Text, strcmp}
use swupd_server.File.{File, Distinct, file_sort_filename}
use swupd_server.Sorter.{Sorter}
use swupd_server.Stats.{Stats, account_new_file, account_deleted_file, account_changed_file}
use swupd_server.Walk.{find}
use swupd_server.Walk.Members.{find-perm}
use swupd_server.Manifest.{Manifest}
use swupd_server.Manifest.Match.{
  Tally, Matched, tally_matched, tally_new, tally_deleted, new_tail, deleted_tail, match_walk,
  match_manifests,
}
use swupd_server.Manifest.Match.Entries.{Unlinked}
use swupd_server.Manifest.Match.Changes.{Unchanged, walk-zero, walk-same}
use swupd_server.Manifest.Match.Result.{ascending1, ascending2, unlinked2}

-- The files that the counters call new, deleted or changed.
abbrev pub registered : Stats → ℕ
registered st = st.new_files + st.deleted_files + st.changed_files

abbrev Balanced : Tally → Tally → Type 0
Balanced t u = registered u.stats + t.count ≡ registered t.stats + u.count

tally_new-Balanced : (t : Tally) → Balanced t (tally_new t)
unfolding tally_new account_new_file
tally_new-Balanced t = omega arith

tally_deleted-Balanced : (f : File) (t : Tally) → Balanced t (tally_deleted f t)
unfolding tally_deleted account_deleted_file
tally_deleted-Balanced f t = ground arith

module _ (mv version : ℕ) where
  tally_matched-Balanced : (f g : File) (t : Tally) → Balanced t (tally_matched mv f g t)
  unfolding tally_matched account_changed_file
  tally_matched-Balanced f g t = ground arith

  new_tail-Balanced : (t : Tally) (r : List File) → Balanced t (new_tail mv version t r).tally
  unfolding new_tail
  new_tail-Balanced t [] = refl
  new_tail-Balanced t (y ∷ r) =
      omega (arith, tally_new-Balanced t, new_tail-Balanced (tally_new t) r)

  deleted_tail-Balanced :
      (t : Tally) (l : List File) → Balanced t (deleted_tail mv version t l).tally
  unfolding deleted_tail
  deleted_tail-Balanced t [] = refl
  deleted_tail-Balanced t (x ∷ l) =
      omega (arith, tally_deleted-Balanced x t, deleted_tail-Balanced (tally_deleted x t) l)

  walk-Balanced : (t : Tally) (l r : List File) → Balanced t (match_walk mv version t l r).tally
  unfolding match_walk
  walk-Balanced t [] r = new_tail-Balanced t r
  walk-Balanced t (x ∷ l) [] = deleted_tail-Balanced t (x ∷ l)
  walk-Balanced t (x ∷ l) (y ∷ r) = elim (Ordering-cases (strcmp x.filename y.filename)) [
    | OrderingCase.is_equal e ↦
        rw (e, match_walk)
          (omega (arith, tally_matched-Balanced x y t, walk-Balanced (tally_matched mv x y t) l r))
    | OrderingCase.is_lt e ↦
        rw (e, match_walk)
          (omega (
            arith,
            tally_deleted-Balanced x t,
            walk-Balanced (tally_deleted x t) l (record y { peer = none } ∷ r),
          ))
    | OrderingCase.is_gt e ↦
        rw (e, match_walk)
          (omega (arith, tally_new-Balanced t, walk-Balanced (tally_new t) (x ∷ l) r))
  ]

-- For two manifests that are there the call returns the number by which the counters of new, deleted and changed
-- files went up together.
pub match_manifests-registered :
    (s : Sorter File) (mv next : ℕ) (stats : Stats) (m1 m2 : Manifest)
    → (out : Matched) × (match_manifests s mv next stats (some m1) (some m2) ≡ some out)
      × (registered out.stats ≡ registered stats + out.count)
unfolding match_manifests
match_manifests-registered s mv next stats m1 m2 = (
  _,
  refl,
  omega (
    arith,
    walk-Balanced mv m2.version (record { next = next; stats = stats; count = 0 })
        (s.sort file_sort_filename m1.files) (s.sort file_sort_filename m2.files),
  ),
)

module _ (s : Sorter File) (mv next : ℕ) (stats : Stats) (m1 m2 : Manifest) (d1 : Distinct m1.files)
    (d2 : Distinct m2.files) (u : Unlinked m2.files) where
  -- Where no filename occurs twice in either manifest and no new file has a link yet, the call
  -- returns a number that is 0 exactly when under each filename nothing changed: the new manifest has
  -- no file that the old one has not, a file that only the old one has was deleted already, and a
  -- file that both have has the same contents and a last change not before `minversion`.
  pub match_manifests-zero_iff :
      (out : Matched) × (match_manifests s mv next stats (some m1) (some m2) ≡ some out)
      × ((out.count ≡ 0) ↔ ((n : Text) → Unchanged mv (find n m1.files) (find n m2.files)))
  unfolding match_manifests
  match_manifests-zero_iff = (_, refl, (there, back))
    where
      start : Tally
      start = record { next = next; stats = stats; count = 0 }

      there :
          (match_walk mv m2.version start
              (s.sort file_sort_filename m1.files)
              (s.sort file_sort_filename m2.files)).tally.count
            ≡ 0
          → (n : Text) → Unchanged mv (find n m1.files) (find n m2.files)
      there h n =
          rw
            (
              find-perm n (Perm.symm (s.perm file_sort_filename m1.files)) d1,
              find-perm n (Perm.symm (s.perm file_sort_filename m2.files)) d2,
            )
            (walk-zero mv m2.version start _ _ (ascending1 s mv next stats m1 m2 d1 d2 u)
              (ascending2 s mv next stats m1 m2 d1 d2 u) (unlinked2 s mv next stats m1 m2 d1 d2 u) h
              n)

      back :
          ((n : Text) → Unchanged mv (find n m1.files) (find n m2.files))
          → (match_walk mv m2.version start
              (s.sort file_sort_filename m1.files)
              (s.sort file_sort_filename m2.files)).tally.count
            ≡ 0
      back f =
          walk-same mv m2.version start _ _ (ascending1 s mv next stats m1 m2 d1 d2 u)
            (ascending2 s mv next stats m1 m2 d1 d2 u) (unlinked2 s mv next stats m1 m2 d1 d2 u)
            (λ n.
              rw
                (
                  ← find-perm n (Perm.symm (s.perm file_sort_filename m1.files)) d1,
                  ← find-perm n (Perm.symm (s.perm file_sort_filename m2.files)) d2,
                )
                (f n))
