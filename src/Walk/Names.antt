-- ===== src/Walk/Names.antt =====
-- Walks over lists that a sorter has sorted by filename, said of the lists themselves.
use mathlib.Core.List.{Mem}
use mathlib.Core.List.Perm
use mathlib.Core.Path.{subst}
use swupd_server.Prelude.{
  Ordering-cases, OrderingCase, ◌≡◌, ◌≢◌, sym, ap, ◌∙◌, ◌↔◌, List, [], ◌∷◌, Option, none, some,
  Ordering, arith, All,
}
use swupd_server.Text.{Text, strcmp}
use swupd_server.Text.Order.{eq_of_strcmp}
use swupd_server.File.{File, Distinct, file_sort_filename}
use swupd_server.Sorter.{Sorter}
use swupd_server.Walk.{find, join, find_head, find_skip, find_nil}
use swupd_server.Walk.Members.{Selects, join-mem, mem-join, find-perm}

module _ (s : Sorter File) (g : File → Option File → Option File) (selects : Selects g) where
  -- A walk that keeps or drops files: which of them it keeps.
  pub sorted_join-members :
      (l r : List File)
      → Distinct r
      → (f : File)
      → Mem f (join g (s.sort file_sort_filename l) (s.sort file_sort_filename r))
        ↔ (Mem f l × (g f (find f.filename r) ≡ some f))
  sorted_join-members l r d f =
      let pl = s.perm file_sort_filename l in
      let pr = find-perm f.filename (Perm.symm (s.perm file_sort_filename r)) d in
      (
        λ m.
            let (k, e) = join-mem g selects (s.sort file_sort_filename r) _ f m in
            ((Perm.mem_iff pl).0 k, ap (g f) pr ∙ e),
        λ h.
            mem-join g selects (s.sort file_sort_filename r) _ f ((Perm.mem_iff pl).1 h.0)
              (ap (g f) (sym pr) ∙ h.1),
      )

module _ (h : File → Option File → File) where
  abbrev pub total : File → Option File → Option File
  total f o = some (h f o)

  -- A walk that keeps every file under its name: what a name finds afterwards.
  abbrev pub changed : Option File → Option File → Option File
  changed none o = none
  changed (some f) o = some (h f o)

module _ (h : File → Option File → File)
    (name : (f : File) (o : Option File) → (h f o).filename ≡ f.filename) where
  pub find-join :
      (n : Text) (l r : List File) → find n (join (total h) l r) ≡ changed h (find n l) (find n r)
  unfolding join
  find-join n [] r = find_nil n ∙ ap (λ o. changed h o (find n r)) (sym (find_nil n))
  find-join n (f ∷ l) r = elim (Ordering-cases (strcmp n f.filename)) [
    | OrderingCase.is_equal e ↦
        find_head n (h f (find f.filename r)) (join (total h) l r)
          (subst (λ m. strcmp n m ≡ Ordering.eq) (sym (name f (find f.filename r))) e)
        ∙ ap (λ m. some (h f (find m r))) (sym (eq_of_strcmp n f.filename e))
        ∙ ap (λ o. changed h o (find n r)) (sym (find_head n f l e))
    | OrderingCase.is_lt e ↦ other (ground (arith, e)) (find-join n l r)
    | OrderingCase.is_gt e ↦ other (ground (arith, e)) (find-join n l r)
  ]
    where
      other :
          strcmp n f.filename ≢ Ordering.eq
          → find n (join (total h) l r) ≡ changed h (find n l) (find n r)
          → find n (join (total h) (f ∷ l) r) ≡ changed h (find n (f ∷ l)) (find n r)
      other e ih =
          find_skip n (h f (find f.filename r)) (join (total h) l r)
            (subst (λ m. strcmp n m ≢ Ordering.eq) (sym (name f (find f.filename r))) e)
          ∙ ih
          ∙ ap (λ o. changed h o (find n r)) (sym (find_skip n f l e))

  join-miss :
      (n : Text) (l r : List File)
      → All (λ f. strcmp n f.filename ≢ Ordering.eq) l
      → All (λ f. strcmp n f.filename ≢ Ordering.eq) (join (total h) l r)
  unfolding join
  join-miss n [] r k = tt
  join-miss n (f ∷ l) r k = (rw (name f (find f.filename r)) k.0, join-miss n l r k.1)

  pub join-Distinct : (l r : List File) → Distinct l → Distinct (join (total h) l r)
  unfolding join
  join-Distinct [] r d = tt
  join-Distinct (f ∷ l) r d =
      (rw (name f (find f.filename r)) (join-miss f.filename l r d.0), join-Distinct l r d.1)

  -- The same for lists that a sorter has sorted.
  pub find-sorted_join :
      (s : Sorter File) (n : Text) (l r : List File)
      → Distinct l
      → Distinct r
      → find n (join (total h) (s.sort file_sort_filename l) (s.sort file_sort_filename r))
        ≡ changed h (find n l) (find n r)
  find-sorted_join s n l r dl dr =
      rw
        (
          find-perm n (Perm.symm (s.perm file_sort_filename l)) dl,
          find-perm n (Perm.symm (s.perm file_sort_filename r)) dr,
        )
        (find-join n (s.sort file_sort_filename l) (s.sort file_sort_filename r))
