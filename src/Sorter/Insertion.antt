-- ===== src/Sorter/Insertion.antt =====
-- Insertion sort as an instance of the interface of g_list_sort: the laws can be met.
use swupd_server.Prelude.{
  ◌≡◌, ◌≢◌, List, [], ◌∷◌, Ordering, arith, All, All-imp, All-perm, OrderingCase, Ordering-cases,
}
use swupd_server.Sorter.{IsOrder, Ordered, Sorter}
use mathlib.Core.List.{Perm}
use mathlib.Core.List.Perm

module _ {A : Type 0} (cmp : A → A → Ordering) where
  unfoldable pub insert : A → List A → List A
  insert x [] = x ∷ []
  insert x (y ∷ l) = elim (cmp x y) [ Ordering.gt ↦ y ∷ insert x l | _ ↦ x ∷ y ∷ l ]

  unfoldable pub insertion_sort : List A → List A
  unfolding insert
  insertion_sort [] = []
  insertion_sort (x ∷ l) = insert x (insertion_sort l)

  insert-gt : (x y : A) (l : List A) → cmp x y ≡ Ordering.gt → insert x (y ∷ l) ≡ y ∷ insert x l
  unfolding insert
  insert-gt x y l h = rw (h, insert)

  insert-le : (x y : A) (l : List A) → cmp x y ≢ Ordering.gt → insert x (y ∷ l) ≡ x ∷ y ∷ l
  unfolding insert
  insert-le x y l h = ground arith

  insert-perm : (x : A) (l : List A) → Perm (insert x l) (x ∷ l)
  unfolding insert
  insert-perm x [] = Perm.rfl
  insert-perm x (y ∷ l) = elim (Ordering-cases (cmp x y)) [
    | OrderingCase.is_gt h ↦
        rw (insert-gt x y l h) (Perm.trans (Perm.cons y (insert-perm x l)) (Perm.swap x y l))
    | OrderingCase.is_lt h ↦ rw (insert-le x y l (ground arith)) Perm.rfl
    | OrderingCase.is_equal h ↦ rw (insert-le x y l (ground arith)) Perm.rfl
  ]

  pub insertion_sort-perm : (l : List A) → Perm (insertion_sort l) l
  unfolding insertion_sort
  insertion_sort-perm [] = Perm.rfl
  insertion_sort-perm (x ∷ l) =
      Perm.trans (insert-perm x (insertion_sort l)) (Perm.cons x (insertion_sort-perm l))

  module _ (o : IsOrder cmp) where
    le_of_gt : (x y : A) → cmp x y ≡ Ordering.gt → cmp y x ≢ Ordering.gt
    le_of_gt x y h = ground (arith, o.flips x y)

    below-All :
        (x y : A) (l : List A)
        → cmp x y ≢ Ordering.gt
        → All (λ z. cmp y z ≢ Ordering.gt) l
        → All (λ z. cmp x z ≢ Ordering.gt) l
    below-All x y l h k = All-imp _ _ (λ z p. o.trans x y z h p) l k

    insert-Ordered : (x : A) (l : List A) → Ordered cmp l → Ordered cmp (insert x l)
    unfolding insert
    insert-Ordered x [] h = (tt, tt)
    insert-Ordered x (y ∷ l) h = elim (Ordering-cases (cmp x y)) [
      | OrderingCase.is_gt g ↦ rw (insert-gt x y l g) (
        All-perm (λ z. hlevel) (Perm.symm (insert-perm x l)) (le_of_gt x y g, h.0),
        insert-Ordered x l h.1,
      )
      | OrderingCase.is_lt g ↦
          let le : cmp x y ≢ Ordering.gt = ground arith in
          rw (insert-le x y l le) ((le, below-All x y l le h.0), h)
      | OrderingCase.is_equal g ↦
          let le : cmp x y ≢ Ordering.gt = ground arith in
          rw (insert-le x y l le) ((le, below-All x y l le h.0), h)
    ]

    pub insertion_sort-Ordered : (l : List A) → Ordered cmp (insertion_sort l)
    unfolding insertion_sort
    insertion_sort-Ordered [] = tt
    insertion_sort-Ordered (x ∷ l) = insert-Ordered x (insertion_sort l) (insertion_sort-Ordered l)

abbrev pub insertion_sorter : {A : Type 0} → Sorter A
insertion_sorter = record {
  sort = insertion_sort;
  perm = insertion_sort-perm;
  sorted = insertion_sort-Ordered;
}
