-- ===== src/Manifest/Match/Entries.antt =====
-- What the walk of match_manifests (src/manifest.c) makes of each filename.
use mathlib.Core.Path.{subst}
use swupd_server.Prelude.{
  ℕ, ◌≡◌, ◌≢◌, refl, ap, sym, ◌∙◌, List, [], ◌∷◌, ◌++◌, Option, none, some, Ordering, arith,
  Ordering-cases, OrderingCase, All,
}
use swupd_server.Text.{Text, strcmp}
use swupd_server.Text.Order.{strcmp_gt, strcmp_lt, strcmp_eq, eq_of_strcmp}
use swupd_server.File.{File, Ascending, Before}
use swupd_server.File.Order.{Before-trans}
use swupd_server.Walk.{
  find, find_skip, find_head, find-Before, join, join_eq, join_lt, join_gt, join_nil, nil_join,
  find_nil,
}
use swupd_server.Manifest.Match.{
  add_deleted_file, Tally, carried, tally_matched, tally_new, tally_deleted, new_tail, deleted_tail,
  match_walk,
}

-- As they come from the directory of the build, the new files are linked to nothing.
abbrev pub Unlinked : List File → Type 0
Unlinked = All (λ f. f.peer ≡ none)

-- A new file with the file of its name in the old manifest, if there is one.
abbrev pub match_file : ℕ → File → Option File → File
match_file minversion file2 none = file2
match_file minversion file2 (some file1) = carried minversion file1 file2

abbrev pub matched : ℕ → File → Option File → Option File
matched minversion file2 o = some (match_file minversion file2 o)

pub unlinked_eq : (f : File) → f.peer ≡ none → record f { peer = none } ≡ f
unlinked_eq f h i = record f { peer = sym h i }

module _ (mv version : ℕ) where
  new_tail-new : (t : Tally) (r : List File) → (new_tail mv version t r).new ≡ r
  unfolding new_tail
  new_tail-new t [] = refl
  new_tail-new t (y ∷ r) = ap (◌∷◌ y) (new_tail-new (tally_new t) r)

  deleted_tail-new : (t : Tally) (l : List File) → (deleted_tail mv version t l).new ≡ []
  unfolding deleted_tail
  deleted_tail-new t [] = refl
  deleted_tail-new t (x ∷ l) = deleted_tail-new (tally_deleted x t) l

  join-matched-nil : (r : List File) → join (matched mv) r [] ≡ r
  join-matched-nil [] = nil_join (matched mv) []
  join-matched-nil (y ∷ r) = join_nil (matched mv) y r ∙ ap (◌∷◌ y) (join-matched-nil r)

  -- Each new file meets the old file of its name.
  pub walk-new :
      (t : Tally) (l r : List File)
      → Ascending l
      → Ascending r
      → Unlinked r
      → (match_walk mv version t l r).new ≡ join (matched mv) r l
  unfolding match_walk
  walk-new t [] r h k u = new_tail-new t r ∙ sym (join-matched-nil r)
  walk-new t (x ∷ l) [] h k u = deleted_tail-new t (x ∷ l) ∙ sym (nil_join (matched mv) (x ∷ l))
  walk-new t (x ∷ l) (y ∷ r) h k u = elim (Ordering-cases (strcmp x.filename y.filename)) [
    | OrderingCase.is_equal e ↦
        rw (e, match_walk, join_eq (matched mv) y x r l (strcmp_eq x.filename y.filename e) k)
          (ap (◌∷◌ (carried mv x y)) (walk-new (tally_matched mv x y t) l r h.1 k.1 u.1))
    | OrderingCase.is_lt e ↦
        rw
          (
            e,
            match_walk,
            join_gt (matched mv) y x r l (strcmp_gt x.filename y.filename e) k,
            unlinked_eq y u.0,
          )
          (walk-new (tally_deleted x t) l (y ∷ r) h.1 k u)
    | OrderingCase.is_gt e ↦
        rw
          (
            e,
            match_walk,
            join_lt (matched mv) y x r l (strcmp_lt x.filename y.filename e) h,
            unlinked_eq y u.0,
          )
          (ap (◌∷◌ y) (walk-new (tally_new t) (x ∷ l) r h k.1 u.1))
  ]

  -- What is added under a name: an entry for an old file that has no new one, and nothing else.
  abbrev pub AddedAs : Option File → Option File → Option File → Type 0
  AddedAs o (some g) d = d ≡ none
  AddedAs none none d = d ≡ none
  AddedAs (some f) none d = (a : ℕ) × (d ≡ some (add_deleted_file a version f))

  pub find-append_none : (n : Text) (a b : List File) → find n a ≡ none → find n (a ++ b) ≡ find n b
  unfolding find
  find-append_none n [] b h = refl
  find-append_none n (f ∷ a) b h = ground (arith, find-append_none n a b)

  pub find-append_miss : (n : Text) (a b : List File) → find n b ≡ none → find n (a ++ b) ≡ find n a
  unfolding find
  find-append_miss n [] b h = h
  find-append_miss n (f ∷ a) b h = ground (arith, find-append_miss n a b h)

  added_gone :
      (n : Text) (t : Tally) (x : File) (l r a : List File)
      → strcmp n x.filename ≡ Ordering.eq
      → find n (x ∷ l) ≡ some x
      → find n r ≡ none
      → find n a ≡ none
      → AddedAs (find n (x ∷ l)) (find n r) (find n (a ++ add_deleted_file t.next version x ∷ []))
  added_gone n t x l r a e fl fr fa = rw (fl, fr) (t.next, find-append_none n a _ fa ∙ here)
    where
      here :
          find n (add_deleted_file t.next version x ∷ []) ≡ some (add_deleted_file t.next version x)
      here = find_head n _ [] (unfold add_deleted_file in e)

  added_pass :
      (n : Text) (t : Tally) (x : File) (l r a : List File)
      → strcmp n x.filename ≢ Ordering.eq
      → AddedAs (find n l) (find n r) (find n a)
      → AddedAs (find n (x ∷ l)) (find n r) (find n (a ++ add_deleted_file t.next version x ∷ []))
  added_pass n t x l r a e h = rw (find_skip n x l e, find-append_miss n a _ miss) h
    where
      miss : find n (add_deleted_file t.next version x ∷ []) ≡ none
      miss =
          find_skip n (add_deleted_file t.next version x) [] (unfold add_deleted_file in e)
          ∙ find_nil n

  pub before_eq :
      (n : Text) (x : File) (l : List File)
      → strcmp n x.filename ≡ Ordering.eq
      → Ascending (x ∷ l)
      → find n l ≡ none
  before_eq n x l e h =
      find-Before n l (subst (λ m. Before m l) (sym (eq_of_strcmp n x.filename e)) h.0)

  added_step :
      (n : Text) (t : Tally) (x : File) (l r a : List File)
      → Ascending (x ∷ l)
      → (strcmp n x.filename ≡ Ordering.eq → find n r ≡ none)
      → AddedAs (find n l) (find n r) (find n a)
      → AddedAs (find n (x ∷ l)) (find n r) (find n (a ++ add_deleted_file t.next version x ∷ []))
  added_step n t x l r a h absent ih = elim (Ordering-cases (strcmp n x.filename)) [
    | OrderingCase.is_equal e ↦ added_gone n t x l r a e (find_head n x l e) (absent e) (
        subst (λ o. AddedAs o none (find n a)) (before_eq n x l e h)
          (subst (λ o. AddedAs (find n l) o (find n a)) (absent e) ih))
    | OrderingCase.is_lt e ↦ added_pass n t x l r a (ground (arith, e)) ih
    | OrderingCase.is_gt e ↦ added_pass n t x l r a (ground (arith, e)) ih
  ]

  added_none : (o : Option File) → AddedAs none o none
  added_none none = refl
  added_none (some g) = refl

  pub new_tail-added : (t : Tally) (r : List File) → (new_tail mv version t r).added ≡ []
  unfolding new_tail
  new_tail-added t [] = refl
  new_tail-added t (y ∷ r) = new_tail-added (tally_new t) r

  pub deleted_tail-added :
      (n : Text) (t : Tally) (l : List File)
      → Ascending l
      → AddedAs (find n l) (find n []) (find n (deleted_tail mv version t l).added)
  unfolding deleted_tail
  deleted_tail-added n t [] h = rw find_nil refl
  deleted_tail-added n t (x ∷ l) h =
      added_step n t x l [] _ h (λ e. find_nil n) (deleted_tail-added n (tally_deleted x t) l h.1)

  -- Passing a pair of namesakes, or a new file, adds nothing under their name.
  added_eq :
      (n : Text) (x y : File) (l r a : List File)
      → strcmp x.filename y.filename ≡ Ordering.eq
      → Ascending (x ∷ l)
      → Ascending (y ∷ r)
      → AddedAs (find n l) (find n r) (find n a)
      → AddedAs (find n (x ∷ l)) (find n (y ∷ r)) (find n a)
  added_eq n x y l r a e h k ih = elim (Ordering-cases (strcmp n y.filename)) [
    | OrderingCase.is_equal g ↦ rw (find_head n y r g) (
        subst (λ o. AddedAs o none (find n a))
          (before_eq n x l (rw (eq_of_strcmp n y.filename g) (strcmp_eq x.filename y.filename e)) h)
          (subst (λ o. AddedAs (find n l) o (find n a)) (before_eq n y r g k) ih))
    | OrderingCase.is_lt g ↦ other (ground (arith, g))
    | OrderingCase.is_gt g ↦ other (ground (arith, g))
  ]
    where
      other :
          strcmp n y.filename ≢ Ordering.eq → AddedAs (find n (x ∷ l)) (find n (y ∷ r)) (find n a)
      other g =
          rw (find_skip n y r g, find_skip n x l (rw (eq_of_strcmp x.filename y.filename e) g)) ih

  added_new :
      (n : Text) (x y : File) (l r a : List File)
      → strcmp x.filename y.filename ≡ Ordering.gt
      → Ascending (x ∷ l)
      → Ascending (y ∷ r)
      → AddedAs (find n (x ∷ l)) (find n r) (find n a)
      → AddedAs (find n (x ∷ l)) (find n (y ∷ r)) (find n a)
  added_new n x y l r a e h k ih = elim (Ordering-cases (strcmp n y.filename)) [
    | OrderingCase.is_equal g ↦
        let lt : strcmp n x.filename ≡ Ordering.lt =
          rw (eq_of_strcmp n y.filename g) (strcmp_lt x.filename y.filename e) in
        rw (find_head n y r g) (
          subst (λ o. AddedAs o none (find n a))
            (find-Before n (x ∷ l) (lt, Before-trans n x.filename l lt h.0))
            (subst (λ o. AddedAs (find n (x ∷ l)) o (find n a)) (before_eq n y r g k) ih))
    | OrderingCase.is_lt g ↦ rw (find_skip n y r (ground (arith, g))) ih
    | OrderingCase.is_gt g ↦ rw (find_skip n y r (ground (arith, g))) ih
  ]

  not_new :
      (n : Text) (x y : File) (r : List File)
      → strcmp n x.filename ≡ Ordering.eq
      → strcmp x.filename y.filename ≡ Ordering.lt
      → Ascending (y ∷ r)
      → Before n (y ∷ r)
  not_new n x y r g e k =
      let lt : strcmp n y.filename ≡ Ordering.lt = rw (eq_of_strcmp n x.filename g) e in
      (lt, Before-trans n y.filename r lt k.0)

  pub walk-added :
      (n : Text) (t : Tally) (l r : List File)
      → Ascending l
      → Ascending r
      → Unlinked r
      → AddedAs (find n l) (find n r) (find n (match_walk mv version t l r).added)
  unfolding match_walk
  walk-added n t [] r h k u = rw (new_tail-added, find_nil) (added_none (find n r))
  walk-added n t (x ∷ l) [] h k u = deleted_tail-added n t (x ∷ l) h
  walk-added n t (x ∷ l) (y ∷ r) h k u = elim (Ordering-cases (strcmp x.filename y.filename)) [
    | OrderingCase.is_equal e ↦
        rw (e, match_walk)
          (added_eq n x y l r _ e h k (walk-added n (tally_matched mv x y t) l r h.1 k.1 u.1))
    | OrderingCase.is_lt e ↦
        rw (e, match_walk, unlinked_eq y u.0)
          (added_step n t x l (y ∷ r) _ h (λ g. find-Before n (y ∷ r) (not_new n x y r g e k))
            (walk-added n (tally_deleted x t) l (y ∷ r) h.1 k u))
    | OrderingCase.is_gt e ↦
        rw (e, match_walk)
          (added_new n x y l r _ e h k (walk-added n (tally_new t) (x ∷ l) r h k.1 u.1))
  ]
