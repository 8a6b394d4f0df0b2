-- ===== src/Manifest/Match/Names.antt =====
-- What match_manifests (src/manifest.c) leaves under each filename, in lists of any order.

use mathlib.Core.Path.{subst}
use swupd_server.Prelude.{
  ℕ, ◌≡◌, ◌≢◌, refl, ◌∙◌, List, [], ◌∷◌, ◌++◌, Option, none, some, Ordering, arith, All, Bool-cases,
  Ordering-cases, OrderingCase, inl, inr, ◌⊎◌, All-append,
}
use swupd_server.Text.{Text, strcmp, same}
use swupd_server.Text.Order.{strcmp_refl, eq_of_strcmp}
use swupd_server.File.{File, Ascending, Distinct}
use swupd_server.Walk.{find, find_head, find_skip, find_nil, join}
use swupd_server.Manifest.Match.{
  Tally, carried, add_deleted_file, match_walk, deleted_tail, tally_new, tally_deleted,
  tally_matched,
}
use swupd_server.Manifest.Match.Entries.{
  matched, match_file, Unlinked, AddedAs, walk-new, walk-added, before_eq, deleted_tail-added,
  new_tail-added, find-append_none, find-append_miss,
}

find_miss :
    (n : Text) (l : List File) → find n l ≡ none → All (λ f. strcmp n f.filename ≢ Ordering.eq) l
unfolding find
find_miss n [] h = tt
find_miss n (f ∷ l) h = (λ e. ground arith, find_miss n l (ground arith))

find_tail : (n : Text) (f : File) (l : List File) → find n (f ∷ l) ≡ none → find n l ≡ none
unfolding find
find_tail n f l h = ground arith

found_head : (f : File) (l : List File) → find f.filename (f ∷ l) ≡ some f
found_head f l = find_head f.filename f l (strcmp_refl f.filename)

pub Distinct-append :
    (a b : List File)
    → Distinct a
    → Distinct b
    → ((n : Text) → (find n a ≡ none) ⊎ (find n b ≡ none))
    → Distinct (a ++ b)
Distinct-append [] b da db h = db
Distinct-append (f ∷ a) b da db h =
    (All-append _ a b da.0 (find_miss f.filename b apart), Distinct-append a b da.1 db rest)
  where
    apart : find f.filename b ≡ none
    apart = elim (h f.filename) [ inl e ↦ absurd (ground (arith, found_head f a)) | inr e ↦ e ]

    rest : (n : Text) → (find n a ≡ none) ⊎ (find n b ≡ none)
    rest n = elim (h n) [ inl e ↦ inl (find_tail n f a e) | inr e ↦ inr e ]

match_file-name : (mv : ℕ) (g : File) (o : Option File) → (match_file mv g o).filename ≡ g.filename
match_file-name mv g none = refl
match_file-name mv g (some f) = unfold carried in ground arith

module _ (mv : ℕ) (l : List File) where
  pub found : Text → Option File → Option File
  found n none = none
  found n (some g) = matched mv g (find n l)

  pub find-join : (n : Text) (r : List File) → find n (join (matched mv) r l) ≡ found n (find n r)
  unfolding find join found
  find-join n [] = refl
  find-join n (g ∷ r) =
      rw (match_file-name mv g (find g.filename l)) (elim (Bool-cases (same n g.filename)) [
        | inl e ↦ rw (e, eq_of_strcmp n g.filename (ground (arith, e))) refl
        | inr e ↦ rw e (find-join n r)
      ])

  join-miss :
      (n : Text) (r : List File)
      → All (λ f. strcmp n f.filename ≢ Ordering.eq) r
      → All (λ f. strcmp n f.filename ≢ Ordering.eq) (join (matched mv) r l)
  unfolding join
  join-miss n [] h = tt
  join-miss n (g ∷ r) h = (rw (match_file-name mv g (find g.filename l)) h.0, join-miss n r h.1)

  pub join-Distinct : (r : List File) → Distinct r → Distinct (join (matched mv) r l)
  unfolding join
  join-Distinct [] d = tt
  join-Distinct (g ∷ r) d = (
    rw (match_file-name mv g (find g.filename l)) (join-miss g.filename r d.0),
    join-Distinct r d.1,
  )

snoc-Distinct :
    (a : List File) (f : File) → Distinct a → find f.filename a ≡ none → Distinct (a ++ f ∷ [])
snoc-Distinct a f d h = Distinct-append a (f ∷ []) d (tt, tt) apart
  where
    apart : (n : Text) → (find n a ≡ none) ⊎ (find n (f ∷ []) ≡ none)
    apart n = elim (Ordering-cases (strcmp n f.filename)) [
      | OrderingCase.is_equal e ↦ inl (rw (eq_of_strcmp n f.filename e) h)
      | OrderingCase.is_lt e ↦ inr (find_skip n f [] (ground (arith, e)) ∙ find_nil n)
      | OrderingCase.is_gt e ↦ inr (find_skip n f [] (ground (arith, e)) ∙ find_nil n)
    ]

module _ (mv version : ℕ) where
  added_absent : (o d o' : Option File) → o' ≡ none → AddedAs mv version o' o d → d ≡ none
  added_absent none d o' e h = subst (λ p. AddedAs mv version p none d) e h
  added_absent (some g) d o' e h = h

  with_entry-Distinct :
      (t : Tally) (x : File) (l r a : List File)
      → Ascending (x ∷ l)
      → Distinct a
      → AddedAs mv version (find x.filename l) (find x.filename r) (find x.filename a)
      → Distinct (a ++ add_deleted_file t.next version x ∷ [])
  unfolding add_deleted_file
  with_entry-Distinct t x l r a h d s = snoc-Distinct a (add_deleted_file t.next version x) d (
      added_absent (find x.filename r) (find x.filename a) (find x.filename l)
        (before_eq mv version x.filename x l (strcmp_refl x.filename) h) s)

  deleted_tail-Distinct :
      (t : Tally) (l : List File) → Ascending l → Distinct (deleted_tail mv version t l).added
  unfolding deleted_tail
  deleted_tail-Distinct t [] h = tt
  deleted_tail-Distinct t (x ∷ l) h =
      with_entry-Distinct t x l [] _ h (deleted_tail-Distinct (tally_deleted x t) l h.1)
        (deleted_tail-added mv version x.filename (tally_deleted x t) l h.1)

  -- An entry is added once for a name.
  pub walk-added-Distinct :
      (t : Tally) (l r : List File)
      → Ascending l
      → Ascending r
      → Unlinked r
      → Distinct (match_walk mv version t l r).added
  unfolding match_walk
  walk-added-Distinct t [] r h k u = rw new_tail-added tt
  walk-added-Distinct t (x ∷ l) [] h k u = deleted_tail-Distinct t (x ∷ l) h
  walk-added-Distinct t (x ∷ l) (y ∷ r) h k u =
      elim (Ordering-cases (strcmp x.filename y.filename)) [
        | OrderingCase.is_equal e ↦
            rw (e, match_walk) (walk-added-Distinct (tally_matched mv x y t) l r h.1 k.1 u.1)
        | OrderingCase.is_lt e ↦
            rw (e, match_walk)
              (with_entry-Distinct t x l (record y { peer = none } ∷ r) _ h
                (walk-added-Distinct (tally_deleted x t) l (record y { peer = none } ∷ r) h.1 k
                  (refl, u.1))
                (walk-added mv version x.filename (tally_deleted x t) l
                  (record y { peer = none } ∷ r) h.1 k (refl, u.1)))
        | OrderingCase.is_gt e ↦
            rw (e, match_walk) (walk-added-Distinct (tally_new t) (x ∷ l) r h k.1 u.1)
      ]

  -- What the new manifest has under a name afterwards, from what the two had before.
  abbrev pub Entry : Option File → Option File → Option File → Type 0
  Entry o (some g) d = d ≡ matched mv g o
  Entry none none d = d ≡ none
  Entry (some f) none d = (a : ℕ) × (d ≡ some (add_deleted_file a version f))

  pub apart :
      (n : Text) (l : List File) (o o' d e : Option File)
      → AddedAs mv version o o' d
      → e ≡ found mv l n o'
      → (d ≡ none) ⊎ (e ≡ none)
  unfolding found
  apart n l o (some g) d e h k = inl h
  apart n l o none d e h k = inr k

  of_added : (o d : Option File) → AddedAs mv version o none d → Entry o none d
  of_added none d h = h
  of_added (some f) d h = h

  Entry-of :
      (n : Text) (l a b : List File) (o' : Option File)
      → AddedAs mv version (find n l) o' (find n a)
      → find n b ≡ found mv l n o'
      → Entry (find n l) o' (find n (a ++ b))
  unfolding found
  Entry-of n l a b (some g) h k = find-append_none mv version n a b h ∙ k
  Entry-of n l a b none h k =
      rw (find-append_miss mv version n a b k) (of_added (find n l) (find n a) h)

  pub walk-Entry :
      (t : Tally) (l r : List File)
      → Ascending l
      → Ascending r
      → Unlinked r
      → (n : Text)
      → Entry
          (find n l)
          (find n r)
          (find n ((match_walk mv version t l r).added ++ (match_walk mv version t l r).new))
  walk-Entry t l r h k u n =
      Entry-of n l _ _ (find n r) (walk-added mv version n t l r h k u)
        (rw (walk-new mv version t l r h k u) (find-join mv l n r))
