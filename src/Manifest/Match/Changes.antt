-- ===== src/Manifest/Match/Changes.antt =====
-- When match_manifests (src/manifest.c) returns 0, on which main decides that a component stays at
-- its old version, and what the number has to do with the counters of stats.c.
use mathlib.Core.Path.{subst}
use swupd_server.Prelude.{
  ℕ, ◌+◌, ◌≤◌, ◌≡◌, ◌≢◌, ◌↔◌, refl, ◌∙◌, List, [], ◌∷◌, Option, none, some, Ordering, arith,
  Ordering-cases, OrderingCase, take, true,
}
use swupd_server.Text.{Text, strcmp}
use swupd_server.Text.Order.{strcmp_refl, eq_of_strcmp, strcmp_lt}
use swupd_server.File.{File, Ascending, hash_compare, hash_size}
use swupd_server.File.Order.{Before-trans}
use swupd_server.Walk.{find, find_skip, find_head, find-Before, find_nil}
use swupd_server.Manifest.Match.{
  Tally, same_file_contents, is_unchanged, tally_matched, tally_new, tally_deleted, new_tail,
  deleted_tail, match_walk,
}
use swupd_server.Manifest.Match.Entries.{Unlinked, unlinked_eq, before_eq}

-- Both are of one type, with the same marks and hash, and the old one did not change before
-- `minversion`.
pub record SameContents (mv : ℕ) (f g : File) : Type 0 where
  pub dir : f.is_dir ≡ g.is_dir
  pub link : f.is_link ≡ g.is_link
  pub deleted : f.is_deleted ≡ g.is_deleted
  pub file : f.is_file ≡ g.is_file
  pub config : f.is_config ≡ g.is_config
  pub state : f.is_state ≡ g.is_state
  pub boot : f.is_boot ≡ g.is_boot
  pub contents : take hash_size f.hash ≡ take hash_size g.hash
  pub recent : mv ≤ f.last_change

hash_compare_iff : (a b : Text) → (hash_compare a b ≡ true) ↔ (take hash_size a ≡ take hash_size b)
unfolding hash_compare
hash_compare_iff a b = (
  λ h. eq_of_strcmp (take hash_size a) (take hash_size b) (ground (arith, h)),
  λ e. rw (e, strcmp_refl (take hash_size b)),
)

pub is_unchanged→SameContents :
    (mv : ℕ) (f g : File) → is_unchanged mv f g ≡ true → SameContents mv f g
unfolding same_file_contents
is_unchanged→SameContents mv f g h = ground (arith, (hash_compare_iff f.hash g.hash).0)

pub SameContents→is_unchanged :
    (mv : ℕ) (f g : File) → SameContents mv f g → is_unchanged mv f g ≡ true
unfolding same_file_contents
SameContents→is_unchanged mv f g h = ground (arith, (hash_compare_iff f.hash g.hash).1 h.contents)

-- Under one filename: no change between the old file and the new one. A file that was deleted
-- before may be missing.
abbrev pub Unchanged : ℕ → Option File → Option File → Type 0
Unchanged mv none none = Unit
Unchanged mv (some f) none = f.is_deleted ≡ true
Unchanged mv none (some g) = ⊥
Unchanged mv (some f) (some g) = SameContents mv f g

module _ (mv version : ℕ) where
  count-tally_new : (t : Tally) → (tally_new t).count ≡ t.count + 1
  unfolding tally_new
  count-tally_new t = refl

  new_tail-grows : (t : Tally) (r : List File) → t.count ≤ (new_tail mv version t r).tally.count
  unfolding new_tail
  new_tail-grows t [] = omega arith
  new_tail-grows t (y ∷ r) = omega (arith, count-tally_new t, new_tail-grows (tally_new t) r)

  deleted_count : (x : File) (t : Tally) → t.count ≤ (tally_deleted x t).count
  unfolding tally_deleted
  deleted_count x t = ground arith

  deleted_tail-grows :
      (t : Tally) (l : List File) → t.count ≤ (deleted_tail mv version t l).tally.count
  unfolding deleted_tail
  deleted_tail-grows t [] = omega arith
  deleted_tail-grows t (x ∷ l) =
      omega (arith, deleted_count x t, deleted_tail-grows (tally_deleted x t) l)

  matched_count : (x y : File) (t : Tally) → t.count ≤ (tally_matched mv x y t).count
  unfolding tally_matched
  matched_count x y t = ground arith

  walk-grows : (t : Tally) (l r : List File) → t.count ≤ (match_walk mv version t l r).tally.count
  unfolding match_walk
  walk-grows t [] r = new_tail-grows t r
  walk-grows t (x ∷ l) [] = deleted_tail-grows t (x ∷ l)
  walk-grows t (x ∷ l) (y ∷ r) = elim (Ordering-cases (strcmp x.filename y.filename)) [
    | OrderingCase.is_equal e ↦
        rw (e, match_walk)
          (omega (arith, matched_count x y t, walk-grows (tally_matched mv x y t) l r))
    | OrderingCase.is_lt e ↦
        rw (e, match_walk)
          (omega (
            arith,
            deleted_count x t,
            walk-grows (tally_deleted x t) l (record y { peer = none } ∷ r),
          ))
    | OrderingCase.is_gt e ↦
        rw (e, match_walk) (omega (arith, count-tally_new t, walk-grows (tally_new t) (x ∷ l) r))
  ]

  -- A statement about each name, where the heads are namesakes, where the old file comes first.
  at_equal :
      (x y : File) (l r : List File)
      → strcmp x.filename y.filename ≡ Ordering.eq
      → Unchanged mv (some x) (some y)
      → ((n : Text) → Unchanged mv (find n l) (find n r))
      → (n : Text) → Unchanged mv (find n (x ∷ l)) (find n (y ∷ r))
  at_equal x y l r e here rest n = elim (Ordering-cases (strcmp n x.filename)) [
    | OrderingCase.is_equal g ↦
        rw (find_head n x l g, find_head n y r (rw (eq_of_strcmp n x.filename g) e)) here
    | OrderingCase.is_lt g ↦ other (ground (arith, g))
    | OrderingCase.is_gt g ↦ other (ground (arith, g))
  ]
    where
      other : strcmp n x.filename ≢ Ordering.eq → Unchanged mv (find n (x ∷ l)) (find n (y ∷ r))
      other g =
          rw
            (
              find_skip n x l g,
              find_skip n y r
                  (subst (λ m. strcmp n m ≢ Ordering.eq) (eq_of_strcmp x.filename y.filename e) g),
            )
            (rest n)

  at_old :
      (x : File) (l r : List File)
      → find x.filename r ≡ none
      → x.is_deleted ≡ true
      → ((n : Text) → Unchanged mv (find n l) (find n r))
      → (n : Text) → Unchanged mv (find n (x ∷ l)) (find n r)
  at_old x l r e here rest n = elim (Ordering-cases (strcmp n x.filename)) [
    | OrderingCase.is_equal g ↦ rw (find_head n x l g, eq_of_strcmp n x.filename g, e) here
    | OrderingCase.is_lt g ↦ rw (find_skip n x l (ground (arith, g))) (rest n)
    | OrderingCase.is_gt g ↦ rw (find_skip n x l (ground (arith, g))) (rest n)
  ]

  tally_deleted_same :
      (x : File) (t : Tally) (k : ℕ)
      → (tally_deleted x t).count ≤ k
      → k ≡ t.count
      → (x.is_deleted ≡ true) × (k ≡ (tally_deleted x t).count)
  unfolding tally_deleted
  tally_deleted_same x t k h e = ground arith

  tally_matched_same :
      (x y : File) (t : Tally) (k : ℕ)
      → (tally_matched mv x y t).count ≤ k
      → k ≡ t.count
      → (is_unchanged mv x y ≡ true) × (k ≡ (tally_matched mv x y t).count)
  unfolding tally_matched
  tally_matched_same x y t k h e = ground arith

  deleted_tail-zero :
      (t : Tally) (l : List File)
      → (deleted_tail mv version t l).tally.count ≡ t.count
      → (n : Text) → Unchanged mv (find n l) (find n [])
  unfolding deleted_tail
  deleted_tail-zero t [] h n = rw find_nil tt
  deleted_tail-zero t (x ∷ l) h n =
      let (gone, same) = tally_deleted_same x t _ (deleted_tail-grows (tally_deleted x t) l) h in
      at_old x l [] (find_nil x.filename) gone (deleted_tail-zero (tally_deleted x t) l same) n

  pub walk-zero :
      (t : Tally) (l r : List File)
      → Ascending l
      → Ascending r
      → Unlinked r
      → (match_walk mv version t l r).tally.count ≡ t.count
      → (n : Text) → Unchanged mv (find n l) (find n r)
  unfolding match_walk new_tail
  walk-zero t [] [] h k u z n = rw find_nil tt
  walk-zero t [] (y ∷ r) h k u z n =
      absurd (omega (arith, count-tally_new t, new_tail-grows (tally_new t) r))
  walk-zero t (x ∷ l) [] h k u z n = deleted_tail-zero t (x ∷ l) z n
  walk-zero t (x ∷ l) (y ∷ r) h k u z n = elim (Ordering-cases (strcmp x.filename y.filename)) [
    | OrderingCase.is_equal e ↦
        let (one, same) =
          tally_matched_same x y t _ (walk-grows (tally_matched mv x y t) l r)
            (rw (e, match_walk) at z) in
        at_equal x y l r e (is_unchanged→SameContents mv x y one)
          (walk-zero (tally_matched mv x y t) l r h.1 k.1 u.1 same) n
    | OrderingCase.is_lt e ↦
        let (gone, same) =
          tally_deleted_same x t _ (walk-grows (tally_deleted x t) l (y ∷ r))
            (rw (e, match_walk, unlinked_eq y u.0) at z) in
        at_old x l (y ∷ r)
          (find-Before x.filename (y ∷ r) (e, Before-trans x.filename y.filename r e k.0)) gone
          (walk-zero (tally_deleted x t) l (y ∷ r) h.1 k u same) n
    | OrderingCase.is_gt e ↦
        let z' : (match_walk mv version (tally_new t) (x ∷ l) r).tally.count ≡ t.count =
          rw (e, match_walk) at z in
        absurd (omega (arith, count-tally_new t, walk-grows (tally_new t) (x ∷ l) r))
  ]

  new_tail-nil : (t : Tally) → (new_tail mv version t []).tally.count ≡ t.count
  unfolding new_tail
  new_tail-nil t = refl

  found_old :
      (x : File) (l r : List File)
      → find x.filename r ≡ none
      → ((n : Text) → Unchanged mv (find n (x ∷ l)) (find n r))
      → x.is_deleted ≡ true
  found_old x l r e f =
      let h : Unchanged mv (find x.filename (x ∷ l)) (find x.filename r) = f x.filename in
      subst (λ o. Unchanged mv (some x) o) e
        (subst (λ o. Unchanged mv o (find x.filename r))
          (find_head x.filename x l (strcmp_refl x.filename)) h)

  past_old :
      (x : File) (l r : List File)
      → Ascending (x ∷ l)
      → find x.filename r ≡ none
      → ((n : Text) → Unchanged mv (find n (x ∷ l)) (find n r))
      → (n : Text) → Unchanged mv (find n l) (find n r)
  past_old x l r h e f n = elim (Ordering-cases (strcmp n x.filename)) [
    | OrderingCase.is_equal g ↦
        rw (before_eq mv version n x l g h, eq_of_strcmp n x.filename g, e) tt
    | OrderingCase.is_lt g ↦ rw (find_skip n x l (ground (arith, g))) at (f n)
    | OrderingCase.is_gt g ↦ rw (find_skip n x l (ground (arith, g))) at (f n)
  ]

  deleted_same : (x : File) (t : Tally) → x.is_deleted ≡ true → (tally_deleted x t).count ≡ t.count
  unfolding tally_deleted
  deleted_same x t h = ground arith

  matched_same : (x y : File) (t : Tally) → is_unchanged mv x y ≡ true → tally_matched mv x y t ≡ t
  unfolding tally_matched
  matched_same x y t h = rw h

  deleted_tail-same :
      (t : Tally) (l : List File)
      → Ascending l
      → ((n : Text) → Unchanged mv (find n l) (find n []))
      → (deleted_tail mv version t l).tally.count ≡ t.count
  unfolding deleted_tail
  deleted_tail-same t [] h f = refl
  deleted_tail-same t (x ∷ l) h f =
      deleted_tail-same (tally_deleted x t) l h.1 (past_old x l [] h (find_nil x.filename) f)
      ∙ deleted_same x t (found_old x l [] (find_nil x.filename) f)

  not_found_new :
      (y : File) (l r : List File)
      → find y.filename l ≡ none
      → ((n : Text) → Unchanged mv (find n l) (find n (y ∷ r)))
      → ⊥
  not_found_new y l r e f =
      subst (λ o. Unchanged mv none o) (find_head y.filename y r (strcmp_refl y.filename))
        (subst (λ o. Unchanged mv o (find y.filename (y ∷ r))) e (f y.filename))

  found_both :
      (x y : File) (l r : List File)
      → strcmp x.filename y.filename ≡ Ordering.eq
      → ((n : Text) → Unchanged mv (find n (x ∷ l)) (find n (y ∷ r)))
      → is_unchanged mv x y ≡ true
  found_both x y l r e f = SameContents→is_unchanged mv x y (
      subst (λ o. Unchanged mv (some x) o) (find_head x.filename y r e)
        (subst (λ o. Unchanged mv o (find x.filename (y ∷ r)))
          (find_head x.filename x l (strcmp_refl x.filename)) (f x.filename)))

  past_both :
      (x y : File) (l r : List File)
      → strcmp x.filename y.filename ≡ Ordering.eq
      → Ascending (x ∷ l)
      → Ascending (y ∷ r)
      → ((n : Text) → Unchanged mv (find n (x ∷ l)) (find n (y ∷ r)))
      → (n : Text) → Unchanged mv (find n l) (find n r)
  past_both x y l r e h k f n = elim (Ordering-cases (strcmp n x.filename)) [
    | OrderingCase.is_equal g ↦
        rw
          (
            before_eq mv version n x l g h,
            before_eq mv version n y r (rw (eq_of_strcmp n x.filename g) e) k,
          )
          tt
    | OrderingCase.is_lt g ↦ other (ground (arith, g))
    | OrderingCase.is_gt g ↦ other (ground (arith, g))
  ]
    where
      other : strcmp n x.filename ≢ Ordering.eq → Unchanged mv (find n l) (find n r)
      other g =
          rw
            (
              find_skip n x l g,
              find_skip n y r
                  (subst (λ m. strcmp n m ≢ Ordering.eq) (eq_of_strcmp x.filename y.filename e) g),
            )
            at (f n)

  -- The converse: an unchanged pair, an old file that was deleted.
  pub walk-same :
      (t : Tally) (l r : List File)
      → Ascending l
      → Ascending r
      → Unlinked r
      → ((n : Text) → Unchanged mv (find n l) (find n r))
      → (match_walk mv version t l r).tally.count ≡ t.count
  unfolding match_walk
  walk-same t [] [] h k u f = new_tail-nil t
  walk-same t [] (y ∷ r) h k u f = absurd (not_found_new y [] r (find_nil y.filename) f)
  walk-same t (x ∷ l) [] h k u f = deleted_tail-same t (x ∷ l) h f
  walk-same t (x ∷ l) (y ∷ r) h k u f = elim (Ordering-cases (strcmp x.filename y.filename)) [
    | OrderingCase.is_equal e ↦
        rw (e, match_walk, matched_same x y t (found_both x y l r e f))
          (walk-same t l r h.1 k.1 u.1 (past_both x y l r e h k f))
    | OrderingCase.is_lt e ↦
        let absent : find x.filename (y ∷ r) ≡ none =
          find-Before x.filename (y ∷ r) (e, Before-trans x.filename y.filename r e k.0) in
        rw (e, match_walk, unlinked_eq y u.0)
          (walk-same (tally_deleted x t) l (y ∷ r) h.1 k u (past_old x l (y ∷ r) h absent f)
            ∙ deleted_same x t (found_old x l (y ∷ r) absent f))
    | OrderingCase.is_gt e ↦
        let lt : strcmp y.filename x.filename ≡ Ordering.lt = strcmp_lt x.filename y.filename e in
        absurd (
          not_found_new y (x ∷ l) r
            (find-Before y.filename (x ∷ l) (lt, Before-trans y.filename x.filename l lt h.0)) f)
  ]
