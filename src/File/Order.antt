-- ===== src/File/Order.antt =====
-- The compare functions are orders, so that a list with distinct filenames, sorted by filename,
-- rises strictly; and the laws of the hash functions.
use swupd_server.Prelude.{
  ◌≡◌, ◌≢◌, refl, ap, Bool, true, List, Ordering, compare, flip, arith, Pairs-perm, Pairs-zip,
  All-imp, take, [], ◌∷◌, ℕ, zero, suc,
}
use swupd_server.Text.{Text, strcmp, then_by}
use swupd_server.Text.Order.{strcmp_refl, strcmp-flip, strcmp_le_trans, strcmp_trans}
use swupd_server.Sorter.{IsOrder, Sorter}
use swupd_server.File.{
  File, file_sort_filename, file_sort_version, file_sort_hash, compare_bool, Distinct, Ascending,
  Before, hash_assign, hash_compare, hash_size,
}
use mathlib.Core.List.Perm

module _ {A : Type 0} where
  module _ (f g : A → A → Ordering) (o : IsOrder f) (u : IsOrder g) where
    then_by-flips : (a b : A) → then_by (f b a) (g b a) ≡ flip (then_by (f a b) (g a b))
    then_by-flips a b = ground (arith, o.flips a b, u.flips a b)

    then_by_trans :
        (a b c : A)
        → then_by (f a b) (g a b) ≢ Ordering.gt
        → then_by (f b c) (g b c) ≢ Ordering.gt
        → then_by (f a c) (g a c) ≢ Ordering.gt
    then_by_trans a b c h k = ground (
      arith,
      o.flips a b,
      o.flips b c,
      o.flips a c,
      o.trans a b c,
      o.trans b c a,
      o.trans c a b,
      u.trans a b c,
    )

    then_by-IsOrder : IsOrder (λ a b. then_by (f a b) (g a b))
    then_by-IsOrder = record { flips = then_by-flips; trans = then_by_trans }

  strcmp-IsOrder : (key : A → Text) → IsOrder (λ a b. strcmp (key a) (key b))
  strcmp-IsOrder key = record {
    flips = λ a b. strcmp-flip (key a) (key b);
    trans = λ a b c. strcmp_le_trans (key a) (key b) (key c);
  }

  pub compare-IsOrder : (key : A → ℕ) → IsOrder (λ a b. compare (key a) (key b))
  compare-IsOrder key = record { flips = λ a b. ground arith; trans = λ a b c h k. ground arith }

  compare_bool-IsOrder : (key : A → Bool) → IsOrder (λ a b. compare_bool (key a) (key b))
  compare_bool-IsOrder key = record {
    flips = λ a b. ground arith;
    trans = λ a b c h k. ground arith;
  }

pub file_sort_filename-IsOrder : IsOrder file_sort_filename
unfolding file_sort_filename
file_sort_filename-IsOrder =
    then_by-IsOrder _ _ (strcmp-IsOrder (λ (f : File). f.filename))
      (compare_bool-IsOrder (λ f. f.is_deleted))

pub file_sort_version-IsOrder : IsOrder file_sort_version
unfolding file_sort_version
file_sort_version-IsOrder =
    then_by-IsOrder _ _ (compare-IsOrder (λ (f : File). f.last_change))
      (strcmp-IsOrder (λ f. f.filename))

pub file_sort_hash-IsOrder : IsOrder file_sort_hash
unfolding file_sort_hash
file_sort_hash-IsOrder = strcmp-IsOrder (λ (f : File). take hash_size f.hash)

lt_of_le_ne :
    (a b : File)
    → file_sort_filename a b ≢ Ordering.gt
    → strcmp a.filename b.filename ≢ Ordering.eq
    → strcmp a.filename b.filename ≡ Ordering.lt
unfolding file_sort_filename
lt_of_le_ne a b h k = ground arith

module _ (s : Sorter File) where
  pub sort-Distinct :
      (l : List File) (cmp : File → File → Ordering) → Distinct l → Distinct (s.sort cmp l)
  sort-Distinct l cmp h =
      Pairs-perm (λ a b. hlevel) (λ a b ne e. ne (rw strcmp-flip (ap flip e)))
        (Perm.symm (s.perm cmp l)) h

  -- Sorting by filename a list with distinct filenames makes them rise strictly.
  pub sort-Ascending : (l : List File) → Distinct l → Ascending (s.sort file_sort_filename l)
  sort-Ascending l h =
      Pairs-zip _ _ _ lt_of_le_ne (s.sort file_sort_filename l)
        (s.sorted file_sort_filename file_sort_filename-IsOrder l)
        (sort-Distinct l file_sort_filename h)

pub Before-trans : (a b : Text) (l : List File) → strcmp a b ≡ Ordering.lt → Before b l → Before a l
Before-trans a b l h k = All-imp _ _ (λ f p. strcmp_trans a b f.filename h p) l k

pub take-take {ℓ} : {A : Type ℓ} (n : ℕ) (l : List A) → take n (take n l) ≡ take n l
take-take zero l = refl
take-take (suc n) [] = refl
take-take (suc n) (x ∷ l) = ap (◌∷◌ x) (take-take n l)

pub hash_compare-hash_assign : (h : Text) → hash_compare h (hash_assign h) ≡ true
unfolding hash_compare hash_assign
hash_compare-hash_assign h = rw (take-take hash_size h, strcmp_refl (take hash_size h))

pub hash_compare_comm : (a b : Text) → hash_compare a b ≡ hash_compare b a
unfolding hash_compare
hash_compare_comm a b = ground (arith, strcmp-flip (take hash_size a) (take hash_size b))
