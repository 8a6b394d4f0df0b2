-- ===== src/Fullfiles/Hashes.antt =====
-- The files for which src/fullfiles.c makes a full file, by their hashes.
use mathlib.Core.List.Perm
use swupd_server.Prelude.{
  ℕ, ◌≡◌, ◌≢◌, refl, List, [], ◌∷◌, Bool, true, false, not, ◌||◌, ◌==◌, Ordering, arith, All-imp,
  ◌&&◌, Pairs, Pairs-perm, any, Bool-cases, inl, inr, take,
}
use swupd_server.Text.{Text}
use swupd_server.Text.Order.{strcmp_refl, strcmp-flip, strcmp_trans}
use swupd_server.File.{File, hash_compare, hash_size, file_sort_hash, file_sort_filename}
use swupd_server.File.Order.{file_sort_hash-IsOrder}
use swupd_server.Sorter.{Sorter, Ordered}
use swupd_server.Manifest.{Manifest}
use swupd_server.Fullfiles.{unique_walk, first_new, get_deduplicated_fullfile_list}

-- Every hash of the list is after every later one.
abbrev Falling : List File → Type 0
Falling = Pairs (λ f g. file_sort_hash g f ≡ Ordering.lt)

hash_lt :
    (f g : File)
    → file_sort_hash f g ≢ Ordering.gt
    → hash_compare f.hash g.hash ≡ false
    → file_sort_hash f g ≡ Ordering.lt
unfolding file_sort_hash hash_compare
hash_lt f g h k = ground arith

hash_lt_trans :
    (f g x : File)
    → file_sort_hash f g ≡ Ordering.lt
    → file_sort_hash g x ≡ Ordering.lt
    → file_sort_hash f x ≡ Ordering.lt
unfolding file_sort_hash
hash_lt_trans f g x h k = strcmp_trans _ _ _ h k

lt_differ : (f g : File) → file_sort_hash g f ≡ Ordering.lt → hash_compare f.hash g.hash ≡ false
unfolding file_sort_hash hash_compare
lt_differ f g h = ground (arith, strcmp-flip (take hash_size g.hash) (take hash_size f.hash))

unique-Falling :
    (v : ℕ) (prev : File) (l out : List File)
    → Ordered file_sort_hash (prev ∷ l)
    → Falling (prev ∷ out)
    → Falling (unique_walk v prev l (prev ∷ out))
unfolding unique_walk
unique-Falling v prev [] out o h = h
unique-Falling v prev (f ∷ l) out o h =
    elim (Bool-cases (f.is_deleted || not (f.last_change == v))) [
      | inl e ↦ rw e (unique-Falling v prev l out (o.0.1, o.1.1) h)
      | inr e ↦ elim (Bool-cases (hash_compare prev.hash f.hash)) [
        | inl d ↦ rw (e, d) (unique-Falling v prev l out (o.0.1, o.1.1) h)
        | inr d ↦
            let after : file_sort_hash prev f ≡ Ordering.lt = hash_lt prev f o.0.0 d in
            rw (e, d)
              (unique-Falling v f l (prev ∷ out) o.1
                ((after, All-imp _ _ (λ x k. hash_lt_trans x prev f k after) out h.0), h))
      ]
    ]

first-Falling : (v : ℕ) (l : List File) → Ordered file_sort_hash l → Falling (first_new v l)
unfolding first_new
first-Falling v [] o = tt
first-Falling v (f ∷ l) o = elim (Bool-cases (f.last_change == v)) [
  | inl e ↦ rw e (unique-Falling v f (f ∷ l) [] ((self f, o.0), o) (tt, tt))
  | inr e ↦ rw e (first-Falling v l o.1)
]
  where
    self : (x : File) → file_sort_hash x x ≢ Ordering.gt
    self x = unfold file_sort_hash in ground (arith, strcmp_refl (take hash_size x.hash))

-- No two files have one hash.
abbrev pub OncePerHash : List File → Type 0
OncePerHash = Pairs (λ f g. hash_compare f.hash g.hash ≡ false)

Falling-OncePerHash : (l : List File) → Falling l → OncePerHash l
Falling-OncePerHash [] h = tt
Falling-OncePerHash (f ∷ l) h =
    (All-imp _ _ (λ g k. lt_differ f g k) l h.0, Falling-OncePerHash l h.1)

differ-flip : (f g : File) → hash_compare f.hash g.hash ≡ false → hash_compare g.hash f.hash ≡ false
unfolding hash_compare
differ-flip f g h = ground (arith, strcmp-flip (take hash_size f.hash) (take hash_size g.hash))

-- No two of the files given have the same hash, so that no two tasks write the same full file.
pub get_deduplicated_fullfile_list-OncePerHash :
    (s : Sorter File) (m : Manifest) → OncePerHash (get_deduplicated_fullfile_list s m).1
unfolding get_deduplicated_fullfile_list
get_deduplicated_fullfile_list-OncePerHash s m =
    let files : List File = s.sort file_sort_hash m.files in
    Pairs-perm (λ f g. hlevel) differ-flip
      (Perm.symm (s.perm file_sort_filename (first_new m.version files)))
      (Falling-OncePerHash (first_new m.version files)
        (first-Falling m.version files (s.sorted file_sort_hash file_sort_hash-IsOrder m.files)))

-- Whether a list has a file of this hash.
abbrev has_hash : Text → List File → Bool
has_hash h = any (λ f. hash_compare h f.hash)

pub hash_refl : (a : Text) → hash_compare a a ≡ true
unfolding hash_compare
hash_refl a = rw (strcmp_refl (take hash_size a)) refl

-- A file that is new and not deleted has its hash in the list.
abbrev is_covered : ℕ → List File → File → Bool
is_covered version out f = (f.is_deleted || not (f.last_change == version)) || has_hash f.hash out

-- A new file of this hash that is not deleted: one for which a full file is made.
abbrev pub makes_hash : ℕ → Text → File → Bool
makes_hash version h g = hash_compare h g.hash && g.last_change == version && not g.is_deleted

-- A file that is not new, or not deleted, or has another hash.
abbrev pub is_no_deletion : ℕ → Text → File → Bool
is_no_deletion version h g = not (hash_compare h g.hash && g.last_change == version && g.is_deleted)
