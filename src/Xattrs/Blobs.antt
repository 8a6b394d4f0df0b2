-- ===== src/Xattrs/Blobs.antt =====
-- What the block of extended attributes of src/xattrs.c depends on, and what a copy copies.
use mathlib.Core.List.{Perm}
use mathlib.Core.List.Perm
use swupd_server.Prelude.{
  ◌≡◌, ◌↔◌, refl, sym, ap, ◌∙◌, List, [], ◌∷◌, ◌++◌, Option, none, some, true, ◌&&◌, ◌==◌, arith,
  if◌then◌else◌, length, take, Option-cases, inl, inr,
}
use swupd_server.Text.{Text, strcmp, same}
use swupd_server.Text.Order.{strcmp_refl, eq_of_strcmp}
use swupd_server.Sorter.{Sorter}
use swupd_server.Sorter.Unique.{sort-perm}
use swupd_server.Xattrs.{
  XattrsAction, terminated, names_of, get_xattr_name_count, get_sorted_xattr_name_table,
  names_block, xattr_get_value, value_walk, sorted_names, xattrs_get_blob, xattrs_compare, table_of,
  block_of,
}

abbrev listed : Option Text → List Text
listed none = []
listed (some list) = names_of list

-- The names of a file's attributes, in the order of the system call.
abbrev pub attribute_names : (Text → Option Text) → Text → List Text
attribute_names listxattr path = listed (listxattr path)

take-length : (l : List Text) → take (length l) l ≡ l
take-length [] = refl
take-length (x ∷ l) = ap (◌∷◌ x) (take-length l)

sort_nil : (s : Sorter Text) → s.sort strcmp [] ≡ []
sort_nil s = Perm.eq-nil (s.perm strcmp [])

same_block :
    (a b : Text)
    → (if length a == 0 && length b == 0 then true else length a == length b && same a b) ≡ true
    → a ≡ b
same_block [] [] h = refl
same_block [] (y ∷ b) h = absurd (ground arith)
same_block (x ∷ a) [] h = absurd (ground arith)
same_block (x ∷ a) (y ∷ b) h = eq_of_strcmp (x ∷ a) (y ∷ b) (ground arith)

module _ (s : Sorter Text) (listxattr : Text → Option Text)
    (getxattr : Text → Text → Option Text) where
  table_lem : (o : Option Text) → table_of s listxattr getxattr o ≡ s.sort strcmp (listed o)
  unfolding get_sorted_xattr_name_table get_xattr_name_count
  table_lem none = sym (sort_nil s)
  table_lem (some list) = ap (s.sort strcmp) (take-length (names_of list))

  sorted_names_lem :
      (path : Text)
      → sorted_names s listxattr getxattr path ≡ s.sort strcmp (attribute_names listxattr path)
  unfolding sorted_names
  sorted_names_lem path = table_lem (listxattr path)

  value_walk-same :
      (a b : Text)
      → ((name : Text) → getxattr a name ≡ getxattr b name)
      → (names : List Text) (value : Text)
      → value_walk s listxattr getxattr a names value
        ≡ value_walk s listxattr getxattr b names value
  unfolding value_walk xattr_get_value
  value_walk-same a b h [] value = refl
  value_walk-same a b h (name ∷ names) value = elim (Option-cases (getxattr b name)) [
    | inl e ↦ ground (arith, h name)
    | inr (v, e) ↦ ground (
      arith,
      h name,
      e,
      value_walk-same a b h names (value ++ terminated XattrsAction.get_blob v),
    )
  ]

  block_of-same :
      (a b : Text)
      → ((name : Text) → getxattr a name ≡ getxattr b name)
      → (names : List Text)
      → block_of s listxattr getxattr a names ≡ block_of s listxattr getxattr b names
  block_of-same a b h [] = refl
  block_of-same a b h (name ∷ names) =
      value_walk-same a b h (name ∷ names) (names_block (name ∷ names))

  -- Two files whose attributes have the same names, listed in any order, and the same values have
  -- the same block, so that the hash of a file does not depend on the order of its attributes.
  pub xattrs_get_blob-perm :
      (a b : Text)
      → Perm (attribute_names listxattr a) (attribute_names listxattr b)
      → ((name : Text) → getxattr a name ≡ getxattr b name)
      → xattrs_get_blob s listxattr getxattr a ≡ xattrs_get_blob s listxattr getxattr b
  unfolding xattrs_get_blob
  xattrs_get_blob-perm a b p h =
      let one : sorted_names s listxattr getxattr a ≡ sorted_names s listxattr getxattr b =
        sorted_names_lem a
        ∙ sort-perm s (attribute_names listxattr a) (attribute_names listxattr b) p
        ∙ sym (sorted_names_lem b) in
      ap (block_of s listxattr getxattr a) one
      ∙ block_of-same a b h (sorted_names s listxattr getxattr b)

  -- xattrs_compare returns 0 exactly when the two blocks are the same.
  pub xattrs_compare_iff :
      (a b : Text)
      → (xattrs_compare s listxattr getxattr a b ≡ true)
        ↔ (xattrs_get_blob s listxattr getxattr a ≡ xattrs_get_blob s listxattr getxattr b)
  unfolding xattrs_compare
  xattrs_compare_iff a b = (
    λ h.
        same_block (xattrs_get_blob s listxattr getxattr a) (xattrs_get_blob s listxattr getxattr b)
          h,
    λ e. rw e (ground (arith, strcmp_refl (xattrs_get_blob s listxattr getxattr b))),
  )
