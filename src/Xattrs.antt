-- ===== src/Xattrs.antt =====
-- src/xattrs.c: the extended attributes of a file as one block of bytes, for its hash, and their copy
-- to another file. The system calls are parameters: `listxattr` gives the names of a file's
-- attributes, each with a NUL behind it, `getxattr` the value of one; `none` is an error. Both calls
-- for one list or one value give the same, as they do while no other process changes the file.
pub mod Blobs
use swupd_server.Prelude.{
  ℕ, ◌+◌, List, [], ◌∷◌, ◌++◌, Option, none, some, Bool, true, false, not, ◌&&◌, ◌==◌,
  if◌then◌else◌, length, take,
}
use swupd_server.Text.{Text, strcmp, same}
use swupd_server.Sorter.{Sorter}

pub data XattrsAction : Type 0 where
  copy get_blob : XattrsAction

abbrev pub is_get_blob : XattrsAction → Bool
is_get_blob XattrsAction.get_blob = true
is_get_blob XattrsAction.copy = false

abbrev pub last_byte : Text → ℕ
last_byte [] = 0
last_byte (c ∷ []) = c
last_byte (c ∷ d ∷ l) = last_byte (d ∷ l)

-- What xattr_get_value appends for a value: a block ends in a NUL, a copy is as it is.
abbrev pub terminated : XattrsAction → Text → Text
terminated action value =
    if is_get_blob action && not (last_byte value == 0) then value ++ 0 ∷ [] else value

-- The names in the result of llistxattr.
abbrev pub put_front : ℕ → List Text → List Text
put_front c [] = (c ∷ []) ∷ []
put_front c (name ∷ names) = (c ∷ name) ∷ names

unfoldable pub names_of : Text → List Text
names_of [] = []
names_of (c ∷ list) = if c == 0 then [] ∷ names_of list else put_front c (names_of list)

unfoldable pub get_xattr_name_count : Text → ℕ
get_xattr_name_count list = length (names_of list)

unfoldable pub get_sorted_xattr_name_table : Sorter Text → Text → ℕ → List Text
get_sorted_xattr_name_table s list n = s.sort strcmp (take n (names_of list))

-- The names, one after another, each with its NUL.
abbrev pub names_block : List Text → Text
names_block [] = []
names_block (name ∷ names) = name ++ 0 ∷ names_block names

module _ (s : Sorter Text) (listxattr : Text → Option Text)
    (getxattr : Text → Text → Option Text) where
  -- The block after one more value; none is -1.
  unfoldable pub xattr_get_value : Text → Text → Text → XattrsAction → Option Text
  xattr_get_value path name blob action = elim (getxattr path name) [
    | none ↦ none
    | some value ↦ some (blob ++ terminated action value)
  ]

  -- The loop over the names for a block: an error leaves nothing.
  unfoldable pub value_walk : Text → List Text → Text → Text
  value_walk path [] value = value
  value_walk path (name ∷ names) value =
      elim (xattr_get_value path name value XattrsAction.get_blob) [
        | none ↦ []
        | some value' ↦ value_walk path names value'
      ]

  abbrev pub table_of : Option Text → List Text
  table_of none = []
  table_of (some list) = get_sorted_xattr_name_table s list (get_xattr_name_count list)

  -- The sorted names; a list that cannot be read or is empty has none.
  unfoldable pub sorted_names : Text → List Text
  sorted_names path = table_of (listxattr path)

  abbrev pub block_of : Text → List Text → Text
  block_of path [] = []
  block_of path (name ∷ names) = value_walk path (name ∷ names) (names_block (name ∷ names))

  -- The block; its length 0 is what the code marks by a length of 0.
  unfoldable pub xattrs_get_blob : Text → Text
  xattrs_get_blob path = block_of path (sorted_names path)

  -- Whether xattrs_compare returns 0. On blocks of one length `same` is memcmp(a, b, n) == 0.
  unfoldable pub xattrs_compare : Text → Text → Bool
  xattrs_compare filename1 filename2 =
      let old_xattrs = xattrs_get_blob filename1 in
      let new_xattrs = xattrs_get_blob filename2 in
      if length old_xattrs == 0 && length new_xattrs == 0
      then true
      else length old_xattrs == length new_xattrs && same old_xattrs new_xattrs

  -- The calls of lsetxattr that succeed, in their order; `setxattr` says which do.
  unfoldable pub copy_walk :
      (Text → Text → Text → Bool) → Text → Text → List Text → List (Text × Text)
  copy_walk setxattr src dst [] = []
  copy_walk setxattr src dst (name ∷ names) =
      let rest = copy_walk setxattr src dst names in
      elim (xattr_get_value src name [] XattrsAction.copy) [
        | none ↦ []
        | some value ↦ if setxattr dst name value then (name, value) ∷ rest else []
      ]

  unfoldable pub xattrs_copy : (Text → Text → Text → Bool) → Text → Text → List (Text × Text)
  xattrs_copy setxattr src dst = copy_walk setxattr src dst (sorted_names src)
