-- ===== src/File.antt =====
-- `struct file` of include/swupd.h, the hash functions of src/analyze_fs.c and the compare
-- functions of src/manifest.c. A file object is known by its address, which is what the pointers
-- `peer` and `rename_peer` hold; a version is an int that is not negative, a natural number here.
pub mod Order
use swupd_server.Prelude.{
  ℕ, ◌≡◌, ◌≢◌, Bool, true, false, Option, none, List, [], ◌∷◌, compare, Ordering, take, is_eq,
  Pairs, All, if◌then◌else◌, ◌==◌,
}
use swupd_server.Text.{Text, codes, strcmp, same, then_by}

-- struct update_stat
pub record UpdateStat : Type 0 where
  pub st_mode : ℕ
  pub st_uid : ℕ
  pub st_gid : ℕ
  pub st_rdev : ℕ
  pub st_size : ℕ

abbrev pub no_stat : UpdateStat
no_stat = record { st_mode = 0; st_uid = 0; st_gid = 0; st_rdev = 0; st_size = 0 }

-- What `struct file` holds for rename detection, but for the pointer and the score.
pub record RenameData : Type 0 where
  pub alpha_only_filename : Text
  pub filetype : Option Text
  pub basename : Text
  pub dirname : Text

abbrev pub no_rename_data : RenameData
no_rename_data = record { alpha_only_filename = []; filetype = none; basename = []; dirname = [] }

pub record File : Type 0 where
  pub addr : ℕ
  pub filename : Text
  pub hash : Text
  pub use_xattrs : Bool
  pub last_change : ℕ
  pub stat : UpdateStat
  pub is_dir : Bool
  pub is_file : Bool
  pub is_link : Bool
  pub is_deleted : Bool
  pub is_ghosted : Bool
  pub is_manifest : Bool
  pub is_config : Bool
  pub is_state : Bool
  pub is_boot : Bool
  pub is_rename : Bool
  pub peer : Option ℕ
  pub rename_peer : Option ℕ
  pub rename_data : RenameData

-- SWUPD_HASH_LEN - 1
abbrev pub hash_size : ℕ
hash_size = 64

-- The content of `dst` after the call, up to the NUL that it writes.
unfoldable pub hash_assign : Text → Text
hash_assign src = take hash_size src

unfoldable pub hash_compare : Text → Text → Bool
hash_compare hash1 hash2 = same (take hash_size hash1) (take hash_size hash2)

abbrev pub zeros : Text
zeros = codes "0000000000000000000000000000000000000000000000000000000000000000"

unfoldable pub hash_is_zeros : Text → Bool
unfolding hash_compare
hash_is_zeros hash = hash_compare zeros hash

unfoldable pub hash_set_zeros : Text
unfolding hash_assign
hash_set_zeros = hash_assign zeros

-- `p == q` on pointers, and `p != NULL`.
abbrev pub is_some {ℓ} : {A : Type ℓ} → Option A → Bool
is_some none = false
is_some (Option.some a) = true

abbrev pub compare_bool : Bool → Bool → Ordering
compare_bool true false = Ordering.gt
compare_bool false true = Ordering.lt
compare_bool _ _ = Ordering.eq

unfoldable pub file_sort_hash : File → File → Ordering
file_sort_hash a b = strcmp (take hash_size a.hash) (take hash_size b.hash)

unfoldable pub file_sort_version : File → File → Ordering
file_sort_version a b = then_by (compare a.last_change b.last_change) (strcmp a.filename b.filename)

unfoldable pub file_sort_filename : File → File → Ordering
file_sort_filename a b =
    then_by (strcmp a.filename b.filename) (compare_bool a.is_deleted b.is_deleted)

-- No filename occurs twice.
abbrev pub Distinct : List File → Type 0
Distinct = Pairs (λ a b. strcmp a.filename b.filename ≢ Ordering.eq)

-- The filenames rise strictly.
abbrev pub Ascending : List File → Type 0
Ascending = Pairs (λ a b. strcmp a.filename b.filename ≡ Ordering.lt)

-- Whether a filename comes before every one of a list.
abbrev pub Before : Text → List File → Type 0
Before name = All (λ f. strcmp name f.filename ≡ Ordering.lt)
