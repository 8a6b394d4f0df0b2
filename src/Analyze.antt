-- ===== src/Analyze.antt =====
-- src/analyze_fs.c: the state and the hash of one file, as the file system shows it. The system calls,
-- the HMAC of openssl and the bytes of `struct update_stat`, whose layout the compiler chooses, are
-- the fields of a parameter.
pub mod Hash
pub mod Lines
pub mod Directory
use swupd_server.Prelude.{
  ℕ, ◌+◌, ◌*◌, ◌-◌, ◌/◌, ◌%◌, List, [], ◌∷◌, ◌++◌, Option, none, some, Bool, true, false, ◌==◌, ltb,
  if◌then◌else◌, length, take, not, ◌&&◌,
}
use swupd_server.Text.{Text, codes, starts_with}
use swupd_server.File.{File, UpdateStat, hash_assign, hash_is_zeros, hash_set_zeros, zeros}

-- What opendir and readdir give: a failure with ENOENT, another failure, or the names.
pub data Listing : Type 0 where
  missing refused : Listing
  entries : List Text → Listing

-- A file that fopen opened: its bytes, and whether mmap can map them.
pub record Opened : Type 0 where
  pub content : Text
  pub maps : Bool

-- One state of the file system. `none` stands for an error; HMAC takes the key and the data.
pub record FileSystem : Type 0 where
  pub lstat : Text → Option UpdateStat
  pub readlink : Text → Option Text
  pub fopen : Text → Option Opened
  pub opendir : Text → Listing
  pub xattrs_get_blob : Text → Text
  pub hmac : Text → Text → Option Text
  pub stat_bytes : UpdateStat → Text

-- S_ISLNK and S_ISDIR, on a mode of 16 bits.
abbrev pub s_islnk : ℕ → Bool
s_islnk mode = mode / 4096 % 16 == 10

abbrev pub s_isdir : ℕ → Bool
s_isdir mode = mode / 4096 % 16 == 4

abbrev pub not_found : File → File
not_found file =
    if file.is_boot then record file { is_ghosted = true } else record file { is_deleted = true }

-- The state of a file whose status is known: S_ISLNK, S_ISDIR, the status.
abbrev pub typed : Bool → Bool → UpdateStat → File → File
typed true isdir stat file = record file {
  stat = record stat { st_mode = 0 };
  is_file = false;
  is_dir = false;
  is_link = true;
}
typed false true stat file = record file {
  stat = record stat { st_size = 0 };
  is_file = false;
  is_dir = true;
  is_link = false;
}
typed false false stat file = record file {
  stat = stat;
  is_file = true;
  is_dir = false;
  is_link = false;
}

abbrev pub classified : UpdateStat → File → File
classified stat file = typed (s_islnk stat.st_mode) (s_isdir stat.st_mode) stat file

abbrev pub populated : Option UpdateStat → File → File
populated none file = not_found file
populated (some stat) file = classified stat file

unfoldable pub populate_file_struct : FileSystem → File → Text → File
populate_file_struct fs file filename = populated (fs.lstat filename) file

-- sprintf with "%02x", for each byte of the digest.
abbrev pub hex_digit : ℕ → ℕ
hex_digit d = if ltb d 10 then b'0' + d else b'a' + d - 10

unfoldable pub hex : Text → Text
hex [] = []
hex (c ∷ digest) = hex_digit (c / 16 % 16) ∷ hex_digit (c % 16) ∷ hex digest

abbrev pub digest_hash : Option Text → Text
digest_hash none = hash_set_zeros
digest_hash (some digest) = hash_assign (hex digest)

-- The hash that is written, for data that is not NULL.
unfoldable pub hmac_sha256_for_data : FileSystem → Text → Text → Text
hmac_sha256_for_data fs key content = digest_hash (fs.hmac key content)

-- The bytes of the key: none if it could not be computed.
abbrev pub usable_key : Text → Text
usable_key key = if hash_is_zeros key then [] else key

unfoldable pub hmac_compute_key : FileSystem → Text → UpdateStat → Bool → Text
hmac_compute_key fs filename stat use_xattrs = usable_key (
    hmac_sha256_for_data fs (fs.stat_bytes stat)
      (if use_xattrs then fs.xattrs_get_blob filename else []))

-- The hash of some data under the key of a file.
abbrev pub hash_of : FileSystem → File → Text → Text → File
hash_of fs file filename content = record file {
  hash = hmac_sha256_for_data fs (hmac_compute_key fs filename file.stat file.use_xattrs) content;
}

abbrev pub hash_content : FileSystem → File → Text → Option Text → Option File
hash_content fs file filename none = none
hash_content fs file filename (some content) = some (hash_of fs file filename content)

-- SWUPD_HASH_DIRNAME
abbrev pub swupd_hash_dirname : Text
swupd_hash_dirname = codes "DIRECTORY"

-- fopen and mmap, with as many bytes as the status says. `none` where the file is not opened, and
-- where the assertion finds that mmap failed for a size that is not zero.
abbrev pub mapped : ℕ → Option Opened → Option Text
mapped size none = none
mapped size (some fl) = if not fl.maps && not (size == 0) then none else some (take size fl.content)

-- The file with its hash; `none` where the function returns -1 or its assertion stops the program.
unfoldable pub compute_hash : FileSystem → File → Text → Option File
compute_hash fs file filename =
    if file.is_deleted
    then some (record file { hash = hash_set_zeros })
    else if file.is_link
    then hash_content fs file filename (fs.readlink filename)
    else if file.is_dir
    then some (hash_of fs file filename swupd_hash_dirname)
    else hash_content fs file filename (mapped file.stat.st_size (fs.fopen filename))

unfoldable pub compute_hash_with_xattrs : Text → Bool
compute_hash_with_xattrs filename = if starts_with filename (codes "/boot/") then true else true

-- The path of a file below a directory, if one is given.
abbrev pub based : Option Text → Text → Text
based none filename = filename
based (some base) filename = base ++ codes "/" ++ filename

-- A task of the thread pool; the program stops at `none`.
unfoldable pub get_hash : FileSystem → Option Text → File → Option File
get_hash fs base file =
    let filename = based base file.filename in
    let file' = record file { use_xattrs = compute_hash_with_xattrs filename } in
    compute_hash fs (populate_file_struct fs file' filename) filename
