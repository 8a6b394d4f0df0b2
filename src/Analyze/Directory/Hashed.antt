-- ===== src/Analyze/Directory/Hashed.antt =====
-- The hash that get_hash of src/analyze_fs.c gives a file of a directory, stated by what the file
-- system has at its path.
use swupd_server.Prelude.{
  ℕ, ◌≡◌, refl, ap, ◌∙◌, Option, none, some, Bool, true, false, ◌||◌, arith, take, if◌then◌else◌,
}
use swupd_server.Text.{Text, codes}
use swupd_server.File.{File, UpdateStat, is_some}
use swupd_server.Analyze.{
  FileSystem, Opened, s_islnk, s_isdir, typed, populated, populate_file_struct, hash_content,
  mapped, compute_hash, get_hash, based, hmac_compute_key, hmac_sha256_for_data,
  compute_hash_with_xattrs,
}
use swupd_server.Analyze.Hash.{is_readable, compute_live, hash_live, typed_deleted, all_xattrs}
use swupd_server.Analyze.Directory.Sound.{IsFresh, typed-IsFresh}

-- The bytes of a file, as many as its status says.
abbrev pub bytes : ℕ → Option Opened → Option Text
bytes size none = none
bytes size (some fl) = some (take size fl.content)

-- What is hashed of a path: a link's target, the word DIRECTORY, or the contents of a file.
abbrev pub hashed_data : FileSystem → Text → UpdateStat → Option Text
hashed_data fs path stat =
    if s_islnk stat.st_mode
    then fs.readlink path
    else if s_isdir stat.st_mode
    then some (codes "DIRECTORY")
    else bytes stat.st_size (fs.fopen path)

-- The status that is hashed: of a link without the mode, of a directory without the size.
abbrev pub hashed_status : UpdateStat → UpdateStat
hashed_status stat =
    if s_islnk stat.st_mode
    then record stat { st_mode = 0 }
    else if s_isdir stat.st_mode
    then record stat { st_size = 0 }
    else stat

-- The hash of what is at a path, if it is there and can be read, under the key of the status and of
-- the extended attributes there.
abbrev pub digest_of : FileSystem → Text → UpdateStat → Option Text → Option Text
digest_of fs path stat none = none
digest_of fs path stat (some content) =
    some (hmac_sha256_for_data fs (hmac_compute_key fs path (hashed_status stat) true) content)

abbrev pub expected_at : FileSystem → Text → Option UpdateStat → Option Text
expected_at fs path none = none
expected_at fs path (some stat) = digest_of fs path stat (hashed_data fs path stat)

abbrev pub expected_hash : FileSystem → Text → Option Text
expected_hash fs path = expected_at fs path (fs.lstat path)

-- A file has the hash of what is at its path below a directory.
abbrev pub IsHashed : FileSystem → Text → File → Type 0
IsHashed fs dir f = expected_hash fs (based (some dir) f.filename) ≡ some f.hash

-- There is something at a path, and it can be read.
abbrev pub is_present_at : FileSystem → Text → Option UpdateStat → Bool
is_present_at fs path none = false
is_present_at fs path (some stat) =
    if s_islnk stat.st_mode
    then is_some (fs.readlink path)
    else s_isdir stat.st_mode || is_readable stat.st_size (fs.fopen path)

abbrev pub is_present : FileSystem → Text → Bool
is_present fs path = is_present_at fs path (fs.lstat path)

-- What a task makes of a file.
pub record Hashes (fs : FileSystem) (dir : Text) (version : ℕ) (f g : File) : Type 0 where
  pub same_addr : g.addr ≡ f.addr
  pub same_name : g.filename ≡ f.filename
  pub fresh : IsFresh version g
  pub hashed : IsHashed fs dir g

some_of : {A : Type 0} (o : Option A) → is_some o ≡ true → (a : A) × (o ≡ some a)
some_of none h = absurd (ground arith)
some_of (some a) h = (a, refl)

readable_bytes :
    (size : ℕ) (o : Option Opened)
    → is_readable size o ≡ true
    → (data_at : Text) × (bytes size o ≡ some data_at) × (mapped size o ≡ some data_at)
readable_bytes size none h = absurd (ground arith)
readable_bytes size (some fl) h = (take size fl.content, refl, ground (arith, h))

-- A file of a known type with the hash of some data.
abbrev digested : FileSystem → Text → Bool → Bool → UpdateStat → File → Text → File
digested fs path l d stat f content = record (typed l d stat f) {
  hash = hmac_sha256_for_data fs (hmac_compute_key fs path (typed l d stat f).stat true) content;
}

module _ (fs : FileSystem) (path : Text) where
  content_digested :
      (l d : Bool) (stat : UpdateStat) (f : File) (content : Text) (o : Option Text)
      → f.use_xattrs ≡ true
      → o ≡ some content
      → hash_content fs (typed l d stat f) path o ≡ some (digested fs path l d stat f content)
  content_digested true d stat f content o x e = rw (e, x) refl
  content_digested false true stat f content o x e = rw (e, x) refl
  content_digested false false stat f content o x e = rw (e, x) refl

  live_digested :
      (l d : Bool) (stat : UpdateStat) (f : File)
      → f.use_xattrs ≡ true
      → (if l then is_some (fs.readlink path) else d || is_readable stat.st_size (fs.fopen path))
        ≡ true
      → (content : Text) × ((if l
            then fs.readlink path
            else if d
            then some (codes "DIRECTORY")
            else bytes stat.st_size (fs.fopen path))
          ≡ some content)
        × (hash_live fs path (typed l d stat f) ≡ some (digested fs path l d stat f content))
  live_digested true d stat f x h =
      let (target, e) = some_of (fs.readlink path) h in
      (target, e, content_digested true d stat f target (fs.readlink path) x e)
  live_digested false true stat f x h = (
    codes "DIRECTORY",
    refl,
    content_digested false true stat f (codes "DIRECTORY") (some (codes "DIRECTORY")) x refl,
  )
  live_digested false false stat f x h =
      let (content, e, k) = readable_bytes stat.st_size (fs.fopen path) h in
      (
        content,
        e,
        content_digested false false stat f content (mapped stat.st_size (fs.fopen path)) x k,
      )

typed_addr : (l d : Bool) (stat : UpdateStat) (f : File) → (typed l d stat f).addr ≡ f.addr
typed_addr true d stat f = refl
typed_addr false true stat f = refl
typed_addr false false stat f = refl

typed_name : (l d : Bool) (stat : UpdateStat) (f : File) → (typed l d stat f).filename ≡ f.filename
typed_name true d stat f = refl
typed_name false true stat f = refl
typed_name false false stat f = refl

typed_stat :
    (l d : Bool) (stat : UpdateStat) (f : File)
    → (typed l d stat f).stat
      ≡ (if l then record stat { st_mode = 0 } else if d then record stat { st_size = 0 } else stat)
typed_stat true d stat f = refl
typed_stat false true stat f = refl
typed_stat false false stat f = refl

module _ (fs : FileSystem) (dir : Text) (version : ℕ) where
  get_hash_at :
      (f : File)
      → get_hash fs (some dir) f
        ≡ compute_hash fs
            (populated
              (fs.lstat (based (some dir) f.filename))
              (record f { use_xattrs = compute_hash_with_xattrs (based (some dir) f.filename) }))
            (based (some dir) f.filename)
  unfolding get_hash populate_file_struct
  get_hash_at f = refl

  digested-IsHashed :
      (f : File) (stat : UpdateStat) (content : Text)
      → fs.lstat (based (some dir) f.filename) ≡ some stat
      → hashed_data fs (based (some dir) f.filename) stat ≡ some content
      → IsHashed fs dir (
          digested fs
            (based (some dir) f.filename)
            (s_islnk stat.st_mode)
            (s_isdir stat.st_mode)
            stat
            f
            content)
  digested-IsHashed f stat content found e =
      let l : Bool = s_islnk stat.st_mode in
      let d : Bool = s_isdir stat.st_mode in
      let path : Text = based (some dir) f.filename in
      let here : expected_hash fs path ≡ digest_of fs path stat (some content) =
        ap (expected_at fs path) found ∙ ap (digest_of fs path stat) e in
      rw (typed_name l d stat f, typed_stat l d stat f) here

  pub known-Hashes :
      (f : File) (o : Option UpdateStat)
      → IsFresh version f
      → fs.lstat (based (some dir) f.filename) ≡ o
      → is_present_at fs (based (some dir) f.filename) o ≡ true
      → (g : File) × (get_hash fs (some dir) f ≡ some g) × Hashes fs dir version f g
  known-Hashes f none fresh found h = absurd (ground arith)
  known-Hashes f (some stat) fresh found h =
      let path : Text = based (some dir) f.filename in
      let f' : File = record f { use_xattrs = compute_hash_with_xattrs path } in
      let l : Bool = s_islnk stat.st_mode in
      let d : Bool = s_isdir stat.st_mode in
      let (content, e, k) = live_digested fs path l d stat f' (all_xattrs path) h in
      let live : (typed l d stat f').is_deleted ≡ false =
        typed_deleted fs path l d stat f' ∙ fresh.1 in
      (
        digested fs path l d stat f' content,
        get_hash_at f
            ∙ ap (λ o. compute_hash fs (populated o f') path) found
            ∙ compute_live fs path (typed l d stat f') live
            ∙ k,
        record {
          same_addr = typed_addr l d stat f';
          same_name = typed_name l d stat f';
          fresh = rw (← fresh.3) (typed-IsFresh l d stat f' fresh.1 fresh.2);
          hashed = digested-IsHashed f' stat content found e;
        },
      )
