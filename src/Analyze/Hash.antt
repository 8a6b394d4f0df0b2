-- ===== src/Analyze/Hash.antt =====
-- When the hash of a file can be computed, and what it depends on (src/analyze_fs.c).
use swupd_server.Prelude.{
  ℕ, ◌≡◌, ◌↔◌, refl, sym, ap, Option, none, some, Bool, true, false, not, ◌||◌, ◌==◌, ◌∙◌, arith,
  if◌then◌else◌,
}
use swupd_server.Text.{Text}
use swupd_server.File.{File, UpdateStat, hash_set_zeros, is_some}
use swupd_server.Analyze.{
  FileSystem, Opened, s_islnk, s_isdir, typed, not_found, populated, populate_file_struct, hash_of,
  hash_content, mapped, compute_hash, get_hash, based, swupd_hash_dirname, hmac_compute_key,
  compute_hash_with_xattrs,
}

-- Whether a file is opened and, if its size is not zero, can be mapped.
abbrev pub is_readable : ℕ → Option Opened → Bool
is_readable size none = false
is_readable size (some fl) = fl.maps || size == 0

-- Whether a path that is there cannot be read: a link whose target is refused, or what is neither a
-- link nor a directory and is not readable.
abbrev pub is_unreadable_at : FileSystem → Text → Option UpdateStat → Bool
is_unreadable_at fs path none = false
is_unreadable_at fs path (some stat) =
    if s_islnk stat.st_mode
    then not (is_some (fs.readlink path))
    else not (s_isdir stat.st_mode || is_readable stat.st_size (fs.fopen path))

abbrev pub is_unreadable : FileSystem → Text → Bool
is_unreadable fs path = is_unreadable_at fs path (fs.lstat path)

-- A file as add_file leaves it: not deleted, and not marked as a boot file.
abbrev pub is_plain : File → Bool
is_plain file = not (file.is_deleted || file.is_boot)

hashed-some :
    (fs : FileSystem) (file : File) (path : Text) (o : Option Text)
    → is_some (hash_content fs file path o) ≡ is_some o
hashed-some fs file path none = refl
hashed-some fs file path (some content) = refl

mapped-some : (size : ℕ) (o : Option Opened) → is_some (mapped size o) ≡ is_readable size o
mapped-some size none = refl
mapped-some size (some fl) = ground arith

none_of_is_some : {A : Type 0} (o : Option A) → (o ≡ none) ↔ (is_some o ≡ false)
none_of_is_some none = (λ h. refl, λ h. refl)
none_of_is_some (some a) = (λ h. absurd (ground arith), λ h. absurd (ground arith))

module _ (fs : FileSystem) (path : Text) where
  -- What is done with a file that is not deleted.
  abbrev pub hash_live : File → Option File
  hash_live file =
      if file.is_link
      then hash_content fs file path (fs.readlink path)
      else if file.is_dir
      then some (hash_of fs file path swupd_hash_dirname)
      else hash_content fs file path (mapped file.stat.st_size (fs.fopen path))

  pub compute_live :
      (file : File) → file.is_deleted ≡ false → compute_hash fs file path ≡ hash_live file
  unfolding compute_hash
  compute_live file h = ground (arith, h)

  compute_gone :
      (file : File)
      → file.is_boot ≡ false
      → compute_hash fs (not_found file) path
        ≡ some (record file { is_deleted = true; hash = hash_set_zeros })
  unfolding compute_hash
  compute_gone file h = rw h refl

  live-some :
      (islnk isdir : Bool) (stat : UpdateStat) (file : File)
      → is_some (hash_live (typed islnk isdir stat file)) ≡ (
          if islnk
          then is_some (fs.readlink path)
          else isdir || is_readable stat.st_size (fs.fopen path))
  live-some true isdir stat file =
      hashed-some fs (typed true isdir stat file) path (fs.readlink path)
  live-some false true stat file = refl
  live-some false false stat file =
      hashed-some fs (typed false false stat file) path (mapped stat.st_size (fs.fopen path))
      ∙ mapped-some stat.st_size (fs.fopen path)

  pub typed_deleted :
      (islnk isdir : Bool) (stat : UpdateStat) (file : File)
      → (typed islnk isdir stat file).is_deleted ≡ file.is_deleted
  typed_deleted true isdir stat file = refl
  typed_deleted false true stat file = refl
  typed_deleted false false stat file = refl

  populated-some :
      (o : Option UpdateStat) (file : File)
      → is_plain file ≡ true
      → is_some (compute_hash fs (populated o file) path) ≡ not (is_unreadable_at fs path o)
  populated-some none file h = ap is_some (compute_gone file (ground (arith, h)))
  populated-some (some stat) file h =
      let islnk : Bool = s_islnk stat.st_mode in
      let isdir : Bool = s_isdir stat.st_mode in
      let live : (typed islnk isdir stat file).is_deleted ≡ false =
        typed_deleted islnk isdir stat file ∙ ground (arith, h) in
      ap is_some (compute_live (typed islnk isdir stat file) live)
      ∙ live-some islnk isdir stat file
      ∙ ground arith

-- The hash in a result, if there is one.
abbrev pub hash_result : Option File → Option Text
hash_result none = none
hash_result (some file) = some file.hash

pub all_xattrs : (path : Text) → compute_hash_with_xattrs path ≡ true
unfolding compute_hash_with_xattrs
all_xattrs path = ground arith

module _ (fs : FileSystem) (p q : Text) (links : fs.readlink p ≡ fs.readlink q)
    (contents : fs.fopen p ≡ fs.fopen q)
    (xattrs : fs.xattrs_get_blob p ≡ fs.xattrs_get_blob q) where
  key-same : (stat : UpdateStat) → hmac_compute_key fs p stat true ≡ hmac_compute_key fs q stat true
  unfolding hmac_compute_key
  key-same stat = rw xattrs refl

  content-same :
      (f g : File) (o : Option Text)
      → f.use_xattrs ≡ true
      → g.use_xattrs ≡ true
      → f.stat ≡ g.stat
      → hash_result (hash_content fs f p o) ≡ hash_result (hash_content fs g q o)
  content-same f g none h k e = refl
  content-same f g (some content) h k e = rw (h, k, e, key-same g.stat) refl

  live-same :
      (islnk isdir : Bool) (stat : UpdateStat) (f g : File)
      → f.use_xattrs ≡ true
      → g.use_xattrs ≡ true
      → hash_result (hash_live fs p (typed islnk isdir stat f))
        ≡ hash_result (hash_live fs q (typed islnk isdir stat g))
  live-same true isdir stat f g h k =
      ap (λ o. hash_result (hash_content fs (typed true isdir stat f) p o)) links
      ∙ content-same (typed true isdir stat f) (typed true isdir stat g) (fs.readlink q) h k refl
  live-same false true stat f g h k =
      content-same (typed false true stat f) (typed false true stat g) (some swupd_hash_dirname) h k
        refl
  live-same false false stat f g h k =
      ap (λ o. hash_result (hash_content fs (typed false false stat f) p (mapped stat.st_size o)))
        contents
      ∙ content-same (typed false false stat f) (typed false false stat g)
          (mapped stat.st_size (fs.fopen q)) h k refl

  populated-same :
      (o : Option UpdateStat) (f g : File)
      → is_plain f ≡ true
      → is_plain g ≡ true
      → f.use_xattrs ≡ true
      → g.use_xattrs ≡ true
      → hash_result (compute_hash fs (populated o f) p)
        ≡ hash_result (compute_hash fs (populated o g) q)
  populated-same none f g i j h k =
      ap hash_result (compute_gone fs p f (ground (arith, i)))
      ∙ sym (ap hash_result (compute_gone fs q g (ground (arith, j))))
  populated-same (some stat) f g i j h k =
      let islnk : Bool = s_islnk stat.st_mode in
      let isdir : Bool = s_isdir stat.st_mode in
      ap hash_result (
        compute_live fs p (typed islnk isdir stat f)
          (typed_deleted fs p islnk isdir stat f ∙ ground (arith, i)))
      ∙ live-same islnk isdir stat f g h k
      ∙ sym (
          ap hash_result (
            compute_live fs q (typed islnk isdir stat g)
              (typed_deleted fs q islnk isdir stat g ∙ ground (arith, j))))

-- For a file that is neither deleted nor marked as a boot file, get_hash fails, so that the program
-- stops, exactly if lstat finds the path and its link target cannot be read or, where it is neither
-- a link nor a directory, it cannot be opened, or cannot be mapped and its size is not zero; a path
-- that is gone is no error.
pub get_hash_fails_iff :
    (fs : FileSystem) (base : Option Text) (file : File)
    → is_plain file ≡ true
    → (get_hash fs base file ≡ none) ↔ (is_unreadable fs (based base file.filename) ≡ true)
unfolding get_hash populate_file_struct
get_hash_fails_iff fs base file h =
    let path : Text = based base file.filename in
    let hashed : File = record file { use_xattrs = compute_hash_with_xattrs path } in
    let answer = populated-some fs path (fs.lstat path) hashed h in
    let one = none_of_is_some (get_hash fs base file) in
    (λ e. ground (arith, answer, one.0 e), λ e. one.1 (ground (arith, answer, e)))

-- The hash depends on what the file system says of the path, and on nothing else: two files, whatever
-- their names, versions and manifests, that are neither deleted nor boot files and whose paths have
-- the same status, link target, content and attributes get the same hash, or both fail.
pub get_hash_same :
    (fs : FileSystem) (base base' : Option Text) (f g : File)
    → is_plain f ≡ true
    → is_plain g ≡ true
    → fs.lstat (based base f.filename) ≡ fs.lstat (based base' g.filename)
    → fs.readlink (based base f.filename) ≡ fs.readlink (based base' g.filename)
    → fs.fopen (based base f.filename) ≡ fs.fopen (based base' g.filename)
    → fs.xattrs_get_blob (based base f.filename) ≡ fs.xattrs_get_blob (based base' g.filename)
    → hash_result (get_hash fs base f) ≡ hash_result (get_hash fs base' g)
unfolding get_hash populate_file_struct
get_hash_same fs base base' f g i j stats links contents xattrs =
    let p : Text = based base f.filename in
    let q : Text = based base' g.filename in
    let f' : File = record f { use_xattrs = compute_hash_with_xattrs p } in
    let g' : File = record g { use_xattrs = compute_hash_with_xattrs q } in
    ap (λ o. hash_result (compute_hash fs (populated o f') p)) stats
    ∙ populated-same fs p q links contents xattrs (fs.lstat q) f' g' i j (all_xattrs p)
        (all_xattrs q)
