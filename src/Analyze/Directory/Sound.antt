-- ===== src/Analyze/Directory/Sound.antt =====
-- What iterate_directory (src/analyze_fs.c) puts into a manifest.
use swupd_server.Prelude.{
  ℕ, ◌+◌, ◌≡◌, ◌<◌, refl, Option, none, some, Bool, true, false, not, ◌&&◌, ◌==◌, arith, All,
  All-imp, Pairs,
}
use swupd_server.Text.{Text}
use swupd_server.File.{File, UpdateStat}
use swupd_server.Config.{Config}
use swupd_server.Manifest.{IsCounted}
use swupd_server.Analyze.{
  FileSystem, s_islnk, s_isdir, typed, populated, not_found, populate_file_struct,
}
use swupd_server.Analyze.Directory.{
  Outcome, Walked, calloc_file, push_file, found_file, iterate_directory,
}
use swupd_server.Analyze.Directory.Below.{Below}
use swupd_server.Analyze.Directory.Added.{found_name}
use swupd_server.Analyze.Directory.Keeps.{iterate_keeps}

-- Exactly one of three.
abbrev pub one_of : Bool → Bool → Bool → Bool
one_of true b c = not b && not c
one_of false true c = not c
one_of false false c = c

-- A file that is there, with one type, as it is new in a version.
abbrev pub IsFresh : ℕ → File → Type 0
IsFresh version f =
    (one_of f.is_link f.is_dir f.is_file ≡ true)
    × (f.is_deleted ≡ false)
    × (f.is_boot ≡ false)
    × (f.last_change ≡ version)

-- The invariant of the walk. `P` are the names that are expected.
pub record IsWalked (alloc version : ℕ) (P : Text → Type 0) (s : Walked) : Type 0 where
  pub at : s.manifest.version ≡ version
  pub counted : IsCounted s.manifest
  pub fresh : All (IsFresh version) s.manifest.files
  pub named : All (λ f. P f.filename) s.manifest.files
  pub low : All (λ f. f.addr < alloc + s.manifest.count) s.manifest.files
  pub apart : Pairs (λ f g. (f.addr == g.addr) ≡ false) s.manifest.files

pub typed-IsFresh :
    (l d : Bool) (stat : UpdateStat) (f : File)
    → f.is_deleted ≡ false
    → f.is_boot ≡ false
    → IsFresh f.last_change (typed l d stat f)
typed-IsFresh true d stat f h b = (refl, h, b, refl)
typed-IsFresh false true stat f h b = (refl, h, b, refl)
typed-IsFresh false false stat f h b = (refl, h, b, refl)

populated-IsFresh :
    (o : Option UpdateStat) (f : File)
    → f.is_deleted ≡ false
    → f.is_boot ≡ false
    → (populated o f).is_deleted ≡ false
    → IsFresh f.last_change (populated o f)
populated-IsFresh none f h b k = absurd (ground (arith, gone_deleted f b, k))
  where
    gone_deleted : (f : File) → f.is_boot ≡ false → (not_found f).is_deleted ≡ true
    gone_deleted f b = rw b refl
populated-IsFresh (some stat) f h b k =
    typed-IsFresh (s_islnk stat.st_mode) (s_isdir stat.st_mode) stat f h b

populated_addr :
    (o : Option UpdateStat) (f : File) → f.is_boot ≡ false → (populated o f).addr ≡ f.addr
populated_addr none f b = rw b refl
populated_addr (some stat) f b = typed_addr (s_islnk stat.st_mode) (s_isdir stat.st_mode)
  where
    typed_addr : (l d : Bool) → (typed l d stat f).addr ≡ f.addr
    typed_addr true d = refl
    typed_addr false true = refl
    typed_addr false false = refl

module _ (cfg : Config) (fs : FileSystem) (alloc : ℕ) (pathprefix : Text) (do_hash : Bool)
    (version : ℕ) (P : Text → Type 0) where
  push-IsWalked :
      (sub full : Text) (s : Walked)
      → P sub
      → (found_file cfg fs alloc sub full s).is_deleted ≡ false
      → IsWalked alloc version P s
      → IsWalked alloc version P (push_file (found_file cfg fs alloc sub full s) do_hash s)
  unfolding populate_file_struct
  push-IsWalked sub full s p d i =
      let new : File = calloc_file (alloc + s.manifest.count) sub s.manifest.version in
      let at_end : (found_file cfg fs alloc sub full s).addr ≡ alloc + s.manifest.count =
        populated_addr (fs.lstat full) new refl in
      let is_fresh : IsFresh s.manifest.version (found_file cfg fs alloc sub full s) =
        populated-IsFresh (fs.lstat full) new refl refl d in
      record {
        at = i.at;
        counted = omega (arith, i.counted);
        fresh = (rw (← i.at) is_fresh, i.fresh);
        named = (rw (found_name cfg fs alloc sub full s) p, i.named);
        low =
            (rw at_end (omega arith), All-imp _ _ (λ f k. omega (arith, k)) s.manifest.files i.low);
        apart =
            (All-imp _ _ (λ f k. rw at_end (ground (arith, k))) s.manifest.files i.low, i.apart);
      }

  pub iterate-IsWalked :
      (fuel : ℕ) (sub : Text) (s out : Walked)
      → ((x : Text) → Below cfg fs alloc pathprefix sub x → P x)
      → iterate_directory cfg fs alloc fuel pathprefix do_hash sub s ≡ Outcome.done out
      → IsWalked alloc version P s
      → IsWalked alloc version P out
  iterate-IsWalked fuel sub s out p h i =
      iterate_keeps cfg fs alloc pathprefix do_hash P (IsWalked alloc version P) push-IsWalked fuel
        sub s out p h i
