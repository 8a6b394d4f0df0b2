-- ===== src/Manifest/Prune.antt =====
-- prune_manifest of src/manifest.c.
use swupd_server.Prelude.{
  ℕ, ◌+◌, ◌-◌, ◌≤◌, ◌≡◌, List, [], ◌∷◌, Option, none, some, Bool, true, false, not, ◌&&◌, arith,
  if◌then◌else◌, ◌==◌, length, inl, inr, All, Option-cases,
}
use swupd_server.File.{File}
use swupd_server.Config.{Config, config_ban_debuginfo, file_is_debuginfo}
use swupd_server.Manifest.{Manifest, IsCounted, Counted}

-- What happens to one file: it goes, or it stays, possibly as a ghost. `stateless` is
-- OS_IS_STATELESS.
unfoldable pub prune_file : Bool → Config → File → Option File
prune_file stateless c file =
    if stateless && not file.is_deleted && file.is_config
    then none
    else if file.is_boot && file.is_deleted
    then some (record file { is_deleted = false; is_ghosted = true })
    else if config_ban_debuginfo c && file_is_debuginfo c file.filename
    then none
    else some file

module _ (stateless : Bool) (c : Config) where
  -- The first loop: the files that are left and the count.
  unfoldable pub prune_walk : List File → ℕ → Counted
  prune_walk [] count = record { files = []; count = count }
  prune_walk (file ∷ list) count = elim (prune_file stateless c file) [
    | none ↦ prune_walk list (count - 1)
    | some file' ↦ let rest = prune_walk list count in record rest { files = file' ∷ rest.files }
  ]

-- The second loop.
unfoldable pub count_new : ℕ → List File → ℕ
count_new version [] = 0
count_new version (file ∷ list) =
    (if file.last_change == version then 1 else 0) + count_new version list

-- The manifest after the call, and the number of new files that it returns.
unfoldable pub prune_manifest : Bool → Config → Manifest → Manifest × ℕ
prune_manifest stateless c m =
    let w = prune_walk stateless c m.files m.count in
    (record m { files = w.files; count = w.count }, count_new m.version w.files)

-- No configuration file is left on a stateless system unless it is deleted, or is a deleted boot
-- file that has become a ghost; no boot file is left deleted; no banned debug file is left but a
-- ghost.
pub record IsPruned (stateless : Bool) (c : Config) (f : File) : Type 0 where
  pub no_config :
      stateless ≡ true
      → f.is_config ≡ true
      → f.is_deleted ≡ false
      → (f.is_boot ≡ true) × (f.is_ghosted ≡ true)
  pub no_deleted_boot : f.is_boot ≡ true → f.is_deleted ≡ false
  pub no_debuginfo :
      config_ban_debuginfo c ≡ true
      → file_is_debuginfo c f.filename ≡ true
      → (f.is_boot ≡ true) × (f.is_ghosted ≡ true)

module _ (stateless : Bool) (c : Config) where
  prune_file-IsPruned : (f g : File) → prune_file stateless c f ≡ some g → IsPruned stateless c g
  unfolding prune_file
  prune_file-IsPruned f g h = record {
    no_config = λ a b d. ground arith;
    no_deleted_boot = λ a. ground arith;
    no_debuginfo = λ a b. ground arith;
  }

  pub prune_walk-IsPruned :
      (l : List File) (n : ℕ) → All (IsPruned stateless c) (prune_walk stateless c l n).files
  unfolding prune_walk
  prune_walk-IsPruned [] n = tt
  prune_walk-IsPruned (f ∷ l) n = elim (Option-cases (prune_file stateless c f)) [
    | inl e ↦ rw (e, prune_walk) (prune_walk-IsPruned l (n - 1))
    | inr (g, e) ↦ rw (e, prune_walk) (prune_file-IsPruned f g e, prune_walk-IsPruned l n)
  ]

  pub prune_walk-counts :
      (l : List File) (n : ℕ)
      → length l ≤ n
      → (prune_walk stateless c l n).count + length l
        ≡ n + length (prune_walk stateless c l n).files
  unfolding prune_walk
  prune_walk-counts [] n h = omega arith
  prune_walk-counts (f ∷ l) n h = ground (arith, prune_walk-counts l n, prune_walk-counts l (n - 1))

  -- If the count is the number of the files it is so afterwards; and what is left has no
  -- configuration file on a stateless system that is not deleted, no deleted boot file and no banned
  -- debug file, but for boot files that have become ghosts.
  pub prune_manifest-IsPruned :
      (m : Manifest)
      → IsCounted m
      → All (IsPruned stateless c) (prune_manifest stateless c m).0.files
        × IsCounted (prune_manifest stateless c m).0
  unfolding prune_manifest
  prune_manifest-IsPruned m h =
      (prune_walk-IsPruned m.files m.count, omega (arith, prune_walk-counts m.files m.count))
