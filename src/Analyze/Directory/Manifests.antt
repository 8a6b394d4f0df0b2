-- ===== src/Analyze/Directory/Manifests.antt =====
-- The manifest that sub_manifest_from_directory of src/analyze_fs.c makes.
use mathlib.Core.List.{Mem, Perm}
use mathlib.Core.List.Perm
use swupd_server.Prelude.{
  ℕ, ◌≡◌, refl, ap, ◌∙◌, List, [], true, false, ◌==◌, arith, All, All-perm, Pairs, Pairs-perm,
  length-perm, map,
}
use swupd_server.Text.{Text}
use swupd_server.File.{File, file_sort_filename}
use swupd_server.File.Order.{file_sort_filename-IsOrder}
use swupd_server.Config.{Config}
use swupd_server.Sorter.{Sorter, Ordered}
use swupd_server.Manifest.{Manifest, IsCounted, alloc_manifest}
use swupd_server.Analyze.{FileSystem}
use swupd_server.Analyze.Directory.{
  Outcome, after, Walked, walk_start, image_of, sub_manifest_from_directory, finish_sub,
}
use swupd_server.Analyze.Directory.Below.{Below}
use swupd_server.Analyze.Directory.Sound.{IsFresh, IsWalked, iterate-IsWalked}
use swupd_server.Analyze.Directory.Covers.{HasName, iterate-HasName}
use swupd_server.Analyze.Directory.Ends.{is_settled, iterate_ends}

-- The manifest of a directory: `dir` is the directory.
pub record IsManifestOf (cfg : Config) (fs : FileSystem) (alloc version : ℕ) (dir : Text)
    (m : Manifest) : Type 0 where
  pub counted : IsCounted m
  pub ordered : Ordered file_sort_filename m.files
  pub fresh : All (IsFresh version) m.files
  pub named : All (λ f. ∥ Below cfg fs alloc dir [] f.filename ∥₁) m.files
  pub complete : (x : Text) → Below cfg fs alloc dir [] x → Mem x (map (λ f. f.filename) m.files)
  pub apart : Pairs (λ f g. (f.addr == g.addr) ≡ false) m.files

flip_apart : (f g : File) → (f.addr == g.addr) ≡ false → (g.addr == f.addr) ≡ false
flip_apart f g h = ground arith

module _ (sorter : Sorter File) (cfg : Config) (fs : FileSystem) (alloc format : ℕ) where
  pub start-IsWalked :
      (P : Text → Type 0) (version : ℕ) (component : Text)
      → IsWalked alloc version P (walk_start format version component)
  unfolding alloc_manifest
  start-IsWalked P version component = record {
    at = refl;
    counted = refl;
    fresh = tt;
    named = tt;
    low = tt;
    apart = tt;
  }

  pub sorted-IsManifestOf :
      (version : ℕ) (dir : Text) (s : Walked) (includes : List Text)
      → IsWalked alloc version (λ x. ∥ Below cfg fs alloc dir [] x ∥₁) s
      → ((x : Text) → Below cfg fs alloc dir [] x → HasName x s)
      → IsManifestOf cfg fs alloc version dir (record s.manifest {
        files = sorter.sort file_sort_filename s.manifest.files;
        includes = includes;
      })
  sorted-IsManifestOf version dir s includes i c =
      let p : Perm s.manifest.files (sorter.sort file_sort_filename s.manifest.files) =
        Perm.symm (sorter.perm file_sort_filename s.manifest.files) in
      record {
        counted = i.counted ∙ length-perm p;
        ordered = sorter.sorted file_sort_filename file_sort_filename-IsOrder s.manifest.files;
        fresh = All-perm (λ f. hlevel) p i.fresh;
        named = All-perm (λ f. hlevel) p i.named;
        complete = λ x b. (Perm.mem_iff (Perm.map (λ f. f.filename) p)).0 (c x b);
        apart = Pairs-perm (λ f g. hlevel) flip_apart p i.apart;
      }

module _ (sorter : Sorter File) (names : Sorter Text) (cfg : Config) (fs : FileSystem)
    (alloc format : ℕ) (image_dir conf : Text) where
  -- For a directory that is settled to the depth of the fuel, sub_manifest_from_directory returns. The
  -- manifest, ordered by name, has exactly the names below the directory that are not passed over,
  -- each as a file of this version that is not deleted and is either a file, a directory or a link.
  -- It counts its files, and no two of them are at one address.
  pub sub_manifest_from_directory_exact :
      (fuel : ℕ) (component : Text) (version : ℕ)
      → is_settled cfg fs alloc (image_of image_dir version component) fuel [] ≡ true
      → (m : Manifest) × (sub_manifest_from_directory sorter names cfg fs alloc format image_dir
            conf fuel component version
          ≡ Outcome.done m)
        × IsManifestOf cfg fs alloc version (image_of image_dir version component) m
  unfolding sub_manifest_from_directory
  sub_manifest_from_directory_exact fuel component version h =
      let dir : Text = image_of image_dir version component in
      let start : Walked = walk_start format version component in
      let (s, e) = iterate_ends cfg fs alloc dir false fuel [] start h in
      let i =
        iterate-IsWalked cfg fs alloc dir false version (λ x. ∥ Below cfg fs alloc dir [] x ∥₁) fuel
          [] start s (λ x b. ∣ b ∣₁) e
          (start-IsWalked sorter cfg fs alloc format (λ x. ∥ Below cfg fs alloc dir [] x ∥₁) version
            component) in
      (
        _,
        ap
            (λ o.
              after o
                (finish_sub sorter names cfg fs alloc format image_dir conf component version))
            e,
        sorted-IsManifestOf sorter cfg fs alloc format version dir s _ i
            (λ x b. iterate-HasName cfg fs alloc dir false fuel [] x start s b e),
      )
