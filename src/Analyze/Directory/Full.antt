-- ===== src/Analyze/Directory/Full.antt =====
-- The manifest that full_manifest_from_directory of src/analyze_fs.c makes, with the hashes that the
-- thread pool computes.
use mathlib.Core.List.{Perm}
use mathlib.Core.List.Perm
use mathlib.Core.Logic.{∥∥₁_elim}
use swupd_server.Prelude.{
  ℕ, ◌≡◌, refl, sym, ap, ◌∙◌, List, [], ◌∷◌, Option, none, some, Bool, true, false, ◌==◌, arith,
  All, All-imp, All-perm, Pairs, length, map, ◌>>=◌,
}
use swupd_server.Text.{Text, codes}
use swupd_server.File.{File, file_sort_filename}
use swupd_server.Config.{Config}
use swupd_server.Sorter.{Sorter}
use swupd_server.Manifest.{Manifest, alloc_manifest}
use swupd_server.Analyze.{FileSystem, get_hash, based}
use swupd_server.Analyze.Directory.{
  Outcome, after, Walked, walk_start, image_of, run_task, run_tasks, iterate_directory, found_file,
  full_manifest_from_directory, finish_full, with_hashes,
}
use swupd_server.Analyze.Directory.Below.{Below}
use swupd_server.Analyze.Directory.Keeps.{iterate_keeps}
use swupd_server.Analyze.Directory.Sound.{IsFresh, IsWalked, iterate-IsWalked}
use swupd_server.Analyze.Directory.Covers.{iterate-HasName}
use swupd_server.Analyze.Directory.Ends.{is_settled, iterate_ends}
use swupd_server.Analyze.Directory.Hashed.{IsHashed, Hashes, is_present, known-Hashes}
use swupd_server.Analyze.Directory.Manifests.{IsManifestOf, start-IsWalked, sorted-IsManifestOf}
use swupd_server.Analyze.Directory.Tasks.{run_hit, run_miss, run_tasks-perm}

bool_set : IsSet Bool
bool_set = hlevel

addresses : List File → List ℕ
addresses = map (λ f. f.addr)

module _ (fs : FileSystem) (dir : Text) (version : ℕ) where
  -- The files of two lists, each after its task and before.
  data Matched : List File → List File → Type 0 where
    nil : Matched [] []
    cons :
        (f g : File) (l m : List File)
        → Hashes fs dir version f g
        → Matched l m
        → Matched (f ∷ l) (g ∷ m)

  matched_All :
      (P R : File → Type 0)
      → ((f g : File) → Hashes fs dir version f g → P f → R g)
      → (l m : List File) → Matched l m
      → All P l
      → All R m
  matched_All P R k _ _ Matched.nil a = tt
  matched_All P R k _ _ (Matched.cons f g l m h t) a = (k f g h a.0, matched_All P R k l m t a.1)

  matched_length : (l m : List File) → Matched l m → length m ≡ length l
  matched_length _ _ Matched.nil = refl
  matched_length _ _ (Matched.cons f g l m h t) = omega (arith, matched_length l m t)

  matched_names :
      (l m : List File) → Matched l m → map (λ f. f.filename) m ≡ map (λ f. f.filename) l
  matched_names _ _ Matched.nil = refl
  matched_names _ _ (Matched.cons f g l m h t) = cc (h.same_name, matched_names l m t)

  matched_apart :
      (l m : List File)
      → Matched l m
      → Pairs (λ f g. (f.addr == g.addr) ≡ false) l
      → Pairs (λ f g. (f.addr == g.addr) ≡ false) m
  matched_apart _ _ Matched.nil a = tt
  matched_apart _ _ (Matched.cons f g l m h t) a = (
    matched_All _ _ (λ x y k e. rw (h.same_addr, k.same_addr) e) l m t a.0,
    matched_apart l m t a.1,
  )

  -- A file whose task gives a hash.
  abbrev IsReady : File → Type 0
  IsReady f = (g : File) × (get_hash fs (some dir) f ≡ some g) × Hashes fs dir version f g

  -- Tasks at other addresses leave the first file as it is.
  run_others :
      (tasks : List ℕ) (g : File) (l : List File)
      → All (λ a. (g.addr == a) ≡ false) tasks
      → run_tasks fs (some dir) tasks (g ∷ l)
        ≡ (run_tasks fs (some dir) tasks l >>= λ l'. some (g ∷ l'))
  unfolding run_tasks
  run_others [] g l h = refl
  run_others (a ∷ tasks) g l h =
      ap (λ o. o >>= run_tasks fs (some dir) tasks) (run_miss fs (some dir) a g l h.0)
      ∙ push (λ l'. run_others tasks g l' h.1) (run_task fs (some dir) a l)
    where
      push :
          ((l' : List File)
            → run_tasks fs (some dir) tasks (g ∷ l')
              ≡ (run_tasks fs (some dir) tasks l' >>= λ r. some (g ∷ r)))
          → (o : Option (List File))
          → ((o >>= λ l'. some (g ∷ l')) >>= run_tasks fs (some dir) tasks)
            ≡ ((o >>= run_tasks fs (some dir) tasks) >>= λ l'. some (g ∷ l'))
      push rest none = refl
      push rest (some l') = rest l'

  others :
      (g : File) (l : List File)
      → All (λ x. (g.addr == x.addr) ≡ false) l
      → All (λ a. (g.addr == a) ≡ false) (addresses l)
  unfolding addresses
  others g [] h = tt
  others g (x ∷ l) h = (h.0, others g l h.1)

  -- The tasks of all files, in their order, give each its hash.
  run_ready :
      (l : List File)
      → All IsReady l
      → Pairs (λ f g. (f.addr == g.addr) ≡ false) l
      → (m : List File) × (run_tasks fs (some dir) (addresses l) l ≡ some m) × Matched l m
  unfolding run_tasks addresses
  run_ready [] r a = ([], refl, Matched.nil)
  run_ready (f ∷ l) r a =
      let (g, e, h) = r.0 in
      let (m, e', t) = run_ready l r.1 a.1 in
      let apart : All (λ x. (g.addr == x.addr) ≡ false) l =
        All-imp _ _ (λ x k. rw h.same_addr k) l a.0 in
      (
        g ∷ m,
        ap (λ o. o >>= run_tasks fs (some dir) (addresses l))
              (run_hit fs (some dir) f.addr f l (ground arith)
                ∙ ap (λ o. o >>= λ f'. some (f' ∷ l)) e)
            ∙ run_others (addresses l) g l (others g l apart)
            ∙ ap (λ o. o >>= λ l'. some (g ∷ l')) e',
        Matched.cons f g l m h t,
      )

module _ (sorter : Sorter File) (cfg : Config) (fs : FileSystem) (alloc format : ℕ)
    (image_dir : Text) where
  -- The tasks are those of the files, where the walk computes hashes.
  walk_tasks :
      (fuel : ℕ) (dir : Text) (start out : Walked)
      → iterate_directory cfg fs alloc fuel dir true [] start ≡ Outcome.done out
      → start.tasks ≡ addresses start.manifest.files
      → out.tasks ≡ addresses out.manifest.files
  unfolding addresses
  walk_tasks fuel dir start out e i =
      iterate_keeps cfg fs alloc dir true (λ x. Unit)
        (λ s. s.tasks ≡ map (λ f. f.addr) s.manifest.files)
        (λ sub full s p d k. ap (◌∷◌ (found_file cfg fs alloc sub full s).addr) k) fuel [] start out
        (λ x b. tt) e i

  start_tasks :
      (version : ℕ)
      → (walk_start format version (codes "full")).tasks
        ≡ addresses (walk_start format version (codes "full")).manifest.files
  unfolding addresses alloc_manifest
  start_tasks version = refl

  -- The state after the tasks.
  hashed-IsWalked :
      (version : ℕ) (dir : Text) (P : Text → Type 0) (s : Walked) (m : List File)
      → IsWalked alloc version P s
      → Matched fs dir version s.manifest.files m
      → IsWalked alloc version P (record s { manifest = record s.manifest { files = m } })
  hashed-IsWalked version dir P s m i t = record {
    at = i.at;
    counted = i.counted ∙ sym (matched_length fs dir version s.manifest.files m t);
    fresh = matched_All fs dir version _ _ (λ f g h k. h.fresh) s.manifest.files m t i.fresh;
    named =
        matched_All fs dir version _ _ (λ f g h k. rw h.same_name k) s.manifest.files m t i.named;
    low = matched_All fs dir version _ _ (λ f g h k. rw h.same_addr k) s.manifest.files m t i.low;
    apart = matched_apart fs dir version s.manifest.files m t i.apart;
  }

  -- Every file of the walk has a hash, if every path below the directory can be read.
  walked-IsReady :
      (version : ℕ) (dir : Text) (l : List File)
      → ((x : Text) → Below cfg fs alloc dir [] x → is_present fs (based (some dir) x) ≡ true)
      → All (IsFresh version) l
      → All (λ f. ∥ Below cfg fs alloc dir [] f.filename ∥₁) l
      → All (IsReady fs dir version) l
  walked-IsReady version dir [] h a b = tt
  walked-IsReady version dir (f ∷ l) h a b =
      let present : is_present fs (based (some dir) f.filename) ≡ true =
        ∥∥₁_elim b.0 (bool_set _ _) (λ below. h f.filename below) in
      (
        known-Hashes fs dir version f (fs.lstat (based (some dir) f.filename)) a.0 refl present,
        walked-IsReady version dir l h a.1 b.1,
      )

  -- For a directory that is settled to the depth of the fuel and below which every path can be read,
  -- and in whatever order the pool runs its tasks, full_manifest_from_directory returns. The
  -- manifest, ordered by name, has exactly the names below the directory that are not passed over,
  -- each as a file of this version that is not deleted and is either a file, a directory or a link.
  -- It counts its files, no two of them are at one address, and the hash of each is that of a link's
  -- target, of the word DIRECTORY or of the contents at its path, under the key of its status, a
  -- link's without the mode and a directory's without the size, and of its extended attributes.
  pub full_manifest_from_directory_exact :
      (fuel : ℕ) (schedule : List ℕ → List ℕ) (version : ℕ)
      → ((tasks : List ℕ) → Perm (schedule tasks) tasks)
      → is_settled cfg fs alloc (image_of image_dir version (codes "full")) fuel [] ≡ true
      → ((x : Text)
          → Below cfg fs alloc (image_of image_dir version (codes "full")) [] x
          → is_present fs (based (some (image_of image_dir version (codes "full"))) x) ≡ true)
      → (m : Manifest) × (full_manifest_from_directory sorter cfg fs alloc format image_dir fuel
            schedule version
          ≡ Outcome.done m)
        × IsManifestOf cfg fs alloc version (image_of image_dir version (codes "full")) m
        × All (IsHashed fs (image_of image_dir version (codes "full"))) m.files
  unfolding full_manifest_from_directory
  full_manifest_from_directory_exact fuel schedule version perm settled present =
      let dir : Text = image_of image_dir version (codes "full") in
      let start : Walked = walk_start format version (codes "full") in
      let Q : Text → Type 0 = λ x. ∥ Below cfg fs alloc dir [] x ∥₁ in
      let (s, e) = iterate_ends cfg fs alloc dir true fuel [] start settled in
      let i : IsWalked alloc version Q s =
        iterate-IsWalked cfg fs alloc dir true version Q fuel [] start s (λ x b. ∣ b ∣₁) e
          (start-IsWalked sorter cfg fs alloc format Q version (codes "full")) in
      let (m, r, t) =
        run_ready fs dir version s.manifest.files
          (walked-IsReady version dir s.manifest.files present i.fresh i.named) i.apart in
      let hashed : All (IsHashed fs dir) m =
        matched_All fs dir version _ _ (λ f g h k. h.hashed) s.manifest.files m t i.fresh in
      let ran : run_tasks fs (some dir) (schedule s.tasks) s.manifest.files ≡ some m =
        run_tasks-perm fs (some dir) (perm s.tasks) s.manifest.files
        ∙ ap (λ ts. run_tasks fs (some dir) ts s.manifest.files)
            (walk_tasks fuel dir start s e (start_tasks version))
        ∙ r in
      (
        _,
        ap (λ o. after o (finish_full sorter cfg fs alloc format image_dir dir schedule)) e
            ∙ ap (with_hashes sorter cfg fs alloc format image_dir s.manifest) ran,
        sorted-IsManifestOf sorter cfg fs alloc format version dir
            (record s { manifest = record s.manifest { files = m } }) s.manifest.includes
            (hashed-IsWalked version dir Q s m i t)
            (λ x b.
              rw (matched_names fs dir version s.manifest.files m t)
                (iterate-HasName cfg fs alloc dir true fuel [] x start s b e)),
        All-perm (λ f. hlevel) (Perm.symm (sorter.perm file_sort_filename m)) hashed,
      )
