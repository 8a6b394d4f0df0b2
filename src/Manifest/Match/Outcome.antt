-- ===== src/Manifest/Match/Outcome.antt =====
-- What a client of match_manifests (src/manifest.c) relies on, said without the code: what the new
-- manifest has under a filename, by what the old and the new one had.
use swupd_server.Prelude.{ℕ, ◌≡◌, Option, none, some, true, false, ◌||◌}
use swupd_server.Text.{Text}
use swupd_server.File.{File, hash_compare, hash_is_zeros}
use swupd_server.Sorter.{Sorter}
use swupd_server.Stats.{Stats}
use swupd_server.Manifest.{Manifest}
use swupd_server.Manifest.Match.Changes.{SameContents}

-- `d` is the new file `g` of a name that the old file `f` had: it keeps the last change and the
-- rename mark of `f` if it has its contents and its own if not, and is linked to `f` unless `f` is
-- deleted or a ghost.
pub record Continues (mv : ℕ) (f g d : File) : Type 0 where
  pub else_same :
      d ≡ record g { peer = d.peer; last_change = d.last_change; is_rename = d.is_rename }
  pub unchanged :
      SameContents mv f g → (d.last_change ≡ f.last_change) × (d.is_rename ≡ f.is_rename)
  pub changed :
      ¬ SameContents mv f g → (d.last_change ≡ g.last_change) × (d.is_rename ≡ g.is_rename)
  pub linked : f.is_deleted ≡ false → f.is_ghosted ≡ false → d.peer ≡ some f.addr
  pub unlinked : (f.is_deleted || f.is_ghosted) ≡ true → d.peer ≡ none

-- `d` is the entry for the old file `f`, whose name the new manifest did not have. It is deleted
-- and of no type. A file that goes only now has the version as its last change, and no hash unless
-- it is a ghost; one that was deleted or a ghost before keeps its hash and its rename mark.
pub record Departs (version : ℕ) (f d : File) : Type 0 where
  pub name : d.filename ≡ f.filename
  pub deleted : d.is_deleted ≡ true
  pub typeless : (d.is_dir ≡ false) × (d.is_file ≡ false) × (d.is_link ≡ false)
  pub marks : (d.is_config ≡ f.is_config) × (d.is_state ≡ f.is_state) × (d.is_boot ≡ f.is_boot)
  pub link : d.peer ≡ some f.addr
  pub now : f.is_deleted ≡ false → d.last_change ≡ version
  pub before : f.is_deleted ≡ true → d.last_change ≡ f.last_change
  pub erased :
      f.is_deleted ≡ false
      → f.is_ghosted ≡ false
      → (hash_is_zeros d.hash ≡ true) × (d.is_rename ≡ false)
  pub preserved :
      (f.is_deleted || f.is_ghosted) ≡ true
      → (hash_compare f.hash d.hash ≡ true) × (d.is_rename ≡ f.is_rename)

-- What the old manifest has under a name, what the new one has before, and what it has afterwards.
abbrev pub Outcome : ℕ → ℕ → Option File → Option File → Option File → Type 0
Outcome mv version none none d = d ≡ none
Outcome mv version none (some g) d = d ≡ some g
Outcome mv version (some f) (some g) d = (e : File) × (d ≡ some e) × Continues mv f g e
Outcome mv version (some f) none d = (e : File) × (d ≡ some e) × Departs version f e
