-- ===== src/Manifest.antt =====
-- `struct manifest` of include/swupd.h. The included manifests are named by their component.
pub mod Subtract
pub mod Match
pub mod Deprecated
pub mod Prune
pub mod Consolidate
pub mod Maximize
pub mod Hashes
pub mod Flags
pub mod Nested
pub mod Size
pub mod Writer
pub mod Reader
use swupd_server.Prelude.{ℕ, ◌≡◌, List, [], length}
use swupd_server.Text.{Text}
use swupd_server.File.{File}

pub record Manifest : Type 0 where
  pub format : ℕ
  pub version : ℕ
  pub prevversion : ℕ
  pub component : Text
  pub count : ℕ
  pub contentsize : ℕ
  pub files : List File
  pub manifests : List File
  pub includes : List Text
  pub actions : List Text

-- The global `format` is an argument.
unfoldable pub alloc_manifest : ℕ → ℕ → Text → List Text → Manifest
alloc_manifest format version component actions = record {
  format = format;
  version = version;
  prevversion = 0;
  component = component;
  count = 0;
  contentsize = 0;
  files = [];
  manifests = [];
  includes = [];
  actions = actions;
}

-- The count in the header is the number of files that the manifest lists.
abbrev pub IsCounted : Manifest → Type 0
IsCounted m = m.count ≡ length m.files

-- A list of files and the count kept beside it.
pub record Counted : Type 0 where
  pub files : List File
  pub count : ℕ
