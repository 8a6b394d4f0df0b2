-- ===== src/Analyze/Directory/Below.antt =====
-- What iterate_directory (src/analyze_fs.c) comes upon, and how its walk keeps an invariant.
use mathlib.Core.List.{Mem}
use swupd_server.Prelude.{
  ℕ, ◌≡◌, refl, List, ◌++◌, Option, none, some, Bool, true, false, not, ◌&&◌, ◌||◌, ◌==◌, arith,
  length,
}
use swupd_server.Text.{Text, codes, same}
use swupd_server.File.{UpdateStat}
use swupd_server.Config.{Config}
use swupd_server.Analyze.{FileSystem, Opened, Listing, s_islnk, s_isdir}
use swupd_server.Analyze.Directory.{Outcome, after, base_part, is_banned}
use swupd_server.Analyze.Lines.{lines_of}

pub after-done {ℓ κ} :
    {A : Type ℓ} {B : Type κ} (o : Outcome A) (f : A → Outcome B) (b : B)
    → after o f ≡ Outcome.done b
    → (a : A) × (o ≡ Outcome.done a) × (f a ≡ Outcome.done b)
after-done (Outcome.done a) f b h = (a, refl, h)
after-done Outcome.aborted f b h = absurd (ground arith)
after-done Outcome.out_of_fuel f b h = absurd (ground arith)

abbrev pub is_hidden : Text → Bool
is_hidden d_name = same d_name (codes ".") || same d_name (codes "..")

-- Whether a status is that of a directory.
abbrev pub dir_status : Option UpdateStat → Bool
dir_status none = false
dir_status (some stat) = not (s_islnk stat.st_mode) && s_isdir stat.st_mode

module _ (cfg : Config) (fs : FileSystem) (alloc : ℕ) (pathprefix : Text) where
  abbrev pub in_dir : Text → Text → Text
  in_dir sub name = sub ++ codes "/" ++ name

  -- A name in a directory that is not passed over.
  pub record Lists (sub name : Text) : Type 0 where
    pub names : List Text
    pub opens : fs.opendir (pathprefix ++ codes "/" ++ sub) ≡ Listing.entries names
    pub among : Mem name names
    pub shown : is_hidden name ≡ false
    pub allowed : is_banned cfg fs alloc name (in_dir sub name) ≡ false

  -- The names below a directory: its entries, those of the directories among them and so on; or the
  -- lines of the content file in its place.
  pub data Below : Text → Text → Type 0 where
    entry : (sub name : Text) → Lists sub name → Below sub (in_dir sub name)
    deeper :
        (sub name x : Text)
        → Lists sub name
        → dir_status (fs.lstat ((pathprefix ++ codes "/" ++ sub) ++ codes "/" ++ name)) ≡ true
        → Below (in_dir sub name) x
        → Below sub x
    line :
        (sub x : Text) (fl : Opened)
        → (length sub == 0) ≡ true
        → fs.opendir (pathprefix ++ codes "/" ++ sub) ≡ Listing.missing
        → fs.fopen (pathprefix ++ codes ".content.txt") ≡ some fl
        → Mem x (lines_of fl.content)
        → is_banned cfg fs alloc (base_part x) x ≡ false
        → Below sub x
