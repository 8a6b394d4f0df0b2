-- ===== src/Renames/Score.antt =====
-- rename_score and precompute_file_data of src/rename.c: how alike two files are. The scores are
-- whole numbers, since the ratio of the sizes is a division of integers; a score `x` of the code is
-- `x + 200` here, which is never negative. A size is a number below 2 ^ 50, which a double holds.
use mathlib.Core.List.{reverse}
use swupd_server.Prelude.{
  ℕ, suc, ◌+◌, ◌-◌, ◌*◌, ◌/◌, [], ◌∷◌, ◌++◌, Option, none, some, Bool, false, not, ◌&&◌, ◌||◌, ◌==◌,
  ltb, leb, if◌then◌else◌, length, take,
}
use swupd_server.Text.{Text, codes, same, starts_with}
use swupd_server.Text.Decimal.{decimal}
use swupd_server.File.{File, hash_compare}

-- The types are strings that are kept once, so that two are one pointer where they are equal.
abbrev pub samefiletype : Option Text → Option Text → Bool
samefiletype none t2 = false
samefiletype (some t1) none = false
samefiletype (some t1) (some t2) = same t1 t2 && not (length t1 == 0)

-- strchr(basename, '.'): the length of what stands before the first dot.
abbrev pub before_dot : Text → Option ℕ
before_dot [] = none
before_dot (c ∷ s) =
    if c == b'.' then some 0 else elim (before_dot s) [ none ↦ none | some n ↦ some (suc n) ]

-- 5 for each slash in the common end of two directory names, which are given backwards.
abbrev pub common_slashes : Text → Text → ℕ
common_slashes [] new = 0
common_slashes (c ∷ old) [] = 0
common_slashes (c ∷ old) (d ∷ new) =
    let rest = common_slashes old new in if c == d then (if c == b'/' then 5 else 0) + rest else 0

abbrev pub bsdiffsize : ℕ
bsdiffsize = 200

abbrev pub points : Bool → ℕ → ℕ
points b n = if b then n else 0

abbrev pub shared_beginning : Text → Text → ℕ
shared_beginning old new = elim (before_dot old) [
  | none ↦ 0
  | some len ↦ points (starts_with new (take len old)) len
]

-- The ratio, at most 1, of two sizes that are not 0.
abbrev pub size_ratio : ℕ → ℕ → ℕ
size_ratio old new = if ltb 1 (old / new) then new / old else old / new

-- What is taken off for sizes that are not within a quarter and 1 KB of one another.
abbrev pub size_penalty : ℕ → ℕ → ℕ
size_penalty old new =
    points (ltb (5 * new + 4096) (4 * old)) 30 + points (ltb (4 * old + 4096) (3 * new)) 30

unfoldable pub rename_score : File → File → ℕ
rename_score old new =
    let gained =
      points (hash_compare old.hash new.hash) 400
      + points (same old.rename_data.dirname new.rename_data.dirname) 10
      + shared_beginning old.rename_data.basename new.rename_data.basename
      + points (same old.rename_data.basename new.rename_data.basename) 35
      + points (same old.rename_data.alpha_only_filename new.rename_data.alpha_only_filename) 50
      + common_slashes (reverse old.rename_data.dirname) (reverse new.rename_data.dirname) in
    if ltb new.stat.st_size bsdiffsize
    then 200 - 99
    else if old.stat.st_size == 0 || new.stat.st_size == 0
    then 200 - 100
    else 200
      + gained
      + size_ratio old.stat.st_size new.stat.st_size
      - size_penalty old.stat.st_size new.stat.st_size
      - points (not (samefiletype old.rename_data.filetype new.rename_data.filetype)) 60

-- isalpha(c)
abbrev pub is_alpha : ℕ → Bool
is_alpha c = (leb b'A' c && leb c b'Z') || (leb b'a' c && leb c b'z')

abbrev pub only_letters : Text → Text
only_letters [] = []
only_letters (c ∷ s) = if is_alpha c then c ∷ only_letters s else only_letters s

-- The file system, libmagic and the functions of GLib on paths are parameters.
module _ (image_dir : Text) (lstat_size : Text → Option ℕ) (getmagic : Text → Text)
    (g_path_get_basename g_path_get_dirname : Text → Text) where
  abbrev pub image_path : ℕ → Text → Text → Text
  image_path version component filename =
      image_dir ++ codes "/" ++ decimal version ++ codes "/" ++ component ++ codes "/" ++ filename

  -- The size is looked up if it is not known, and stays 0 if that fails.
  abbrev pub known_size : ℕ → Option ℕ → ℕ
  known_size size found = if size == 0 then elim found [ none ↦ 0 | some n ↦ n ] else size

  unfoldable pub precompute_file_data : ℕ → Text → File → File
  precompute_file_data version component file =
      let filename = image_path version component file.filename in
      let size = known_size file.stat.st_size (lstat_size filename) in
      record file {
        stat = record file.stat { st_size = size };
        rename_data = record {
          alpha_only_filename = only_letters file.filename;
          filetype =
              if ltb size bsdiffsize then file.rename_data.filetype else some (getmagic filename);
          basename = g_path_get_basename file.filename;
          dirname = g_path_get_dirname file.filename;
        };
      }
