-- ===== src/Manifest/Consolidate.antt =====
-- consolidate_submanifests of src/manifest.c: one list of all files of the submanifests, with one
-- file left for each filename.
pub mod Live
pub mod Names
use mathlib.Core.List.Perm
use swupd_server.Prelude.{
  ℕ, ◌≡◌, ◌≢◌, refl, ap, sym, ◌∙◌, List, [], ◌∷◌, ◌++◌, Option, none, some, Bool, true, false, not,
  ◌&&◌, Ordering, arith, if◌then◌else◌, Bool-cases, inl, inr, All, All-imp, Pairs, Pairs-zip,
  Ordering-cases, OrderingCase,
}
use swupd_server.Text.{Text, strcmp, same}
use swupd_server.Text.Order.{strcmp_lt_le_trans, strcmp_le_trans}
use swupd_server.File.{File, Ascending, file_sort_filename, compare_bool, hash_compare}
use swupd_server.File.Order.{file_sort_filename-IsOrder}
use swupd_server.Sorter.{Sorter, Ordered}
use swupd_server.Manifest.{Manifest}

-- Which of two files of one name stays.
pub data Choice : Type 0 where
  first second neither : Choice

-- The cases 1 to 6 of the code, in their order.
unfoldable pub choose : File → File → Choice
choose file1 file2 =
    if file2.is_deleted && not file2.is_rename
    then Choice.first
    else if file1.is_deleted && not file1.is_rename
    then Choice.second
    else if file2.is_deleted && file2.is_rename
    then Choice.first
    else if file1.is_deleted && file1.is_rename
    then Choice.second
    else if not file1.is_deleted && not file2.is_deleted && hash_compare file1.hash file2.hash
    then Choice.first
    else Choice.neither

-- The walk, with the file that `list` points at and what comes behind it; nothing is pointed at
-- where the end is reached or two files were removed.
unfoldable pub consolidate_walk : Option File → List File → List File
consolidate_walk none [] = []
consolidate_walk none (file1 ∷ l) = consolidate_walk (some file1) l
consolidate_walk (some file1) [] = file1 ∷ []
consolidate_walk (some file1) (file2 ∷ l) = elim (same file1.filename file2.filename) [
  | false ↦ file1 ∷ consolidate_walk (some file2) l
  | true ↦ elim (choose file1 file2) [
    | Choice.first ↦ consolidate_walk (some file1) l
    | Choice.second ↦ consolidate_walk (some file2) l
    | Choice.neither ↦ consolidate_walk none l
  ]
]

-- g_list_concat(sub->files, manifest->files) for each submanifest that is there.
unfoldable pub concat_files : List (Option Manifest) → List File → List File
concat_files [] files = files
concat_files (none ∷ subs) files = concat_files subs files
concat_files (some sub ∷ subs) files = concat_files subs (sub.files ++ files)

-- The manifest after the call; its count is left as it was.
unfoldable pub consolidate_submanifests : Sorter File → List (Option Manifest) → Manifest → Manifest
consolidate_submanifests s subs m = record m {
  files = consolidate_walk none (s.sort file_sort_filename (concat_files subs m.files));
}

-- The classes of the decision matrix: a file that is deleted, one that is deleted and was renamed,
-- one that is there.
pub data Class : Type 0 where
  deleted renamed live : Class

unfoldable pub classify : File → Class
classify f =
    if f.is_deleted then (if f.is_rename then Class.renamed else Class.deleted) else Class.live

abbrev is_neither : Choice → Bool
is_neither Choice.neither = true
is_neither _ = false

abbrev is_first : Choice → Bool
is_first Choice.first = true
is_first _ = false

abbrev is_second : Choice → Bool
is_second Choice.second = true
is_second _ = false

-- The matrix, as a test of a choice; where it says "don't care", any choice that keeps one file.
abbrev pub matrix : Class → Class → Bool → Choice → Bool
matrix Class.deleted Class.deleted e c = not (is_neither c)
matrix Class.deleted _ e c = is_second c
matrix Class.renamed Class.deleted e c = is_first c
matrix Class.renamed Class.renamed e c = not (is_neither c)
matrix Class.renamed Class.live e c = is_second c
matrix Class.live Class.live true c = not (is_neither c)
matrix Class.live Class.live false c = is_neither c
matrix Class.live _ e c = is_first c

-- The code decides between two files of one name as the matrix in its comment says: a file that is
-- there wins against one that is not, a renamed one against one that is only deleted, two of one
-- class that is not there, and two that are there with one hash, leave one of them, and two that
-- are there with different hashes are both removed.
pub choose-matrix :
    (f g : File) → matrix (classify f) (classify g) (hash_compare f.hash g.hash) (choose f g) ≡ true
unfolding choose classify
choose-matrix f g = ground arith

abbrev pub pointed : Option File → List File → List File
pointed none l = l
pointed (some f) l = f ∷ l

-- What stays of two files of one name, pointed at, before the rest.
abbrev pub kept : File → File → Choice → Option File
kept f g Choice.first = some f
kept f g Choice.second = some g
kept f g Choice.neither = none

pub walk-same :
    (f g : File) (l : List File)
    → same f.filename g.filename ≡ true
    → consolidate_walk (some f) (g ∷ l) ≡ consolidate_walk (kept f g (choose f g)) l
unfolding consolidate_walk
walk-same f g l h = ground arith

pub walk-differ :
    (f g : File) (l : List File)
    → same f.filename g.filename ≡ false
    → consolidate_walk (some f) (g ∷ l) ≡ f ∷ consolidate_walk (some g) l
unfolding consolidate_walk
walk-differ f g l h = ground arith

kept-All {κ} :
    (P : File → Type κ) (f g : File) (c : Choice) (l : List File)
    → P f
    → P g
    → All P l
    → All P (pointed (kept f g c) l)
kept-All P f g Choice.first l p q h = (p, h)
kept-All P f g Choice.second l p q h = (q, h)
kept-All P f g Choice.neither l p q h = h

-- What holds of every file that goes into the walk holds of every file that is left.
pub walk-All {κ} :
    (P : File → Type κ) (o : Option File) (l : List File)
    → All P (pointed o l)
    → All P (consolidate_walk o l)
unfolding consolidate_walk
walk-All P none [] h = tt
walk-All P none (f ∷ l) h = walk-All P (some f) l h
walk-All P (some f) [] h = h
walk-All P (some f) (g ∷ l) h = elim (Bool-cases (same f.filename g.filename)) [
  | inl e ↦
      rw (walk-same f g l e)
        (walk-All P (kept f g (choose f g)) l (kept-All P f g (choose f g) l h.0 h.1.0 h.1.1))
  | inr e ↦ rw (walk-differ f g l e) (h.0, walk-All P (some g) l h.1)
]
