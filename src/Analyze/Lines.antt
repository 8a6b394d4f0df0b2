-- ===== src/Analyze/Lines.antt =====
-- The lines of the files that src/analyze_fs.c reads: those of a content file, and the includes of a
-- bundle.
use swupd_server.Prelude.{
  ℕ, ◌-◌, List, [], ◌∷◌, ◌++◌, Option, none, some, ◌==◌, if◌then◌else◌, length,
}
use swupd_server.Text.{Text, codes, strcmp}
use swupd_server.Text.Decimal.{decimal}
use swupd_server.Sorter.{Sorter}
use swupd_server.Analyze.{FileSystem, Opened}

-- The lines that getline gives, without their newlines.
abbrev pub start_line : ℕ → List Text → List Text
start_line c [] = (c ∷ []) ∷ []
start_line c (line ∷ lines) = (c ∷ line) ∷ lines

unfoldable pub lines_of : Text → List Text
lines_of [] = []
lines_of (c ∷ s) = if c == b'\n' then [] ∷ lines_of s else start_line c (lines_of s)

-- What fgets gives of a file, without the newlines: a line, or 8190 bytes of a longer one. `room` is
-- how many bytes more are read.
unfoldable pub pieces : ℕ → Text → List Text
pieces room [] = []
pieces room (c ∷ s) =
    if c == b'\n'
    then [] ∷ pieces 8190 s
    else if room == 1
    then (c ∷ []) ∷ pieces 8190 s
    else start_line c (pieces (room - 1) s)

-- The loop, which ends at an empty line.
unfoldable pub included_walk : List Text → List Text → List Text
included_walk [] includes = includes
included_walk (line ∷ lines) includes =
    if length line == 0 then includes else included_walk lines (line ∷ includes)

abbrev pub included_in : Option Opened → List Text
included_in none = []
included_in (some fl) = included_walk (pieces 8190 fl.content) []

module _ (names : Sorter Text) (fs : FileSystem) (conf : Text) where
  unfoldable pub get_sub_manifest_includes : Text → ℕ → List Text
  get_sub_manifest_includes component version = names.sort strcmp (
      included_in (
        fs.fopen (
          conf
          ++ codes "/"
          ++ decimal version
          ++ codes "/noship/"
          ++ component
          ++ codes "-includes")))
