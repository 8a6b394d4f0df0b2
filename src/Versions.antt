-- ===== src/Versions.antt =====
-- src/versions.c: which old versions a new manifest gets deltas from. The names of a directory
-- stand for the result of readdir and lstat on the staging directory, each with whether it is a
-- directory. A version number is what `atoi` of the C library gives for the decimal digits of a name,
-- whose number is taken to be below 2^31: for a greater one the C library defines no result.
pub mod Jump
use swupd_server.Prelude.{
  ℕ, ◌+◌, ◌-◌, ◌*◌, ◌/◌, ◌%◌, ◌≡◌, ◌≢◌, ◌≤◌, ◌<◌, refl, sym, ap, List, [], ◌∷◌, Option, none, some,
  Bool, true, false, not, ◌&&◌, ◌||◌, arith, if◌then◌else◌, All, ◌==◌, ltb, leb, compare, Ordering,
  flip, inl, inr, Bool-cases,
}
use swupd_server.Text.{Text}
use swupd_server.Sorter.{Sorter, Ordered}

unfoldable pub compare_versions : ℕ → ℕ → Ordering
compare_versions a b = compare b a

pub data BuildType : Type 0 where
  regular fix dev : BuildType

unfoldable pub get_build_type : ℕ → BuildType
get_build_type build_num =
    let build_type = build_num % 10 in
    if build_type == 0
    then BuildType.regular
    else if build_type == 9
    then BuildType.dev
    else BuildType.fix

-- Subtracting 100 from 0 gives less than 0, which becomes 0.
unfoldable pub get_jump_point : ℕ → ℕ
get_jump_point build_num =
    let jump_point = (build_num / 100) * 100 in
    if jump_point == build_num then jump_point - 100 else jump_point

abbrev pub is_regular : BuildType → Bool
is_regular BuildType.regular = true
is_regular _ = false

abbrev pub is_dev : BuildType → Bool
is_dev BuildType.dev = true
is_dev _ = false

abbrev pub is_jump_point : Option ℕ → ℕ → Bool
is_jump_point none build_num = false
is_jump_point (some jump_point) build_num = build_num == jump_point

-- The jump point for the versions from here on, where it has not been met; `none` is -1.
abbrev pub next_jump_point : Option ℕ → ℕ → Option ℕ
next_jump_point none build_num = some (get_jump_point build_num)
next_jump_point (some jump_point) build_num =
    if ltb build_num jump_point then some (get_jump_point jump_point) else some jump_point

-- The last loop of get_last_versions_list. `place` is idx + 1: idx goes down only where it is
-- max_versions - 1, so it is never less than -1.
unfoldable pub select_walk : ℕ → ℕ → Option ℕ → Bool → List ℕ → List ℕ
select_walk max_versions place jump_point found [] = []
select_walk max_versions place jump_point found (build_num ∷ next) =
    let build_type = get_build_type build_num in
    let is_over =
      (ltb max_versions place || is_dev build_type)
      && not (is_jump_point jump_point build_num)
      && not (build_num == 0) in
    let is_last = not is_over && place == max_versions && not (build_num == 0) in
    let found' = found || is_jump_point jump_point build_num in
    let place' =
      (if is_last then place - 1 else place) + (if is_regular build_type then 1 else 0) in
    let jump_point' =
      if is_regular build_type && ltb max_versions place' && not found'
      then next_jump_point jump_point build_num
      else jump_point in
    let rest = select_walk max_versions place' jump_point' found' next in
    if is_over || is_last then rest else build_num ∷ rest

-- strspn(name, "0123456789") == strlen(name)
abbrev pub is_digits : Text → Bool
is_digits [] = true
is_digits (c ∷ name) = leb 48 c && leb c 57 && is_digits name

abbrev pub atoi_from : ℕ → Text → ℕ
atoi_from n [] = n
atoi_from n (c ∷ name) = atoi_from (n * 10 + (c - 48)) name

-- atoi(name), for the digits of a number below 2^31
abbrev pub atoi : Text → ℕ
atoi name = atoi_from 0 name

-- An entry of the staging directory: its name, and whether lstat says that it is a directory.
pub record Entry : Type 0 where
  pub d_name : Text
  pub is_dir : Bool

unfoldable pub read_versions : ℕ → List Entry → List ℕ → List ℕ
read_versions next_version [] list = list
read_versions next_version (entry ∷ dir) list = read_versions next_version dir (
    if is_digits entry.d_name && entry.is_dir && ltb (atoi entry.d_name) next_version
    then atoi entry.d_name ∷ list
    else list)

-- A directory that cannot be opened is one without entries.
unfoldable pub get_last_versions_list : Sorter ℕ → List Entry → ℕ → ℕ → List ℕ
get_last_versions_list s dir next_version max_versions =
    select_walk max_versions 1 none false
      (s.sort compare_versions (read_versions next_version dir []))
