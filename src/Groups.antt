-- ===== src/Groups.antt =====
-- src/groups.c, the groups of groups.ini and the cursor that next_group moves through them, and the
-- loops of src/create_update.c over the groups. Reading the file is GLib's: the groups are given. A
-- loop is on fuel for the number of the groups.
pub mod Visits
use swupd_server.Prelude.{
  ℕ, zero, suc, ◌+◌, List, [], ◌∷◌, ◌++◌, Option, none, some, Bool, true, false, not, ◌||◌, ◌==◌,
  ltb, if◌then◌else◌, length,
}
use swupd_server.Text.{Text, codes, same}
use swupd_server.Text.Decimal.{decimal}

pub record Groups : Type 0 where
  pub groups : List Text
  pub groupcursor : ℕ

abbrev pub at : ℕ → List Text → Option Text
at n [] = none
at zero (g ∷ l) = some g
at (suc n) (g ∷ l) = at n l

-- The group at the cursor, which moves on; behind the last one it is set back.
abbrev pub moved : Groups → Option Text → Option Text × Groups
moved s none = (none, record s { groupcursor = 0 })
moved s (some group) = (some group, record s { groupcursor = s.groupcursor + 1 })

unfoldable pub next_group : Groups → Option Text × Groups
next_group s = moved s (at s.groupcursor s.groups)

-- A loop that calls next_group until it returns NULL: the groups it sees, and the state after it.
abbrev pub seen : Text → List Text × Groups → List Text × Groups
seen group (l, s) = (group ∷ l, s)

abbrev pub seen_by : (Groups → List Text × Groups) → Option Text × Groups → List Text × Groups
seen_by rest (none, s) = ([], s)
seen_by rest (some group, s) = seen group (rest s)

unfoldable pub visit : ℕ → Groups → List Text × Groups
visit zero s = ([], s)
visit (suc fuel) s = seen_by (visit fuel) (next_group s)

-- Fuel that is enough for a loop over the groups.
abbrev pub visit_fuel : Groups → ℕ
visit_fuel s = suc (length s.groups)

abbrev pub visit_all : Groups → List Text × Groups
visit_all s = visit (visit_fuel s) s

-- The loop of check_group_file, which stops at os-core: whether it is there, and the state after it.
abbrev pub checked_by : (Groups → Bool × Groups) → Option Text × Groups → Bool × Groups
checked_by rest (none, s) = (false, s)
checked_by rest (some group, s) = if same group (codes "os-core") then (true, s) else rest s

unfoldable pub check_walk : ℕ → Groups → Bool × Groups
check_walk zero s = (false, s)
check_walk (suc fuel) s = checked_by (check_walk fuel) (next_group s)

unfoldable pub check_group_file : Groups → Bool × Groups
check_group_file s = check_walk (visit_fuel s) s

-- The directories of the groups that are missing: `there` is whether access
-- finds a path.
abbrev pub bundle_dir : Text → ℕ → Text → Text
bundle_dir image_dir version group = image_dir ++ codes "/" ++ decimal version ++ codes "/" ++ group

unfoldable pub missing_dirs : (Text → Bool) → Text → ℕ → List Text → List Text
missing_dirs there image_dir version [] = []
missing_dirs there image_dir version (group ∷ l) =
    let rest = missing_dirs there image_dir version l in
    let dir = bundle_dir image_dir version group in
    if there dir || there (dir ++ codes ".content.txt") then rest else dir ∷ rest

abbrev pub created : (Text → Bool) → Text → ℕ → List Text × Groups → List Text × Groups
created there image_dir version (l, s) = (missing_dirs there image_dir version l, s)

-- For version 0 no group is looked at.
abbrev pub zero_dirs : (Text → Bool) → Text → List Text
zero_dirs there image_dir =
    let dir = image_dir ++ codes "/0" in
    if there dir then [] else dir ∷ (dir ++ codes "/os-core") ∷ []

-- The directories that are created, and the state after the call.
unfoldable pub populate_dirs : (Text → Bool) → Text → ℕ → Groups → List Text × Groups
populate_dirs there image_dir version s =
    if version == 0
    then (zero_dirs there image_dir, s)
    else created there image_dir version (visit_all s)
