-- ===== src/Groups/Visits.antt =====
-- Which groups the loops of src/create_update.c see, one after another.
use mathlib.Core.List.{append-nil, append_assoc}
use swupd_server.Prelude.{
  ℕ, zero, suc, ◌+◌, ◌≡◌, ◌<◌, refl, ap, ◌∙◌, List, [], ◌∷◌, ◌++◌, Option, none, some, Bool, true,
  false, ◌==◌, arith, if◌then◌else◌, length, length-append, All,
}
use swupd_server.Text.{Text, codes, same, strcmp}
use swupd_server.Groups.{
  Groups, at, moved, next_group, seen, visit, seen_by, visit_all, check_walk, checked_by,
  check_group_file, missing_dirs, zero_dirs, created, populate_dirs,
}

-- The state with the cursor at a place.
abbrev pub groups_at : List Text → ℕ → Groups
groups_at l n = record { groups = l; groupcursor = n }

at-append :
    (pre : List Text) (g : Text) (post : List Text) → at (length pre) (pre ++ g ∷ post) ≡ some g
at-append [] g post = refl
at-append (x ∷ pre) g post = at-append pre g post

at_end : (l : List Text) → at (length l) l ≡ none
at_end [] = refl
at_end (x ∷ l) = at_end l

-- A loop that starts behind `pre` sees the rest, and leaves the cursor at the start.
visit_rest :
    (fuel : ℕ) (pre post : List Text)
    → length post < fuel
    → visit fuel (groups_at (pre ++ post) (length pre)) ≡ (post, groups_at (pre ++ post) 0)
unfolding visit next_group
visit_rest zero pre post h = absurd (omega arith)
visit_rest (suc fuel) pre [] h = rw (append-nil pre, at_end pre) refl
visit_rest (suc fuel) pre (g ∷ post) h =
    let all : List Text = pre ++ g ∷ post in
    let split : (pre ++ g ∷ []) ++ post ≡ all = append_assoc pre (g ∷ []) post in
    let next : length (pre ++ g ∷ []) ≡ length pre + 1 = length-append pre (g ∷ []) in
    let rest : visit fuel (groups_at all (length pre + 1)) ≡ (post, groups_at all 0) =
      rw (← next, ← split) (visit_rest fuel (pre ++ g ∷ []) post (omega (arith, h))) in
    ap (λ o. seen_by (visit fuel) (moved (groups_at all (length pre)) o)) (at-append pre g post)
    ∙ ap (seen g) rest

-- One that starts behind `g` sees what is behind `g`.
visit_behind :
    (fuel : ℕ) (pre : List Text) (g : Text) (post : List Text)
    → length post < fuel
    → visit fuel (groups_at (pre ++ g ∷ post) (length pre + 1))
      ≡ (post, groups_at (pre ++ g ∷ post) 0)
visit_behind fuel pre g post h =
    let split : (pre ++ g ∷ []) ++ post ≡ pre ++ g ∷ post = append_assoc pre (g ∷ []) post in
    let next : length (pre ++ g ∷ []) ≡ length pre + 1 = length-append pre (g ∷ []) in
    rw (← next, ← split) (visit_rest fuel (pre ++ g ∷ []) post h)

abbrev os_core : Text
os_core = codes "os-core"

-- The loop of check_group_file up to os-core.
check_rest :
    (fuel : ℕ) (done pre post : List Text)
    → length pre < fuel
    → All (λ g. same g (codes "os-core") ≡ false) pre
    → check_walk fuel (groups_at (done ++ (pre ++ codes "os-core" ∷ post)) (length done))
      ≡ (true, groups_at (done ++ (pre ++ codes "os-core" ∷ post)) (length done + length pre + 1))
unfolding check_walk next_group strcmp
check_rest zero done pre post h k = absurd (omega arith)
check_rest (suc fuel) done [] post h k =
    let all : List Text = done ++ os_core ∷ post in
    let found : Option Text → Bool × Groups =
      λ o. checked_by (check_walk fuel) (moved (groups_at all (length done)) o) in
    let place : length done + 1 ≡ length done + 0 + 1 = omega arith in
    ap found (at-append done os_core post) ∙ ap (λ n. (true, groups_at all n)) place
check_rest (suc fuel) done (g ∷ pre) post h k =
    let all : List Text = done ++ g ∷ (pre ++ os_core ∷ post) in
    let found : Option Text → Bool × Groups =
      λ o. checked_by (check_walk fuel) (moved (groups_at all (length done)) o) in
    let split : (done ++ g ∷ []) ++ (pre ++ os_core ∷ post) ≡ all =
      append_assoc done (g ∷ []) (pre ++ os_core ∷ post) in
    let next : length (done ++ g ∷ []) ≡ length done + 1 = length-append done (g ∷ []) in
    let place : length done + 1 + length pre + 1 ≡ length done + suc (length pre) + 1 =
      omega arith in
    let rest : check_walk fuel (groups_at all (length done + 1))
        ≡ (true, groups_at all (length done + 1 + length pre + 1)) =
      rw (← next, ← split) (check_rest fuel (done ++ g ∷ []) pre post (omega (arith, h)) k.1) in
    ap found (at-append done g (pre ++ os_core ∷ post))
    ∙ ap
        (λ b.
          if b
          then (true, groups_at all (length done + 1))
          else check_walk fuel (groups_at all (length done + 1)))
        k.0
    ∙ rest
    ∙ ap (λ n. (true, groups_at all n)) place

-- Where os-core is among the groups and the version is not 0, check_group_file finds it. It leaves the cursor behind os-core,
-- so that populate_dirs, the next loop, creates directories only for the groups behind os-core; the
-- loops after that see every group, in order, and set the cursor back.
pub check_group_file_visits :
    (there : Text → Bool) (image_dir : Text) (version : ℕ) (pre post : List Text)
    → (version == 0) ≡ false
    → All (λ g. same g (codes "os-core") ≡ false) pre
    → ((check_group_file (groups_at (pre ++ codes "os-core" ∷ post) 0)).0 ≡ true)
      × (populate_dirs there image_dir version
            (check_group_file (groups_at (pre ++ codes "os-core" ∷ post) 0)).1
          ≡ (
            missing_dirs there image_dir version post,
            groups_at (pre ++ codes "os-core" ∷ post) 0,
          ))
      × (visit_all (groups_at (pre ++ codes "os-core" ∷ post) 0)
          ≡ (pre ++ codes "os-core" ∷ post, groups_at (pre ++ codes "os-core" ∷ post) 0))
unfolding check_group_file populate_dirs
check_group_file_visits there image_dir version pre post nonzero k =
    let all : List Text = pre ++ os_core ∷ post in
    let long : length all ≡ length pre + suc (length post) = length-append pre (os_core ∷ post) in
    let place : 0 + length pre + 1 ≡ length pre + 1 = omega arith in
    let checked : check_group_file (groups_at all 0) ≡ (true, groups_at all (length pre + 1)) =
      check_rest (suc (length all)) [] pre post (omega (arith, long)) k
      ∙ ap (λ n. (true, groups_at all n)) place in
    let behind : visit (suc (length all)) (groups_at all (length pre + 1))
        ≡ (post, groups_at all 0) =
      visit_behind (suc (length all)) pre os_core post (omega (arith, long)) in
    (
      ap (λ r. r.0) checked,
      ap (λ r. populate_dirs there image_dir version r.1) checked
          ∙ ap
              (λ b.
                if b
                then (zero_dirs there image_dir, groups_at all (length pre + 1))
                else created there image_dir version (visit_all (groups_at all (length pre + 1))))
              nonzero
          ∙ ap (created there image_dir version) behind,
      visit_rest (suc (length all)) [] all (omega arith),
    )
