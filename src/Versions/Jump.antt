-- ===== src/Versions/Jump.antt =====
-- What get_last_versions_list of src/versions.c does with jump points, and which versions it gives.
use mathlib.Core.List.Perm
use swupd_server.Prelude.{
  ℕ, ◌+◌, ◌-◌, ◌%◌, ◌≡◌, ◌≢◌, ◌≤◌, ◌<◌, refl, sym, ap, ◌∙◌, List, [], ◌∷◌, Option, none, Bool, true,
  false, not, ◌&&◌, ◌||◌, arith, if◌then◌else◌, All, All-imp, All-perm, Pairs, Pairs-zip, ◌==◌, ltb,
  Ordering, inl, inr, Bool-cases,
}
use native.Mathlib.Bridge.{le_prop}
use swupd_server.Sorter.{Sorter, IsOrder}
use swupd_server.Versions.{
  compare_versions, BuildType, get_build_type, is_regular, is_dev, is_jump_point, next_jump_point,
  get_jump_point, select_walk, read_versions, get_last_versions_list, Entry, atoi, is_digits,
}

-- The loop without jump points: development builds go, and where place has reached the greatest
-- number so does any other version than 0, which gives its place back.
unfoldable pub select_plain : ℕ → ℕ → List ℕ → List ℕ
select_plain max_versions place [] = []
select_plain max_versions place (build_num ∷ next) =
    let build_type = get_build_type build_num in
    let is_last = place == max_versions && not (build_num == 0) in
    let place' =
      (if is_last && not (is_dev build_type) then place - 1 else place)
      + (if is_regular build_type then 1 else 0) in
    let rest = select_plain max_versions place' next in
    if is_dev build_type || is_last then rest else build_num ∷ rest

abbrev Descending : List ℕ → Type 0
Descending = Pairs (λ a b. b ≤ a)

zero-regular : get_build_type 0 ≡ BuildType.regular
unfolding get_build_type
zero-regular = refl

walk-zero :
    (m p : ℕ) (j : Option ℕ) (f : Bool) (l : List ℕ)
    → select_walk m p j f (0 ∷ l)
      ≡ 0
        ∷ select_walk m
            (p + 1)
            (if ltb m (p + 1) && not (f || is_jump_point j 0) then next_jump_point j 0 else j)
            (f || is_jump_point j 0)
            l
unfolding select_walk
walk-zero m p j f l = ground (arith, zero-regular)

walk-zeros :
    (m p : ℕ) (j : Option ℕ) (f : Bool) (l : List ℕ)
    → All (λ b. b ≡ 0) l
    → select_walk m p j f l ≡ l
unfolding select_walk
walk-zeros m p j f [] h = refl
walk-zeros m p j f (b ∷ l) h = rw h.0 (
    walk-zero m p j f l
    ∙ ap (◌∷◌ 0) (
        walk-zeros m (p + 1)
          (if ltb m (p + 1) && not (f || is_jump_point j 0) then next_jump_point j 0 else j)
          (f || is_jump_point j 0) l h.1))

plain-zero : (m p : ℕ) (l : List ℕ) → select_plain m p (0 ∷ l) ≡ 0 ∷ select_plain m (p + 1) l
unfolding select_plain
plain-zero m p l = ground (arith, zero-regular)

plain-zeros : (m p : ℕ) (l : List ℕ) → All (λ b. b ≡ 0) l → select_plain m p l ≡ l
unfolding select_plain
plain-zeros m p [] h = refl
plain-zeros m p (b ∷ l) h = rw h.0 (plain-zero m p l ∙ ap (◌∷◌ 0) (plain-zeros m (p + 1) l h.1))

-- Where the walk goes on before version 0.
place_after : ℕ → ℕ → BuildType → ℕ
place_after m p BuildType.regular = if p == m then p else p + 1
place_after m p BuildType.fix = if p == m then p - 1 else p
place_after m p BuildType.dev = p

place_after-le : (m p : ℕ) (t : BuildType) → p ≤ m → place_after m p t ≤ m
unfolding place_after
place_after-le m p BuildType.regular h = ground arith
place_after-le m p BuildType.fix h = ground arith
place_after-le m p BuildType.dev h = h

data BuildCase (t : BuildType) : Type 0 where
  is_a_regular : t ≡ BuildType.regular → BuildCase t
  is_a_fix : t ≡ BuildType.fix → BuildCase t
  is_a_dev : t ≡ BuildType.dev → BuildCase t

BuildType-cases : (t : BuildType) → BuildCase t
BuildType-cases BuildType.regular = BuildCase.is_a_regular refl
BuildType-cases BuildType.fix = BuildCase.is_a_fix refl
BuildType-cases BuildType.dev = BuildCase.is_a_dev refl

-- Before version 0 no jump point is set.
walk_regular :
    (m p b : ℕ) (l : List ℕ)
    → 1 ≤ m
    → p ≤ m
    → b ≢ 0
    → get_build_type b ≡ BuildType.regular
    → select_walk m p none false (b ∷ l) ≡ (
        if p == m
        then select_walk m (place_after m p BuildType.regular) none false l
        else b ∷ select_walk m (place_after m p BuildType.regular) none false l)
unfolding select_walk place_after
walk_regular m p b l n h k e = ground arith

walk_fix :
    (m p b : ℕ) (l : List ℕ)
    → p ≤ m
    → b ≢ 0
    → get_build_type b ≡ BuildType.fix
    → select_walk m p none false (b ∷ l) ≡ (
        if p == m
        then select_walk m (place_after m p BuildType.fix) none false l
        else b ∷ select_walk m (place_after m p BuildType.fix) none false l)
unfolding select_walk place_after
walk_fix m p b l h k e = ground arith

walk_dev :
    (m p b : ℕ) (l : List ℕ)
    → b ≢ 0
    → get_build_type b ≡ BuildType.dev
    → select_walk m p none false (b ∷ l) ≡ select_walk m p none false l
unfolding select_walk
walk_dev m p b l k e = ground arith

plain_regular :
    (m p b : ℕ) (l : List ℕ)
    → 1 ≤ m
    → b ≢ 0
    → get_build_type b ≡ BuildType.regular
    → select_plain m p (b ∷ l) ≡ (
        if p == m
        then select_plain m (place_after m p BuildType.regular) l
        else b ∷ select_plain m (place_after m p BuildType.regular) l)
unfolding select_plain place_after
plain_regular m p b l n k e = ground arith

plain_fix :
    (m p b : ℕ) (l : List ℕ)
    → b ≢ 0
    → get_build_type b ≡ BuildType.fix
    → select_plain m p (b ∷ l) ≡ (
        if p == m
        then select_plain m (place_after m p BuildType.fix) l
        else b ∷ select_plain m (place_after m p BuildType.fix) l)
unfolding select_plain place_after
plain_fix m p b l k e = ground arith

plain_dev :
    (m p b : ℕ) (l : List ℕ)
    → get_build_type b ≡ BuildType.dev
    → select_plain m p (b ∷ l) ≡ select_plain m p l
unfolding select_plain
plain_dev m p b l e = ground arith

walk-eq-plain :
    (m : ℕ) (l : List ℕ) (p : ℕ)
    → 1 ≤ m
    → p ≤ m
    → Descending l
    → select_walk m p none false l ≡ select_plain m p l
unfolding select_walk select_plain
walk-eq-plain m [] p n h d = refl
walk-eq-plain m (b ∷ l) p n h d = elim (Bool-cases (b == 0)) [
  | inl e ↦
      let zero_b : b ≡ 0 = ground arith in
      let zeros : All (λ c. c ≡ 0) (b ∷ l) =
        (zero_b, All-imp _ _ (λ c k. omega (arith, zero_b, k)) l d.0) in
      walk-zeros m p none false (b ∷ l) zeros ∙ sym (plain-zeros m p (b ∷ l) zeros)
  | inr e ↦
      let other : b ≢ 0 = ground arith in
      elim (BuildType-cases (get_build_type b)) [
        | BuildCase.is_a_regular t ↦
            walk_regular m p b l n h other t
            ∙ ap (λ r. if p == m then r else b ∷ r)
                (walk-eq-plain m l (place_after m p BuildType.regular) n
                  (place_after-le m p BuildType.regular h) d.1)
            ∙ sym (plain_regular m p b l n other t)
        | BuildCase.is_a_fix t ↦
            walk_fix m p b l h other t
            ∙ ap (λ r. if p == m then r else b ∷ r)
                (walk-eq-plain m l (place_after m p BuildType.fix) n
                  (place_after-le m p BuildType.fix h) d.1)
            ∙ sym (plain_fix m p b l other t)
        | BuildCase.is_a_dev t ↦
            walk_dev m p b l other t ∙ walk-eq-plain m l p n h d.1 ∙ sym (plain_dev m p b l t)
      ]
]

compare_versions-IsOrder : IsOrder compare_versions
unfolding compare_versions
compare_versions-IsOrder = record { flips = λ a b. ground arith; trans = λ a b c h k. ground arith }

le_of_compare : (a b : ℕ) → compare_versions a b ≢ Ordering.gt → b ≤ a
unfolding compare_versions
le_of_compare a b h = ground arith

sorted-Descending : (s : Sorter ℕ) (l : List ℕ) → Descending (s.sort compare_versions l)
sorted-Descending s l =
    let o = s.sorted compare_versions compare_versions-IsOrder l in
    Pairs-zip _ _ _ (λ a b h k. le_of_compare a b h) (s.sort compare_versions l) o o

-- Where at least one version is asked for, the list is what the loop without jump points selects:
-- a jump point is never kept for its own sake.
pub get_last_versions_list-eq-plain :
    (s : Sorter ℕ) (dir : List Entry) (next_version max_versions : ℕ)
    → 1 ≤ max_versions
    → get_last_versions_list s dir next_version max_versions
      ≡ select_plain max_versions 1 (s.sort compare_versions (read_versions next_version dir []))
unfolding get_last_versions_list
get_last_versions_list-eq-plain s dir next max h =
    walk-eq-plain max (s.sort compare_versions (read_versions next dir [])) 1 h h
      (sorted-Descending s (read_versions next dir []))

read-All :
    (next : ℕ) (dir : List Entry) (l : List ℕ)
    → All (λ v. v < next) l
    → All (λ v. v < next) (read_versions next dir l)
unfolding read_versions
read-All next [] l h = h
read-All next (e ∷ dir) l h =
    read-All next dir
      (if is_digits e.d_name && e.is_dir && ltb (atoi e.d_name) next then atoi e.d_name ∷ l else l)
      (elim (Bool-cases (is_digits e.d_name && e.is_dir && ltb (atoi e.d_name) next)) [
        | inl t ↦ rw t (ground arith, h)
        | inr t ↦ rw t h
      ])

if_All :
    (Q : ℕ → Type 0) (c : Bool) (b : ℕ) (r : List ℕ)
    → (c ≡ false → Q b)
    → All Q r
    → All Q (if c then r else b ∷ r)
if_All Q true b r h k = k
if_All Q false b r h k = (h refl, k)

plain-All :
    (P : ℕ → Type 0) (m p : ℕ) (l : List ℕ)
    → All P l
    → All (λ v. P v × (get_build_type v ≢ BuildType.dev)) (select_plain m p l)
unfolding select_plain
plain-All P m p [] h = tt
plain-All P m p (b ∷ l) h =
    if_All (λ v. P v × (get_build_type v ≢ BuildType.dev))
      (is_dev (get_build_type b) || (p == m && not (b == 0))) b _ (λ e. (h.0, λ d. ground arith))
      (plain-All P m
        ((if p == m && not (b == 0) && not (is_dev (get_build_type b)) then p - 1 else p)
          + (if is_regular (get_build_type b) then 1 else 0))
        l h.1)

-- Where at least one version is asked for, every version given is before the next one and is no
-- development build.
pub get_last_versions_list-All :
    (s : Sorter ℕ) (dir : List Entry) (next_version max_versions : ℕ)
    → 1 ≤ max_versions
    → All
        (λ v. (v < next_version) × (get_build_type v ≢ BuildType.dev))
        (get_last_versions_list s dir next_version max_versions)
get_last_versions_list-All s dir next max h =
    rw (get_last_versions_list-eq-plain s dir next max h) (
      plain-All (λ v. v < next) max 1 (s.sort compare_versions (read_versions next dir []))
        (All-perm (λ v. le_prop) (Perm.symm (s.perm compare_versions (read_versions next dir [])))
          (read-All next dir [] tt)))

-- The jump point of a version is a multiple of 100 that is before it, or 0, and there is no other
-- multiple of 100 between.
get_jump_point-greatest :
    (v : ℕ)
    → ((get_jump_point v) % 100 ≡ 0)
      × (0 < v → get_jump_point v < v)
      × ((k : ℕ) → k % 100 ≡ 0 → k < v → k ≤ get_jump_point v)
unfolding get_jump_point
get_jump_point-greatest v = (ground arith, λ h. ground arith, λ k h e. ground arith)
