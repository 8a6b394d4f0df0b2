-- ===== src/Renames/Detect/Ends.antt =====
-- The loop of rename_detection (src/rename.c), which starts again after a candidate was taken, ends.
use mathlib.Core.List.{Perm, Permᴰ}
use mathlib.Core.Logic.{∥∥₁_elim}
use native.Mathlib.Nat.{ℕ_set}
use swupd_server.Prelude.{
  ℕ, zero, suc, ◌+◌, ◌*◌, ◌≤◌, ◌<◌, ◌≡◌, refl, sym, ◌∙◌, List, [], ◌∷◌, Option, none, some, Bool,
  true, false, ◌==◌, ltb, arith, if◌then◌else◌, length, All, All-imp, Pairs, Bool-cases,
  Option-cases, inl, inr, length-perm,
}
use swupd_server.File.{File, is_some}
use swupd_server.Sorter.{Sorter}
use swupd_server.Renames.{Links, set}
use swupd_server.Renames.Detect.{
  Scored, State, best_walk, score_file, file_sort_score, remove_file, link_file, step_candidate,
  step_files, detect_step, detect,
}

-- How many elements pass a test.
abbrev pub count {ℓ} : {A : Type ℓ} → (A → Bool) → List A → ℕ
count p [] = 0
count p (x ∷ l) = (if p x then 1 else 0) + count p l

module _ {ℓ} {A : Type ℓ} (p : A → Bool) where
  count-permᴰ : {l r : List A} → Permᴰ l r → count p l ≡ count p r
  count-permᴰ Permᴰ.nil = refl
  count-permᴰ (Permᴰ.cons e q) = rw e (omega (arith, count-permᴰ q))
  count-permᴰ (Permᴰ.swap e f) = rw (e, f) (omega arith)
  count-permᴰ (Permᴰ.trans q r) = count-permᴰ q ∙ count-permᴰ r

  pub count-perm : {l r : List A} → Perm l r → count p l ≡ count p r
  count-perm q = ∥∥₁_elim q (ℕ_set _ _) count-permᴰ

  pub count-le-length : (l : List A) → count p l ≤ length l
  count-le-length [] = omega arith
  count-le-length (x ∷ l) = ground (arith, count-le-length l)

-- Whether a deleted file is taken.
abbrev pub is_taken : Links → Option File → Bool
is_taken taken none = false
is_taken taken (some p) = is_some (taken p.addr)

abbrev pub is_stale : Links → Scored → Bool
is_stale taken x = is_taken taken x.candidate

-- A file that is taken is no longer in the list of deleted files, in which no address is twice.
pub record IsFree (s : State) : Type 0 where
  pub untaken : All (λ d. s.taken d.addr ≡ none) s.deleted_files
  pub apart : Pairs (λ d e. (d.addr == e.addr) ≡ false) s.deleted_files

abbrev pub measure : Links → List Scored → ℕ
measure taken l = length l * suc (length l) + count (is_stale taken) l

best_fresh :
    (score : File → File → ℕ) (taken : Links) (file : File) (l : List File) (best : ℕ)
    (found : Option File)
    → All (λ d. taken d.addr ≡ none) l
    → is_taken taken found ≡ false
    → is_stale taken (best_walk score file l best found) ≡ false
unfolding best_walk
best_fresh score taken file [] best found h k = k
best_fresh score taken file (d ∷ l) best found h k = elim (Bool-cases (ltb best (score d file))) [
  | inl e ↦ rw e (best_fresh score taken file l (score d file) (some d) h.1 (rw h.0 refl))
  | inr e ↦ rw e (best_fresh score taken file l best found h.1 k)
]

pub remove-All : (P : File → Type 0) (p : File) (l : List File) → All P l → All P (remove_file p l)
unfolding remove_file
remove-All P p [] h = tt
remove-All P p (f ∷ l) h = elim (Bool-cases (f.addr == p.addr)) [
  | inl e ↦ rw e h.1
  | inr e ↦ rw e (h.0, remove-All P p l h.1)
]

pub remove-Pairs :
    (R : File → File → Type 0) (p : File) (l : List File) → Pairs R l → Pairs R (remove_file p l)
unfolding remove_file
remove-Pairs R p [] h = tt
remove-Pairs R p (f ∷ l) h = elim (Bool-cases (f.addr == p.addr)) [
  | inl e ↦ rw e h.1
  | inr e ↦ rw e (remove-All (R f) p l h.0, remove-Pairs R p l h.1)
]

remove_apart :
    (p : File) (l : List File)
    → Pairs (λ d e. (d.addr == e.addr) ≡ false) l
    → All (λ d. (d.addr == p.addr) ≡ false) (remove_file p l)
unfolding remove_file
remove_apart p [] h = tt
remove_apart p (f ∷ l) h = elim (Bool-cases (f.addr == p.addr)) [
  | inl e ↦ rw e (All-imp _ _ (λ d k. ground arith) l h.0)
  | inr e ↦ rw e (e, remove_apart p l h.1)
]

set_untaken :
    (taken : Links) (a b : ℕ) (l : List File)
    → All (λ d. taken d.addr ≡ none) l
    → All (λ d. (d.addr == a) ≡ false) l
    → All (λ d. set taken a b d.addr ≡ none) l
set_untaken taken a b [] h k = tt
set_untaken taken a b (d ∷ l) h k = (rw (k.0) h.0, set_untaken taken a b l h.1 k.1)

link-IsFree :
    (s : State) (x : Scored) (rest : List Scored) (p : File)
    → IsFree s
    → IsFree (link_file s x rest p)
link-IsFree s x rest p i = record {
  untaken =
      set_untaken s.taken p.addr x.file.addr (remove_file p s.deleted_files)
        (remove-All _ p s.deleted_files i.untaken) (remove_apart p s.deleted_files i.apart);
  apart = remove-Pairs _ p s.deleted_files i.apart;
}

shorter : (j k c d : ℕ) → j ≤ k → c ≤ j → j * suc j + c < suc k * suc (suc k) + d
shorter j k c d h e = grind arith

kept_short :
    (l : List File) (rest : List Scored)
    → length (elim l as (λ x. List Scored) [ [] ↦ [] | d ∷ m ↦ rest ]) ≤ length rest
kept_short [] rest = omega arith
kept_short (d ∷ m) rest = omega arith

-- What one round makes of a state, from a list of new files.
abbrev Advances : Links → List Scored → State → Type 0
Advances taken l s' = IsFree s' × (measure s'.taken s'.new_files < measure taken l)

passed :
    (s : State) (x : Scored) (rest : List Scored)
    → IsFree s
    → Advances s.taken (x ∷ rest) (record s { new_files = rest })
passed s x rest i = (
  record { untaken = i.untaken; apart = i.apart },
  shorter (length rest) (length rest) (count (is_stale s.taken) rest)
      (count (is_stale s.taken) (x ∷ rest)) (omega arith) (count-le-length _ rest),
)

linked :
    (s : State) (x : Scored) (rest : List Scored) (p : File)
    → IsFree s
    → Advances s.taken (x ∷ rest) (link_file s x rest p)
linked s x rest p i =
    let next : State = link_file s x rest p in
    (
      link-IsFree s x rest p i,
      shorter (length next.new_files) (length rest) (count (is_stale next.taken) next.new_files)
          (count (is_stale s.taken) (x ∷ rest)) (kept_short (remove_file p s.deleted_files) rest)
          (count-le-length _ next.new_files),
    )

module _ (sorter : Sorter Scored) (score : File → File → ℕ) where
  redone :
      (s : State) (x : Scored) (rest : List Scored)
      → IsFree s
      → is_stale s.taken x ≡ true
      → Advances s.taken (x ∷ rest) (record s {
        new_files = sorter.sort file_sort_score (score_file score s.deleted_files x.file ∷ rest);
      })
  unfolding score_file
  redone s x rest i stale =
      let again : List Scored = score_file score s.deleted_files x.file ∷ rest in
      let fresh : is_stale s.taken (score_file score s.deleted_files x.file) ≡ false =
        best_fresh score s.taken x.file s.deleted_files 100 none i.untaken refl in
      let one_less : count (is_stale s.taken) (x ∷ rest) ≡ suc (count (is_stale s.taken) again) =
        ground (arith, stale, fresh) in
      let same_count = count-perm (is_stale s.taken) (sorter.perm file_sort_score again) in
      let same_length = length-perm (sorter.perm file_sort_score again) in
      (
        record { untaken = i.untaken; apart = i.apart },
        rw (same_length, same_count, one_less) (omega arith),
      )

  candidate_advances :
      (s : State) (x : Scored) (rest : List Scored) (o : Option File)
      → IsFree s
      → is_taken s.taken o ≡ is_stale s.taken x
      → Advances s.taken (x ∷ rest) (step_candidate sorter score s x rest o)
  candidate_advances s x rest none i h = passed s x rest i
  candidate_advances s x rest (some p) i h = elim (Bool-cases (ltb x.rename_score 215)) [
    | inl e ↦ rw e (passed s x rest i)
    | inr e ↦ elim (Bool-cases (is_some (s.taken p.addr))) [
      | inl k ↦ rw (e, k) (redone s x rest i (sym h ∙ k))
      | inr k ↦ rw (e, k) (linked s x rest p i)
    ]
  ]

  files_advance :
      (s s' : State) (l : List Scored)
      → IsFree s
      → step_files sorter score s l ≡ some s'
      → Advances s.taken l s'
  files_advance s s' [] i h = absurd (ground arith)
  files_advance s s' (x ∷ rest) i h =
      let same : step_candidate sorter score s x rest x.candidate ≡ s' = ground arith in
      rw (← same) (candidate_advances s x rest x.candidate i refl)

  -- With as much fuel as the measure the loop ends.
  pub detect_ends :
      (fuel : ℕ) (s : State)
      → IsFree s
      → measure s.taken s.new_files < fuel
      → (out : State) × (detect sorter score fuel s ≡ some out)
  unfolding detect detect_step
  detect_ends zero s i h = absurd (omega arith)
  detect_ends (suc fuel) s i h = elim (Option-cases (step_files sorter score s s.new_files)) [
    | inl e ↦ (s, rw (detect, detect_step, e) refl)
    | inr (s', e) ↦
        let (i', less) = files_advance s s' s.new_files i e in
        let (out, ends) = detect_ends fuel s' i' (omega (arith, less, h)) in
        (out, rw (detect, detect_step, e) ends)
  ]
