-- ===== src/Renames/Detect/Once.antt =====
-- Which renames rename_detection (src/rename.c) finds.
use mathlib.Core.List.{Mem, Perm, Mem-prop}
use mathlib.Core.List.Perm
use mathlib.Core.HLevel.{×_prop}
use swupd_server.Prelude.{
  ℕ, zero, suc, ◌≤◌, ◌≡◌, refl, sym, ◌∙◌, List, [], ◌∷◌, Option, none, some, true, false, ◌==◌, ltb,
  arith, All, All-imp, All-zip, All-perm, Pairs, Pairs-perm, Bool-cases, Option-cases, inl, inr,
  ==_iff,
}
use swupd_server.File.{File, is_some}
use swupd_server.Sorter.{Sorter}
use swupd_server.Renames.{Links, set}
use swupd_server.Renames.Detect.{
  Scored, Rename, State, best_walk, score_file, file_sort_score, remove_file, link_file,
  step_candidate, step_files, detect_step, detect,
}
use swupd_server.Renames.Detect.Ends.{remove-All}

-- No deleted file is in two renames, and no new file.
abbrev pub Apart : Rename → Rename → Type 0
Apart r q = ((r.origin.addr == q.origin.addr) ≡ false) × ((r.file.addr == q.file.addr) ≡ false)

module _ (sorter : Sorter Scored) (score : File → File → ℕ) (D N : List File) where
  -- A candidate is one of the deleted files, and the score is that of the two files.
  abbrev pub Rightful : File → ℕ → Option File → Type 0
  Rightful file best none = Unit
  Rightful file best (some p) = Mem p D × (best ≡ score p file)

  abbrev pub IsRightful : Scored → Type 0
  IsRightful x = Mem x.file N × Rightful x.file x.rename_score x.candidate

  -- A rename joins a new file and a deleted one whose score, 15 in the code, is high enough.
  abbrev pub IsEarned : Rename → Type 0
  IsEarned r = Mem r.file N × Mem r.origin D × (215 ≤ score r.origin r.file)

  -- The invariant of the loop; `news` are the new files that are left.
  pub record IsSound (s : State) (news : List Scored) : Type 0 where
    pub deleted_in : All (λ d. Mem d D) s.deleted_files
    pub rightful : All IsRightful news
    pub news_apart : Pairs (λ x y. (x.file.addr == y.file.addr) ≡ false) news
    pub earned : All IsEarned s.renames
    pub taken : All (λ r. is_some (s.taken r.origin.addr) ≡ true) s.renames
    pub done : All (λ r. All (λ x. (x.file.addr == r.file.addr) ≡ false) news) s.renames
    pub apart : Pairs Apart s.renames

  Rightful-prop : (file : File) (best : ℕ) (o : Option File) → IsProp (Rightful file best o)
  Rightful-prop file best none = hlevel
  Rightful-prop file best (some p) = hlevel

  pub IsRightful-prop : (x : Scored) → IsProp (IsRightful x)
  IsRightful-prop x = ×_prop Mem-prop (Rightful-prop x.file x.rename_score x.candidate)

  pub best-Rightful :
      (file : File) (l : List File) (best : ℕ) (found : Option File)
      → Mem file N
      → All (λ d. Mem d D) l
      → Rightful file best found
      → IsRightful (best_walk score file l best found)
  unfolding best_walk
  best-Rightful file [] best found m h k = (m, k)
  best-Rightful file (d ∷ l) best found m h k = elim (Bool-cases (ltb best (score d file))) [
    | inl e ↦ rw e (best-Rightful file l (score d file) (some d) m h.1 (h.0, refl))
    | inr e ↦ rw e (best-Rightful file l best found m h.1 k)
  ]

  pub best_file :
      (file : File) (l : List File) (best : ℕ) (found : Option File)
      → (best_walk score file l best found).file ≡ file
  unfolding best_walk
  best_file file [] best found = refl
  best_file file (d ∷ l) best found =
      ground (arith, best_file file l (score d file) (some d), best_file file l best found)

  tails_done :
      (x : Scored) (rest : List Scored) (renames : List Rename)
      → All (λ r. All (λ y. (y.file.addr == r.file.addr) ≡ false) (x ∷ rest)) renames
      → All (λ r. All (λ y. (y.file.addr == r.file.addr) ≡ false) rest) renames
  tails_done x rest renames h = All-imp _ _ (λ r k. k.1) renames h

  passed-IsSound :
      (s : State) (x : Scored) (rest : List Scored)
      → IsSound s (x ∷ rest)
      → IsSound (record s { new_files = rest }) rest
  passed-IsSound s x rest i = record {
    deleted_in = i.deleted_in;
    rightful = i.rightful.1;
    news_apart = i.news_apart.1;
    earned = i.earned;
    taken = i.taken;
    done = tails_done x rest s.renames i.done;
    apart = i.apart;
  }

  pub addr_flip :
      (x y : Scored) → (x.file.addr == y.file.addr) ≡ false → (y.file.addr == x.file.addr) ≡ false
  addr_flip x y h = ground arith

  redone-IsSound :
      (s : State) (x : Scored) (rest : List Scored)
      → IsSound s (x ∷ rest)
      → IsSound
          (record s {
            new_files =
                sorter.sort file_sort_score (score_file score s.deleted_files x.file ∷ rest);
          })
          (sorter.sort file_sort_score (score_file score s.deleted_files x.file ∷ rest))
  unfolding score_file
  redone-IsSound s x rest i =
      let again : List Scored = score_file score s.deleted_files x.file ∷ rest in
      let same : (score_file score s.deleted_files x.file).file ≡ x.file =
        best_file x.file s.deleted_files 100 none in
      let sorted : Perm again (sorter.sort file_sort_score again) =
        Perm.symm (sorter.perm file_sort_score again) in
      record {
        deleted_in = i.deleted_in;
        rightful = All-perm IsRightful-prop sorted (
          best-Rightful x.file s.deleted_files 100 none i.rightful.0.0 i.deleted_in tt,
          i.rightful.1,
        );
        news_apart =
            Pairs-perm (λ a b. hlevel) addr_flip sorted (rw same i.news_apart.0, i.news_apart.1);
        earned = i.earned;
        taken = i.taken;
        done =
            All-imp _ _ (λ r k. All-perm (λ y. hlevel) sorted (rw same k.0, k.1)) s.renames i.done;
        apart = i.apart;
      }

  keeps_taken :
      (taken : Links) (a b : ℕ) (renames : List Rename)
      → All (λ r. is_some (taken r.origin.addr) ≡ true) renames
      → All (λ r. is_some (set taken a b r.origin.addr) ≡ true) renames
  keeps_taken taken a b renames h = All-imp _ _ (λ r k. ground (arith, k)) renames h

  new_Apart :
      (taken : Links) (x : Scored) (rest : List Scored) (p : File) (r : Rename)
      → is_some (taken p.addr) ≡ false
      → is_some (taken r.origin.addr) ≡ true
      → (x.file.addr == r.file.addr) ≡ false
      → Apart (record { file = x.file; origin = p }) r
  new_Apart taken x rest p r h k d = (
    elim (Bool-cases (p.addr == r.origin.addr)) [
      | inl e ↦
          let same : p.addr ≡ r.origin.addr = (==_iff p.addr r.origin.addr).0 e in
          let found : is_some (taken p.addr) ≡ true = rw same k in absurd (ground (arith, h, found))
      | inr e ↦ e
    ],
    d,
  )

  linked_rest :
      (s : State) (x : Scored) (rest : List Scored) (p : File)
      → IsSound s (x ∷ rest)
      → Rightful x.file x.rename_score (some p)
      → ltb x.rename_score 215 ≡ false
      → is_some (s.taken p.addr) ≡ false
      → IsSound (link_file s x rest p) rest
  linked_rest s x rest p i c high free = record {
    deleted_in = remove-All _ p s.deleted_files i.deleted_in;
    rightful = i.rightful.1;
    news_apart = i.news_apart.1;
    earned = ((i.rightful.0.0, c.0, ground (arith, c.1)), i.earned);
    taken = (ground arith, keeps_taken s.taken p.addr x.file.addr s.renames i.taken);
    done = (
      All-imp _ _ (λ y k. addr_flip x y k) rest i.news_apart.0,
      tails_done x rest s.renames i.done,
    );
    apart = (
      All-zip _ _ _ (λ r k d. new_Apart s.taken x rest p r free k d.0) s.renames i.taken i.done,
      i.apart,
    );
  }

  none_left : (s : State) (news : List Scored) → IsSound s news → IsSound s []
  none_left s news i = record {
    deleted_in = i.deleted_in;
    rightful = tt;
    news_apart = tt;
    earned = i.earned;
    taken = i.taken;
    done = All-imp _ _ (λ r k. tt) s.renames i.done;
    apart = i.apart;
  }

  cut_IsSound :
      (s : State) (l : List File) (news : List Scored)
      → IsSound s news
      → IsSound s (elim l as (λ x. List Scored) [ [] ↦ [] | d ∷ m ↦ news ])
  cut_IsSound s [] news i = none_left s news i
  cut_IsSound s (d ∷ m) news i = i

  -- The invariant of a state at its own list of new files.
  abbrev pub Sound : State → Type 0
  Sound s = IsSound s s.new_files

  candidate-Sound :
      (s : State) (x : Scored) (rest : List Scored) (o : Option File)
      → IsSound s (x ∷ rest)
      → Rightful x.file x.rename_score o
      → Sound (step_candidate sorter score s x rest o)
  candidate-Sound s x rest none i c = passed-IsSound s x rest i
  candidate-Sound s x rest (some p) i c = elim (Bool-cases (ltb x.rename_score 215)) [
    | inl e ↦ rw e (passed-IsSound s x rest i)
    | inr e ↦ elim (Bool-cases (is_some (s.taken p.addr))) [
      | inl k ↦ rw (e, k) (redone-IsSound s x rest i)
      | inr k ↦
          rw (e, k)
            (cut_IsSound (link_file s x rest p) (remove_file p s.deleted_files) rest
              (linked_rest s x rest p i c e k))
    ]
  ]

  step-Sound :
      (s s' : State) (l : List Scored)
      → IsSound s l
      → step_files sorter score s l ≡ some s'
      → Sound s'
  step-Sound s s' [] i h = absurd (ground arith)
  step-Sound s s' (x ∷ rest) i h =
      let same : step_candidate sorter score s x rest x.candidate ≡ s' = ground arith in
      rw (← same) (candidate-Sound s x rest x.candidate i i.rightful.0.1)

  pub detect-Sound :
      (fuel : ℕ) (s out : State) → Sound s → detect sorter score fuel s ≡ some out → Sound out
  unfolding detect detect_step
  detect-Sound zero s out i h = absurd (ground arith)
  detect-Sound (suc fuel) s out i h = elim (Option-cases (step_files sorter score s s.new_files)) [
    | inl e ↦
        let stops : detect sorter score (suc fuel) s ≡ some s = rw (detect, detect_step, e) refl in
        let same : s ≡ out = ground (arith, stops, h) in rw (← same) i
    | inr (s', e) ↦
        let goes_on : detect sorter score (suc fuel) s ≡ detect sorter score fuel s' =
          rw (detect, detect_step, e) refl in
        detect-Sound fuel s' out (step-Sound s s' s.new_files i e) (sym goes_on ∙ h)
  ]
