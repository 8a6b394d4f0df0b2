-- ===== src/Renames/Detect/Filtered.antt =====
-- What new_filtered_list of src/rename.c keeps of the files of a manifest.
use mathlib.Core.List.{Mem}
use swupd_server.Prelude.{
  ◌+◌, ◌≤◌, ◌≡◌, List, [], ◌∷◌, Bool, true, false, ◌==◌, arith, length, All, All-of_mem, Pairs,
  Bool-cases, inl, inr,
}
use swupd_server.File.{File}
use swupd_server.Manifest.{Manifest}
use swupd_server.Renames.{new_filtered_list}

-- Two files at different addresses.
abbrev pub Other : File → File → Type 0
Other d e = (d.addr == e.addr) ≡ false

Other-flip : (d e : File) → Other d e → Other e d
Other-flip d e h = ground arith

module _ (f : File → Bool) where
  filtered-All :
      (P Q : File → Type 0)
      → ((x : File) → f x ≡ true → P x → Q x)
      → (l newlist : List File) → All P l
      → All Q newlist
      → All Q (new_filtered_list f l newlist)
  unfolding new_filtered_list
  filtered-All P Q k [] newlist h a = a
  filtered-All P Q k (x ∷ l) newlist h a = elim (Bool-cases (f x)) [
    | inl e ↦ rw e (filtered-All P Q k l (x ∷ newlist) h.1 (k x e h.0, a))
    | inr e ↦ rw e (filtered-All P Q k l newlist h.1 a)
  ]

  filtered-Pairs :
      (l newlist : List File)
      → Pairs Other l
      → Pairs Other newlist
      → All (λ x. All (Other x) newlist) l
      → Pairs Other (new_filtered_list f l newlist)
  unfolding new_filtered_list
  filtered-Pairs [] newlist h a c = a
  filtered-Pairs (x ∷ l) newlist h a c = elim (Bool-cases (f x)) [
    | inl e ↦ rw e (filtered-Pairs l (x ∷ newlist) h.1 (c.0, a) (both x l newlist h.0 c.1))
    | inr e ↦ rw e (filtered-Pairs l newlist h.1 a c.1)
  ]
    where
      both :
          (x : File) (l newlist : List File)
          → All (Other x) l
          → All (λ y. All (Other y) newlist) l
          → All (λ y. All (Other y) (x ∷ newlist)) l
      both x [] newlist h c = tt
      both x (y ∷ l) newlist h c = ((Other-flip x y h.0, c.0), both x l newlist h.1 c.1)

  pub length-filtered :
      (l newlist : List File) → length (new_filtered_list f l newlist) ≤ length l + length newlist
  unfolding new_filtered_list
  length-filtered [] newlist = omega arith
  length-filtered (x ∷ l) newlist =
      ground (arith, length-filtered l (x ∷ newlist), length-filtered l newlist)

  pub kept :
      (m : Manifest) → All (λ x. Mem x m.files × (f x ≡ true)) (new_filtered_list f m.files [])
  kept m =
      filtered-All (λ x. Mem x m.files) (λ x. Mem x m.files × (f x ≡ true)) (λ x e i. (i, e))
        m.files [] (All-of_mem m.files (λ x i. i)) tt

  pub unmixed : (l : List File) → Pairs Other l → Pairs Other (new_filtered_list f l [])
  unmixed l h = filtered-Pairs l [] h tt (All-of_mem l (λ x i. tt))
