-- ===== src/Manifest/Consolidate/Live.antt =====
-- Which files that are there consolidate_submanifests of src/manifest.c leaves.
use mathlib.Core.List.{Mem, Perm, mem-cons_self, mem-cons_of_mem}
use mathlib.Core.List.Perm
use swupd_server.Prelude.{
  ◌≡◌, ◌∙◌, List, [], ◌∷◌, Option, none, some, Bool, true, false, not, ◌&&◌, ◌||◌, arith,
  Bool-cases, inl, inr, All, Pairs, Pairs-perm, All-mem, refl, sym,
}
use swupd_server.Text.{Text, same}
use swupd_server.Text.Order.{strcmp-flip, eq_of_strcmp}
use swupd_server.File.{File, file_sort_filename, hash_compare}
use swupd_server.File.Order.{hash_compare_comm}
use swupd_server.Sorter.{Sorter}
use swupd_server.Manifest.{Manifest}
use swupd_server.Manifest.Consolidate.{
  Choice, choose, consolidate_walk, concat_files, consolidate_submanifests, pointed, kept,
  walk-same, walk-differ,
}

-- Two files of one name that are both there, with different hashes.
abbrev pub conflict : File → File → Bool
conflict f g =
    same f.filename g.filename
    && not f.is_deleted
    && not g.is_deleted
    && not (hash_compare f.hash g.hash)

abbrev pub Agreeing : List File → Type 0
Agreeing = Pairs (λ f g. conflict f g ≡ false)

-- Whether a list has a file of this name that is there.
abbrev pub has_live : Text → List File → Bool
has_live n [] = false
has_live n (f ∷ l) = (same n f.filename && not f.is_deleted) || has_live n l

same_flip : (a b : Text) → same a b ≡ same b a
same_flip a b = ground (arith, strcmp-flip a b)

conflict-flip : (f g : File) → conflict f g ≡ false → conflict g f ≡ false
conflict-flip f g h =
    ground (arith, same_flip f.filename g.filename, hash_compare_comm f.hash g.hash)

kept-Agreeing :
    (f g : File) (c : Choice) (l : List File)
    → Agreeing (f ∷ g ∷ l)
    → Agreeing (pointed (kept f g c) l)
kept-Agreeing f g Choice.first l h = (h.0.1, h.1.1)
kept-Agreeing f g Choice.second l h = h.1
kept-Agreeing f g Choice.neither l h = h.1.1

same_left : (n a b : Text) → same a b ≡ true → same n a ≡ same n b
same_left n a b h = rw (eq_of_strcmp a b (ground arith)) refl

kept-live :
    (n : Text) (f g : File) (l : List File)
    → same f.filename g.filename ≡ true
    → conflict f g ≡ false
    → has_live n (f ∷ g ∷ l) ≡ has_live n (pointed (kept f g (choose f g)) l)
unfolding choose
kept-live n f g l h k = ground (arith, same_left n f.filename g.filename h)

walk-live :
    (n : Text) (o : Option File) (l : List File)
    → Agreeing (pointed o l)
    → has_live n (consolidate_walk o l) ≡ has_live n (pointed o l)
unfolding consolidate_walk
walk-live n none [] h = refl
walk-live n none (f ∷ l) h = walk-live n (some f) l h
walk-live n (some f) [] h = refl
walk-live n (some f) (g ∷ l) h = elim (Bool-cases (same f.filename g.filename)) [
  | inl e ↦ rw (walk-same f g l e) (
      walk-live n (kept f g (choose f g)) l (kept-Agreeing f g (choose f g) l h)
      ∙ sym (kept-live n f g l e h.0.0))
  | inr e ↦ rw (walk-differ f g l e, walk-live n (some g) l h.1) refl
]

-- A file of a list that is there is found by its name.
live-mem :
    (n : Text) (l : List File)
    → ((f : File) → Mem f l → (same n f.filename && not f.is_deleted) ≡ false)
    → has_live n l ≡ false
live-mem n [] h = refl
live-mem n (f ∷ l) h = rw (h f mem-cons_self, live-mem n l (λ g k. h g (mem-cons_of_mem f k))) refl

mem-live :
    (n : Text) (l : List File)
    → has_live n l ≡ false
    → All (λ f. (same n f.filename && not f.is_deleted) ≡ false) l
mem-live n [] h = tt
mem-live n (f ∷ l) h = (ground arith, mem-live n l (ground arith))

live-perm : (n : Text) (l r : List File) → Perm l r → has_live n l ≡ false → has_live n r ≡ false
live-perm n l r p h =
    live-mem n r (λ f k. All-mem (λ x. hlevel) l (mem-live n l h) f ((Perm.mem_iff p).1 k))

-- Where no two files of one name are there with different hashes, the consolidated list has a file
-- that is there for just the filenames for which the manifest and its submanifests have one.
pub consolidate_submanifests-live :
    (s : Sorter File) (subs : List (Option Manifest)) (m : Manifest)
    → Agreeing (concat_files subs m.files)
    → (name : Text)
    → has_live name (consolidate_submanifests s subs m).files
      ≡ has_live name (concat_files subs m.files)
unfolding consolidate_submanifests
consolidate_submanifests-live s subs m h name =
    let input : List File = concat_files subs m.files in
    let files : List File = s.sort file_sort_filename input in
    let p : Perm files input = s.perm file_sort_filename input in
    let there : has_live name files ≡ has_live name input =
      elim (Bool-cases (has_live name files)) [
        | inl a ↦ elim (Bool-cases (has_live name input)) [
          | inl b ↦ a ∙ sym b
          | inr b ↦ live-perm name input files (Perm.symm p) b ∙ sym b
        ]
        | inr a ↦ a ∙ sym (live-perm name files input p a)
      ] in
    walk-live name none files (Pairs-perm (λ f g. hlevel) conflict-flip (Perm.symm p) h) ∙ there
