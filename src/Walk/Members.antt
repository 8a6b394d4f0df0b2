-- ===== src/Walk/Members.antt =====
-- `find` and `join` by membership, so that what a walk computes can be said of lists that are not
-- sorted.
use mathlib.Core.Logic.Or
use mathlib.Core.List.{Mem, Mem-prop, Perm, mem-cons, not-mem-nil, mem-cons_self, mem-cons_of_mem}
use mathlib.Core.List.Perm
use mathlib.Core.HLevel.{×_prop}
use mathlib.Core.Path.{subst}
use swupd_server.Prelude.{
  ◌≡◌, ◌≢◌, sym, ap, ◌∙◌, List, [], ◌∷◌, Option, none, some, true, Ordering, flip, arith, ◌⊎◌,
  Option-cases, Bool-cases, inl, inr, All-mem, All, Pairs, Pairs-perm,
}
use swupd_server.Text.{Text, strcmp, same}
use swupd_server.Text.Order.{strcmp_refl, strcmp-flip, eq_of_strcmp}
use swupd_server.File.{File, Distinct}
use swupd_server.Walk.{find, join, cons?, find_skip, find_head}

File-set : IsSet File
File-set = hlevel

found-set : IsSet (Option File)
found-set = hlevel File-set

same→eq : (a b : Text) → same a b ≡ true → strcmp a b ≡ Ordering.eq
same→eq a b h = ground arith

find_inv :
    (n : Text) (g : File) (l : List File) (f : File)
    → find n (g ∷ l) ≡ some f
    → ((same n g.filename ≡ true) × (f ≡ g)) ⊎ (find n l ≡ some f)
unfolding find
find_inv n g l f h = elim (Bool-cases (same n g.filename)) [
  | inl e ↦ inl (e, ground arith)
  | inr e ↦ inr (rw e at h)
]

pub find_name : (n : Text) (l : List File) (f : File) → find n l ≡ some f → n ≡ f.filename
unfolding find
find_name n [] f h = cc
find_name n (g ∷ l) f h = elim (find_inv n g l f h) [
  | inl (e, p) ↦ rw p (eq_of_strcmp n g.filename (same→eq n g.filename e))
  | inr k ↦ find_name n l f k
]

pub find_mem : (n : Text) (l : List File) (f : File) → find n l ≡ some f → Mem f l
unfolding find
find_mem n [] f h = cc
find_mem n (g ∷ l) f h = elim (find_inv n g l f h) [
  | inl (e, p) ↦ rw p mem-cons_self
  | inr k ↦ mem-cons_of_mem g (find_mem n l f k)
]

find_further :
    (g : File) (l : List File) (f : File)
    → Distinct (g ∷ l)
    → Mem f l
    → find f.filename (g ∷ l) ≡ find f.filename l
find_further g l f d k =
    let other : strcmp g.filename f.filename ≢ Ordering.eq = All-mem (λ x. hlevel) l d.0 f k in
    find_skip f.filename g l (λ e. other (rw strcmp-flip (ap flip e)))

pub find_of_mem : (l : List File) (f : File) → Distinct l → Mem f l → find f.filename l ≡ some f
find_of_mem [] f d m = absurd (not-mem-nil m)
find_of_mem (g ∷ l) f d m =
    Or.elim (found-set _ _) (mem-cons.0 m)
      (λ e. rw e (find_head g.filename g l (strcmp_refl g.filename)))
      (λ k. find_further g l f d k ∙ find_of_mem l f d.1 k)

-- Where no name occurs twice, what is found under a name does not depend on the order.
pub find-perm : (n : Text) {l r : List File} → Perm l r → Distinct l → find n l ≡ find n r
find-perm n {l} {r} p d = elim (Option-cases (find n l)) [
  | inl missing ↦ elim (Option-cases (find n r)) [
    | inl missing' ↦ missing ∙ sym missing'
    | inr (g, h) ↦ absurd (not_found g missing h)
  ]
  | inr (f, h) ↦
      h
      ∙ sym (
          rw (find_name n l f h) (find_of_mem r f distinct ((Perm.mem_iff p).0 (find_mem n l f h))))
]
  where
    distinct : Distinct r
    distinct = Pairs-perm (λ a b. hlevel) (λ a b ne e. ne (rw strcmp-flip (ap flip e))) p d

    not_found : (g : File) → find n l ≡ none → find n r ≡ some g → ⊥
    not_found g missing h =
        let there : find g.filename l ≡ some g =
          find_of_mem l g d ((Perm.mem_iff p).1 (find_mem n r g h)) in
        cc (missing, there, ap (λ (t : Text). find t l) (find_name n r g h))

mem-cons?_of_mem : {f : File} {l : List File} (o : Option File) → Mem f l → Mem f (cons? o l)
mem-cons?_of_mem none m = m
mem-cons?_of_mem (some x) m = mem-cons_of_mem x m

mem-cons?_self : {f : File} (l : List File) (o : Option File) → o ≡ some f → Mem f (cons? o l)
mem-cons?_self l none h = cc
mem-cons?_self {f} l (some x) h = subst (λ o. Mem f (cons? o l)) (sym h) mem-cons_self

-- A walk that keeps files as they are or drops them.
abbrev pub Selects : (File → Option File → Option File) → Type 0
Selects g = (f : File) (o : Option File) → (g f o ≡ none) ⊎ (g f o ≡ some f)

module _ (g : File → Option File → Option File) (selects : Selects g) (r : List File) where
  pub join-mem :
      (l : List File) (f : File) → Mem f (join g l r) → Mem f l × (g f (find f.filename r) ≡ some f)
  unfolding join
  join-mem [] f m = absurd (not-mem-nil m)
  join-mem (x ∷ l) f m = elim (selects x (find x.filename r)) [
    | inl e ↦
        let (k, p) = join-mem l f (subst (λ o. Mem f (cons? o (join g l r))) e m) in
        (mem-cons_of_mem x k, p)
    | inr e ↦
        Or.elim (×_prop Mem-prop (found-set _ _))
          (mem-cons.0 (subst (λ o. Mem f (cons? o (join g l r))) e m))
          (λ p. (rw p mem-cons_self, rw p e))
          (λ k. let (k', p) = join-mem l f k in (mem-cons_of_mem x k', p))
  ]

  pub mem-join :
      (l : List File) (f : File) → Mem f l → g f (find f.filename r) ≡ some f → Mem f (join g l r)
  unfolding join
  mem-join [] f m k = absurd (not-mem-nil m)
  mem-join (x ∷ l) f m k =
      Or.elim Mem-prop (mem-cons.0 m)
        (λ p.
          mem-cons?_self (join g l r) (g x (find x.filename r))
            (subst (λ y. g y (find y.filename r) ≡ some f) p k))
        (λ q. mem-cons?_of_mem (g x (find x.filename r)) (mem-join l f q k))

  join-All {κ} : (P : File → Type κ) (l : List File) → All P l → All P (join g l r)
  unfolding join
  join-All P [] h = tt
  join-All P (x ∷ l) h = elim (selects x (find x.filename r)) [
    | inl e ↦ rw e (join-All P l h.1)
    | inr e ↦ rw e (h.0, join-All P l h.1)
  ]

  pub join-Pairs {κ} : (R : File → File → Type κ) (l : List File) → Pairs R l → Pairs R (join g l r)
  unfolding join
  join-Pairs R [] h = tt
  join-Pairs R (x ∷ l) h = elim (selects x (find x.filename r)) [
    | inl e ↦ rw e (join-Pairs R l h.1)
    | inr e ↦ rw e (join-All (R x) l h.0, join-Pairs R l h.1)
  ]
