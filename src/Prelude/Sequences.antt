-- ===== src/Prelude/Sequences.antt =====
-- "Every element" and "every earlier element with every later one", by recursion, and their ties to
-- the library's `Mem`, `Pairwise` and `Perm`.
use mathlib.Core.Logic.Or
use mathlib.Core.Path.{◌≡◌, ◌∙◌, subst, sym}
use mathlib.Core.List.{
  List, [], ◌∷◌, Mem, Perm, Permᴰ, Pairwise, mem-cons, not-mem-nil, mem-cons_self, mem-cons_of_mem,
}
use mathlib.Core.List.Perm
use mathlib.Core.Logic.{∥∥₁_elim}
use native.Mathlib.Nat.{ℕ_set}
use native.Mathlib.Omega.{arith}
use swupd_server.Prelude.Lists.{All, length}

module _ {ℓ κ} {A : Type ℓ} {P : A → Type κ} where
  pub All-of_mem : (l : List A) → ((x : A) → Mem x l → P x) → All P l
  All-of_mem [] h = tt
  All-of_mem (x ∷ l) h = (h x mem-cons_self, All-of_mem l (λ y m. h y (mem-cons_of_mem x m)))

  pub All-mem : ((x : A) → IsProp (P x)) → (l : List A) → All P l → (x : A) → Mem x l → P x
  All-mem prop [] h x m = absurd (not-mem-nil m)
  All-mem prop (y ∷ l) h x m =
      Or.elim (prop x) (mem-cons.0 m) (λ e. subst P (sym e) h.0) (All-mem prop l h.1 x)

  pub All-perm : ((x : A) → IsProp (P x)) → {l r : List A} → Perm l r → All P l → All P r
  All-perm prop {l} {r} p h = All-of_mem r (λ x m. All-mem prop l h x ((Perm.mem_iff p).1 m))

module _ {ℓ κ} {A : Type ℓ} where
  abbrev pub Pairs : (A → A → Type κ) → List A → Type κ
  Pairs R [] = Unit
  Pairs R (x ∷ l) = All (R x) l × Pairs R l

module _ {ℓ κ} {A : Type ℓ} {R : A → A → Type κ} (prop : (x y : A) → IsProp (R x y)) where
  Pairs→Pairwise : (l : List A) → Pairs R l → Pairwise R l
  Pairs→Pairwise [] h = Pairwise.nil
  Pairs→Pairwise (x ∷ l) h = Pairwise.cons (All-mem (prop x) l h.0) (Pairs→Pairwise l h.1)

  Pairwise→Pairs : {l : List A} → Pairwise R l → Pairs R l
  Pairwise→Pairs Pairwise.nil = tt
  Pairwise→Pairs (Pairwise.cons {l = l} below h) = (All-of_mem l below, Pairwise→Pairs h)

  pub Pairs-perm : ((x y : A) → R x y → R y x) → {l r : List A} → Perm l r → Pairs R l → Pairs R r
  Pairs-perm symm {l} p h = Pairwise→Pairs (Perm.pairwise prop symm p (Pairs→Pairwise l h))

module _ {ℓ κ} {A : Type ℓ} where
  pub All-zip :
      (P Q T : A → Type κ)
      → ((x : A) → P x → Q x → T x)
      → (l : List A) → All P l
      → All Q l
      → All T l
  All-zip P Q T f [] h k = tt
  All-zip P Q T f (x ∷ l) h k = (f x h.0 k.0, All-zip P Q T f l h.1 k.1)

  pub Pairs-zip :
      (R S T : A → A → Type κ)
      → ((x y : A) → R x y → S x y → T x y)
      → (l : List A) → Pairs R l
      → Pairs S l
      → Pairs T l
  Pairs-zip R S T f [] h k = tt
  Pairs-zip R S T f (x ∷ l) h k =
      (All-zip (R x) (S x) (T x) (f x) l h.0 k.0, Pairs-zip R S T f l h.1 k.1)

module _ {ℓ} {A : Type ℓ} where
  length-permᴰ : {l r : List A} → Permᴰ l r → length l ≡ length r
  length-permᴰ Permᴰ.nil = omega arith
  length-permᴰ (Permᴰ.cons e p) = omega (arith, length-permᴰ p)
  length-permᴰ (Permᴰ.swap e f) = omega arith
  length-permᴰ (Permᴰ.trans p q) = length-permᴰ p ∙ length-permᴰ q

  pub length-perm : {l r : List A} → Perm l r → length l ≡ length r
  length-perm p = ∥∥₁_elim p (ℕ_set _ _) length-permᴰ
