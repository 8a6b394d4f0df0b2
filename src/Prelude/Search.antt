-- ===== src/Prelude/Search.antt =====
-- Whether a list has an element that passes a test.
use mathlib.Core.List.{List, [], ◌∷◌, Mem, Perm, mem-cons_self, mem-cons_of_mem}
use mathlib.Core.List.Perm
use mathlib.Core.Bool.{Bool, false, ◌||◌}
use mathlib.Core.Path.{◌≡◌, ◌∙◌, refl, sym}
use mathlib.Core.Logic.{inl, inr}
use native.Mathlib.Omega.{arith}
use swupd_server.Prelude.Lists.{All}
use swupd_server.Prelude.Tests.{Bool-cases}
use swupd_server.Prelude.Sequences.{All-mem}

module _ {ℓ} {A : Type ℓ} (p : A → Bool) where
  abbrev pub any : List A → Bool
  any [] = false
  any (x ∷ l) = p x || any l

  any-false : (l : List A) → ((x : A) → Mem x l → p x ≡ false) → any l ≡ false
  any-false [] h = refl
  any-false (x ∷ l) h = rw (h x mem-cons_self, any-false l (λ y k. h y (mem-cons_of_mem x k))) refl

  false-All : (l : List A) → any l ≡ false → All (λ x. p x ≡ false) l
  false-All [] h = tt
  false-All (x ∷ l) h = (ground arith, false-All l (ground arith))

  any-perm_false : {l r : List A} → Perm l r → any l ≡ false → any r ≡ false
  any-perm_false {l} {r} q h =
      any-false r (λ x k. All-mem (λ y. hlevel) l (false-All l h) x ((Perm.mem_iff q).1 k))

  -- The order does not matter.
  pub any-perm : {l r : List A} → Perm l r → any l ≡ any r
  any-perm {l} {r} q = elim (Bool-cases (any l)) [
    | inr a ↦ a ∙ sym (any-perm_false q a)
    | inl a ↦ elim (Bool-cases (any r)) [
      | inl b ↦ a ∙ sym b
      | inr b ↦ any-perm_false (Perm.symm q) b ∙ sym b
    ]
  ]
