-- ===== src/Sorter/Unique.antt =====
-- A sorted list of strings is determined by its elements: sorting does not depend on the order in
-- which they come.
use mathlib.Core.List.{Mem, Perm, mem-cons_self}
use mathlib.Core.List.Perm
use mathlib.Core.Path.{subst}
use swupd_server.Prelude.{◌≡◌, ◌≢◌, ap, List, [], ◌∷◌, Ordering, arith, All, All-mem}
use swupd_server.Text.{Text, strcmp}
use swupd_server.Text.Order.{strcmp_refl, strcmp-flip, strcmp_le_trans, eq_of_strcmp}
use swupd_server.Sorter.{Sorter, IsOrder, Ordered}

pub strcmp-IsOrder : IsOrder strcmp
strcmp-IsOrder = record { flips = strcmp-flip; trans = strcmp_le_trans }

strcmp_antisymm : (a b : Text) → strcmp a b ≢ Ordering.gt → strcmp b a ≢ Ordering.gt → a ≡ b
strcmp_antisymm a b h k = eq_of_strcmp a b (ground (arith, strcmp-flip a b))

le_mem :
    (x y : Text) (l : List Text)
    → All (λ z. strcmp x z ≢ Ordering.gt) l
    → Mem y (x ∷ l)
    → strcmp x y ≢ Ordering.gt
le_mem x y l h m = All-mem (λ z. hlevel) (x ∷ l) (ground (arith, strcmp_refl x), h) y m

sorted_unique : (l r : List Text) → Ordered strcmp l → Ordered strcmp r → Perm l r → l ≡ r
sorted_unique [] r h k p = Perm.nil-eq p
sorted_unique (x ∷ l) [] h k p = Perm.eq-nil p
sorted_unique (x ∷ l) (y ∷ r) h k p =
    let same_head : x ≡ y =
      strcmp_antisymm x y (le_mem x y l h.0 ((Perm.mem_iff p).1 mem-cons_self))
        (le_mem y x r k.0 ((Perm.mem_iff p).0 mem-cons_self)) in
    let tails : Perm l r = Perm.cons_inv (subst (λ z. Perm (z ∷ l) (y ∷ r)) same_head p) in
    rw same_head (ap (◌∷◌ y) (sorted_unique l r h.1 k.1 tails))

-- Two lists with the same elements sort to the same list.
pub sort-perm : (s : Sorter Text) (l r : List Text) → Perm l r → s.sort strcmp l ≡ s.sort strcmp r
sort-perm s l r p =
    sorted_unique (s.sort strcmp l) (s.sort strcmp r) (s.sorted strcmp strcmp-IsOrder l)
      (s.sorted strcmp strcmp-IsOrder r)
      (Perm.trans (s.perm strcmp l) (Perm.trans p (Perm.symm (s.perm strcmp r))))
