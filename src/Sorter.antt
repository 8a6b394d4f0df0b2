-- ===== src/Sorter.antt =====
-- g_list_sort of GLib, which is not part of the program: a parameter with the documented laws. It
-- returns the same elements, ordered by the compare function where that is an order.
-- `Sorter.Insertion` is a concrete function that has these laws.
pub mod Insertion
pub mod Unique
use swupd_server.Prelude.{◌≡◌, ◌≢◌, List, Ordering, flip, Pairs}
use mathlib.Core.List.{Perm}

-- What a compare function must satisfy for a sort to mean anything.
pub record IsOrder {A : Type 0} (cmp : A → A → Ordering) : Type 0 where
  pub flips : (a b : A) → cmp b a ≡ flip (cmp a b)
  pub trans : (a b c : A) → cmp a b ≢ Ordering.gt → cmp b c ≢ Ordering.gt → cmp a c ≢ Ordering.gt

-- No earlier element compares greater than a later one.
abbrev pub Ordered : {A : Type 0} → (A → A → Ordering) → List A → Type 0
Ordered cmp = Pairs (λ a b. cmp a b ≢ Ordering.gt)

pub record Sorter (A : Type 0) : Type 0 where
  pub sort : (A → A → Ordering) → List A → List A
  pub perm : (cmp : A → A → Ordering) (l : List A) → Perm (sort cmp l) l
  pub sorted : (cmp : A → A → Ordering) → IsOrder cmp → (l : List A) → Ordered cmp (sort cmp l)
