-- ===== src/Text/Order.antt =====
-- `strcmp` is a total order on strings.
use swupd_server.Prelude.{
  ◌≡◌, ◌≢◌, refl, [], ◌∷◌, Ordering, flip, arith, OrderingCase, Ordering-cases,
}
use swupd_server.Text.{Text, strcmp}

pub strcmp_refl : (a : Text) → strcmp a a ≡ Ordering.eq
unfolding strcmp
strcmp_refl [] = refl
strcmp_refl (x ∷ a) = ground (arith, strcmp_refl a)

pub eq_of_strcmp : (a b : Text) → strcmp a b ≡ Ordering.eq → a ≡ b
unfolding strcmp
eq_of_strcmp [] [] h = refl
eq_of_strcmp [] (y ∷ b) h = cc
eq_of_strcmp (x ∷ a) [] h = cc
eq_of_strcmp (x ∷ a) (y ∷ b) h = ground (arith, eq_of_strcmp a b)

pub strcmp-flip : (a b : Text) → strcmp b a ≡ flip (strcmp a b)
unfolding strcmp
strcmp-flip [] [] = refl
strcmp-flip [] (y ∷ b) = refl
strcmp-flip (x ∷ a) [] = refl
strcmp-flip (x ∷ a) (y ∷ b) = ground (arith, strcmp-flip a b)

pub strcmp_trans :
    (a b c : Text) → strcmp a b ≡ Ordering.lt → strcmp b c ≡ Ordering.lt → strcmp a c ≡ Ordering.lt
unfolding strcmp
strcmp_trans [] [] c h k = cc
strcmp_trans [] (y ∷ b) [] h k = cc
strcmp_trans [] (y ∷ b) (z ∷ c) h k = refl
strcmp_trans (x ∷ a) [] c h k = cc
strcmp_trans (x ∷ a) (y ∷ b) [] h k = cc
strcmp_trans (x ∷ a) (y ∷ b) (z ∷ c) h k = ground (arith, strcmp_trans a b c)

-- Two strings that a third tells apart: what is not greater goes on to what is not greater.
pub strcmp_le_trans :
    (a b c : Text) → strcmp a b ≢ Ordering.gt → strcmp b c ≢ Ordering.gt → strcmp a c ≢ Ordering.gt
strcmp_le_trans a b c h k = elim (Ordering-cases (strcmp a b)) [
  | OrderingCase.is_gt g ↦ absurd (h g)
  | OrderingCase.is_equal g ↦ rw (eq_of_strcmp a b g) k
  | OrderingCase.is_lt g ↦ elim (Ordering-cases (strcmp b c)) [
    | OrderingCase.is_gt g' ↦ absurd (k g')
    | OrderingCase.is_equal g' ↦ rw (← eq_of_strcmp b c g') h
    | OrderingCase.is_lt g' ↦ ground (arith, strcmp_trans a b c g g')
  ]
]

pub strcmp_gt : (a b : Text) → strcmp a b ≡ Ordering.lt → strcmp b a ≡ Ordering.gt
strcmp_gt a b h = rw (strcmp-flip a b, h) refl

pub strcmp_lt : (a b : Text) → strcmp a b ≡ Ordering.gt → strcmp b a ≡ Ordering.lt
strcmp_lt a b h = rw (strcmp-flip a b, h) refl

pub strcmp_eq : (a b : Text) → strcmp a b ≡ Ordering.eq → strcmp b a ≡ Ordering.eq
strcmp_eq a b h = rw (strcmp-flip a b, h) refl

pub strcmp_lt_le_trans :
    (a b c : Text) → strcmp a b ≡ Ordering.lt → strcmp b c ≢ Ordering.gt → strcmp a c ≡ Ordering.lt
strcmp_lt_le_trans a b c h k = elim (Ordering-cases (strcmp b c)) [
  | OrderingCase.is_gt g ↦ absurd (k g)
  | OrderingCase.is_equal g ↦ rw (← eq_of_strcmp b c g) h
  | OrderingCase.is_lt g ↦ strcmp_trans a b c h g
]
