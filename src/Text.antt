-- ===== src/Text.antt =====
-- C strings as lists of unsigned bytes without the final NUL, and the functions of <string.h> that
-- the program calls on them.
pub mod Order
pub mod Decimal
use swupd_server.Prelude.{
  ℕ, zero, suc, Bool, true, false, ◌&&◌, List, [], ◌∷◌, compare, Ordering, ◌==◌, take, is_eq,
}
use Prim.Native.Char.{code}
use Prim.Native.String.{String}

abbrev pub Text : Type 0
Text = List ℕ

-- The bytes of an ASCII literal.
abbrev pub codes : String → Text
codes String.[] = []
codes (String.◌∷◌ c s) = code c ∷ codes s

-- The order of the first difference decides, `o` for the first bytes.
abbrev pub then_by : Ordering → Ordering → Ordering
then_by Ordering.lt o = Ordering.lt
then_by Ordering.eq o = o
then_by Ordering.gt o = Ordering.gt

-- The sign of strcmp(a, b).
unfoldable pub strcmp : Text → Text → Ordering
strcmp [] [] = Ordering.eq
strcmp [] (y ∷ b) = Ordering.lt
strcmp (x ∷ a) [] = Ordering.gt
strcmp (x ∷ a) (y ∷ b) = then_by (compare x y) (strcmp a b)

-- strcmp(a, b) == 0
abbrev pub same : Text → Text → Bool
same a b = is_eq (strcmp a b)

-- strncmp(a, p, strlen(p)) == 0
unfoldable pub starts_with : Text → Text → Bool
starts_with a [] = true
starts_with [] (y ∷ p) = false
starts_with (x ∷ a) (y ∷ p) = x == y && starts_with a p
