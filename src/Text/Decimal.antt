-- ===== src/Text/Decimal.antt =====
-- Decimal numbers in text: what printf writes for %i, and what strtoull of <stdlib.h> reads.
use swupd_server.Prelude.{
  ℕ, zero, suc, ◌+◌, ◌-◌, ◌*◌, ◌/◌, ◌%◌, ◌≤◌, ◌<◌, ◌≡◌, refl, ap, ◌∙◌, [], ◌∷◌, ◌++◌, Bool, true,
  false, ◌||◌, ◌&&◌, ◌==◌, leb, ltb, arith, if◌then◌else◌, Bool-cases, inl, inr, All,
}
use swupd_server.Text.{Text}

-- The digits of a number in front of `out`; `rounds` bounds the number of digits.
unfoldable pub digits : ℕ → ℕ → Text → Text
digits zero n out = out
digits (suc rounds) n out = elim (ltb n 10) [
  | true ↦ (b'0' + n) ∷ out
  | false ↦ digits rounds (n / 10) ((b'0' + n % 10) ∷ out)
]

-- printf("%i", n), for an n that is not negative: a number has fewer digits than its successor is.
unfoldable pub decimal : ℕ → Text
decimal n = digits (suc n) n []

abbrev pub is_digit : ℕ → Bool
is_digit c = leb b'0' c && leb c b'9'

-- The value of the digits at the start of a text, behind those of value `n`.
unfoldable pub read_digits : ℕ → Text → ℕ
read_digits n [] = n
read_digits n (c ∷ s) = if is_digit c then read_digits (n * 10 + (c - b'0')) s else n

abbrev pub is_space : ℕ → Bool
is_space c = c == 32 || (leb 9 c && leb c 13)

unfoldable pub skip_space : Text → Text
skip_space [] = []
skip_space (c ∷ s) = if is_space c then skip_space s else c ∷ s

-- ULLONG_MAX, also what strtoull gives for a number that is too large.
abbrev pub ullong_max : ℕ
ullong_max = 18446744073709551615

abbrev pub clamp_ullong : ℕ → ℕ
clamp_ullong n = if ltb ullong_max n then ullong_max else n

abbrev pub read_signed : Text → ℕ
read_signed [] = 0
read_signed (c ∷ s) =
    if c == b'-'
    then (ullong_max + 1 - clamp_ullong (read_digits 0 s)) % (ullong_max + 1)
    else if c == b'+'
    then clamp_ullong (read_digits 0 s)
    else clamp_ullong (read_digits 0 (c ∷ s))

-- strtoull(s, NULL, 10)
unfoldable pub strtoull : Text → ℕ
strtoull s = read_signed (skip_space s)

-- Reading the digits of a number, and then what stands behind them.
last_digit : (n : ℕ) (out : Text) → read_digits (n / 10) ((b'0' + n % 10) ∷ out) ≡ read_digits n out
unfolding read_digits
last_digit n out =
    let digit : is_digit (b'0' + n % 10) ≡ true = ground arith in
    let whole : n / 10 * 10 + (b'0' + n % 10 - b'0') ≡ n = omega arith in rw (digit, whole) refl

read_digits-digits :
    (rounds n : ℕ) (out : Text)
    → n < rounds
    → read_digits 0 (digits rounds n out) ≡ read_digits n out
unfolding digits read_digits
read_digits-digits zero n out h = absurd (omega arith)
read_digits-digits (suc rounds) n out h = elim (Bool-cases (ltb n 10)) [
  | inl e ↦ ground (arith, e)
  | inr e ↦
      rw (e, digits)
        (read_digits-digits rounds (n / 10) ((b'0' + n % 10) ∷ out) (ground arith)
          ∙ last_digit n out)
]

digits-append :
    (rounds n : ℕ) (out rest : Text) → digits rounds n out ++ rest ≡ digits rounds n (out ++ rest)
unfolding digits
digits-append zero n out rest = refl
digits-append (suc rounds) n out rest = elim (Bool-cases (ltb n 10)) [
  | inl e ↦ rw (e, digits) refl
  | inr e ↦ rw (e, digits) (digits-append rounds (n / 10) ((b'0' + n % 10) ∷ out) rest)
]

-- Whether a text starts with a digit.
abbrev pub starts_digit : Text → Bool
starts_digit [] = false
starts_digit (c ∷ s) = is_digit c

read_stop : (n : ℕ) (rest : Text) → starts_digit rest ≡ false → read_digits n rest ≡ n
unfolding read_digits
read_stop n [] h = refl
read_stop n (c ∷ s) h = rw h refl

digits-starts : (rounds n : ℕ) (out : Text) → n < rounds → starts_digit (digits rounds n out) ≡ true
unfolding digits
digits-starts zero n out h = absurd (omega arith)
digits-starts (suc rounds) n out h = elim (Bool-cases (ltb n 10)) [
  | inl e ↦ rw (e, digits) (ground arith)
  | inr e ↦ rw (e, digits) (digits-starts rounds (n / 10) ((b'0' + n % 10) ∷ out) (ground arith))
]

strtoull-digit : (s : Text) → starts_digit s ≡ true → strtoull s ≡ clamp_ullong (read_digits 0 s)
unfolding strtoull skip_space
strtoull-digit [] h = absurd (ground arith)
strtoull-digit (c ∷ s) h =
    let not_space : is_space c ≡ false = ground arith in
    let not_minus : (c == b'-') ≡ false = ground arith in
    let not_plus : (c == b'+') ≡ false = ground arith in rw (not_space, not_minus, not_plus) refl

-- A number that fits is read back from its decimal digits, whatever stands behind them but a digit.
pub strtoull-decimal :
    (n : ℕ) (rest : Text)
    → n ≤ ullong_max
    → starts_digit rest ≡ false
    → strtoull (decimal n ++ rest) ≡ n
unfolding decimal
strtoull-decimal n rest h k =
    ap strtoull (digits-append (suc n) n [] rest)
    ∙ strtoull-digit (digits (suc n) n rest) (digits-starts (suc n) n rest (omega arith))
    ∙ ap clamp_ullong (read_digits-digits (suc n) n rest (omega arith) ∙ read_stop n rest k)
    ∙ ground (arith, h)

digits-All :
    (P : ℕ → Type 0)
    → ((d : ℕ) → d < 10 → P (b'0' + d))
    → (rounds n : ℕ) (out : Text) → All P out
    → All P (digits rounds n out)
unfolding digits
digits-All P p zero n out h = h
digits-All P p (suc rounds) n out h = elim (Bool-cases (ltb n 10)) [
  | inl e ↦ rw (e, digits) (p n (ground arith), h)
  | inr e ↦
      rw (e, digits)
        (digits-All P p rounds (n / 10) ((b'0' + n % 10) ∷ out) (p (n % 10) (omega arith), h))
]

-- Every character of a decimal number is a digit.
pub decimal-All : (P : ℕ → Type 0) → ((d : ℕ) → d < 10 → P (b'0' + d)) → (n : ℕ) → All P (decimal n)
unfolding decimal
decimal-All P p n = digits-All P p (suc n) n [] tt
