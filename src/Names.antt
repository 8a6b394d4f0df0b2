-- ===== src/Names.antt =====
-- illegal_characters of src/analyze_fs.c: which file names cannot go into a manifest.
use swupd_server.Prelude.{
  ℕ, ◌≡◌, ◌≢◌, ◌↔◌, refl, [], ◌∷◌, ◌++◌, Bool, true, false, ◌||◌, ◌==◌, arith, if◌then◌else◌, All,
  any,
}
use swupd_server.Text.{Text, codes, starts_with}

-- strchr(s, c) != NULL, for a `c` that is not NUL.
abbrev pub strchr : Text → ℕ → Bool
strchr s c = any (λ x. x == c) s

-- strstr(s, needle) != NULL, for a needle that is not empty.
unfoldable pub strstr : Text → Text → Bool
strstr [] needle = false
strstr (c ∷ s) needle = starts_with (c ∷ s) needle || strstr s needle

-- The last three are the backslash and the quotes.
abbrev pub bad_chars : Text
bad_chars = codes ";&|*`/<>" ++ (92 ∷ 34 ∷ 39 ∷ [])

-- The loop over the bad characters.
unfoldable pub has_bad : Text → Text → Bool
has_bad [] filename = false
has_bad (c ∷ bad) filename = if strchr filename c then true else has_bad bad filename

unfoldable pub illegal_characters : Text → Bool
illegal_characters filename =
    if starts_with filename (codes "+")
    then true
    else if strstr filename (codes "+package+")
    then true
    else has_bad bad_chars filename

strchr-false : (s : Text) (c : ℕ) → (strchr s c ≡ false) ↔ All (λ x. x ≢ c) s
strchr-false [] c = (λ h. tt, λ h. refl)
strchr-false (x ∷ s) c = ground (arith, strchr-false s c)

has_bad-false : (bad s : Text) → (has_bad bad s ≡ false) ↔ All (λ c. All (λ x. x ≢ c) s) bad
unfolding has_bad
has_bad-false [] s = (λ h. tt, λ h. refl)
has_bad-false (c ∷ bad) s = ground (arith, strchr-false s c, has_bad-false bad s)

none_true :
    (a b c : Bool)
    → ((if a then true else if b then true else c) ≡ false)
      ↔ ((a ≡ false) × (b ≡ false) × (c ≡ false))
none_true a b c = ground arith

-- A name is legal exactly when it does not start with a plus, "+package+" does not occur in it, and
-- none of the bad characters does.
pub illegal_characters_iff :
    (filename : Text)
    → (illegal_characters filename ≡ false) ↔ (
        (starts_with filename (codes "+") ≡ false)
        × (strstr filename (codes "+package+") ≡ false)
        × All (λ c. All (λ x. x ≢ c) filename) bad_chars)
unfolding illegal_characters
illegal_characters_iff filename =
    let tests =
      none_true (starts_with filename (codes "+")) (strstr filename (codes "+package+"))
        (has_bad bad_chars filename) in
    let bad = has_bad-false bad_chars filename in
    (λ h. let (a, b, c) = tests.0 h in (a, b, bad.0 c), λ (a, b, c). tests.1 (a, b, bad.1 c))
