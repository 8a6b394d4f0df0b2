-- ===== src/Manifest/Reader/Lines.antt =====
-- The lines and fields of a manifest file, as src/manifest.c writes and reads them.
use mathlib.Core.List.{append-nil}
use swupd_server.Prelude.{
  ℕ, ◌-◌, ◌≡◌, ◌<◌, refl, sym, ap, ◌∙◌, List, [], ◌∷◌, ◌++◌, some, false, ◌==◌, arith, length, All,
}
use swupd_server.Text.{Text}
use swupd_server.Text.Decimal.{decimal, strtoull, strtoull-decimal}
use swupd_server.Manifest.Writer.{keyed, text_of}
use swupd_server.Manifest.Reader.{split_tab, to_int}
use swupd_server.Analyze.Lines.{pieces, start_line}

-- A text without a character.
abbrev pub Lacks : ℕ → Text → Type 0
Lacks c = All (λ d. (d == c) ≡ false)

-- A line that fgets reads whole.
abbrev pub IsLine : Text → Type 0
IsLine line = Lacks b'\n' line × (length line < 8190)

piece_line :
    (room : ℕ) (line s : Text)
    → Lacks b'\n' line
    → length line < room
    → pieces room (line ++ b'\n' ∷ s) ≡ line ∷ pieces 8190 s
unfolding pieces
piece_line room [] s h k = refl
piece_line room (c ∷ line) s h k =
    let more : (room == 1) ≡ false = ground (arith, k) in
    let rest : pieces (room - 1) (line ++ b'\n' ∷ s) ≡ line ∷ pieces 8190 s =
      piece_line (room - 1) line s h.1 (omega (arith, k)) in
    rw (h.0, more) (ap (start_line c) rest)

-- The lines that are written are read back.
pub pieces-text_of : (lines : List Text) → All IsLine lines → pieces 8190 (text_of lines) ≡ lines
unfolding text_of pieces
pieces-text_of [] h = refl
pieces-text_of (line ∷ lines) h =
    piece_line 8190 line (text_of lines) h.0.0 h.0.1 ∙ ap (◌∷◌ line) (pieces-text_of lines h.1)

-- A field is read back up to its tab.
pub split_tab-keyed : (a b : Text) → Lacks b'\t' a → split_tab (keyed a b) ≡ (a, some b)
unfolding split_tab
split_tab-keyed [] b h = refl
split_tab-keyed (c ∷ a) b h = rw (h.0, split_tab-keyed a b h.1) refl

pub to_int-decimal : (n : ℕ) → n < 4294967296 → to_int (decimal n) ≡ n
to_int-decimal n h =
    let whole : strtoull (decimal n) ≡ n =
      ap strtoull (sym (append-nil (decimal n))) ∙ strtoull-decimal n [] (omega (arith, h)) refl in
    rw whole (omega (arith, h))
