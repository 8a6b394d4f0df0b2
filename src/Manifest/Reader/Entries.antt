-- ===== src/Manifest/Reader/Entries.antt =====
-- The entry of a file in a manifest, as src/manifest.c writes and reads it.
use swupd_server.Prelude.{ℕ, ◌≡◌, ◌<◌, refl, ap, ◌∙◌, some, false, ◌==◌, arith, ◌>>=◌}
use swupd_server.Text.{Text}
use swupd_server.Text.Decimal.{decimal, decimal-All}
use swupd_server.File.{File, hash_assign}
use swupd_server.Manifest.Flags.{
  cleared, read_flags, read_type, file_type_to_string, one_of_each, type_letter, status_back,
  modifier_back, rename_back, with_type, with_status, with_modifier, after_modifier, after_status,
  after_type,
}
use swupd_server.Manifest.Writer.{keyed, file_line}
use swupd_server.Manifest.Reader.{file_of_line}
use swupd_server.Manifest.Reader.Lines.{Lacks, split_tab-keyed, to_int-decimal}

abbrev pub cleared_at : ℕ → File
cleared_at addr = record cleared { addr = addr }

flags_back :
    (addr : ℕ) (f : File)
    → read_flags (file_type_to_string f) (cleared_at addr) ≡ some (one_of_each f (cleared_at addr))
unfolding read_flags file_type_to_string
flags_back addr f =
    let typed : File = record (with_type f) { addr = addr } in
    let known : File = record (with_status f) { addr = addr } in
    let marked : File = record (with_modifier f) { addr = addr } in
    let first : read_type (type_letter f) (cleared_at addr) ≡ some typed = ground arith in
    ap (λ o. o >>= after_type f) first
    ∙ ap (λ o. o >>= after_status f) (status_back f typed refl refl)
    ∙ ap (λ o. o >>= after_modifier f) (modifier_back f known refl refl refl)
    ∙ ap some (rename_back f marked refl)

-- What is kept of a file: its flags, hash, version and name.
abbrev pub kept : ℕ → File → File
kept addr f = record (one_of_each f (cleared_at addr)) {
  hash = hash_assign f.hash;
  last_change = f.last_change;
  filename = f.filename;
}

letters_Lack : (c : ℕ) (f : File) → c < 46 → Lacks c (file_type_to_string f)
unfolding file_type_to_string
letters_Lack c f h = (ground arith, (ground arith, (ground arith, (ground arith, tt))))

digits_Lack : (c n : ℕ) → c < 48 → Lacks c (decimal n)
digits_Lack c n h = decimal-All (λ d. (d == c) ≡ false) (λ d k. ground (arith, h)) n

-- A file that is written is read back as what is kept of it.
pub file_of_line-file_line :
    (addr : ℕ) (f : File)
    → Lacks b'\t' f.hash
    → f.last_change < 4294967296
    → file_of_line addr (file_line f) ≡ some (some (kept addr f))
unfolding file_of_line file_line
file_of_line-file_line addr f h k =
    let last : Text = keyed (decimal f.last_change) f.filename in
    let flags =
      split_tab-keyed (file_type_to_string f) (keyed f.hash last)
        (letters_Lack 9 f (omega arith)) in
    let hash = split_tab-keyed f.hash last h in
    let change =
      split_tab-keyed (decimal f.last_change) f.filename
        (digits_Lack 9 f.last_change (omega arith)) in
    rw (flags, flags_back addr f, hash, change, to_int-decimal f.last_change k) refl
