-- ===== src/Manifest/Reader/RoundTrip.antt =====
-- A manifest that write_manifest_plain writes and manifest_from_file reads (src/manifest.c).
use mathlib.Core.List.{append_assoc}
use swupd_server.Prelude.{
  ℕ, ◌≡◌, ◌<◌, refl, ap, ◌∙◌, List, [], ◌∷◌, ◌++◌, Option, none, some, false, ◌==◌, arith, length,
  ◌>>=◌, map,
}
use swupd_server.Text.{Text, codes, starts_with}
use swupd_server.Text.Decimal.{decimal}
use swupd_server.Manifest.{Manifest}
use swupd_server.Manifest.Writer.{keyed, status_lines, header_lines}
use swupd_server.Manifest.Reader.{Header, split_tab, to_int, read_header, header_line}
use swupd_server.Manifest.Reader.Lines.{to_int-decimal}

-- The lines of a list in front of others, in the opposite order.
abbrev pub onto : List Text → List Text → List Text
onto [] l = l
onto (x ∷ r) l = onto r (x ∷ l)

header_step :
    (c : ℕ) (s : Text) (lines : List Text) (h : Header)
    → read_header ((c ∷ s) ∷ lines) h
      ≡ (header_line (c ∷ s) (split_tab (c ∷ s)).1 h >>= λ h'. read_header lines h')
unfolding read_header
header_step c s lines h =
    let not_empty : (length (c ∷ s) == 0) ≡ false = ground arith in rw not_empty refl

read_includes :
    (l rest : List Text) (h : Header)
    → read_header (map (keyed (codes "includes:")) l ++ rest) h
      ≡ read_header rest (record h { includes = onto l h.includes })
unfolding split_tab starts_with
read_includes [] rest h = refl
read_includes (c ∷ l) rest h =
    header_step b'i' _ (map (keyed (codes "includes:")) l ++ rest) h
    ∙ read_includes l rest (record h { includes = c ∷ h.includes })

read_actions :
    (l rest : List Text) (h : Header)
    → read_header (map (keyed (codes "actions:")) l ++ rest) h ≡ read_header rest h
unfolding split_tab starts_with
read_actions [] rest h = refl
read_actions (c ∷ l) rest h =
    header_step b'a' _ (map (keyed (codes "actions:")) l ++ rest) h ∙ read_actions l rest h

read_status :
    (status : Option Text) (rest : List Text) (h : Header)
    → read_header (status_lines status ++ rest) h ≡ read_header rest h
unfolding split_tab starts_with
read_status none rest h = refl
read_status (some status) rest h = header_step b's' _ rest h

-- The lines that manifest_from_file passes over.
read_sizes :
    (count timestamp size : Text) (rest : List Text) (h : Header)
    → read_header
        (keyed (codes "filecount:") count
          ∷ keyed (codes "timestamp:") timestamp
          ∷ keyed (codes "contentsize:") size
          ∷ rest)
        h
      ≡ read_header rest h
unfolding split_tab starts_with
read_sizes count timestamp size rest h =
    header_step b'f' _ _ h ∙ header_step b't' _ _ h ∙ header_step b'c' _ rest h

read_versions :
    (version previous : Text) (rest : List Text) (h : Header)
    → read_header (keyed (codes "version:") version ∷ keyed (codes "previous:") previous ∷ rest) h
      ≡ read_header rest (record h { version = to_int version; previous = to_int previous })
unfolding split_tab starts_with
read_versions version previous rest h =
    header_step b'v' _ _ h ∙ header_step b'p' _ rest (record h { version = to_int version })

read_end : (rest : List Text) (h : Header) → read_header ([] ∷ rest) h ≡ some (h, rest)
unfolding read_header
read_end rest h = refl

-- The header is read back: the versions, and the includes in the opposite order.
pub header_back :
    (m : Manifest) (timestamp version : ℕ) (status : Option Text) (rest : List Text)
    → m.version < 4294967296
    → m.prevversion < 4294967296
    → read_header
        (header_lines m timestamp status ++ [] ∷ rest)
        (record { version = version; previous = 0; includes = [] })
      ≡ some (
        record { version = m.version; previous = m.prevversion; includes = onto m.includes [] },
        rest,
      )
header_back m timestamp version status rest h k =
    let start : Header = record { version = version; previous = 0; includes = [] } in
    let known : Header = record {
      version = to_int (decimal m.version);
      previous = to_int (decimal m.prevversion);
      includes = [];
    } in
    let listed : List Text = map (keyed (codes "includes:")) m.includes in
    let done : List Text = map (keyed (codes "actions:")) m.actions in
    read_versions (decimal m.version) (decimal m.prevversion) _ start
    ∙ read_sizes (decimal m.count) (decimal timestamp) (decimal m.contentsize) _ known
    ∙ ap (λ l. read_header l known)
        (append_assoc (status_lines status ++ listed) done ([] ∷ rest)
          ∙ append_assoc (status_lines status) listed (done ++ [] ∷ rest))
    ∙ read_status status (listed ++ (done ++ [] ∷ rest)) known
    ∙ read_includes m.includes (done ++ [] ∷ rest) known
    ∙ read_actions m.actions ([] ∷ rest) (record known { includes = onto m.includes [] })
    ∙ read_end rest (record known { includes = onto m.includes [] })
    ∙ rw (to_int-decimal m.version h, to_int-decimal m.prevversion k) refl
