-- ===== src/Analyze/Directory/Keeps.antt =====
-- The walk of iterate_directory (src/analyze_fs.c) keeps what each added file keeps.
use mathlib.Core.List.{Mem, mem-cons_self, mem-cons_of_mem}
use swupd_server.Prelude.{
  ℕ, zero, suc, ◌≡◌, refl, sym, ap, ◌∙◌, List, [], ◌∷◌, ◌++◌, Option, none, some, Bool, true, false,
  ◌==◌, arith, length, Bool-cases, inl, inr,
}
use swupd_server.Text.{Text, codes}
use swupd_server.File.{File}
use swupd_server.Config.{Config}
use swupd_server.Analyze.{FileSystem, Opened, Listing}
use swupd_server.Analyze.Directory.{
  Outcome, after, Walked, push_file, dir_part, base_part, found_file, is_banned, add_file,
  line_walk, content_walk, below, entry_walk, listing_walk, iterate_directory,
}
use swupd_server.Analyze.Lines.{lines_of}
use swupd_server.Analyze.Directory.Added.{added_cases, found_name, found_dir, done-injective}
use swupd_server.Analyze.Directory.Below.{after-done, is_hidden, in_dir, Lists, Below}

-- What one added file keeps: `P` says which names are expected.
module _ (cfg : Config) (fs : FileSystem) (alloc : ℕ) (pathprefix : Text) (do_hash : Bool)
    (P : Text → Type 0) (I : Walked → Type 0)
    (push : (sub full : Text) (s : Walked)
      → P sub
      → (found_file cfg fs alloc sub full s).is_deleted ≡ false
      → I s
      → I (push_file (found_file cfg fs alloc sub full s) do_hash s)) where
  add_keeps :
      (entry_name sub full : Text) (s : Walked) (r : Option File × Walked)
      → (is_banned cfg fs alloc entry_name sub ≡ false → P sub)
      → add_file cfg fs alloc entry_name sub full do_hash s ≡ Outcome.done r
      → I s
      → I r.1
  add_keeps entry_name sub full s r p h i =
      elim (added_cases cfg fs alloc entry_name sub full do_hash s r h) [
        | inl (b, e) ↦ rw e i
        | inr (b, d, e) ↦ rw e (push sub full s (p b) d i)
      ]

  pub lines_keep :
      (full : Text) (lines : List Text) (s out : Walked)
      → ((x : Text) → Mem x lines → is_banned cfg fs alloc (base_part x) x ≡ false → P x)
      → line_walk cfg fs alloc full do_hash lines s ≡ Outcome.done out
      → I s
      → I out
  unfolding line_walk
  lines_keep full [] s out p h i = rw (← done-injective s out h) i
  lines_keep full (line ∷ lines) s out p h i =
      let (r, e, h') =
        after-done (add_file cfg fs alloc (base_part line) line (full ++ line) do_hash s)
          (λ r. line_walk cfg fs alloc full do_hash lines r.1) out h in
      lines_keep full lines r.1 out (λ x m. p x (mem-cons_of_mem line m)) h'
        (add_keeps (base_part line) line (full ++ line) s r (p line mem-cons_self) e i)

  -- A call for a directory below keeps the invariant, if the names below it are expected.
  abbrev pub Keeps : (Text → Walked → Outcome Walked) → Type 0
  Keeps descend =
      (sub : Text) (s out : Walked)
      → ((x : Text) → Below cfg fs alloc pathprefix sub x → P x)
      → descend sub s ≡ Outcome.done out
      → I s
      → I out

  -- Where one entry is looked up.
  abbrev pub full_name : Text → Text → Text
  full_name sub name = (pathprefix ++ codes "/" ++ sub) ++ codes "/" ++ name

  sub_keeps :
      (descend : Text → Walked → Outcome Walked)
      → Keeps descend
      → (sub name : Text) (s s' out : Walked) → Lists cfg fs alloc pathprefix sub name
      → ((x : Text) → Below cfg fs alloc pathprefix sub x → P x)
      → below cfg fs alloc descend
          (some (
            found_file cfg fs alloc
              (in_dir cfg fs alloc pathprefix sub name)
              (full_name sub name)
              s))
          s'
        ≡ Outcome.done out
      → I s'
      → I out
  sub_keeps descend k sub name s s' out l p g i =
      let path : Text = in_dir cfg fs alloc pathprefix sub name in
      let file : File = found_file cfg fs alloc path (full_name sub name) s in
      let same_dir = found_dir cfg fs alloc path (full_name sub name) s in
      let same_name = found_name cfg fs alloc path (full_name sub name) s in
      elim (Bool-cases file.is_dir) [
        | inl e ↦
            let goes : descend file.filename s' ≡ Outcome.done out = sym (rw e refl) ∙ g in
            let expected : (x : Text) → Below cfg fs alloc pathprefix path x → P x =
              λ x b. p x (Below.deeper sub name x l (sym same_dir ∙ e) b) in
            k path s' out expected (ap (λ n. descend n s') (sym same_name) ∙ goes) i
        | inr e ↦
            let stays : Outcome.done s' ≡ Outcome.done out = sym (rw e refl) ∙ g in
            rw (← done-injective s' out stays) i
      ]

  pub below_keeps :
      (descend : Text → Walked → Outcome Walked)
      → Keeps descend
      → (sub name : Text) (s out : Walked) (r : Option File × Walked)
      → (is_banned cfg fs alloc name (in_dir cfg fs alloc pathprefix sub name) ≡ false
          → Lists cfg fs alloc pathprefix sub name)
      → ((x : Text) → Below cfg fs alloc pathprefix sub x → P x)
      → add_file cfg fs alloc name
          (in_dir cfg fs alloc pathprefix sub name)
          (full_name sub name)
          do_hash
          s
        ≡ Outcome.done r
      → below cfg fs alloc descend r.0 r.1 ≡ Outcome.done out
      → I r.1
      → I out
  below_keeps descend k sub name s out r l p h g i =
      elim (added_cases cfg fs alloc name (in_dir cfg fs alloc pathprefix sub name)
        (full_name sub name) do_hash s r h) [
          | inl (b, e) ↦
              let stays : Outcome.done r.1 ≡ Outcome.done out =
                ap (λ o. below cfg fs alloc descend o r.1) (sym (ap (λ q. q.0) e)) ∙ g in
              rw (← done-injective r.1 out stays) i
          | inr (b, d, e) ↦
              sub_keeps descend k sub name s r.1 out (l b) p
                (ap (λ o. below cfg fs alloc descend o r.1) (sym (ap (λ q. q.0) e)) ∙ g) i
        ]

  pub entries_keep :
      (descend : Text → Walked → Outcome Walked)
      → Keeps descend
      → (sub : Text) (l names : List Text) (s out : Walked)
      → fs.opendir (pathprefix ++ codes "/" ++ sub) ≡ Listing.entries names
      → ((x : Text) → Mem x l → Mem x names)
      → ((x : Text) → Below cfg fs alloc pathprefix sub x → P x)
      → entry_walk cfg fs alloc descend (pathprefix ++ codes "/" ++ sub) sub do_hash l s
        ≡ Outcome.done out
      → I s
      → I out
  unfolding entry_walk
  entries_keep descend k sub [] names s out o m p h i = rw (← done-injective s out h) i
  entries_keep descend k sub (name ∷ l) names s out o m p h i =
      let fullpath : Text = pathprefix ++ codes "/" ++ sub in
      let path : Text = in_dir cfg fs alloc pathprefix sub name in
      let rest : Walked → Outcome Walked = entry_walk cfg fs alloc descend fullpath sub do_hash l in
      elim (Bool-cases (is_hidden name)) [
        | inl e ↦
            let goes : rest s ≡ Outcome.done out = sym (rw e refl) ∙ h in
            entries_keep descend k sub l names s out o (λ x n. m x (mem-cons_of_mem name n)) p goes
              i
        | inr e ↦
            let adds = add_file cfg fs alloc name path (full_name sub name) do_hash s in
            let goes : after adds (λ r. after (below cfg fs alloc descend r.0 r.1) rest)
                ≡ Outcome.done out =
              sym (rw e refl) ∙ h in
            let (r, added, h') =
              after-done adds (λ r. after (below cfg fs alloc descend r.0 r.1) rest) out goes in
            let (s', went, h'') = after-done (below cfg fs alloc descend r.0 r.1) rest out h' in
            let lists : is_banned cfg fs alloc name path ≡ false
                → Lists cfg fs alloc pathprefix sub name =
              λ b. record {
                names = names;
                opens = o;
                among = m name mem-cons_self;
                shown = e;
                allowed = b;
              } in
            let i' : I r.1 =
              add_keeps name path (full_name sub name) s r
                (λ b. p path (Below.entry sub name (lists b))) added i in
            entries_keep descend k sub l names s' out o (λ x n. m x (mem-cons_of_mem name n)) p h''
              (below_keeps descend k sub name s s' r lists p added went i')
      ]

  content_keeps :
      (sub full : Text) (o : Option Opened) (s out : Walked)
      → (length sub == 0) ≡ true
      → fs.opendir (pathprefix ++ codes "/" ++ sub) ≡ Listing.missing
      → fs.fopen (pathprefix ++ codes ".content.txt") ≡ o
      → ((x : Text) → Below cfg fs alloc pathprefix sub x → P x)
      → content_walk cfg fs alloc full do_hash o s ≡ Outcome.done out
      → I s
      → I out
  content_keeps sub full none s out top gone e p h i = rw (← done-injective s out h) i
  content_keeps sub full (some fl) s out top gone e p h i =
      lines_keep full (lines_of fl.content) s out
        (λ x m b. p x (Below.line sub x fl top gone e m b)) h i

  listing_keeps :
      (descend : Text → Walked → Outcome Walked)
      → Keeps descend
      → (sub : Text) (l : Listing) (s out : Walked)
      → fs.opendir (pathprefix ++ codes "/" ++ sub) ≡ l
      → ((x : Text) → Below cfg fs alloc pathprefix sub x → P x)
      → listing_walk cfg fs alloc descend pathprefix sub do_hash l s ≡ Outcome.done out
      → I s
      → I out
  listing_keeps descend k sub Listing.refused s out o p h i = rw (← done-injective s out h) i
  listing_keeps descend k sub Listing.missing s out o p h i = elim (Bool-cases (length sub == 0)) [
    | inl e ↦
        content_keeps sub (dir_part pathprefix ++ codes "full/")
          (fs.fopen (pathprefix ++ codes ".content.txt")) s out e o refl p (sym (rw e refl) ∙ h) i
    | inr e ↦
        let stops : Outcome.aborted ≡ Outcome.done out = sym (rw e refl) ∙ h in
        absurd (ground (arith, stops))
  ]
  listing_keeps descend k sub (Listing.entries names) s out o p h i =
      entries_keep descend k sub names names s out o (λ x m. m) p h i

  -- The walk keeps an invariant that each added file keeps whose name is expected, if all names
  -- below the directory are expected.
  pub iterate_keeps :
      (fuel : ℕ) (sub : Text) (s out : Walked)
      → ((x : Text) → Below cfg fs alloc pathprefix sub x → P x)
      → iterate_directory cfg fs alloc fuel pathprefix do_hash sub s ≡ Outcome.done out
      → I s
      → I out
  unfolding iterate_directory
  iterate_keeps zero sub s out p h i = absurd (ground arith)
  iterate_keeps (suc fuel) sub s out p h i =
      listing_keeps (iterate_directory cfg fs alloc fuel pathprefix do_hash) (iterate_keeps fuel)
        sub (fs.opendir (pathprefix ++ codes "/" ++ sub)) s out refl p h i
