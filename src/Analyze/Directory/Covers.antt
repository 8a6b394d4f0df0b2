-- ===== src/Analyze/Directory/Covers.antt =====
-- That iterate_directory (src/analyze_fs.c) leaves out nothing that is below a directory.
use mathlib.Core.List.{Mem, Memᴰ, Mem-prop, mem-cast, mem-cons_self, mem-cons_of_mem}
use mathlib.Core.Logic.{∥∥₁_elim}
use swupd_server.Prelude.{
  ℕ, zero, suc, ◌≡◌, refl, sym, ap, ◌∙◌, List, [], ◌∷◌, ◌++◌, Option, some, Bool, true, false, ◌==◌,
  arith, length, Bool-cases, inl, inr, map,
}
use swupd_server.Text.{Text, codes}
use swupd_server.File.{File}
use swupd_server.Config.{Config}
use swupd_server.Analyze.{FileSystem, Opened, Listing}
use swupd_server.Analyze.Directory.{
  Outcome, after, Walked, push_file, dir_part, base_part, found_file, is_banned, add_file,
  line_walk, below, entry_walk, listing_walk, iterate_directory,
}
use swupd_server.Analyze.Lines.{lines_of}
use swupd_server.Analyze.Directory.Below.{after-done, is_hidden, dir_status, in_dir, Lists, Below}
use swupd_server.Analyze.Directory.Added.{added_cases, found_name, found_dir}
use swupd_server.Analyze.Directory.Keeps.{entries_keep, below_keeps, lines_keep, iterate_keeps}

-- Whether the manifest that is made has a name.
abbrev pub HasName : Text → Walked → Type 0
HasName x s = Mem x (map (λ f. f.filename) s.manifest.files)

module _ (cfg : Config) (fs : FileSystem) (alloc : ℕ) (pathprefix : Text) (do_hash : Bool) where
  abbrev Anything : Text → Type 0
  Anything x = Unit

  push_HasName :
      (x sub full : Text) (s : Walked)
      → Anything sub
      → (found_file cfg fs alloc sub full s).is_deleted ≡ false
      → HasName x s
      → HasName x (push_file (found_file cfg fs alloc sub full s) do_hash s)
  push_HasName x sub full s p d i = mem-cons_of_mem (found_file cfg fs alloc sub full s).filename i

  added_HasName :
      (entry_name sub full : Text) (s : Walked) (r : Option File × Walked)
      → is_banned cfg fs alloc entry_name sub ≡ false
      → add_file cfg fs alloc entry_name sub full do_hash s ≡ Outcome.done r
      → (r.0 ≡ some (found_file cfg fs alloc sub full s)) × HasName sub r.1
  added_HasName entry_name sub full s r b h =
      elim (added_cases cfg fs alloc entry_name sub full do_hash s r h) [
        | inl (c, e) ↦ absurd (ground (arith, b, c))
        | inr (c, d, e) ↦
            let new : File = found_file cfg fs alloc sub full s in
            let named : HasName sub (push_file new do_hash s) =
              mem-cast (sym (found_name cfg fs alloc sub full s)) mem-cons_self in
            (ap (λ q. q.0) e, rw (ap (λ q. q.1) e) named)
      ]

  -- What the walk below the entry `name` comes upon is there after the whole loop.
  entries_HasName :
      (fuel : ℕ) (sub x : Text) (l names : List Text) (name : Text) (s out : Walked)
      → fs.opendir (pathprefix ++ codes "/" ++ sub) ≡ Listing.entries names
      → ((y : Text) → Mem y l → Mem y names)
      → is_hidden name ≡ false
      → ((s s' : Walked) (r : Option File × Walked)
          → add_file cfg fs alloc name
              (in_dir cfg fs alloc pathprefix sub name)
              ((pathprefix ++ codes "/" ++ sub) ++ codes "/" ++ name)
              do_hash
              s
            ≡ Outcome.done r
          → below cfg fs alloc (iterate_directory cfg fs alloc fuel pathprefix do_hash) r.0 r.1
            ≡ Outcome.done s'
          → HasName x s')
      → Memᴰ name l
      → entry_walk cfg fs alloc
          (iterate_directory cfg fs alloc fuel pathprefix do_hash)
          (pathprefix ++ codes "/" ++ sub)
          sub
          do_hash
          l
          s
        ≡ Outcome.done out
      → HasName x out
  unfolding entry_walk
  entries_HasName fuel sub x [] names name s out o m shown step i h = elim i [ ]
  entries_HasName fuel sub x (d ∷ l) names name s out o m shown step i h =
      let fullpath : Text = pathprefix ++ codes "/" ++ sub in
      let path : Text = in_dir cfg fs alloc pathprefix sub d in
      let descend : Text → Walked → Outcome Walked =
        iterate_directory cfg fs alloc fuel pathprefix do_hash in
      let rest : Walked → Outcome Walked = entry_walk cfg fs alloc descend fullpath sub do_hash l in
      let later : (y : Text) → Mem y l → Mem y names = λ y n. m y (mem-cons_of_mem d n) in
      elim (Bool-cases (is_hidden d)) [
        | inl e ↦
            let goes : rest s ≡ Outcome.done out = sym (rw e refl) ∙ h in
            elim i [
              | Memᴰ.head same ↦ absurd (ground (arith, ap is_hidden same, e, shown))
              | Memᴰ.tail i' ↦
                  entries_HasName fuel sub x l names name s out o later shown step i' goes
            ]
        | inr e ↦
            let adds = add_file cfg fs alloc d path (fullpath ++ codes "/" ++ d) do_hash s in
            let goes : after adds (λ r. after (below cfg fs alloc descend r.0 r.1) rest)
                ≡ Outcome.done out =
              sym (rw e refl) ∙ h in
            let (r, added, h') =
              after-done adds (λ r. after (below cfg fs alloc descend r.0 r.1) rest) out goes in
            let (s', went, h'') = after-done (below cfg fs alloc descend r.0 r.1) rest out h' in
            elim i [
              | Memᴰ.head same ↦
                  entries_keep cfg fs alloc pathprefix do_hash Anything (HasName x) (push_HasName x)
                    descend
                    (iterate_keeps cfg fs alloc pathprefix do_hash Anything (HasName x)
                      (push_HasName x) fuel)
                    sub l names s' out o later (λ y b. tt) h'' (step s s' r (rw same added) went)
              | Memᴰ.tail i' ↦
                  entries_HasName fuel sub x l names name s' out o later shown step i' h''
            ]
      ]

  content_HasName :
      (full x : Text) (lines : List Text) (s out : Walked)
      → is_banned cfg fs alloc (base_part x) x ≡ false
      → Memᴰ x lines
      → line_walk cfg fs alloc full do_hash lines s ≡ Outcome.done out
      → HasName x out
  unfolding line_walk
  content_HasName full x [] s out b i h = elim i [ ]
  content_HasName full x (line ∷ lines) s out b i h =
      let (r, added, h') =
        after-done (add_file cfg fs alloc (base_part line) line (full ++ line) do_hash s)
          (λ r. line_walk cfg fs alloc full do_hash lines r.1) out h in
      elim i [
        | Memᴰ.head same ↦
            lines_keep cfg fs alloc pathprefix do_hash Anything (HasName x) (push_HasName x) full
              lines r.1 out (λ y m k. tt) h'
              (rw same
                (added_HasName (base_part line) line (full ++ line) s r (rw (← same) b) added).1)
        | Memᴰ.tail i' ↦ content_HasName full x lines r.1 out b i' h'
      ]

  -- The name of an entry is there after its turn.
  entry_step :
      (fuel : ℕ) (sub name : Text)
      → Lists cfg fs alloc pathprefix sub name
      → (s s' : Walked) (r : Option File × Walked)
      → add_file cfg fs alloc name
          (in_dir cfg fs alloc pathprefix sub name)
          ((pathprefix ++ codes "/" ++ sub) ++ codes "/" ++ name)
          do_hash
          s
        ≡ Outcome.done r
      → below cfg fs alloc (iterate_directory cfg fs alloc fuel pathprefix do_hash) r.0 r.1
        ≡ Outcome.done s'
      → HasName (in_dir cfg fs alloc pathprefix sub name) s'
  entry_step fuel sub name l s s' r added went =
      let path : Text = in_dir cfg fs alloc pathprefix sub name in
      let (e, has) =
        added_HasName name path ((pathprefix ++ codes "/" ++ sub) ++ codes "/" ++ name) s r
          l.allowed added in
      below_keeps cfg fs alloc pathprefix do_hash Anything (HasName path) (push_HasName path)
        (iterate_directory cfg fs alloc fuel pathprefix do_hash)
        (iterate_keeps cfg fs alloc pathprefix do_hash Anything (HasName path) (push_HasName path)
          fuel)
        sub name s s' r (λ b. l) (λ y b. tt) added went has

  -- An entry that is a directory is walked through.
  went_down :
      (fuel : ℕ) (sub name : Text)
      → Lists cfg fs alloc pathprefix sub name
      → dir_status (fs.lstat ((pathprefix ++ codes "/" ++ sub) ++ codes "/" ++ name)) ≡ true
      → (s s' : Walked) (r : Option File × Walked)
      → add_file cfg fs alloc name
          (in_dir cfg fs alloc pathprefix sub name)
          ((pathprefix ++ codes "/" ++ sub) ++ codes "/" ++ name)
          do_hash
          s
        ≡ Outcome.done r
      → below cfg fs alloc (iterate_directory cfg fs alloc fuel pathprefix do_hash) r.0 r.1
        ≡ Outcome.done s'
      → iterate_directory cfg fs alloc fuel pathprefix do_hash
          (in_dir cfg fs alloc pathprefix sub name)
          r.1
        ≡ Outcome.done s'
  went_down fuel sub name l d s s' r added went =
      let path : Text = in_dir cfg fs alloc pathprefix sub name in
      let full : Text = (pathprefix ++ codes "/" ++ sub) ++ codes "/" ++ name in
      let descend : Text → Walked → Outcome Walked =
        iterate_directory cfg fs alloc fuel pathprefix do_hash in
      let new : File = found_file cfg fs alloc path full s in
      let (e, has) = added_HasName name path full s r l.allowed added in
      let is_dir : new.is_dir ≡ true = found_dir cfg fs alloc path full s ∙ d in
      let opened : below cfg fs alloc descend (some new) r.1 ≡ descend new.filename r.1 =
        rw is_dir refl in
      ap (λ n. descend n r.1) (sym (found_name cfg fs alloc path full s))
      ∙ sym opened
      ∙ ap (λ o. below cfg fs alloc descend o r.1) (sym e)
      ∙ went

  listed_HasName :
      (fuel : ℕ) (sub name x : Text) (s out : Walked) (l : Lists cfg fs alloc pathprefix sub name)
      → ((s s' : Walked) (r : Option File × Walked)
          → add_file cfg fs alloc name
              (in_dir cfg fs alloc pathprefix sub name)
              ((pathprefix ++ codes "/" ++ sub) ++ codes "/" ++ name)
              do_hash
              s
            ≡ Outcome.done r
          → below cfg fs alloc (iterate_directory cfg fs alloc fuel pathprefix do_hash) r.0 r.1
            ≡ Outcome.done s'
          → HasName x s')
      → iterate_directory cfg fs alloc (suc fuel) pathprefix do_hash sub s ≡ Outcome.done out
      → HasName x out
  unfolding iterate_directory
  listed_HasName fuel sub name x s out l step h =
      let descend : Text → Walked → Outcome Walked =
        iterate_directory cfg fs alloc fuel pathprefix do_hash in
      let walks : entry_walk cfg fs alloc descend (pathprefix ++ codes "/" ++ sub) sub do_hash
            l.names s
          ≡ Outcome.done out =
        sym (ap (λ o. listing_walk cfg fs alloc descend pathprefix sub do_hash o s) l.opens) ∙ h in
      ∥∥₁_elim l.among Mem-prop (λ i.
        entries_HasName fuel sub x l.names l.names name s out l.opens (λ y n. n) l.shown step i
          walks)

  line_HasName :
      (fuel : ℕ) (sub x : Text) (fl : Opened) (s out : Walked)
      → (length sub == 0) ≡ true
      → fs.opendir (pathprefix ++ codes "/" ++ sub) ≡ Listing.missing
      → fs.fopen (pathprefix ++ codes ".content.txt") ≡ some fl
      → Mem x (lines_of fl.content)
      → is_banned cfg fs alloc (base_part x) x ≡ false
      → iterate_directory cfg fs alloc (suc fuel) pathprefix do_hash sub s ≡ Outcome.done out
      → HasName x out
  unfolding iterate_directory
  line_HasName fuel sub x fl s out top gone found m b h =
      let full : Text = dir_part pathprefix ++ codes "full/" in
      let walks : line_walk cfg fs alloc full do_hash (lines_of fl.content) s ≡ Outcome.done out =
        sym (rw (gone, top, found) refl) ∙ h in
      ∥∥₁_elim m Mem-prop (λ i. content_HasName full x (lines_of fl.content) s out b i walks)

  -- Everything below a directory is in the manifest after the walk.
  pub iterate-HasName :
      (fuel : ℕ) (sub x : Text) (s out : Walked)
      → Below cfg fs alloc pathprefix sub x
      → iterate_directory cfg fs alloc fuel pathprefix do_hash sub s ≡ Outcome.done out
      → HasName x out
  unfolding iterate_directory
  iterate-HasName zero sub x s out b h = absurd (ground arith)
  iterate-HasName (suc fuel) _ _ s out (Below.entry sub name l) h =
      listed_HasName fuel sub name (in_dir cfg fs alloc pathprefix sub name) s out l
        (entry_step fuel sub name l) h
  iterate-HasName (suc fuel) _ _ s out (Below.deeper sub name x l d b) h =
      listed_HasName fuel sub name x s out l
        (λ s s' r added went.
          iterate-HasName fuel (in_dir cfg fs alloc pathprefix sub name) x r.1 s' b
            (went_down fuel sub name l d s s' r added went))
        h
  iterate-HasName (suc fuel) _ _ s out (Below.line sub x fl top gone found m b) h =
      line_HasName fuel sub x fl s out top gone found m b h
