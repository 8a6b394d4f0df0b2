-- ===== src/Analyze/Directory/Ends.antt =====
-- When the walk of iterate_directory (src/analyze_fs.c) ends with a manifest.
use swupd_server.Prelude.{
  ℕ, zero, suc, ◌+◌, ◌≡◌, refl, sym, ap, ◌∙◌, List, [], ◌∷◌, ◌++◌, Option, none, some, Bool, true,
  false, not, ◌&&◌, ◌||◌, arith, if◌then◌else◌, Bool-cases, inl, inr,
}
use swupd_server.Text.{Text, codes}
use swupd_server.File.{File, UpdateStat}
use swupd_server.Config.{Config}
use swupd_server.Analyze.{
  FileSystem, Listing, s_islnk, s_isdir, typed, populated, populate_file_struct,
}
use swupd_server.Analyze.Directory.{
  Outcome, after, Walked, calloc_file, push_file, found_file, is_banned, add_file, below,
  entry_walk, listing_walk, iterate_directory,
}
use swupd_server.Analyze.Directory.Below.{is_hidden, dir_status, in_dir}
use swupd_server.Analyze.Directory.Added.{found_name, found_dir}

module _ (cfg : Config) (fs : FileSystem) (alloc : ℕ) (pathprefix : Text) where
  abbrev pub settled_entry : Bool → Option UpdateStat → Bool
  settled_entry deeper none = false
  settled_entry deeper (some stat) = not (dir_status (some stat)) || deeper

  abbrev pub settled_walk : (Text → Bool) → Text → List Text → Bool
  settled_walk test sub [] = true
  settled_walk test sub (d ∷ l) =
      let rest = settled_walk test sub l in
      if is_hidden d || is_banned cfg fs alloc d (in_dir cfg fs alloc pathprefix sub d)
      then rest
      else settled_entry (test (in_dir cfg fs alloc pathprefix sub d))
          (fs.lstat ((pathprefix ++ codes "/" ++ sub) ++ codes "/" ++ d))
        && rest

  abbrev pub settled_listing : (Text → Bool) → Text → Listing → Bool
  settled_listing test sub Listing.missing = false
  settled_listing test sub Listing.refused = true
  settled_listing test sub (Listing.entries l) = settled_walk test sub l

  -- Whether a directory is there, is less than `n` deep, and each of its entries that is not passed
  -- over has a status and is such a directory if it is a directory.
  abbrev pub is_settled : ℕ → Text → Bool
  is_settled zero sub = false
  is_settled (suc n) sub =
      settled_listing (is_settled n) sub (fs.opendir (pathprefix ++ codes "/" ++ sub))

after_assoc {ℓ κ μ} :
    {A : Type ℓ} {B : Type κ} {C : Type μ} (o : Outcome A) (f : A → Outcome B) (g : B → Outcome C)
    → after (after o f) g ≡ after o (λ a. after (f a) g)
after_assoc (Outcome.done a) f g = refl
after_assoc Outcome.aborted f g = refl
after_assoc Outcome.out_of_fuel f g = refl

both_true : (a b : Bool) → (a && b) ≡ true → (a ≡ true) × (b ≡ true)
both_true true b h = (refl, h)
both_true false b h = absurd (ground arith)

module _ (cfg : Config) (fs : FileSystem) (alloc : ℕ) (pathprefix : Text) (do_hash : Bool) where
  abbrev Result : Outcome Walked → Type 0
  Result o = (out : Walked) × (o ≡ Outcome.done out)

  found_live :
      (sub full : Text) (s : Walked) (stat : UpdateStat)
      → fs.lstat full ≡ some stat
      → (found_file cfg fs alloc sub full s).is_deleted ≡ false
  unfolding populate_file_struct
  found_live sub full s stat e =
      let new : File = calloc_file (alloc + s.manifest.count) sub s.manifest.version in
      ap (λ o. (populated o new).is_deleted) e
      ∙ live (s_islnk stat.st_mode) (s_isdir stat.st_mode) new refl
    where
      live : (l d : Bool) (f : File) → f.is_deleted ≡ false → (typed l d stat f).is_deleted ≡ false
      live true d f h = h
      live false true f h = h
      live false false f h = h

  -- What add_file does with an entry that is not passed over.
  added_some :
      (entry_name sub full : Text) (s : Walked) (stat : UpdateStat)
      → is_banned cfg fs alloc entry_name sub ≡ false
      → fs.lstat full ≡ some stat
      → add_file cfg fs alloc entry_name sub full do_hash s
        ≡ Outcome.done (
          some (found_file cfg fs alloc sub full s),
          push_file (found_file cfg fs alloc sub full s) do_hash s,
        )
  unfolding add_file
  added_some entry_name sub full s stat b e = rw (b, found_live sub full s stat e) refl

  added_none :
      (entry_name sub full : Text) (s : Walked)
      → is_banned cfg fs alloc entry_name sub ≡ true
      → add_file cfg fs alloc entry_name sub full do_hash s ≡ Outcome.done (none, s)
  unfolding add_file
  added_none entry_name sub full s b = rw b refl

  abbrev Descends : (Text → Walked → Outcome Walked) → (Text → Bool) → Type 0
  Descends descend test = (sub : Text) (s : Walked) → test sub ≡ true → Result (descend sub s)

  -- The turn of one entry that is not hidden.
  turn_ends :
      (descend : Text → Walked → Outcome Walked) (test : Text → Bool)
      → Descends descend test
      → (sub d : Text) (s : Walked) (o : Option UpdateStat)
      → fs.lstat ((pathprefix ++ codes "/" ++ sub) ++ codes "/" ++ d) ≡ o
      → is_banned cfg fs alloc d (in_dir cfg fs alloc pathprefix sub d) ≡ false
      → settled_entry cfg fs alloc pathprefix (test (in_dir cfg fs alloc pathprefix sub d)) o ≡ true
      → Result (
          after
            (add_file cfg fs alloc d
              (in_dir cfg fs alloc pathprefix sub d)
              ((pathprefix ++ codes "/" ++ sub) ++ codes "/" ++ d)
              do_hash
              s)
            (λ r. below cfg fs alloc descend r.0 r.1))
  turn_ends descend test k sub d s none e b h = absurd (ground arith)
  turn_ends descend test k sub d s (some stat) e b h =
      let path : Text = in_dir cfg fs alloc pathprefix sub d in
      let full : Text = (pathprefix ++ codes "/" ++ sub) ++ codes "/" ++ d in
      let new : File = found_file cfg fs alloc path full s in
      let s' : Walked = push_file new do_hash s in
      let adds = added_some d path full s stat b e in
      let same_dir : new.is_dir ≡ dir_status (some stat) =
        found_dir cfg fs alloc path full s ∙ ap dir_status e in
      elim (Bool-cases new.is_dir) [
        | inl i ↦
            let deep : test path ≡ true = ground (arith, same_dir, i, h) in
            let (out, went) = k path s' deep in
            let opened : below cfg fs alloc descend (some new) s' ≡ descend new.filename s' =
              rw i refl in
            (
              out,
              ap (λ o. after o (λ r. below cfg fs alloc descend r.0 r.1)) adds
                  ∙ opened
                  ∙ ap (λ n. descend n s') (found_name cfg fs alloc path full s)
                  ∙ went,
            )
        | inr i ↦
            let stays : below cfg fs alloc descend (some new) s' ≡ Outcome.done s' = rw i refl in
            (s', ap (λ o. after o (λ r. below cfg fs alloc descend r.0 r.1)) adds ∙ stays)
      ]

  entries_end :
      (descend : Text → Walked → Outcome Walked) (test : Text → Bool)
      → Descends descend test
      → (sub : Text) (l : List Text) (s : Walked)
      → settled_walk cfg fs alloc pathprefix test sub l ≡ true
      → Result (entry_walk cfg fs alloc descend (pathprefix ++ codes "/" ++ sub) sub do_hash l s)
  unfolding entry_walk
  entries_end descend test k sub [] s h = (s, refl)
  entries_end descend test k sub (d ∷ l) s h =
      let fullpath : Text = pathprefix ++ codes "/" ++ sub in
      let path : Text = in_dir cfg fs alloc pathprefix sub d in
      let full : Text = fullpath ++ codes "/" ++ d in
      let rest : Walked → Outcome Walked = entry_walk cfg fs alloc descend fullpath sub do_hash l in
      let adds = add_file cfg fs alloc d path full do_hash s in
      elim (Bool-cases (is_hidden d)) [
        | inl e ↦
            let (out, went) = entries_end descend test k sub l s (ground (arith, e, h)) in
            (out, rw e went)
        | inr e ↦ elim (Bool-cases (is_banned cfg fs alloc d path)) [
          | inl b ↦
              let (out, went) = entries_end descend test k sub l s (ground (arith, e, b, h)) in
              (out, rw (e, added_none d path full s b) went)
          | inr b ↦
              let test' : Bool =
                settled_entry cfg fs alloc pathprefix (test path) (fs.lstat full) in
              let settled : (test' && settled_walk cfg fs alloc pathprefix test sub l) ≡ true =
                sym (rw (e, b) refl) ∙ h in
              let (s', turned) =
                turn_ends descend test k sub d s (fs.lstat full) refl b
                  (both_true test' _ settled).0 in
              let (out, went) = entries_end descend test k sub l s' (both_true test' _ settled).1 in
              let split = after_assoc adds (λ r. below cfg fs alloc descend r.0 r.1) rest in
              (out, rw e (sym split ∙ ap (λ o. after o rest) turned ∙ went))
        ]
      ]

  listing_ends :
      (descend : Text → Walked → Outcome Walked) (test : Text → Bool)
      → Descends descend test
      → (sub : Text) (l : Listing) (s : Walked)
      → settled_listing cfg fs alloc pathprefix test sub l ≡ true
      → Result (listing_walk cfg fs alloc descend pathprefix sub do_hash l s)
  listing_ends descend test k sub Listing.missing s h = absurd (ground arith)
  listing_ends descend test k sub Listing.refused s h = (s, refl)
  listing_ends descend test k sub (Listing.entries l) s h = entries_end descend test k sub l s h

  -- A settled directory is walked through to the end, on as much fuel as it is deep.
  pub iterate_ends :
      (fuel : ℕ) (sub : Text) (s : Walked)
      → is_settled cfg fs alloc pathprefix fuel sub ≡ true
      → Result (iterate_directory cfg fs alloc fuel pathprefix do_hash sub s)
  unfolding iterate_directory
  iterate_ends zero sub s h = absurd (ground arith)
  iterate_ends (suc fuel) sub s h =
      listing_ends (iterate_directory cfg fs alloc fuel pathprefix do_hash)
        (is_settled cfg fs alloc pathprefix fuel) (iterate_ends fuel) sub
        (fs.opendir (pathprefix ++ codes "/" ++ sub)) s h
