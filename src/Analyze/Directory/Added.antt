-- ===== src/Analyze/Directory/Added.antt =====
-- What add_file of src/analyze_fs.c makes of one entry of a directory.
use swupd_server.Prelude.{
  ℕ, ◌+◌, ◌≡◌, ◌⊎◌, refl, sym, ap, Option, none, some, Bool, true, false, not, ◌&&◌, arith,
  if◌then◌else◌, inl, inr,
}
use swupd_server.Text.{Text}
use swupd_server.File.{File, UpdateStat}
use swupd_server.Config.{Config}
use swupd_server.Analyze.{FileSystem, s_islnk, s_isdir, typed, populated, populate_file_struct}
use swupd_server.Analyze.Directory.{
  Outcome, Walked, calloc_file, push_file, found_file, is_banned, add_file,
}
use swupd_server.Analyze.Directory.Below.{dir_status}

abbrev value_or {ℓ} : {A : Type ℓ} → A → Outcome A → A
value_or a (Outcome.done x) = x
value_or a Outcome.aborted = a
value_or a Outcome.out_of_fuel = a

pub done-injective {ℓ} : {A : Type ℓ} (a b : A) → Outcome.done a ≡ Outcome.done b → a ≡ b
done-injective a b h = ap (value_or a) h

choice_cases {ℓ} :
    {A : Type ℓ} {x y r : A} (b d : Bool)
    → (if b then Outcome.done x else if d then Outcome.aborted else Outcome.done y) ≡ Outcome.done r
    → ((b ≡ true) × (r ≡ x)) ⊎ ((b ≡ false) × (d ≡ false) × (r ≡ y))
choice_cases true d h = inl (refl, sym (done-injective _ _ h))
choice_cases false true h = absurd (ground arith)
choice_cases false false h = inr (refl, refl, sym (done-injective _ _ h))

module _ (cfg : Config) (fs : FileSystem) (alloc : ℕ) where
  pub added_cases :
      (entry_name sub full : Text) (do_hash : Bool) (s : Walked) (r : Option File × Walked)
      → add_file cfg fs alloc entry_name sub full do_hash s ≡ Outcome.done r
      → ((is_banned cfg fs alloc entry_name sub ≡ true) × (r ≡ (none, s)))
        ⊎ ((is_banned cfg fs alloc entry_name sub ≡ false)
            × ((found_file cfg fs alloc sub full s).is_deleted ≡ false)
            × (r ≡ (
              some (found_file cfg fs alloc sub full s),
              push_file (found_file cfg fs alloc sub full s) do_hash s,
            )))
  unfolding add_file
  added_cases entry_name sub full do_hash s r h =
      choice_cases (is_banned cfg fs alloc entry_name sub)
        ((found_file cfg fs alloc sub full s).is_deleted) h

  pub found_dir :
      (sub full : Text) (s : Walked)
      → (found_file cfg fs alloc sub full s).is_dir ≡ dir_status (fs.lstat full)
  unfolding populate_file_struct
  found_dir sub full s =
      dir_of (fs.lstat full) (calloc_file (alloc + s.manifest.count) sub s.manifest.version) refl
        refl
    where
      typed_dir :
          (l d : Bool) (stat : UpdateStat) (f : File) → (typed l d stat f).is_dir ≡ (not l && d)
      typed_dir true d stat f = refl
      typed_dir false true stat f = refl
      typed_dir false false stat f = refl

      dir_of :
          (o : Option UpdateStat) (f : File)
          → f.is_dir ≡ false
          → f.is_boot ≡ false
          → (populated o f).is_dir ≡ dir_status o
      dir_of none f h b = rw b h
      dir_of (some stat) f h b = typed_dir (s_islnk stat.st_mode) (s_isdir stat.st_mode) stat f

  pub found_name :
      (sub full : Text) (s : Walked) → (found_file cfg fs alloc sub full s).filename ≡ sub
  unfolding populate_file_struct
  found_name sub full s =
      name_of (fs.lstat full) (calloc_file (alloc + s.manifest.count) sub s.manifest.version) refl
    where
      typed_name :
          (l d : Bool) (stat : UpdateStat) (f : File) → (typed l d stat f).filename ≡ f.filename
      typed_name true d stat f = refl
      typed_name false true stat f = refl
      typed_name false false stat f = refl

      name_of :
          (o : Option UpdateStat) (f : File)
          → f.is_boot ≡ false
          → (populated o f).filename ≡ f.filename
      name_of none f b = rw b refl
      name_of (some stat) f b = typed_name (s_islnk stat.st_mode) (s_isdir stat.st_mode) stat f
