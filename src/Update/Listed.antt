-- ===== src/Update/Listed.antt =====
-- What the step of main of src/create_update.c for one bundle puts into the manifest of manifests.
use swupd_server.Prelude.{
  ℕ, ◌+◌, ◌≡◌, ◌⊎◌, refl, sym, ap, ◌∙◌, List, [], ◌∷◌, Option, none, some, Bool, true, false, not,
  ◌&&◌, ◌==◌, ltb, arith, if◌then◌else◌, Bool-cases, Option-cases, inl, inr,
}
use swupd_server.Text.{Text, codes}
use swupd_server.File.{File, hash_set_zeros}
use swupd_server.Manifest.Flags.{cleared}
use swupd_server.Config.{Config}
use swupd_server.Sorter.{Sorter}
use swupd_server.Manifest.{Manifest}
use swupd_server.Manifest.Hashes.{add_component_hashes_to_manifest}
use swupd_server.Manifest.Subtract.{subtract_manifests_frontend_keeps}
use swupd_server.Manifest.Match.{Matched, match_manifests}
use swupd_server.Manifest.Deprecated.{both_ghosted, both_deleted, remove_deprecated_files}
use swupd_server.Manifest.Nested.{
  manifest_includes, changed_includes, sort_manifest_by_version, nest_manifest,
}
use swupd_server.Manifest.Prune.{prune_manifest}
use swupd_server.Heuristics.{apply_heuristics}
use swupd_server.Types.{type_change_detection}
use swupd_server.Renames.{Links, clean_renames}
use swupd_server.Update.{
  World, Bundle, with_core, file_at, removal, write_changed, prune_bundle, remove_ghosted,
  remove_deleted, finish_changed, finish_bundle, old_bundle, new_bundle, nest_bundle, match_bundle,
  process_bundle,
}

-- A bundle that has the new version if it was written, and else the old one.
abbrev pub Settled : Text → ℕ → ℕ → Bundle → Type 0
Settled component old new b =
    (b.manifest.component ≡ component)
    × (((b.is_written ≡ true) × (b.manifest.version ≡ new))
        ⊎ ((b.is_written ≡ false) × (b.manifest.version ≡ old)))

abbrev Settles : Text → ℕ → ℕ → Option Bundle → Type 0
Settles component old new none = Unit
Settles component old new (some b) = Settled component old new b

module _ (s : Sorter File) (c : Config) (stateless : Bool) (minversion : ℕ)
    (write_manifest : Manifest → Bool) (component : Text) (old new : ℕ) where
  -- What is kept of the two manifests.
  abbrev Keeps : Manifest → Manifest → Type 0
  Keeps oldm newm = (oldm.version ≡ old) × (newm.component ≡ component) × (newm.version ≡ new)

  write_Settles :
      (changed : Bool) (oldm newm : Manifest) (links : Links)
      → Keeps oldm newm
      → Settles component old new
          (write_changed s c stateless minversion write_manifest changed oldm newm links)
  write_Settles true oldm newm links (o, n, v) = elim (Bool-cases (write_manifest newm)) [
    | inl e ↦ rw e (n, inl (refl, v))
    | inr e ↦ rw e tt
  ]
  write_Settles false oldm newm links (o, n, v) = (n, inr (refl, o))

  prune_Settles :
      (oldm newm : Manifest) (deleted ghosted : ℕ) (links : Links)
      → Keeps oldm newm
      → Settles component old new
          (prune_bundle s c stateless minversion write_manifest oldm deleted ghosted (newm, links))
  unfolding prune_manifest
  prune_Settles oldm newm deleted ghosted links k =
      write_Settles _ oldm (prune_manifest stateless c newm).0 links k

  ghosted_Settles :
      (oldm newm : Manifest) (deleted ghosted : ℕ) (links : Links)
      → Keeps oldm newm
      → Settles component old new (
          remove_ghosted s c stateless minversion write_manifest deleted links
            (oldm, newm, ghosted))
  unfolding clean_renames sort_manifest_by_version
  ghosted_Settles oldm newm deleted ghosted links k =
      let sorted : Manifest = sort_manifest_by_version s newm in
      elim (Bool-cases (type_change_detection (file_at oldm.files) sorted)) [
        | inl e ↦ rw e (
            prune_Settles oldm (clean_renames s sorted links).0 deleted ghosted
              (clean_renames s sorted links).1 k)
        | inr e ↦ rw e tt
      ]

  deleted_Settles :
      (oldm newm : Manifest) (deleted : ℕ) (links : Links)
      → Keeps oldm newm
      → Settles component old new
          (remove_deleted s c stateless minversion write_manifest links (oldm, newm, deleted))
  unfolding remove_deprecated_files
  deleted_Settles oldm newm deleted links k =
      let r = removal s c stateless minversion write_manifest both_ghosted oldm newm in
      ghosted_Settles r.0 r.1 deleted r.2 links k

  changed_Settles :
      (oldm newm : Manifest) (links : Links)
      → Keeps oldm newm
      → Settles component old new
          (finish_changed s c stateless minversion write_manifest links oldm newm)
  unfolding remove_deprecated_files
  changed_Settles oldm newm links k = elim (Bool-cases (ltb oldm.format newm.format)) [
    | inl e ↦
        let r = removal s c stateless minversion write_manifest both_deleted oldm newm in
        rw e (deleted_Settles r.0 r.1 r.2 links k)
    | inr e ↦ rw e (deleted_Settles oldm newm 0 links k)
  ]

  finish_Settles :
      (links : Links) (out : Matched)
      → Keeps out.m1 out.m2
      → Settles component old new (finish_bundle s c stateless minversion write_manifest links out)
  unfolding apply_heuristics
  finish_Settles links out k =
      elim (Bool-cases (out.count == 0 && not (changed_includes out.m1 out.m2))) [
        | inl e ↦ rw e (k.1, inr (refl, k.0))
        | inr e ↦ rw e (changed_Settles out.m1 (apply_heuristics out.m2) links k)
      ]

with_core_keeps :
    (m : Manifest) → ((with_core m).version ≡ m.version) × ((with_core m).component ≡ m.component)
with_core_keeps m = elim (Bool-cases (manifest_includes m (codes "os-core"))) [
  | inl e ↦ rw e (refl, refl)
  | inr e ↦ rw e (refl, refl)
]

-- The new entry of the manifest of manifests: it has the name of the bundle, and either the version of
-- a manifest of this bundle that was just written, or the old version, where nothing was written.
pub record IsListed (w w' : World) (component : Text) (old new : ℕ) : Type 0 where
  pub entry : File
  pub nested : w'.mom.manifests ≡ entry ∷ w.mom.manifests
  pub named : entry.filename ≡ component
  pub backed :
      ((entry.last_change ≡ new)
        × ((b : Manifest) × (w'.written ≡ b ∷ w.written)
            × (b.version ≡ new)
            × (b.component ≡ component)))
      ⊎ ((entry.last_change ≡ old) × (w'.written ≡ w.written))

some-eq : {A : Type 0} (a b : A) → some a ≡ some b → a ≡ b
some-eq a b h = ground (arith, h)

module _ (s : Sorter File) (c : Config) (stateless : Bool) (minversion : ℕ)
    (write_manifest : Manifest → Bool) where
  -- The state after the bundle went into the manifest of manifests.
  abbrev nested_world : World → Matched → Bundle → World
  nested_world w out b =
      let nested = nest_manifest out.next w.mom w.submanifests b.manifest in
      record w {
        next = out.next + 1;
        stats = out.stats;
        links = b.links;
        mom = nested.0;
        submanifests = nested.1;
        written = if b.is_written then b.manifest ∷ w.written else w.written;
      }

  nested-IsListed :
      (w : World) (out : Matched) (b : Bundle) (component : Text) (old new : ℕ)
      → Settled component old new b
      → IsListed w (nested_world w out b) component old new
  unfolding nest_manifest
  nested-IsListed w out b component old new h = record {
    entry = record cleared {
      addr = out.next;
      last_change = b.manifest.version;
      hash = hash_set_zeros;
      is_manifest = true;
      filename = b.manifest.component;
    };
    nested = refl;
    named = h.0;
    backed = elim h.1 [
      | inl (e, v) ↦
          inl (v, (b.manifest, ap (λ x. if x then b.manifest ∷ w.written else w.written) e, v, h.0))
      | inr (e, v) ↦ inr (v, ap (λ x. if x then b.manifest ∷ w.written else w.written) e)
    ];
  }

  nest-IsListed :
      (w w' : World) (out : Matched) (o : Option Bundle) (component : Text) (old new : ℕ)
      → Settles component old new o
      → nest_bundle s c stateless minversion write_manifest w out o ≡ some w'
      → IsListed w w' component old new
  nest-IsListed w w' out none component old new h e = absurd (ground arith)
  nest-IsListed w w' out (some b) component old new h e =
      rw (← some-eq (nested_world w out b) w' e) (nested-IsListed w out b component old new h)

  match_keeps :
      (w : World) (m1 m2 : Manifest) (out : Matched)
      → match_manifests s minversion w.next w.stats (some m1) (some m2) ≡ some out
      → (m1.version ≡ out.m1.version)
        × (m2.component ≡ out.m2.component)
        × (m2.version ≡ out.m2.version)
  unfolding match_manifests
  match_keeps w m1 m2 out e = (
    ap (λ o. elim o [ none ↦ 0 | some x ↦ x.m1.version ]) e,
    ap (λ o. elim o [ none ↦ [] | some x ↦ x.m2.component ]) e,
    ap (λ o. elim o [ none ↦ 0 | some x ↦ x.m2.version ]) e,
  )

  matched-IsListed :
      (w w' : World) (m1 m2 : Manifest) (component : Text) (old new : ℕ) (o : Option Matched)
      → match_manifests s minversion w.next w.stats (some m1) (some m2) ≡ o
      → (m1.version ≡ old) × (m2.component ≡ component) × (m2.version ≡ new)
      → match_bundle s c stateless minversion write_manifest w o ≡ some w'
      → IsListed w w' component old new
  matched-IsListed w w' m1 m2 component old new none m k e = absurd (ground arith)
  matched-IsListed w w' m1 m2 component old new (some out) m k e =
      let q = match_keeps w m1 m2 out m in
      nest-IsListed w w' out (finish_bundle s c stateless minversion write_manifest w.links out)
        component old new
        (finish_Settles s c stateless minversion write_manifest component old new w.links out
          (sym q.0 ∙ k.0, sym q.1 ∙ k.1, sym q.2 ∙ k.2))
        e

  after-IsListed :
      (w w' : World) (oldm newm : Manifest) (old_included new_included : List Manifest)
      → process_bundle s c stateless minversion write_manifest w oldm newm old_included new_included
        ≡ some w'
      → IsListed w w' newm.component oldm.version newm.version
  unfolding process_bundle apply_heuristics add_component_hashes_to_manifest
  after-IsListed w w' oldm newm old_included new_included h =
      let full : Manifest = (add_component_hashes_to_manifest s newm w.full).1 in
      let hashed : Manifest = (add_component_hashes_to_manifest s newm w.full).0 in
      let o : Manifest = apply_heuristics oldm in
      let n : Manifest = record (apply_heuristics hashed) { prevversion = oldm.version } in
      let m1 : Manifest = old_bundle s c stateless minversion write_manifest oldm old_included in
      let m2 : Manifest =
        new_bundle s c stateless minversion write_manifest w.full oldm newm new_included in
      let k1 = subtract_manifests_frontend_keeps s (with_core o) old_included in
      let k2 = subtract_manifests_frontend_keeps s (with_core n) new_included in
      let i =
        matched-IsListed (record w { full = full }) w' m1 m2 newm.component oldm.version
          newm.version (match_manifests s minversion w.next w.stats (some m1) (some m2)) refl
          (k1.0 ∙ (with_core_keeps o).0, k2.1 ∙ (with_core_keeps n).1, k2.0 ∙ (with_core_keeps n).0)
          h in
      record { entry = i.entry; nested = i.nested; named = i.named; backed = i.backed }

  -- The body of the loop over the bundles exits, or puts one entry into the manifest of manifests. The
  -- entry has the name of the bundle. Its version is the new one where a manifest of the bundle was
  -- written under this name and version, and the old one where nothing was written, so that the
  -- manifest of manifests does not name a new version of a bundle that was not written.
  pub process_bundle-IsListed :
      (w : World) (oldm newm : Manifest) (old_included new_included : List Manifest)
      → (process_bundle s c stateless minversion write_manifest w oldm newm old_included
            new_included
          ≡ none)
        ⊎ ((w' : World) × (process_bundle s c stateless minversion write_manifest w oldm newm
                old_included new_included
              ≡ some w')
            × IsListed w w' newm.component oldm.version newm.version)
  process_bundle-IsListed w oldm newm old_included new_included =
      elim (Option-cases (
        process_bundle s c stateless minversion write_manifest w oldm newm old_included
          new_included)) [
            | inl e ↦ inl e
            | inr (w', e) ↦ inr (w', e, after-IsListed w w' oldm newm old_included new_included e)
          ]
