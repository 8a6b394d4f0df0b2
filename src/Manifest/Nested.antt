-- ===== src/Manifest/Nested.antt =====
-- The manifests that a manifest names: manifest_includes, changed_includes, nest_manifest,
-- manifest_subversion and sort_manifest_by_version of src/manifest.c. Beside a parent stands the
-- list of its submanifests.
use swupd_server.Prelude.{
  ℕ, ◌+◌, ◌≡◌, ◌↔◌, refl, ap, List, [], ◌∷◌, Bool, true, false, not, ◌==◌, arith, if◌then◌else◌,
  length, Ordering,
}
use swupd_server.Text.{Text, strcmp, same}
use swupd_server.Text.Order.{strcmp_refl, eq_of_strcmp}
use swupd_server.File.{File, hash_set_zeros, file_sort_version}
use swupd_server.Sorter.{Sorter}
use swupd_server.Manifest.{Manifest}
use swupd_server.Manifest.Flags.{cleared}

abbrev pub includes_name : Text → List Text → Bool
includes_name component [] = false
includes_name component (i ∷ includes) =
    if same i component then true else includes_name component includes

unfoldable pub manifest_includes : Manifest → Text → Bool
manifest_includes manifest component = includes_name component manifest.includes

-- The loop of changed_includes.
unfoldable pub includes_walk : List Text → List Text → Bool
includes_walk [] includes_new = false
includes_walk (a ∷ includes_old) [] = false
includes_walk (a ∷ includes_old) (b ∷ includes_new) =
    if not (same a b) then true else includes_walk includes_old includes_new

unfoldable pub changed_includes : Manifest → Manifest → Bool
changed_includes old new =
    if not (length old.includes == length new.includes)
    then true
    else includes_walk old.includes new.includes

-- An empty list is left alone, which sorting it would do too.
unfoldable pub sort_manifest_by_version : Sorter File → Manifest → Manifest
sort_manifest_by_version s m = record m {
  files = elim m.files [ [] ↦ [] | (f ∷ l) ↦ s.sort file_sort_version (f ∷ l) ];
  manifests = elim m.manifests [ [] ↦ [] | (f ∷ l) ↦ s.sort file_sort_version (f ∷ l) ];
}

-- The parent and its submanifests after the call; the address is that of the new file object.
unfoldable pub nest_manifest : ℕ → Manifest → List Manifest → Manifest → Manifest × List Manifest
nest_manifest addr parent submanifests sub =
    let file = record cleared {
      addr = addr;
      last_change = sub.version;
      hash = hash_set_zeros;
      is_manifest = true;
      filename = sub.component;
    } in
    (
      record parent { manifests = file ∷ parent.manifests; count = parent.count + 1 },
      sub ∷ submanifests,
    )

abbrev pub subversion_in : List File → Text → ℕ
subversion_in [] group = 0
subversion_in (file ∷ list) group =
    if same file.filename group then file.last_change else subversion_in list group

unfoldable pub manifest_subversion : Manifest → Text → ℕ
manifest_subversion parent group = subversion_in parent.manifests group

walk_same : (l : List Text) → includes_walk l l ≡ false
unfolding includes_walk
walk_same [] = refl
walk_same (a ∷ l) = ground (arith, strcmp_refl a, walk_same l)

walk_eq : (l r : List Text) → length l ≡ length r → includes_walk l r ≡ false → l ≡ r
unfolding includes_walk
walk_eq [] [] e h = refl
walk_eq [] (b ∷ r) e h = absurd (omega arith)
walk_eq (a ∷ l) [] e h = absurd (omega arith)
walk_eq (a ∷ l) (b ∷ r) e h =
    let head : strcmp a b ≡ Ordering.eq = ground arith in
    let tail : includes_walk l r ≡ false = ground arith in
    rw (eq_of_strcmp a b head) (ap (◌∷◌ b) (walk_eq l r (omega (arith, e)) tail))

unchanged :
    (l r : List Text)
    → l ≡ r
    → (if not (length l == length r) then true else includes_walk l r) ≡ false
unchanged l r e = rw e (ground (arith, walk_same r))

-- Two manifests have the same includes, in the same order, exactly when changed_includes says that
-- nothing changed.
pub changed_includes_iff :
    (old new : Manifest) → (changed_includes old new ≡ false) ↔ (old.includes ≡ new.includes)
unfolding changed_includes
changed_includes_iff old new = (
  λ h. walk_eq old.includes new.includes (ground arith) (ground arith),
  λ e. unchanged old.includes new.includes e,
)

-- After a manifest was nested its version is found under its component, and every other component
-- has the version that it had.
pub manifest_subversion-nest_manifest :
    (addr : ℕ) (parent : Manifest) (subs : List Manifest) (sub : Manifest) (group : Text)
    → manifest_subversion (nest_manifest addr parent subs sub).0 group
      ≡ (if same sub.component group then sub.version else manifest_subversion parent group)
unfolding manifest_subversion nest_manifest
manifest_subversion-nest_manifest addr parent subs sub group = refl
