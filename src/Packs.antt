-- ===== src/Packs.antt =====
-- src/pack.c: for which files of a new version a pack needs a delta, gathered over several packs with
-- each delta once, and which files go whole into a pack. A pointer is an address, and `at` gives the
-- file at an address.
use mathlib.Core.List.{Mem}
use swupd_server.Prelude.{
  any, ◌<◌, ℕ, ◌≡◌, refl, List, [], ◌∷◌, Option, none, some, Bool, true, false, not, ◌||◌, ◌&&◌,
  ◌==◌, leb, arith, if◌then◌else◌, All, All-mem, Pairs, Bool-cases, inl, inr, take,
}
use swupd_server.Text.Order.{strcmp_refl}
use swupd_server.Text.{Text}
use swupd_server.File.{File, hash_compare, hash_size, is_some}
use swupd_server.Manifest.{Manifest}

-- struct packdata, for what is read and written here.
pub record PackData : Type 0 where
  pub from : ℕ
  pub to : ℕ
  pub end_manifest : Option Manifest

module _ (at : ℕ → File) where
  -- file->peer->last_change. Only files with a peer are put into the list.
  abbrev pub peer_last_change : File → ℕ
  peer_last_change file = elim file.peer [ none ↦ 0 | some a ↦ (at a).last_change ]

  -- The test of find_file_in_list.
  abbrev pub same_delta : File → File → Bool
  same_delta item file =
      hash_compare item.hash file.hash
      && item.last_change == file.last_change
      && peer_last_change item == peer_last_change file

  unfoldable pub find_file_in_list : List File → File → Bool
  find_file_in_list [] file = false
  find_file_in_list (item ∷ files) file =
      if same_delta item file then true else find_file_in_list files file

  -- An old file, one without a peer and one that is no file, directory or link is passed over.
  abbrev pub is_skipped : ℕ → File → Bool
  is_skipped from file =
      leb file.last_change from
      || not (is_some file.peer)
      || (not file.is_file && not file.is_dir && not file.is_link)

  -- The loop; `exists` is whether stat finds the delta file.
  unfoldable pub delta_walk : (File → Bool) → ℕ → List File → List File → List File
  delta_walk exists from [] files = files
  delta_walk exists from (file ∷ item) files = delta_walk exists from item (
      if is_skipped from file
      then files
      else if not (exists file) && not (find_file_in_list files file)
      then file ∷ files
      else files)

  abbrev pub with_manifest : (File → Bool) → List File → ℕ → Option Manifest → List File
  with_manifest exists files from none = files
  with_manifest exists files from (some m) = delta_walk exists from m.files files

  unfoldable pub consolidate_packs_delta_files : (File → Bool) → List File → PackData → List File
  consolidate_packs_delta_files exists files pack =
      with_manifest exists files pack.from pack.end_manifest

  -- The condition of make_pack_full_files under which a file goes whole into a pack.
  unfoldable pub is_full_file : File → Bool
  is_full_file file =
      elim file.peer [ none ↦ true | some a ↦ (at a).is_deleted || (at a).is_ghosted ]
      && not file.is_deleted
      && not file.is_ghosted
      && not (is_some file.rename_peer)

  -- No two files are alike in what find_file_in_list tests.
  abbrev pub OncePerDelta : List File → Type 0
  OncePerDelta = Pairs (λ f g. same_delta g f ≡ false)

  not_found :
      (l : List File) (f : File)
      → find_file_in_list l f ≡ false
      → All (λ g. same_delta g f ≡ false) l
  unfolding find_file_in_list
  not_found [] f h = tt
  not_found (g ∷ l) f h = (ground arith, not_found l f (ground arith))

  walk-OncePerDelta :
      (exists : File → Bool) (from : ℕ) (l files : List File)
      → OncePerDelta files
      → OncePerDelta (delta_walk exists from l files)
  unfolding delta_walk
  walk-OncePerDelta exists from [] files h = h
  walk-OncePerDelta exists from (f ∷ l) files h =
      walk-OncePerDelta exists from l _ (elim (Bool-cases (is_skipped from f)) [
        | inl e ↦ rw e h
        | inr e ↦ elim (Bool-cases (not (exists f) && not (find_file_in_list files f))) [
          | inl d ↦ rw (e, d) (not_found files f (ground arith), h)
          | inr d ↦ rw (e, d) h
        ]
      ])

  with-OncePerDelta :
      (exists : File → Bool) (files : List File) (from : ℕ) (o : Option Manifest)
      → OncePerDelta files
      → OncePerDelta (with_manifest exists files from o)
  with-OncePerDelta exists files from none h = h
  with-OncePerDelta exists files from (some m) h = walk-OncePerDelta exists from m.files files h

  -- If no two files of the list are alike in hash, version and version of the old file then neither
  -- are two of the list after a pack has added its files, so that no two tasks write the same delta.
  pub consolidate_packs_delta_files-OncePerDelta :
      (exists : File → Bool) (files : List File) (pack : PackData)
      → OncePerDelta files
      → OncePerDelta (consolidate_packs_delta_files exists files pack)
  unfolding consolidate_packs_delta_files
  consolidate_packs_delta_files-OncePerDelta exists files pack h =
      with-OncePerDelta exists files pack.from pack.end_manifest h

  walk_keeps :
      (exists : File → Bool) (from : ℕ) (f : File) (l files : List File)
      → find_file_in_list files f ≡ true
      → find_file_in_list (delta_walk exists from l files) f ≡ true
  unfolding delta_walk find_file_in_list
  walk_keeps exists from f [] files h = h
  walk_keeps exists from f (g ∷ l) files h = walk_keeps exists from f l _ (ground arith)

  same_delta_refl : (f : File) → same_delta f f ≡ true
  unfolding hash_compare
  same_delta_refl f = ground (arith, strcmp_refl (take hash_size f.hash))

  -- A file that is passed over, or whose delta exists, or for which the list has its delta.
  abbrev is_served : (File → Bool) → ℕ → List File → File → Bool
  is_served exists from files f = is_skipped from f || exists f || find_file_in_list files f

  walk_serves :
      (exists : File → Bool) (from : ℕ) (l files res : List File)
      → delta_walk exists from l files ≡ res
      → All (λ f. is_served exists from res f ≡ true) l
  unfolding delta_walk
  walk_serves exists from [] files res w = tt
  walk_serves exists from (f ∷ l) files res w = (
    elim (Bool-cases (is_skipped from f || exists f)) [
      | inl e ↦ ground (arith, e)
      | inr e ↦
          let put : find_file_in_list
                (if is_skipped from f
                  then files
                  else if not (exists f) && not (find_file_in_list files f)
                  then f ∷ files
                  else files)
                f
              ≡ true =
            unfold find_file_in_list in ground (arith, same_delta_refl f) in
          let kept : find_file_in_list res f ≡ true = rw (← w) (walk_keeps exists from f l _ put) in
          ground (arith, kept)
    ],
    walk_serves exists from l _ res w,
  )

  -- What the name of the delta says of the old file, besides its version.
  abbrev pub peer_hash : File → Text
  peer_hash file = elim file.peer [ none ↦ [] | some a ↦ (at a).hash ]

  -- Whether the name of the delta of `g`, which has two versions and two hashes, is that of `f`.
  abbrev pub has_delta_of : File → File → Bool
  has_delta_of f g =
      g.last_change == f.last_change
      && peer_last_change g == peer_last_change f
      && hash_compare (peer_hash g) (peer_hash f)
      && hash_compare g.hash f.hash

  -- If `g` has the new hash and both versions of `f` then it has its old hash too.
  abbrev pub HasOneSource : File → File → Type 0
  HasOneSource f g =
      hash_compare g.hash f.hash ≡ true
      → g.last_change ≡ f.last_change
      → peer_last_change g ≡ peer_last_change f
      → hash_compare (peer_hash g) (peer_hash f) ≡ true

  walk_All :
      (P : File → Type 0) (exists : File → Bool) (from : ℕ) (l files : List File)
      → All P l
      → All P files
      → All P (delta_walk exists from l files)
  unfolding delta_walk
  walk_All P exists from [] files a b = b
  walk_All P exists from (f ∷ l) files a b =
      walk_All P exists from l _ a.1 (elim (Bool-cases (is_skipped from f)) [
        | inl e ↦ rw e b
        | inr e ↦ elim (Bool-cases (not (exists f) && not (find_file_in_list files f))) [
          | inl d ↦ rw (e, d) (a.0, b)
          | inr d ↦ rw (e, d) b
        ]
      ])

  found_delta :
      (f : File) (l : List File)
      → All (HasOneSource f) l
      → find_file_in_list l f ≡ true
      → any (has_delta_of f) l ≡ true
  unfolding find_file_in_list
  found_delta f [] a h = h
  found_delta f (g ∷ l) a h = elim (Bool-cases (same_delta g f)) [
    | inl e ↦
        let same_hash : hash_compare g.hash f.hash ≡ true = ground (arith, e) in
        let same_version : g.last_change ≡ f.last_change = ground (arith, e) in
        let same_peer : peer_last_change g ≡ peer_last_change f = ground (arith, e) in
        let one : has_delta_of f g ≡ true =
          ground (arith, e, a.0 same_hash same_version same_peer) in
        ground (arith, one)
    | inr e ↦ ground (arith, e, found_delta f l a.1 (ground (arith, h, e)))
  ]

  -- After a pack has added its files the list has the delta, with the versions and the hashes that
  -- make its name, of each file of its manifest that changed after the old version, has a peer, is
  -- a file, a directory or a link, and whose delta does not exist; unless another file, of the list
  -- or of the manifest, has its new hash and both versions but another old hash.
  pub consolidate_packs_delta_files_complete :
      (exists : File → Bool) (files : List File) (from to : ℕ) (m : Manifest) (f : File)
      → Mem f m.files
      → from < f.last_change
      → is_some f.peer ≡ true
      → (f.is_file || f.is_dir || f.is_link) ≡ true
      → exists f ≡ false
      → All (HasOneSource f) files
      → All (HasOneSource f) m.files
      → any (has_delta_of f) (
          consolidate_packs_delta_files exists files
            (record { from = from; to = to; end_manifest = some m }))
        ≡ true
  unfolding consolidate_packs_delta_files
  consolidate_packs_delta_files_complete exists files from to m f mem new peer typed missing a b =
      let res : List File = delta_walk exists from m.files files in
      let needed : is_skipped from f ≡ false = ground (arith, new, peer, typed) in
      let served : is_served exists from res f ≡ true =
        All-mem (λ x. hlevel) m.files (walk_serves exists from m.files files res refl) f mem in
      found_delta f res (walk_All (HasOneSource f) exists from m.files files b a)
        (ground (arith, served, needed, missing))
