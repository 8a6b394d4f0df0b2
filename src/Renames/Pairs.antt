-- ===== src/Renames/Pairs.antt =====
-- What the links of renames that src/rename.c and clean_renames of src/manifest.c set are good for.
use mathlib.Core.List.{Mem, mem-cons_self, mem-cons_of_mem}
use mathlib.Core.List.Perm
use swupd_server.Prelude.{
  ℕ, ◌≡◌, ◌⊎◌, refl, List, [], ◌∷◌, some, Bool, true, false, not, ◌||◌, ◌==◌, arith, if◌then◌else◌,
  All, All-mem, All-perm, Bool-cases, inl, inr, map, ==_iff, Option-cases, none,
}
use swupd_server.File.{File, hash_compare, file_sort_version, is_some}
use swupd_server.File.Order.{hash_compare_comm}
use swupd_server.Sorter.{Sorter}
use swupd_server.Manifest.{Manifest}
use swupd_server.Renames.{
  Links, set, new_filtered_list, renamed_file_p, is_pair, link_rest, link_walk, final_link,
  clean_file, clean_renames, find_origin, origin_walk, link_renames,
}

set-other :
    (peers : Links) (a b c : ℕ) (p : ℕ)
    → peers a ≡ none
    → peers c ≡ some b
    → set peers a p c ≡ some b
set-other peers a b c p h k = elim (Bool-cases (c == a)) [
  | inl e ↦
      let at_a : c ≡ a = (==_iff c a).0 e in
      let found : peers a ≡ some b = rw (← at_a) k in absurd (ground (arith, h, found))
  | inr e ↦ ground arith
]

walk_keeps :
    (to_version : ℕ) (targets l : List File) (peers links : Links) (a b : ℕ)
    → peers a ≡ some b
    → (origin_walk to_version targets l peers links).0 a ≡ some b
unfolding origin_walk
walk_keeps v targets [] peers links a b h = h
walk_keeps v targets (f ∷ l) peers links a b h =
    elim (Bool-cases (is_some (peers f.addr) || f.is_deleted)) [
      | inl e ↦ rw e (walk_keeps v targets l peers links a b h)
      | inr e ↦ elim (Option-cases (find_origin v peers f targets)) [
        | inl n ↦ rw (e, n) (walk_keeps v targets l peers links a b h)
        | inr (p, n) ↦
            let unlinked : peers f.addr ≡ none = ground arith in
            rw (e, n)
              (walk_keeps v targets l (set peers f.addr p) _ a b
                (set-other peers f.addr b a p unlinked h))
      ]
    ]

-- A file that has a peer keeps it: link_renames gives peers to files that have none only.
pub link_renames_keeps :
    (s : Sorter File) (to_version : ℕ) (newfiles : List File) (peers links : Links) (a b : ℕ)
    → peers a ≡ some b
    → (link_renames s to_version newfiles peers links).0 a ≡ some b
unfolding link_renames
link_renames_keeps s v newfiles peers links a b h =
    walk_keeps v _ (s.sort file_sort_version (new_filtered_list renamed_file_p newfiles [])) peers
      links a b h

-- The address `b` is that of a file of the list that is the other half of the rename of a file at
-- `a`: it has its last change and its hash, and just one of the two is deleted.
pub record Pair (files : List File) (a b : ℕ) : Type 0 where
  pub half : File
  pub other : File
  pub half_in : Mem half files
  pub other_in : Mem other files
  pub half_at : half.addr ≡ a
  pub other_at : other.addr ≡ b
  pub version : half.last_change ≡ other.last_change
  pub one_deleted : half.is_deleted ≡ not other.is_deleted
  pub contents : hash_compare half.hash other.hash ≡ true
  pub marked : (half.is_rename ≡ true) × (other.is_rename ≡ true)

-- A link that was not there before is one of a pair.
abbrev pub Sound : List File → Links → Links → Type 0
Sound files before links = (a b : ℕ) → links a ≡ some b → (before a ≡ some b) ⊎ Pair files a b

make-Pair :
    (files : List File) (f g : File)
    → Mem f files
    → Mem g files
    → f.is_rename ≡ true
    → g.is_rename ≡ true
    → is_pair f g ≡ true
    → Pair files f.addr g.addr × Pair files g.addr f.addr
make-Pair files f g mf mg rf rg h = (
  record {
    half = f;
    other = g;
    half_in = mf;
    other_in = mg;
    half_at = refl;
    other_at = refl;
    version = ground arith;
    one_deleted = ground arith;
    contents = ground (arith, hash_compare_comm f.hash g.hash);
    marked = (rf, rg);
  },
  record {
    half = g;
    other = f;
    half_in = mg;
    other_in = mf;
    half_at = refl;
    other_at = refl;
    version = ground arith;
    one_deleted = ground arith;
    contents = ground arith;
    marked = (rg, rf);
  },
)

set-Sound :
    (files : List File) (before links : Links) (a b : ℕ)
    → Sound files before links
    → Pair files a b
    → Sound files before (set links a b)
set-Sound files before links a b h p x y k = elim (Bool-cases (x == a)) [
  | inl e ↦
      let at_a : x ≡ a = (==_iff x a).0 e in
      let to_b : b ≡ y = ground arith in inr (rw (at_a, ← to_b) p)
  | inr e ↦ h x y (ground arith)
]

-- A renamed file of the list.
abbrev IsTarget : List File → File → Type 0
IsTarget files f = Mem f files × (f.is_rename ≡ true)

link_rest-Sound :
    (files : List File) (before : Links) (f : File) (l : List File) (links : Links)
    → IsTarget files f
    → All (IsTarget files) l
    → Sound files before links
    → Sound files before (link_rest f l links)
unfolding link_rest
link_rest-Sound files before f [] links t h s = s
link_rest-Sound files before f (g ∷ l) links t h s =
    link_rest-Sound files before f l _ t h.1 (elim (Bool-cases (is_pair f g)) [
      | inr e ↦ rw e s
      | inl e ↦
          let pairs = make-Pair files f g t.0 h.0.0 t.1 h.0.1 e in
          rw e (
            set-Sound files before (set links f.addr g.addr) g.addr f.addr
              (set-Sound files before links f.addr g.addr s pairs.0) pairs.1)
    ])

link_walk-Sound :
    (files : List File) (before : Links) (l : List File) (links : Links)
    → All (IsTarget files) l
    → Sound files before links
    → Sound files before (link_walk l links)
unfolding link_walk
link_walk-Sound files before [] links h s = s
link_walk-Sound files before (f ∷ l) links h s =
    link_walk-Sound files before l _ h.1 (elim (Bool-cases (is_some (links f.addr))) [
      | inl e ↦ rw e s
      | inr e ↦ rw e (link_rest-Sound files before f l links h.0 h.1 s)
    ])

put_All :
    (P : File → Type 0) (c : Bool) (f : File) (l : List File)
    → (c ≡ true → P f)
    → All P l
    → All P (if c then f ∷ l else l)
put_All P true f l p h = (p refl, h)
put_All P false f l p h = h

filtered_targets :
    (files l out : List File)
    → ((f : File) → Mem f l → Mem f files)
    → All (IsTarget files) out
    → All (IsTarget files) (new_filtered_list renamed_file_p l out)
unfolding new_filtered_list renamed_file_p
filtered_targets files [] out m h = h
filtered_targets files (f ∷ l) out m h =
    filtered_targets files l _ (λ g k. m g (mem-cons_of_mem f k))
      (put_All (IsTarget files) f.is_rename f out (λ e. (m f mem-cons_self, e)) h)

-- Every link that final_link sets joins the two files of one rename: both are files of the list,
-- marked as renamed, with one last change and one hash, and just one of them is deleted. Every
-- other link was there before.
pub final_link-Sound :
    (s : Sorter File) (files : List File) (links : Links)
    → Sound files links (final_link s files links)
unfolding final_link
final_link-Sound s files links =
    let targets : List File = new_filtered_list renamed_file_p files [] in
    link_walk-Sound files links (s.sort file_sort_version targets) links
      (All-perm (λ f. hlevel) (Perm.symm (s.perm file_sort_version targets))
        (filtered_targets files files [] (λ f k. k) tt))
      (λ a b k. inl k)

clean_file-linked :
    (links : Links) (f : File)
    → (not (clean_file links f).is_rename || is_some (links (clean_file links f).addr)) ≡ true
unfolding clean_file
clean_file-linked links f = ground arith

cleaned_All :
    (links : Links) (l : List File)
    → All (λ f. (not f.is_rename || is_some (links f.addr)) ≡ true) (map (clean_file links) l)
cleaned_All links [] = tt
cleaned_All links (f ∷ l) = (clean_file-linked links f, cleaned_All links l)

-- A file that is still marked as renamed after clean_renames has a link, which was there before or
-- is to the other half of its rename.
pub clean_renames_linked :
    (s : Sorter File) (m : Manifest) (links : Links) (f : File)
    → Mem f (clean_renames s m links).0.files
    → f.is_rename ≡ true
    → (b : ℕ) × ((clean_renames s m links).1 f.addr ≡ some b)
      × ((links f.addr ≡ some b) ⊎ Pair m.files f.addr b)
unfolding clean_renames
clean_renames_linked s m links f mem h =
    let after : Links = final_link s m.files links in
    let linked : (not f.is_rename || is_some (after f.addr)) ≡ true =
      All-mem (λ x. hlevel) (map (clean_file after) m.files) (cleaned_All after m.files) f mem in
    elim (Option-cases (after f.addr)) [
      | inl e ↦ absurd (ground (arith, linked))
      | inr (b, e) ↦ (b, e, final_link-Sound s m.files links f.addr b e)
    ]
