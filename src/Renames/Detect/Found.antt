-- ===== src/Renames/Detect/Found.antt =====
-- What rename_detection (src/rename.c) makes of a manifest.
use mathlib.Core.List.{Mem}
use mathlib.Core.List.Perm
use swupd_server.Prelude.{
  ℕ, suc, ◌+◌, ◌*◌, ◌≤◌, ◌<◌, ◌≡◌, refl, List, [], ◌∷◌, Option, none, some, true, false, ◌==◌,
  arith, length, All, All-imp, All-perm, All-of_mem, All-mem, Pairs, Pairs-perm, map, length-perm,
}
use swupd_server.File.{File}
use swupd_server.Text.{Text}
use swupd_server.Sorter.{Sorter}
use swupd_server.Manifest.{Manifest}
use swupd_server.Renames.{new_filtered_list, new_file_p}
use swupd_server.Renames.Detect.{
  Scored, Rename, score_file, file_sort_score, detect_fuel, deleted_p, mark_renamed, detect_start,
  rename_detection, first_list, prepared, peer_score,
}
use swupd_server.Renames.Detect.Filtered.{Other, kept, unmixed, length-filtered}
use swupd_server.Renames.Detect.Ends.{
  IsFree, measure, count-le-length, is_stale, count, detect_ends,
}
use swupd_server.Renames.Detect.Once.{
  Apart, IsEarned, IsRightful, Sound, best_file, best-Rightful, detect-Sound, IsRightful-prop,
  addr_flip,
}

enough_fuel : (n k c : ℕ) → n ≤ k → c ≤ n → n * suc n + c < detect_fuel k
enough_fuel n k c h e = grind arith

-- A rename joins a file of a manifest that is new to one that is gone, with a score of 15 or more in
-- the code.
abbrev pub Joins : (File → File → ℕ) → (File → Option File) → Manifest → Rename → Type 0
Joins score peer_of m r =
    Mem r.file m.files
    × (new_file_p m.version r.file ≡ true)
    × Mem r.origin m.files
    × (deleted_p peer_of m.version r.origin ≡ true)
    × (215 ≤ score r.origin r.file)

module _ (sorter : Sorter Scored) (score : File → File → ℕ) (D N : List File) where
  scored-IsRightful :
      (l : List File)
      → All (λ x. Mem x N) l
      → All (IsRightful sorter score D N) (map (score_file score D) l)
  unfolding score_file
  scored-IsRightful [] h = tt
  scored-IsRightful (x ∷ l) h = (
    best-Rightful sorter score D N x D 100 none h.0 (All-of_mem D (λ d i. i)) tt,
    scored-IsRightful l h.1,
  )

  same_file : (y : File) → (score_file score D y).file ≡ y
  unfolding score_file
  same_file y = best_file sorter score D N y D 100 none

  apart_one :
      (x : File) (l : List File)
      → All (Other x) l
      → All
          (λ y. ((score_file score D x).file.addr == y.file.addr) ≡ false)
          (map (score_file score D) l)
  apart_one x [] h = tt
  apart_one x (y ∷ l) h = (rw (same_file x, same_file y) h.0, apart_one x l h.1)

  scored_apart :
      (l : List File)
      → Pairs Other l
      → Pairs (λ x y. (x.file.addr == y.file.addr) ≡ false) (map (score_file score D) l)
  scored_apart [] h = tt
  scored_apart (x ∷ l) h = (apart_one x l h.0, scored_apart l h.1)

module _ (sorter : Sorter Scored) (score : File → File → ℕ) (peer_of : File → Option File) where
  first-IsRightful :
      (D N : List File) → All (IsRightful sorter score D N) (first_list sorter score peer_of D N)
  first-IsRightful [] N = tt
  first-IsRightful (d ∷ l) N =
      All-perm (IsRightful-prop sorter score (d ∷ l) N)
        (Perm.symm (sorter.perm file_sort_score (map (score_file score (d ∷ l)) N)))
        (scored-IsRightful sorter score (d ∷ l) N N (All-of_mem N (λ x i. i)))

  first_apart :
      (D N : List File)
      → Pairs Other N
      → Pairs (λ x y. (x.file.addr == y.file.addr) ≡ false) (first_list sorter score peer_of D N)
  first_apart [] N h = tt
  first_apart (d ∷ l) N h =
      Pairs-perm (λ a b. hlevel) (addr_flip sorter score (d ∷ l) N)
        (Perm.symm (sorter.perm file_sort_score (map (score_file score (d ∷ l)) N)))
        (scored_apart sorter score (d ∷ l) N N h)

  length_first : (D N : List File) → length (first_list sorter score peer_of D N) ≤ length N
  length_first [] N = omega arith
  length_first (d ∷ l) N =
      rw (length-perm (sorter.perm file_sort_score (map (score_file score (d ∷ l)) N)))
        (mapped (d ∷ l) N)
    where
      mapped : (D N : List File) → length (map (score_file score D) N) ≤ length N
      mapped D [] = omega arith
      mapped D (x ∷ l) = omega (arith, mapped D l)

  start-IsFree : (m : Manifest) → Pairs Other m.files → IsFree (detect_start sorter score peer_of m)
  unfolding detect_start
  start-IsFree m h =
      let deleted_files : List File = new_filtered_list (deleted_p peer_of m.version) m.files [] in
      record {
        untaken = All-of_mem deleted_files (λ d i. refl);
        apart = unmixed (deleted_p peer_of m.version) m.files h;
      }

  start-Sound :
      (m : Manifest)
      → Pairs Other m.files
      → Sound sorter score
          (new_filtered_list (deleted_p peer_of m.version) m.files [])
          (new_filtered_list (new_file_p m.version) m.files [])
          (detect_start sorter score peer_of m)
  unfolding detect_start
  start-Sound m h =
      let D : List File = new_filtered_list (deleted_p peer_of m.version) m.files [] in
      let N : List File = new_filtered_list (new_file_p m.version) m.files [] in
      record {
        deleted_in = All-of_mem D (λ d i. i);
        rightful = first-IsRightful D N;
        news_apart = first_apart D N (unmixed (new_file_p m.version) m.files h);
        earned = tt;
        taken = tt;
        done = tt;
        apart = tt;
      }

  start_measure :
      (m : Manifest)
      → measure
          (detect_start sorter score peer_of m).taken
          (detect_start sorter score peer_of m).new_files
        < detect_fuel (length m.files)
  unfolding detect_start
  start_measure m =
      let D : List File = new_filtered_list (deleted_p peer_of m.version) m.files [] in
      let N : List File = new_filtered_list (new_file_p m.version) m.files [] in
      let l : List Scored = first_list sorter score peer_of D N in
      enough_fuel (length l) (length m.files) (count (is_stale (λ a. none)) l)
        (omega (arith, length_first D N, length-filtered (new_file_p m.version) m.files []))
        (count-le-length (is_stale (λ a. none)) l)

  earned_Joins :
      (m : Manifest) (r : Rename)
      → IsEarned sorter score
          (new_filtered_list (deleted_p peer_of m.version) m.files [])
          (new_filtered_list (new_file_p m.version) m.files [])
          r
      → Joins score peer_of m r
  earned_Joins m r (n, d, high) =
      let new = All-mem (λ x. hlevel) _ (kept (new_file_p m.version) m) r.file n in
      let old = All-mem (λ x. hlevel) _ (kept (deleted_p peer_of m.version) m) r.origin d in
      (new.0, new.1, old.0, old.1, high)

module _ (sorter : Sorter Scored) (precompute : ℕ → Text → File → File)
    (peer_of : File → Option File) where
  -- For a manifest no two of whose files are at one address, rename_detection returns, although it
  -- starts again whenever a candidate was taken. It has found a list of renames, of which each joins
  -- a file that is new in this version to one that was deleted in it, with a score of 15 or more, and
  -- no file is in two. Beyond the data it computes for the new files it changes the manifest only by
  -- marking the files of these renames and giving a deleted file the hash of its new one.
  pub rename_detection_found :
      (m : Manifest)
      → Pairs Other m.files
      → (renames : List Rename) × (rename_detection sorter precompute peer_of m
          ≡ some (record m {
            files =
                map (λ f. mark_renamed renames (prepared sorter precompute peer_of m f)) m.files;
          }))
        × All (Joins (peer_score precompute peer_of m) peer_of m) renames
        × Pairs Apart renames
  unfolding rename_detection
  rename_detection_found m h =
      let score : File → File → ℕ = peer_score precompute peer_of m in
      let D : List File = new_filtered_list (deleted_p peer_of m.version) m.files [] in
      let N : List File = new_filtered_list (new_file_p m.version) m.files [] in
      let (s, e) =
        detect_ends sorter score (detect_fuel (length m.files))
          (detect_start sorter score peer_of m) (start-IsFree sorter score peer_of m h)
          (start_measure sorter score peer_of m) in
      let sound =
        detect-Sound sorter score D N (detect_fuel (length m.files))
          (detect_start sorter score peer_of m) s (start-Sound sorter score peer_of m h) e in
      (
        s.renames,
        rw (rename_detection, e) refl,
        All-imp _ _ (λ r k. earned_Joins sorter score peer_of m r k) s.renames sound.earned,
        sound.apart,
      )
