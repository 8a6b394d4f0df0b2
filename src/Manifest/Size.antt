-- ===== src/Manifest/Size.antt =====
-- compute_content_size of src/manifest.c, with the wrap of its 64 bit sum.
use swupd_server.Prelude.{
  ℕ, ◌+◌, ◌*◌, ◌%◌, ◌<◌, ◌≡◌, ◌∙◌, List, [], ◌∷◌, arith, if◌then◌else◌, not, ◌&&◌,
}
use swupd_server.File.{File}
use swupd_server.Manifest.{Manifest}

-- What one file adds; a link and a directory add LINK_SIZE_HINT and DIR_SIZE_HINT.
abbrev pub size_of : File → ℕ
size_of file =
    if file.is_deleted
    then 0
    else if file.is_file
    then file.stat.st_size
    else if file.is_link
    then 1024
    else if file.is_dir
    then 1024
    else 0

-- The loop.
unfoldable pub content_walk : ℕ → List File → ℕ
content_walk contentsize [] = contentsize
content_walk contentsize (file ∷ list) =
    content_walk ((contentsize + size_of file) % 18446744073709551616) list

unfoldable pub compute_content_size : Manifest → Manifest
compute_content_size m = record m { contentsize = content_walk m.contentsize m.files }

-- The sizes of the files that are not deleted.
abbrev pub file_sizes : List File → ℕ
file_sizes [] = 0
file_sizes (file ∷ list) =
    (if file.is_file && not file.is_deleted then file.stat.st_size else 0) + file_sizes list

-- The number of the links that are not deleted.
abbrev pub links : List File → ℕ
links [] = 0
links (file ∷ list) =
    (if file.is_link && not file.is_file && not file.is_deleted then 1 else 0) + links list

-- The number of the directories that are not deleted.
abbrev pub directories : List File → ℕ
directories [] = 0
directories (file ∷ list) =
    (if file.is_dir && not file.is_file && not file.is_link && not file.is_deleted then 1 else 0)
    + directories list

-- The sum of the sizes, without a bound.
abbrev total_size : List File → ℕ
total_size [] = 0
total_size (file ∷ list) = size_of file + total_size list

walk_total :
    (l : List File) (n : ℕ)
    → n < 18446744073709551616
    → content_walk n l ≡ (n + total_size l) % 18446744073709551616
unfolding content_walk
walk_total [] n h = omega arith
walk_total (f ∷ l) n h =
    walk_total l ((n + size_of f) % 18446744073709551616) (omega arith) ∙ omega arith

total_parts : (l : List File) → total_size l ≡ file_sizes l + 1024 * links l + 1024 * directories l
total_parts [] = omega arith
total_parts (f ∷ l) = ground (arith, total_parts l)

-- The content size is what the manifest had and the sizes of its files that are not deleted, with
-- 1024 bytes for each link and 1024 for each directory that is not deleted, and wraps at 64 bits.
pub compute_content_size_total :
    (m : Manifest)
    → m.contentsize < 18446744073709551616
    → (compute_content_size m).contentsize
      ≡ (m.contentsize + file_sizes m.files + 1024 * links m.files + 1024 * directories m.files)
        % 18446744073709551616
unfolding compute_content_size
compute_content_size_total m h =
    walk_total m.files m.contentsize h ∙ omega (arith, total_parts m.files)
