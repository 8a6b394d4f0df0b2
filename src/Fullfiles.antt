-- ===== src/Fullfiles.antt =====
-- get_deduplicated_fullfile_list of src/fullfiles.c: for which files of a new version a full file is
-- made, one for each hash.
pub mod Hashes
use swupd_server.Prelude.{ℕ, List, [], ◌∷◌, Bool, not, ◌||◌, if◌then◌else◌, ◌==◌}
use swupd_server.File.{File, hash_compare, file_sort_hash, file_sort_filename}
use swupd_server.Sorter.{Sorter}
use swupd_server.Manifest.{Manifest}

-- The second loop.
unfoldable pub unique_walk : ℕ → File → List File → List File → List File
unique_walk version prev [] outfiles = outfiles
unique_walk version prev (file ∷ list) outfiles =
    if file.is_deleted || not (file.last_change == version)
    then unique_walk version prev list outfiles
    else if not (hash_compare prev.hash file.hash)
    then unique_walk version file list (file ∷ outfiles)
    else unique_walk version prev list outfiles

-- The first loop looks for the first new file; the second one starts at that file.
unfoldable pub first_new : ℕ → List File → List File
first_new version [] = []
first_new version (tmp ∷ list) =
    if tmp.last_change == version
    then unique_walk version tmp (tmp ∷ list) (tmp ∷ [])
    else first_new version list

-- The manifest, whose files are sorted by hash, and the list that is returned.
unfoldable pub get_deduplicated_fullfile_list : Sorter File → Manifest → Manifest × List File
get_deduplicated_fullfile_list s m =
    let files = s.sort file_sort_hash m.files in
    (record m { files = files }, s.sort file_sort_filename (first_new m.version files))
