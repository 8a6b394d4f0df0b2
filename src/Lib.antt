-- ===== src/Lib.antt =====
-- Verification of swupd-server, the server side of a software updater: from the files of an image
-- it computes, per version, a manifest of each bundle, which a client reads to update itself.
--
-- The program is a set of C files under src/ that share the structures of include/swupd.h. A
-- manifest lists files (struct file) with a hash, a last change and marks; src/create_update.c
-- builds the manifests of a new version from directories, compares each with the old one, takes
-- out what included bundles bring, prunes it and writes it.
--
-- The files of the model, and the code that they translate:
--   Prelude, Prelude/*    tests on numbers, lists, "every element", and case splits
--   Text, Text/Order      C strings as lists of unsigned bytes; strcmp and strncmp
--   Sorter                g_list_sort of GLib, as a parameter with its documented laws;
--                         Sorter/Insertion is a function that has them
--   File, File/Order      struct file and the hash functions of src/analyze_fs.c, the compare
--                         functions of src/manifest.c
--   Walk, Walk/*          what a walk over two sorted lists of files computes, without the walk
--   Stats, Config         src/stats.c; the values of server.ini that src/config.c and
--                         file_is_debuginfo of src/helpers.c read
--   Heuristics            src/heuristics.c
--   Manifest              struct manifest
--   Manifest/Subtract     subtract_manifests and subtract_manifests_frontend of src/manifest.c
--   Manifest/Match        match_manifests, add_deleted_file and same_file_contents of src/manifest.c
--   Manifest/Deprecated   remove_deprecated_files of src/manifest.c, and the functions that main of
--                         src/create_update.c passes to it
--   Manifest/Prune        prune_manifest of src/manifest.c
--   Manifest/Maximize     maximize_version_manifests and maximize_to_full of src/manifest.c
--   Manifest/Hashes       add_component_hashes_to_manifest of src/analyze_fs.c
--   Manifest/Consolidate  consolidate_submanifests of src/manifest.c
--   Types                 src/type_change.c
--   Versions, Versions/*  get_last_versions_list of src/versions.c
--   Fullfiles, Fullfiles/Hashes get_deduplicated_fullfile_list of src/fullfiles.c
--   Packs                 consolidate_packs_delta_files of src/pack.c, and which files go whole into a
--                         pack
--   Manifest/Flags        file_type_to_string of src/manifest.c, and the part of manifest_from_file
--                         that reads what it writes
--   Renames, Renames/*    final_link, link_renames and the filters of src/rename.c, clean_renames of
--                         src/manifest.c
--   Manifest/Nested       changed_includes, nest_manifest and their like in src/manifest.c
--   Names                 illegal_characters of src/analyze_fs.c
--   Manifest/Size         compute_content_size of src/manifest.c
--   Renames/Score         rename_score and precompute_file_data of src/rename.c
--   Renames/Detect, Renames/Detect/* rename_detection of src/rename.c, its end and its renames
--   Xattrs, Xattrs/Blobs  src/xattrs.c
--   Text/Decimal          numbers in decimal, as printf writes and strtoull reads them
--   Analyze, Analyze/Hash, Analyze/Lines populate_file_struct, compute_hash and get_hash of src/analyze_fs.c
--   Analyze/Directory, Analyze/Directory/* add_file, iterate_directory and the two functions that make
--                         the manifest of a directory, of src/analyze_fs.c; the fuel is for the depth
--   Manifest/Writer       write_manifest_plain of src/manifest.c
--   Manifest/Reader, Manifest/Reader/* manifest_from_file of src/manifest.c, which reads what was written;
--                         the fuel is for how deep manifests are nested
--   Groups, Groups/Visits next_group of src/groups.c, check_group_file and populate_dirs of
--                         src/create_update.c
--   Update, Update/Listed the step of main of src/create_update.c for one bundle
--   Tests                 concrete manifests, and the properties at them
--
-- A list of the program (GList) is a List, and an operation that changes a manifest returns the
-- manifest after the call. A file object has an address, which is what the pointers peer and
-- rename_peer of another file hold; the two manifests of a call share no file object, except where
-- subtract_manifests is called with one manifest twice, which has an argument of its own. A version
-- is not negative and is a natural number; a count that goes down is one that is not 0. The walks
-- over lists are recursion on them. Four loops have fuel: rename_detection, for which n * (n + 1) + n + 1
-- rounds are enough with n files, since a round drops a new file or gives one a candidate that is
-- free; iterate_directory, for which the depth of the directory is enough; the loops over the groups,
-- with one more than the groups; and manifest_from_file, for how deep manifests are nested. The content size wraps at 64 bits; the counter of
-- get_last_versions_list, which can be -1, is modelled by its successor. Output to the terminal and to the
-- log is left out. The names of the staging directory are numbers below 2^31, which atoi reads. A hash
-- that compute_hash does not give is none, whether it returns -1 or its assertion on mmap fails: the
-- program stops at both. The results about a walk ask for filenames that do not occur twice in a manifest,
-- as they do not in a directory or in a file system image; those on consolidation do not.
--
-- Not modelled: the making of deltas and packs (src/delta.c, the rest of src/pack.c), the making of full files
-- but for their list, get_unique_includes, the rest of main of the programs and rename detection within
-- it. The rest calls the file system, processes, tar, openssl, GLib key files and libmagic.
pub mod Prelude
pub mod Text
pub mod Sorter
pub mod File
pub mod Walk
pub mod Stats
pub mod Config
pub mod Manifest
pub mod Heuristics
pub mod Types
pub mod Fullfiles
pub mod Packs
pub mod Renames
pub mod Names
pub mod Versions
pub mod Analyze
pub mod Groups
pub mod Update
pub mod Xattrs
mod Tests
