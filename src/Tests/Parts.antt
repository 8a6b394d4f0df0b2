-- ===== src/Tests/Parts.antt =====
-- Renames, extended attributes and manifest files, at concrete values.
use mathlib.Core.List.Perm
use swupd_server.Prelude.{
  ℕ, ◌≡◌, refl, List, [], ◌∷◌, ◌++◌, Option, none, some, true, arith, ◌==◌, All, Pairs,
  if◌then◌else◌, map,
}
use swupd_server.Text.{Text, codes, same, strcmp}
use swupd_server.File.{File}
use swupd_server.Sorter.Insertion.{insertion_sorter}
use swupd_server.Manifest.{Manifest}
use swupd_server.Text.Decimal.{decimal, digits}
use swupd_server.Manifest.Flags.{file_type_to_string}
use swupd_server.Manifest.Writer.{file_line, manifest_lines, manifest_text}
use swupd_server.Manifest.Reader.{manifest_from_file}
use swupd_server.Manifest.Reader.Whole.{
  every, is_line, manifest_read, manifest_from_file-manifest_text,
}
use swupd_server.Renames.Score.{precompute_file_data}
use swupd_server.Renames.Detect.{Rename, peer_score, prepared, rename_detection, mark_renamed}
use swupd_server.Renames.Detect.Once.{Apart}
use swupd_server.Renames.Detect.Found.{Joins, rename_detection_found}
use swupd_server.Xattrs.{names_of, xattrs_get_blob}
use swupd_server.Xattrs.Blobs.{xattrs_get_blob-perm}
use swupd_server.Tests.{file, gone, manifest_of, bundle_20}

-- A library whose version number is in its name, and a file that only is new.
abbrev moved : Manifest
moved = manifest_of 20 (codes "core") (
    file 1 (codes "/usr/lib/libz.so.1.2") (codes "a2") 20
    ∷ gone 2 (codes "/usr/lib/libz.so.1.1") 20
    ∷ file 3 (codes "/etc/motd") (codes "c3") 20
    ∷ [])

abbrev old_library : File
old_library = file 4 (codes "/usr/lib/libz.so.1.1") (codes "a1") 10

abbrev peer_of_moved : File → Option File
peer_of_moved f = if f.addr == 2 then some old_library else none

-- The file system, in which each file has 4096 bytes.
abbrev precompute : ℕ → Text → File → File
precompute version component f =
    precompute_file_data (codes "/image") (λ path. some 4096) (λ path. codes "data") (λ path. path)
      (λ path. codes "/usr/lib") version component f

rename_detection_found_example :
    (renames : List Rename) × (rename_detection insertion_sorter precompute peer_of_moved moved
      ≡ some (record moved {
        files =
            map
              (λ f.
                mark_renamed renames (prepared insertion_sorter precompute peer_of_moved moved f))
              moved.files;
      }))
    × All (Joins (peer_score precompute peer_of_moved moved) peer_of_moved moved) renames
    × Pairs Apart renames
rename_detection_found_example =
    rename_detection_found insertion_sorter precompute peer_of_moved moved
      ((refl, (refl, tt)), ((refl, tt), (tt, tt)))

-- The attributes of two files, which the file system lists in different orders.
abbrev listxattr : Text → Option Text
listxattr path =
    if same path (codes "a")
    then some (codes "user.x" ++ 0 ∷ codes "security.ima" ++ 0 ∷ [])
    else some (codes "security.ima" ++ 0 ∷ codes "user.x" ++ 0 ∷ [])

abbrev getxattr : Text → Text → Option Text
getxattr path name = some (codes "v")

xattrs_get_blob-perm_example :
    xattrs_get_blob insertion_sorter listxattr getxattr (codes "a")
    ≡ xattrs_get_blob insertion_sorter listxattr getxattr (codes "b")
unfolding names_of strcmp
xattrs_get_blob-perm_example =
    xattrs_get_blob-perm insertion_sorter listxattr getxattr (codes "a") (codes "b")
      (Perm.swap (codes "security.ima") (codes "user.x") []) (λ name. refl)

-- A bundle that includes two others.
abbrev written_20 : Manifest
written_20 = record bundle_20 { includes = codes "core" ∷ codes "editors" ∷ [] }

-- A manifest in the file system, and its reading.
abbrev written_files : Text → Option Text
written_files path = some (manifest_text 30 1700000000 (some (codes "ACTIVE")) written_20)

written_lines :
    every is_line (manifest_lines 30 1700000000 (some (codes "ACTIVE")) written_20) ≡ true
unfolding file_line file_type_to_string decimal digits
written_lines = refl

manifest_from_file-manifest_text_example :
    manifest_from_file insertion_sorter written_files
      (codes "/out")
      1
      (λ version component. 1)
      1
      20
      (codes "shell")
    ≡ some (
        some (
          manifest_read insertion_sorter written_files
            (codes "/out")
            1
            (λ version component. 1)
            30
            20
            (codes "shell")
            written_20))
manifest_from_file-manifest_text_example =
    manifest_from_file-manifest_text insertion_sorter written_files (codes "/out") 1
      (λ version component. 1) 0 20 (codes "shell") 30 1700000000 (some (codes "ACTIVE")) written_20
      refl refl written_lines refl (omega arith) (omega arith) (omega arith) refl
