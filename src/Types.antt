-- ===== src/Types.antt =====
-- src/type_change.c: which changes of a file's type stop the program. The pointer `peer` is an
-- address, and `at` gives the file at an address. Where the program exits, the result is `none`, of
-- type_change_detection `false`.
use swupd_server.Prelude.{
  ℕ, ◌≡◌, ◌↔◌, ap, refl, List, [], ◌∷◌, Option, none, some, Bool, true, false, arith, if◌then◌else◌,
  All, ◌==◌, inl, inr, Bool-cases, ◌+◌,
}
use swupd_server.File.{File}
use swupd_server.Manifest.{Manifest}

-- The characters 'F', 'D', 'L' and 'M'.
pub data FileType : Type 0 where
  regular directory symlink manifest : FileType

unfoldable pub file_type : File → Option FileType
file_type file =
    if file.is_file
    then some FileType.regular
    else if file.is_dir
    then some FileType.directory
    else if file.is_link
    then some FileType.symlink
    else if file.is_manifest
    then some FileType.manifest
    else none

-- Whether a change from one type to another is refused.
abbrev pub is_refused : FileType → FileType → Bool
is_refused FileType.regular FileType.manifest = true
is_refused FileType.regular _ = false
is_refused FileType.symlink FileType.manifest = true
is_refused FileType.symlink _ = false
is_refused FileType.directory FileType.directory = false
is_refused FileType.directory _ = true
is_refused FileType.manifest FileType.manifest = false
is_refused FileType.manifest _ = true

abbrev pub types_changed : Option FileType → Option FileType → Option Bool
types_changed none type2 = none
types_changed (some type1) none = none
types_changed (some type1) (some type2) = some (is_refused type1 type2)

abbrev pub changed_from : File → Option File → Option Bool
changed_from file none = some false
changed_from file (some peer) =
    if peer.is_deleted
    then some false
    else if file.is_deleted
    then some false
    else types_changed (file_type peer) (file_type file)

abbrev pub peer_of : (ℕ → Option File) → File → Option File
peer_of at file = elim file.peer [ none ↦ none | some a ↦ at a ]

unfoldable pub type_has_changed : (ℕ → Option File) → File → Option Bool
type_has_changed at file = changed_from file (peer_of at file)

-- The loop: the number of refused changes.
unfoldable pub count_changes : (ℕ → Option File) → List File → Option ℕ
count_changes at [] = some 0
count_changes at (file ∷ l) = elim (type_has_changed at file) [
  | none ↦ none
  | some b ↦ elim (count_changes at l) [ none ↦ none | some n ↦ some (if b then n + 1 else n) ]
]

-- Whether the function returns; else the program exits.
unfoldable pub type_change_detection : (ℕ → Option File) → Manifest → Bool
type_change_detection at m = elim (count_changes at m.files) [ none ↦ false | some n ↦ n == 0 ]

-- A change from one type to another that a client can make: none at all, or one of a regular file
-- or a symbolic link to a file, a directory or a link.
pub data Transition : FileType → FileType → Type 0 where
  stay : (t : FileType) → Transition t t
  file_to_link : Transition FileType.regular FileType.symlink
  file_to_directory : Transition FileType.regular FileType.directory
  link_to_file : Transition FileType.symlink FileType.regular
  link_to_directory : Transition FileType.symlink FileType.directory

-- A file that is there and has a peer that is there is of a known type, as its peer is, and a
-- client can make the change.
abbrev pub Compatible : (ℕ → Option File) → File → Type 0
Compatible at file =
    (peer : File)
    → peer_of at file ≡ some peer
    → peer.is_deleted ≡ false
    → file.is_deleted ≡ false
    → (type1 : FileType) × (type2 : FileType) × (file_type peer ≡ some type1)
      × (file_type file ≡ some type2)
      × Transition type1 type2

to_Transition : (a b : FileType) → is_refused a b ≡ false → Transition a b
to_Transition FileType.regular FileType.regular h = Transition.stay _
to_Transition FileType.regular FileType.directory h = Transition.file_to_directory
to_Transition FileType.regular FileType.symlink h = Transition.file_to_link
to_Transition FileType.regular FileType.manifest h = cc
to_Transition FileType.directory FileType.regular h = cc
to_Transition FileType.directory FileType.directory h = Transition.stay _
to_Transition FileType.directory FileType.symlink h = cc
to_Transition FileType.directory FileType.manifest h = cc
to_Transition FileType.symlink FileType.regular h = Transition.link_to_file
to_Transition FileType.symlink FileType.directory h = Transition.link_to_directory
to_Transition FileType.symlink FileType.symlink h = Transition.stay _
to_Transition FileType.symlink FileType.manifest h = cc
to_Transition FileType.manifest FileType.regular h = cc
to_Transition FileType.manifest FileType.directory h = cc
to_Transition FileType.manifest FileType.symlink h = cc
to_Transition FileType.manifest FileType.manifest h = Transition.stay _

of_Transition : (a b : FileType) → Transition a b → is_refused a b ≡ false
of_Transition a b (Transition.stay FileType.regular) = refl
of_Transition a b (Transition.stay FileType.directory) = refl
of_Transition a b (Transition.stay FileType.symlink) = refl
of_Transition a b (Transition.stay FileType.manifest) = refl
of_Transition a b Transition.file_to_link = refl
of_Transition a b Transition.file_to_directory = refl
of_Transition a b Transition.link_to_file = refl
of_Transition a b Transition.link_to_directory = refl

types_unchanged :
    (a b : Option FileType)
    → types_changed a b ≡ some false
    → (type1 : FileType) × (type2 : FileType) × (a ≡ some type1)
      × (b ≡ some type2)
      × Transition type1 type2
types_unchanged none b h = cc
types_unchanged (some a) none h = cc
types_unchanged (some a) (some b) h = (a, b, refl, refl, to_Transition a b (ground arith))

unchanged-Compatible :
    (at : ℕ → Option File) (file : File)
    → type_has_changed at file ≡ some false
    → Compatible at file
unfolding type_has_changed
unchanged-Compatible at file h peer e d d' =
    types_unchanged (file_type peer) (file_type file) (by_peer (rw e at h))
  where
    by_peer :
        changed_from file (some peer) ≡ some false
        → types_changed (file_type peer) (file_type file) ≡ some false
    by_peer k = ground arith

unchanged_by_peer :
    (file : File) (o : Option File)
    → ((peer : File)
        → o ≡ some peer
        → peer.is_deleted ≡ false
        → file.is_deleted ≡ false
        → types_changed (file_type peer) (file_type file) ≡ some false)
    → changed_from file o ≡ some false
unchanged_by_peer file none h = refl
unchanged_by_peer file (some peer) h = elim (Bool-cases peer.is_deleted) [
  | inl d ↦ rw d refl
  | inr d ↦ elim (Bool-cases file.is_deleted) [
    | inl e ↦ ground arith
    | inr e ↦ ground (arith, h peer refl d e)
  ]
]

Compatible-unchanged :
    (at : ℕ → Option File) (file : File)
    → Compatible at file
    → type_has_changed at file ≡ some false
unfolding type_has_changed
Compatible-unchanged at file h = unchanged_by_peer file (peer_of at file) (λ peer e d d'.
    let (a, b, p, q, t) = h peer e d d' in rw (p, q) (ap some (of_Transition a b t)))

counted :
    (at : ℕ → Option File) (file : File) (l : List File)
    → (count_changes at (file ∷ l) ≡ some 0)
      ↔ ((type_has_changed at file ≡ some false) × (count_changes at l ≡ some 0))
unfolding count_changes
counted at file l = ground arith

All-counted :
    (at : ℕ → Option File) (l : List File) → (count_changes at l ≡ some 0) ↔ All (Compatible at) l
unfolding count_changes
All-counted at [] = (λ h. tt, λ h. refl)
All-counted at (file ∷ l) = (
  λ h.
      let (a, b) = (counted at file l).0 h in
      (unchanged-Compatible at file a, (All-counted at l).0 b),
  λ h. (counted at file l).1 (Compatible-unchanged at file h.0, (All-counted at l).1 h.1),
)

-- The program goes on exactly when every file of the manifest that is there, and whose peer is
-- there, is of a known type, as its peer is, and has the type of its peer or makes one of the four
-- changes that a client can make: from a regular file or a link to a link or a file, or from one of
-- them to a directory.
pub type_change_detection_iff :
    (at : ℕ → Option File) (m : Manifest)
    → (type_change_detection at m ≡ true) ↔ All (Compatible at) m.files
unfolding type_change_detection
type_change_detection_iff at m = (
  λ h. (All-counted at m.files).0 (ground arith),
  λ h. rw (type_change_detection, (All-counted at m.files).1 h) refl,
)
