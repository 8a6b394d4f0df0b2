-- ===== src/Walk.antt =====
-- What a walk over two lists of files that rise strictly computes, said without the walk: each file
-- of one list meets the file of its name in the other, if there is one. The walks of manifest.c
-- and analyze_fs.c are shown equal to `join` in the modules under `Manifest`.
pub mod Members
pub mod Names
use swupd_server.Prelude.{
  ◌≡◌, ◌≢◌, refl, ap, ◌∙◌, List, [], ◌∷◌, Option, none, some, Ordering, arith, if◌then◌else◌,
}
use mathlib.Core.Path.{subst}
use swupd_server.Text.{Text, strcmp, same}
use swupd_server.Text.Order.{strcmp-flip, eq_of_strcmp}
use swupd_server.File.{File, Ascending, Before}
use swupd_server.File.Order.{Before-trans}

-- The first file of a name.
unfoldable pub find : Text → List File → Option File
find name [] = none
find name (f ∷ l) = if same name f.filename then some f else find name l

abbrev pub cons? {ℓ} : {A : Type ℓ} → Option A → List A → List A
cons? none l = l
cons? (some a) l = a ∷ l

unfoldable pub join : (File → Option File → Option File) → List File → List File → List File
join g [] r = []
join g (f ∷ l) r = cons? (g f (find f.filename r)) (join g l r)

pub find_skip :
    (name : Text) (f : File) (l : List File)
    → strcmp name f.filename ≢ Ordering.eq
    → find name (f ∷ l) ≡ find name l
unfolding find
find_skip name f l h = ground arith

pub find_head :
    (name : Text) (f : File) (l : List File)
    → strcmp name f.filename ≡ Ordering.eq
    → find name (f ∷ l) ≡ some f
unfolding find
find_head name f l h = ground arith

pub find-Before : (name : Text) (l : List File) → Before name l → find name l ≡ none
unfolding find
find-Before name [] h = refl
find-Before name (f ∷ l) h = find_skip name f l (ground (arith, h.0)) ∙ find-Before name l h.1

pub join-skip :
    (g : File → Option File → Option File) (y : File) (l r : List File)
    → Before y.filename l
    → join g l (y ∷ r) ≡ join g l r
unfolding join
join-skip g y [] r h = refl
join-skip g y (x ∷ l) r h =
    rw (find_skip x.filename y r (ground (arith, strcmp-flip y.filename x.filename, h.0)))
      (ap (cons? (g x (find x.filename r))) (join-skip g y l r h.1))

module _ (g : File → Option File → Option File) (x y : File) (l r : List File) where
  pub join_eq :
      strcmp x.filename y.filename ≡ Ordering.eq
      → Ascending (x ∷ l)
      → join g (x ∷ l) (y ∷ r) ≡ cons? (g x (some y)) (join g l r)
  unfolding join
  join_eq e h = rw (find_head x.filename y r e) (
      ap (cons? (g x (some y)))
        (join-skip g y l r (subst (λ n. Before n l) (eq_of_strcmp x.filename y.filename e) h.0)))

  pub join_lt :
      strcmp x.filename y.filename ≡ Ordering.lt
      → Ascending (y ∷ r)
      → join g (x ∷ l) (y ∷ r) ≡ cons? (g x none) (join g l (y ∷ r))
  unfolding join
  join_lt e h =
      rw (find-Before x.filename (y ∷ r) (e, Before-trans x.filename y.filename r e h.0)) refl

  pub join_gt :
      strcmp x.filename y.filename ≡ Ordering.gt
      → Ascending (x ∷ l)
      → join g (x ∷ l) (y ∷ r) ≡ join g (x ∷ l) r
  join_gt e h =
      let lt : strcmp y.filename x.filename ≡ Ordering.lt =
        ground (arith, strcmp-flip x.filename y.filename) in
      join-skip g y (x ∷ l) r (lt, Before-trans y.filename x.filename l lt h.0)

pub join_nil :
    (g : File → Option File → Option File) (x : File) (l : List File)
    → join g (x ∷ l) [] ≡ cons? (g x none) (join g l [])
unfolding join find
join_nil g x l = refl

pub nil_join : (g : File → Option File → Option File) (r : List File) → join g [] r ≡ []
unfolding join
nil_join g r = refl

pub find_nil : (name : Text) → find name [] ≡ none
unfolding find
find_nil name = refl

pub join_absent :
    (g : File → Option File → Option File) (x : File) (l r : List File)
    → Before x.filename r
    → join g (x ∷ l) r ≡ cons? (g x none) (join g l r)
unfolding join
join_absent g x l r h = rw (find-Before x.filename r h)
