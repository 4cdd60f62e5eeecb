-- ===== src/Walk/Discover/Spec.antt =====
-- What the discovery of a store with finitely many groups should find: a tree of groups, the
-- store that holds it, and its paths in pre-order without the subtrees that are not entered.
use rustytree.Prelude.{ℕ, suc, ◌≡◌, Bool, if◌then◌else◌, max, true, List, [], ◌∷◌, Text}
use rustytree.Zarrs.{good, opened, ZarrsGroup, Storage}
use rustytree.Walk.Discover.{concat}
use rustytree.Walk.Paths.Laws.{child_path}

mutual
  -- A group with its path and its child groups.
  pub data Tree : Type 0 where
    node : Text → Forest → Tree

  pub data Forest : Type 0 where
    nil : Forest
    cons : Tree → Forest → Forest

abbrev pub root : Tree → Text
root (node path f) = path

abbrev pub roots : Forest → List Text
roots nil = []
roots (cons t f) = root t ∷ roots f

unfoldable mutual
  pub height : Tree → ℕ
  height (node path f) = suc (height_each f)

  pub height_each : Forest → ℕ
  height_each nil = 0
  height_each (cons t f) = max (height t) (height_each f)

-- The groups of the tree open, and list the child groups that the tree has.
unfoldable mutual
  pub Holds : {V : Type 0} → Storage V → Tree → Type 0
  Holds store (node path f) =
      ((g : ZarrsGroup) × ((store.open_group path ≡ opened g)
          × (g.child_group_paths ≡ good (roots f))))
      × HoldsEach store f

  pub HoldsEach : {V : Type 0} → Storage V → Forest → Type 0
  HoldsEach store nil = Unit
  HoldsEach store (cons t f) = Holds store t × HoldsEach store f

-- The paths that a walk visits which goes below a child exactly if `enter` says so.
unfoldable mutual
  pub visited : (Text → Bool) → Tree → List Text
  visited enter (node path f) = path ∷ concat (visited_each enter f)

  pub visited_each : (Text → Bool) → Forest → List (List Text)
  visited_each enter nil = []
  visited_each enter (cons t f) =
      let rest = visited_each enter f in if enter (root t) then visited enter t ∷ rest else rest

-- Each group's path is the path of a child of its parent.
unfoldable mutual
  pub IsNested : Tree → Type 0
  IsNested (node path f) = NestedIn path f

  pub NestedIn : Text → Forest → Type 0
  NestedIn path nil = Unit
  NestedIn path (cons t f) =
      ((name : Text) × (root t ≡ child_path path name)) × (IsNested t × NestedIn path f)

-- The paths of all groups of a tree, in pre-order.
abbrev pub all_paths : Tree → List Text
all_paths t = visited (λ _. true) t
