-- ===== src/Walk/Discover/Laws.antt =====
-- `discover_paths` on a store that holds a finite tree.
use rustytree.Prelude.{
  ℕ, zero, suc, ◌≤◌, ◌≡◌, refl, ap, ◌∙◌, inl, inr, Bool-cases, false, Option, some, List, [], ◌∷◌,
  map, keep, Text, arith,
}
use mathlib.Core.Option
use rustytree.Error.{ok, ◌>>=◌}
use rustytree.Glob.{GlobPredicate}
use rustytree.Zarrs.{Storage}
use rustytree.Walk.Join.{Race, try_join_all-map}
use rustytree.Walk.Discover.{
  Semaphore, enters, concat, all_returned, child_paths, extend, descend, discover_paths,
}
use rustytree.Walk.Discover.Spec.{
  Tree, node, Forest, nil, cons, root, roots, height, height_each, Holds, HoldsEach, visited,
  visited_each,
}

all_returned-map {ℓ} : {A : Type ℓ} (xs : List A) → all_returned (map some xs) ≡ some xs
all_returned-map [] = refl
all_returned-map (x ∷ xs) = ap (Option.map (◌∷◌ x)) (all_returned-map xs)

Holds-each :
    {V : Type 0} (store : Storage V) (path : Text) (f : Forest)
    → Holds store (node path f)
    → HoldsEach store f
unfolding Holds
Holds-each store path f h = h.1

child_paths_lem :
    {V : Type 0} (store : Storage V) (semaphore : Semaphore) (path : Text) (f : Forest)
    → semaphore.closed ≡ false
    → Holds store (node path f)
    → child_paths store semaphore path ≡ ok (roots f)
unfolding child_paths Holds
child_paths_lem store semaphore path f c ((g, (e, l)), _) = rw (c, e, l) refl

module _ {V : Type 0} (race : Race) (store : Storage V) (semaphore : Semaphore) where
  abbrev Discovers : ℕ → Option GlobPredicate → Tree → Type 0
  Discovers fuel glob t =
      discover_paths race store semaphore fuel glob (root t) ≡ some (ok (visited (enters glob) t))

  -- The calls on the children that are entered, when each returns what it should.
  discover_each_lem :
      (fuel : ℕ) (glob : Option GlobPredicate) (f : Forest)
      → ((t : Tree) → Holds store t → height t ≤ fuel → Discovers fuel glob t)
      → HoldsEach store f
      → height_each f ≤ fuel
      → map (discover_paths race store semaphore fuel glob) (keep (enters glob) (roots f))
        ≡ map some (map ok (visited_each (enters glob) f))
  unfolding HoldsEach height_each visited_each
  discover_each_lem fuel glob nil ih h le = refl
  discover_each_lem fuel glob (cons t f) ih (here, there) le =
      let rest = discover_each_lem fuel glob f ih there (omega arith) in
      elim (Bool-cases (enters glob (root t))) [
        | inl e ↦ rw (e, ih t here (omega arith), rest)
        | inr e ↦ rw e rest
      ]

  -- While the semaphore is open, for every finite tree of groups that the store holds, and fuel of
  -- at least its height: `discover_paths` returns, with the paths of the tree in pre-order, less
  -- the subtrees below the child groups that the glob predicate rules out.
  pub discover_paths-visited :
      (fuel : ℕ) (glob : Option GlobPredicate) (t : Tree)
      → semaphore.closed ≡ false
      → Holds store t
      → height t ≤ fuel
      → discover_paths race store semaphore fuel glob (root t) ≡ some (ok (visited (enters glob) t))
  unfolding discover_paths height visited
  discover_paths-visited zero glob (node path f) c h le = absurd (omega arith)
  discover_paths-visited (suc fuel) glob (node path f) c h le =
      ap (descend race (discover_paths race store semaphore fuel glob) glob path)
        (child_paths_lem store semaphore path f c h)
      ∙ (ap (λ rs. Option.map (extend race path) (all_returned rs))
            (discover_each_lem fuel glob f (λ t h le. discover_paths-visited fuel glob t c h le)
              (Holds-each store path f h) (omega arith))
          ∙ (ap (Option.map (extend race path))
                (all_returned-map (map ok (visited_each (enters glob) f)))
              ∙ ap (λ r. some (r >>= λ subs. ok (path ∷ concat subs)))
                  (try_join_all-map race (visited_each (enters glob) f))))
