-- ===== src/Python/Vanilla.antt =====
-- `open_datatree` of src/lib.rs on the name of a vanilla store: the tree that Python gets.
use rustytree.Prelude.{
  ℕ, ◌≤◌, ◌≡◌, refl, sym, subst, ap, ◌∙◌, ◌↔◌, ◌⊎◌, inl, inr, true, Option, none, List, [], ◌∷◌,
  map, Text, text_cases, All, Occurs,
}
use mathlib.Core.Option
use mathlib.Core.Option.{get_or}
use rustytree.Zarrs.{Storage}
use rustytree.Array.Read.{ok, ◌>>=◌}
use rustytree.Glob.{parse}
use rustytree.Node.{NodeData}
use rustytree.Walk.Discover.{enters}
use rustytree.Walk.Discover.Spec.{Tree, root, height, Holds, visited}
use rustytree.Walk.Eager.Phase.{fill_node}
use rustytree.Walk.Recursive.Limit.{IsAllowed}
use rustytree.Walk.Recursive.Laws.{Opens, map_fill-path, walk_recursive-opened}
use rustytree.Store.{ReopenSpec}
use rustytree.Python.Object.{PyAny, dict, PyFields, no_entries, entry, Platform, set_item}
use rustytree.Python.Convert.{nodes_into, nodes_to_pydict}
use rustytree.Python.Values.{ReadsNumbers}
use rustytree.Python.Complete.{entry_keys, NodeLoads, node_to_pydict-Gives}
use rustytree.Python.Fetched.{Reshapes}
use rustytree.Python.Opened.{StoreIsComplete, nodes-HasOpened, nodes-Load}
use rustytree.Python.Stores.{OpensStore, open_datatree-walk}
use rustytree.Python.Tree.{root_of}
use rustytree.Python.Groups.{IsGroup, EachEntry, nodes-EachEntry}
use rustytree.Walk.Open.Names.{names_in, filled-names_in}
use rustytree.Python.Open.{PySource, Arguments, returned, Crates, open_datatree}

module _ {V : Type 0} where
  -- The keys after an entry is set.
  Occurs-set_item :
      (q key : Text) (p : PyAny V) (d : PyFields V)
      → Occurs q (entry_keys (set_item key p d)) ↔ ((q ≡ key) ⊎ Occurs q (entry_keys d))
  unfolding set_item
  Occurs-set_item q key p no_entries = (λ o. o, λ o. o)
  Occurs-set_item q key p (entry k v d) = elim (text_cases k key) [
    | inl (e, f) ↦ rw f (
      λ o. elim o [ inl g ↦ inr (inl g) | inr g ↦ inr (inr g) ],
      λ o. elim o [ inl g ↦ inl (g ∙ sym e) | inr g ↦ g ],
    )
    | inr (ne, f) ↦
        let (to, from) = Occurs-set_item q key p d in
        rw f (
          λ o. elim o [
            | inl g ↦ inr (inl g)
            | inr g ↦ elim (to g) [ inl h ↦ inl h | inr h ↦ inr (inr h) ]
          ],
          λ o. elim o [
            | inl g ↦ inr (from (inl g))
            | inr (inl g) ↦ inl g
            | inr (inr g) ↦ inr (from (inr g))
          ],
        )
  ]

  module _ (platform : Platform V) (numbers : ReadsNumbers platform) where
    nodes_into-Occurs :
        (spec : Option ReopenSpec) (nodes : List (NodeData V)) (d : PyFields V)
        → All (NodeLoads platform numbers) nodes
        → (out : PyFields V) × (nodes_into platform spec nodes d ≡ ok out)
          × ((q : Text)
              → Occurs q (entry_keys out)
                ↔ (Occurs q (entry_keys d) ⊎ Occurs q (map (λ n. n.path) nodes)))
    unfolding nodes_into
    nodes_into-Occurs spec [] d h =
        (d, refl, λ q. (λ o. inl o, λ o. elim o [ inl o ↦ o | inr f ↦ absurd f ]))
    nodes_into-Occurs spec (node ∷ nodes) d (h, hs) =
        let (p, e) = node_to_pydict-Gives platform numbers spec node h in
        let (out, f, keys) = nodes_into-Occurs spec nodes (set_item node.path (dict p) d) hs in
        (
          out,
          ap (λ r. r >>= λ p. nodes_into platform spec nodes (set_item node.path (dict p) d)) e ∙ f,
          λ q.
              let (to, from) = keys q in
              let (split, join) = Occurs-set_item q node.path (dict p) d in
              (
                λ o. elim (to o) [
                  | inl s ↦ elim (split s) [ inl g ↦ inr (inl g) | inr g ↦ inl g ]
                  | inr s ↦ inr (inr s)
                ],
                λ o. from (elim o [
                  | inl g ↦ inl (join (inr g))
                  | inr (inl g) ↦ inl (join (inl g))
                  | inr (inr g) ↦ inr g
                ]),
              ),
        )

module _ {V : Type 0} (platform : Platform V) (crates : Crates V) (fuel : ℕ)
    (args : Arguments) where
  -- With numbers that serde_json reads, arrays that NumPy reshapes, and reads of zarrs that are
  -- complete, each as documented; for the path of a local directory that is no icechunk repository,
  -- or an S3 URL, which opens as a vanilla store that holds a finite tree of groups below the
  -- requested one; with `recursive` unset or true, a `max_concurrency` of at most `2 ^ 61 - 1` or none,
  -- storage options that convert, fuel of at least
  -- the height of the tree, and every visited group opening with its arrays: `open_datatree` returns a dict and raises
  -- nothing. Its keys are the paths of the visited groups, and no other; under each key is a dict of
  -- that group, with its path, and with a list of variables that has one by the name of each array
  -- that the store lists in the group, in order, and no other.
  pub open_datatree-visited :
      (source : PySource) (store : Storage V) (t : Tree)
      → ReadsNumbers platform
      → Reshapes platform
      → StoreIsComplete crates.zarrs crates.race store
      → OpensStore crates source args store
      → IsAllowed args.max_concurrency
      → get_or args.recursive true ≡ true
      → root t ≡ root_of args
      → Holds store t
      → height t ≤ fuel
      → All (Opens crates.zarrs crates.race store) (visited (enters (Option.map parse args.glob)) t)
      → (d : PyFields V) × (open_datatree platform crates fuel source args ≡ returned (ok d))
        × ((q : Text)
            → Occurs q (entry_keys d) ↔ Occurs q (visited (enters (Option.map parse args.glob)) t))
        × EachEntry (λ path group. IsGroup path (names_in store path) group) d
  unfolding nodes_to_pydict
  open_datatree-visited source store t numbers reshapes complete opened allowed recursive at_root
        holds le opens =
      let glob = Option.map parse args.glob in
      let (nodes, walked, each, paths) =
        walk_recursive-opened crates.zarrs crates.race store fuel args.max_concurrency glob t
          allowed holds le opens in
      let filled = map (fill_node crates.zarrs) nodes in
      let (d, converted, keys) = nodes_into-Occurs platform numbers none filled no_entries (
        nodes-Load crates.zarrs crates.race store platform numbers reshapes nodes
          (nodes-HasOpened crates.zarrs crates.race store complete _ nodes each)) in
      let same = map_fill-path crates.zarrs crates.race store nodes ∙ paths in
      (
        d,
        open_datatree-walk crates platform fuel source args store opened
            ∙ rw (recursive, ← at_root, walked) (ap returned converted),
        λ q.
            let (to, from) = keys q in
            (
              λ o. elim (to o) [ inl f ↦ absurd f | inr o ↦ subst (Occurs q) same o ],
              λ o. from (inr (subst (Occurs q) (sym same) o)),
            ),
        nodes-EachEntry platform none (names_in store) filled d
            (filled-names_in crates.zarrs crates.race store _ nodes each) converted,
      )
