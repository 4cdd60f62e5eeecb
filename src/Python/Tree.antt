-- ===== src/Python/Tree.antt =====
-- `open_datatree` of src/lib.rs on the bytes of an icechunk session: the tree that Python gets.
use rustytree.Prelude.{
  ℕ, ◌≡◌, refl, sym, subst, ap, ◌∙◌, ◌↔◌, Bool, true, some, List, map, Text, codes, Occurs,
}
use mathlib.Core.Option
use mathlib.Core.Option.{get_or}
use rustytree.Error
use rustytree.Zarrs.{good}
use rustytree.Array.Read.{ok}
use rustytree.Glob.{parse}
use rustytree.Node.{NodeData}
use rustytree.Walk.Paths.{normalize_path}
use rustytree.Walk.Eager.Phase.{fill_node}
use rustytree.Walk.Recursive.{done, icechunk, then_eager, walk_recursive}
use rustytree.Walk.Recursive.Limit.{
  IsAllowed, opened_semaphore, walk_recursive-IsAllowed, then_eager-ok,
}
use rustytree.Walk.Recursive.Laws.{map_fill-path}
use rustytree.Walk.Snapshot.{NodeSnapshot, survives, list_snapshots, walk_icechunk_session_snapshot}
use rustytree.Walk.Snapshot.Spec.{kept_groups, ReadsAll, HaveParents}
use rustytree.Walk.Snapshot.Laws.{Ascending, snapshot-kept_groups}
use rustytree.Walk.Snapshot.Placed.{snapshot-HasItsArrays}
use rustytree.Store.{session_bytes, build_store_from_spec, bundle_from_session_bytes}
use rustytree.Python.Object.{PyFields, Platform}
use rustytree.Python.Values.{ReadsNumbers}
use rustytree.Python.Complete.{entry_keys}
use rustytree.Python.Keys.{nodes_to_pydict-keys}
use rustytree.Python.Fetched.{Reshapes}
use rustytree.Python.Session.{CompleteArrays, nodes-Load}
use rustytree.Python.Groups.{IsGroup, EachEntry, nodes-EachEntry}
use rustytree.Walk.Snapshot.Names.{names_below, filled-names_below}
use rustytree.Python.Open.{PySource, Arguments, returned, Crates, open_session, open_datatree}

-- The path of the group that is asked for, and the filter on groups that the arguments stand for.
abbrev pub root_of : Arguments → Text
root_of args = get_or args.group (codes "/")

abbrev pub keeps_of : Arguments → Text → Bool
keeps_of args =
    survives (get_or args.recursive true) (normalize_path (root_of args))
      (Option.map parse args.glob)

module _ {V : Type 0} (platform : Platform V) (crates : Crates V) (fuel : ℕ)
    (args : Arguments) where
  module _ (bytes : List ℕ) (session : crates.backends.Session) where
    -- The walk of the session, by its nodes.
    walk_session :
        IsAllowed args.max_concurrency
        → (nodes : List (NodeData V))
        → walk_icechunk_session_snapshot
            (crates.backends.session_answers session)
            crates.zarrs
            (root_of args)
            (get_or args.recursive true)
            (Option.map parse args.glob)
          ≡ Error.ok nodes
        → walk_recursive crates.zarrs crates.race
            (icechunk (crates.backends.session_answers session))
            fuel
            (root_of args)
            args.max_concurrency
            (get_or args.recursive true)
            (Option.map parse args.glob)
          ≡ done (Error.ok (map (fill_node crates.zarrs) nodes))
    walk_session allowed nodes e =
        walk_recursive-IsAllowed crates.zarrs crates.race
          (icechunk (crates.backends.session_answers session)) fuel (root_of args)
          args.max_concurrency (get_or args.recursive true) (Option.map parse args.glob) allowed
        ∙ (ap
              (λ r.
                then_eager crates.zarrs crates.race (opened_semaphore args.max_concurrency)
                  (some r))
              e
            ∙ then_eager-ok crates.zarrs crates.race args.max_concurrency nodes)

    session_opens :
        crates.backends.from_bytes bytes ≡ good session
        → build_store_from_spec crates.backends (session_bytes bytes)
          ≡ Error.ok (
            icechunk (crates.backends.session_answers session),
            crates.backends.session_store session,
          )
    unfolding build_store_from_spec bundle_from_session_bytes
    session_opens e = rw e refl

    -- With numbers that serde_json reads, arrays that NumPy reshapes, and reads of zarrs that are
    -- complete, each as documented; for a source that is the bytes of a session that icechunk reads,
    -- and whose snapshot lists `snaps`, each of which can be read, each array with its parent among
    -- the groups; with a `max_concurrency` of at most `2 ^ 61 - 1` or none, and any other arguments:
    -- `open_datatree` returns a dict and raises nothing. Its
    -- keys are in ascending order the paths of the groups that the arguments `recursive` and `glob`
    -- keep, and no other. Under each key is a dict of that group, with its path, and with a list of
    -- variables that has one by the name of each array that the snapshot has below the group, in
    -- the order of the snapshot, and no other.
    pub open_datatree-session :
        (source : PySource) (snaps : List NodeSnapshot)
        → ReadsNumbers platform
        → Reshapes platform
        → IsAllowed args.max_concurrency
        → CompleteArrays (crates.backends.session_answers session) crates.zarrs
        → source.as_bytes ≡ some bytes
        → crates.backends.from_bytes bytes ≡ good session
        → list_snapshots (crates.backends.session_answers session) (root_of args) ≡ Error.ok snaps
        → ReadsAll (crates.backends.session_answers session) crates.zarrs snaps
        → HaveParents snaps
        → (d : PyFields V) × (open_datatree platform crates fuel source args ≡ returned (ok d))
          × Ascending (entry_keys d)
          × ((p : Text) → Occurs p (entry_keys d) ↔ Occurs p (kept_groups (keeps_of args) snaps))
          × EachEntry (λ path group. IsGroup path (names_below snaps path) group) d
    unfolding open_datatree open_session
    open_datatree-session source snaps numbers reshapes allowed complete is_bytes reads listed r h =
        let upstream = crates.backends.session_answers session in
        let recursive = get_or args.recursive true in
        let glob = Option.map parse args.glob in
        let (nodes, (e, (ascending, kept))) =
          snapshot-kept_groups upstream crates.zarrs (root_of args) recursive glob snaps listed r
            h in
        let filled = map (fill_node crates.zarrs) nodes in
        let placed =
          snapshot-HasItsArrays upstream crates.zarrs snaps (root_of args) recursive glob nodes
            listed e in
        let paths =
          map_fill-path crates.zarrs crates.race (crates.backends.session_store session) nodes in
        let (d, (f, keys)) =
          nodes_to_pydict-keys platform numbers (some (session_bytes bytes)) filled
            (nodes-Load upstream crates.zarrs platform numbers reshapes snaps nodes complete placed)
            (subst Ascending (sym paths) ascending) in
        let key_paths = keys ∙ paths in
        (
          d,
          rw (is_bytes, session_opens reads, walk_session allowed nodes e) (ap returned f),
          subst Ascending (sym key_paths) ascending,
          subst (λ ks. (p : Text) → Occurs p ks ↔ Occurs p (kept_groups (keeps_of args) snaps))
              (sym key_paths) kept,
          nodes-EachEntry platform (some (session_bytes bytes)) (names_below snaps) filled d
              (filled-names_below crates.zarrs upstream snaps nodes placed) f,
        )
