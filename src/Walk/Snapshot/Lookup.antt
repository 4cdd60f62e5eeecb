-- ===== src/Walk/Snapshot/Lookup.antt =====
-- The variables that the walk of a snapshot gives to each group, by lookups in its maps.
use rustytree.Prelude.{
  ◌≡◌, refl, sym, ap, ap₂, ◌∙◌, inl, inr, Bool-cases, List, [], ◌∷◌, ◌++◌, append-nil, append_assoc,
  map, Text, keep, text_eq, text_cases,
}
use mathlib.Core.Option.{get_or}
use rustytree.Error.{Result, ok, err, ◌>>=◌}
use rustytree.Error.Ensures.{Ensures}
use Prim.Native.Nat.{Ordering}
use rustytree.BTree.{insert, get, get_at, text_cmp, keys}
use rustytree.BTree.Laws.{IsSorted, insert-IsSorted, get-insert}
use rustytree.Array.Dtype.{DtypeNames}
use rustytree.Node.{VarMeta}
use rustytree.Walk.Paths.{parent_of}
use rustytree.Walk.Snapshot.{
  NodeSnapshot, Upstream, build_var_meta_from_snapshot, collect_results, by_parent, group_job,
}

-- The arrays of a list whose parent is the group.
abbrev pub below : Text → List NodeSnapshot → List NodeSnapshot
below path = keep (λ snap. text_eq (parent_of snap.path) path)

-- The jobs' entries.
abbrev Jobs : Type 0
Jobs = List (Text × List NodeSnapshot)

-- One array more in the entry of its parent.
entry_step :
    (path : Text) (snap : NodeSnapshot) (m : Jobs)
    → get_or
        (get path
          (insert (parent_of snap.path) (get_or (get (parent_of snap.path) m) [] ++ snap ∷ []) m))
        []
      ≡ get_or (get path m) [] ++ below path (snap ∷ [])
entry_step path snap m =
    let parent = parent_of snap.path in
    let (same, others) = get-insert parent (get_or (get parent m) [] ++ snap ∷ []) m in
    elim (text_cases parent path) [
      | inl (p, e) ↦ rw e (
          ap (λ k. get_or (get k (insert parent (get_or (get parent m) [] ++ snap ∷ []) m)) [])
            (sym p)
          ∙ (ap (λ o. get_or o []) same ∙ ap (λ k. get_or (get k m) [] ++ snap ∷ []) p))
      | inr (ne, e) ↦ rw e (
          ap (λ o. get_or o []) (others path (λ p. ne (sym p)))
          ∙ sym (append-nil (get_or (get path m) [])))
    ]

below-cons :
    (path : Text) (snap : NodeSnapshot) (arrays : List NodeSnapshot)
    → below path (snap ∷ []) ++ below path arrays ≡ below path (snap ∷ arrays)
below-cons path snap arrays = elim (Bool-cases (text_eq (parent_of snap.path) path)) [
  | inl e ↦ rw e refl
  | inr e ↦ rw e refl
]

-- The entry of a group has the arrays below it, in their order.
pub by_parent-get :
    (path : Text) (arrays : List NodeSnapshot) (m : Jobs)
    → get_or (get path (by_parent arrays m)) [] ≡ get_or (get path m) [] ++ below path arrays
unfolding by_parent
by_parent-get path [] m = sym (append-nil (get_or (get path m) []))
by_parent-get path (snap ∷ arrays) m =
    by_parent-get path arrays _
    ∙ (ap (λ l. l ++ below path arrays) (entry_step path snap m)
        ∙ (append_assoc (get_or (get path m) []) (below path (snap ∷ [])) (below path arrays)
            ∙ ap (λ l. get_or (get path m) [] ++ l) (below-cons path snap arrays)))

pub by_parent-IsSorted :
    (arrays : List NodeSnapshot) (m : Jobs) → IsSorted m → IsSorted (by_parent arrays m)
unfolding by_parent
by_parent-IsSorted [] m s = s
by_parent-IsSorted (snap ∷ arrays) m s = by_parent-IsSorted arrays _ (
    insert-IsSorted (parent_of snap.path) (get_or (get (parent_of snap.path) m) [] ++ snap ∷ []) m
      s)

module _ {V : Type 0} (upstream : Upstream V) (zarrs : DtypeNames) where
  abbrev pub build : NodeSnapshot → Result (VarMeta V)
  build snap = build_var_meta_from_snapshot upstream zarrs snap snap.path

  -- The variables are what the arrays build.
  abbrev pub Builds : List NodeSnapshot → List (VarMeta V) → Type 0
  Builds snaps vars = collect_results (map build snaps) ≡ ok vars

  abbrev IsJob : Text → List NodeSnapshot → Text × List (VarMeta V) → Type 0
  IsJob p snaps job = (p ≡ job.0) × Builds snaps job.1

  -- Each job's variables are what the arrays of the entry build, in the same order.
  abbrev pub AreBuilt : Jobs → List (Text × List (VarMeta V)) → Type 0
  AreBuilt [] [] = Unit
  AreBuilt [] (_ ∷ _) = ⊥
  AreBuilt (_ ∷ _) [] = ⊥
  AreBuilt ((p, snaps) ∷ entries) ((q, vars) ∷ jobs) =
      (p ≡ q) × (Builds snaps vars × AreBuilt entries jobs)

  group_job-Ensures :
      (p : Text) (snaps : List NodeSnapshot)
      → Ensures (IsJob p snaps) (group_job upstream zarrs (p, snaps))
  unfolding group_job
  group_job-Ensures p snaps = built (collect_results (map build snaps)) refl
    where
      built :
          (r : Result (List (VarMeta V)))
          → collect_results (map build snaps) ≡ r
          → Ensures (IsJob p snaps) (r >>= λ vars. ok (p, vars))
      built (ok vars) e = (refl, e)
      built (err x) e = tt

  pub jobs-Ensures :
      (entries : Jobs)
      → Ensures (AreBuilt entries) (collect_results (map (group_job upstream zarrs) entries))
  jobs-Ensures [] = tt
  jobs-Ensures ((p, snaps) ∷ entries) =
      first (group_job upstream zarrs (p, snaps)) (group_job-Ensures p snaps) (jobs-Ensures entries)
    where
      rest :
          (job : Text × List (VarMeta V)) (rs : Result (List (Text × List (VarMeta V))))
          → IsJob p snaps job
          → Ensures (AreBuilt entries) rs
          → Ensures (AreBuilt ((p, snaps) ∷ entries)) (rs >>= λ rest. ok (job ∷ rest))
      rest job (ok jobs) h t = (h.0, (h.1, t))
      rest job (err x) h t = tt

      first :
          (r : Result (Text × List (VarMeta V)))
          → Ensures (IsJob p snaps) r
          → Ensures (AreBuilt entries) (collect_results (map (group_job upstream zarrs) entries))
          → Ensures
              (AreBuilt ((p, snaps) ∷ entries))
              (collect_results (r ∷ map (group_job upstream zarrs) entries))
      first (ok job) h t = rest job _ h t
      first (err x) h t = tt

  pub AreBuilt-keys :
      (entries : Jobs) (jobs : List (Text × List (VarMeta V)))
      → AreBuilt entries jobs
      → keys jobs ≡ keys entries
  AreBuilt-keys [] [] b = refl
  AreBuilt-keys ((p, snaps) ∷ entries) ((q, vars) ∷ jobs) (e, (_, b)) =
      ap₂ ◌∷◌ (sym e) (AreBuilt-keys entries jobs b)
  AreBuilt-keys [] (_ ∷ _) b = absurd b
  AreBuilt-keys (_ ∷ _) [] b = absurd b

  -- The variables of a group's job, or none, are built from its entry, or from no array.
  pub jobs-get :
      (path : Text) (entries : Jobs) (jobs : List (Text × List (VarMeta V)))
      → AreBuilt entries jobs
      → Builds (get_or (get path entries) []) (get_or (get path jobs) [])
  unfolding get
  jobs-get path [] [] b = refl
  jobs-get path ((p, snaps) ∷ entries) ((q, vars) ∷ jobs) (e, (here, b)) =
      rw (← e) (at_key (text_cmp path p) (jobs-get path entries jobs b))
    where
      at_key :
          (o : Ordering)
          → Builds (get_or (get path entries) []) (get_or (get path jobs) [])
          → Builds
              (get_or (get_at o snaps (get path entries)) [])
              (get_or (get_at o vars (get path jobs)) [])
      at_key Ordering.lt later = later
      at_key Ordering.eq later = here
      at_key Ordering.gt later = later
  jobs-get path [] (_ ∷ _) b = absurd b
  jobs-get path (_ ∷ _) [] b = absurd b
