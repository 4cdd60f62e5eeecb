-- ===== src/Walk/Snapshot/Vars.antt =====
-- Which variables each node of a snapshot's walk has.
use rustytree.Prelude.{
  ◌≡◌, refl, sym, subst, ap, ◌∙◌, inl, inr, Option, none, some, List, [], ◌∷◌, Text, text_cases,
}
use mathlib.Core.Option
use mathlib.Core.Option.{get_or}
use rustytree.Error.{Result, ok, err, ◌>>=◌}
use rustytree.Error.Ensures.{Ensures}
use rustytree.BTree.{insert, get, get_at}
use rustytree.BTree.Laws.{IsSorted, insert-IsSorted, get-insert, get-other, text_cmp_refl}
use rustytree.BTree.Keys.{get-rest, All-insert, All-get}
use rustytree.Node.{NodeData, VarMeta, with_vars}
use rustytree.Walk.Snapshot.{attach_at, attach}
use rustytree.Walk.Snapshot.Pass.{IsNodeMap}

get-first {ℓ} : {A : Type ℓ} (k : Text) (v : A) (m : List (Text × A)) → get k ((k, v) ∷ m) ≡ some v
unfolding get
get-first k v m = ap (λ r. get_at r v (get k m)) (text_cmp_refl k)

module _ {V : Type 0} where
  -- A node with the variables of its job, if there is one.
  abbrev pub attached : Option (List (VarMeta V)) → NodeData V → NodeData V
  attached none node = node
  attached (some vars) node = with_vars node vars

  -- What the loop over the jobs leaves at a path.
  abbrev pub Attached :
      Text
      → List (Text × List (VarMeta V))
      → List (Text × NodeData V)
      → List (Text × NodeData V)
      → Type 0
  Attached path jobs groups final =
      get path final ≡ Option.map (attached (get path jobs)) (get path groups)

  attached-none : (o : Option (NodeData V)) → o ≡ Option.map (attached none) o
  attached-none none = refl
  attached-none (some node) = refl

  -- One round, at a path.
  Attached-round :
      (path p : Text) (vars : List (VarMeta V)) (jobs : List (Text × List (VarMeta V)))
      (node : NodeData V) (groups final : List (Text × NodeData V))
      → IsSorted ((p, vars) ∷ jobs)
      → get p groups ≡ some node
      → Attached path jobs (insert p (with_vars node vars) groups) final
      → Attached path ((p, vars) ∷ jobs) groups final
  Attached-round path p vars jobs node groups final s e a =
      let (same, others) = get-insert p (with_vars node vars) groups in
      elim (text_cases path p) [
        | inl (q, _) ↦
            let there : Attached p jobs (insert p (with_vars node vars) groups) final =
              subst (λ x. Attached x jobs (insert p (with_vars node vars) groups) final) q a in
            let at_p : Attached p ((p, vars) ∷ jobs) groups final =
              rw (get-first p vars jobs, e) (rw (same, get-rest p vars jobs s) at there) in
            subst (λ x. Attached x ((p, vars) ∷ jobs) groups final) (sym q) at_p
        | inr (ne, _) ↦
            a
            ∙ (ap (Option.map (attached (get path jobs))) (others path ne)
                ∙ ap (λ o. Option.map (attached o) (get path groups))
                    (sym (get-other path p vars jobs ne)))
      ]

  -- An entry with no arrays and no group changes nothing.
  skipped_round :
      (path p : Text) (vars : List (VarMeta V)) (jobs : List (Text × List (VarMeta V)))
      (groups final : List (Text × NodeData V))
      → get p groups ≡ none
      → Attached path jobs groups final
      → Attached path ((p, vars) ∷ jobs) groups final
  skipped_round path p vars jobs groups final e a = elim (text_cases path p) [
    | inl (q, _) ↦
        let gone : get path groups ≡ none = ap (λ x. get x groups) q ∙ e in
        a
        ∙ (ap (Option.map (attached (get path jobs))) gone
            ∙ sym (ap (Option.map (attached (get path ((p, vars) ∷ jobs)))) gone))
    | inr (ne, _) ↦
        a
        ∙ ap (λ o. Option.map (attached o) (get path groups)) (sym (get-other path p vars jobs ne))
  ]

  pub attach-Ensures :
      (path : Text) (jobs : List (Text × List (VarMeta V))) (groups : List (Text × NodeData V))
      → IsSorted jobs
      → Ensures (Attached path jobs groups) (attach jobs groups)
  unfolding attach get
  attach-Ensures path [] groups s = attached-none (get path groups)
  attach-Ensures path ((p, vars) ∷ jobs) groups s =
      round vars (get p groups) refl s (λ next. attach-Ensures path jobs next s.1)
    where
      map_Ensures :
          (P Q : List (Text × NodeData V) → Type 0) (r : Result (List (Text × NodeData V)))
          → ((final : List (Text × NodeData V)) → P final → Q final)
          → Ensures P r
          → Ensures Q r
      map_Ensures P Q (ok final) f h = f final h
      map_Ensures P Q (err e) f h = tt

      round :
          (vars : List (VarMeta V)) (o : Option (NodeData V))
          → get p groups ≡ o
          → IsSorted ((p, vars) ∷ jobs)
          → ((next : List (Text × NodeData V))
              → Ensures (Attached path jobs next) (attach jobs next))
          → Ensures
              (Attached path ((p, vars) ∷ jobs) groups)
              (attach_at o p vars groups >>= attach jobs)
      round vars (some node) e s rest =
          map_Ensures (Attached path jobs (insert p (with_vars node vars) groups))
            (Attached path ((p, vars) ∷ jobs) groups) (attach jobs _)
            (λ final a. Attached-round path p vars jobs node groups final s e a)
            (rest (insert p (with_vars node vars) groups))
      round [] none e s rest =
          map_Ensures (Attached path jobs groups) (Attached path ((p, []) ∷ jobs) groups)
            (attach jobs groups) (λ final a. skipped_round path p [] jobs groups final e a)
            (rest groups)
      round (_ ∷ _) none e s rest = tt

  -- The loop keeps a map by paths.
  pub attach-IsNodeMap :
      (jobs : List (Text × List (VarMeta V))) (groups : List (Text × NodeData V))
      → IsNodeMap groups
      → Ensures IsNodeMap (attach jobs groups)
  unfolding attach
  attach-IsNodeMap [] groups n = n
  attach-IsNodeMap ((p, vars) ∷ jobs) groups n =
      round vars (get p groups) refl (λ next n. attach-IsNodeMap jobs next n)
    where
      round :
          (vars : List (VarMeta V)) (o : Option (NodeData V))
          → get p groups ≡ o
          → ((next : List (Text × NodeData V))
              → IsNodeMap next
              → Ensures IsNodeMap (attach jobs next))
          → Ensures IsNodeMap (attach_at o p vars groups >>= attach jobs)
      round vars (some node) e rest = rest (insert p (with_vars node vars) groups) (record {
        sorted = insert-IsSorted p (with_vars node vars) groups n.sorted;
        by_path =
            All-insert (λ e. e.1.path ≡ e.0) p (with_vars node vars) groups
              (All-get (λ e. e.1.path ≡ e.0) p node groups n.by_path e) n.by_path;
      })
      round [] none e rest = rest groups n
      round (_ ∷ _) none e rest = tt
