-- ===== src/Walk/Eager/Phase.antt =====
-- The results of `eager_phase`, and the variables that they are written to.
use rustytree.Prelude.{
  suc, ◌≡◌, refl, ap, ◌∙◌, inl, inr, Bool-cases, Option-cases, false, if◌then◌else◌, Option, none,
  some, List, [], ◌∷◌, ◌++◌, append_assoc, length, length-append, map, arith,
}
use mathlib.Core.Option
use rustytree.Error.{ok}
use rustytree.Array.Dtype.{DtypeNames}
use rustytree.Node.{EagerElements, VarMeta, NodeData, with_vars}
use rustytree.Walk.Join.{Race, try_join_all, try_join_all-map}
use rustytree.Walk.Discover.{Semaphore}
use rustytree.Walk.Eager.{
  should_eager_fetch, fetch_all_elements, EagerTask, Fetched, work_vars, work_nodes, fetched,
  run_task, with_eager, update, set_eager, assign, assign_all, eager_phase,
}

-- An entry behind a prefix is updated in place.
update-append {ℓ} :
    {A : Type ℓ} (f : A → Option A) (xs : List A) (x y : A) (ys : List A)
    → f x ≡ some y
    → update (length xs) f (xs ++ x ∷ ys) ≡ some (xs ++ y ∷ ys)
unfolding update
update-append f [] x y ys e = rw e refl
update-append f (z ∷ xs) x y ys e = ap (Option.map (◌∷◌ z)) (update-append f xs x y ys e)

snoc_append {ℓ} :
    {A : Type ℓ} (xs : List A) (x : A) (ys : List A) → (xs ++ x ∷ []) ++ ys ≡ xs ++ x ∷ ys
snoc_append xs x ys = append_assoc xs (x ∷ []) ys

length-snoc {ℓ} : {A : Type ℓ} (xs : List A) (x : A) → length (xs ++ x ∷ []) ≡ suc (length xs)
length-snoc xs x = length-append xs (x ∷ []) ∙ omega arith

map-append {ℓ κ} :
    {A : Type ℓ} {B : Type κ} (f : A → B) (xs ys : List A) → map f (xs ++ ys) ≡ map f xs ++ map f ys
map-append f [] ys = refl
map-append f (x ∷ xs) ys = ap (◌∷◌ (f x)) (map-append f xs ys)

some_inj {ℓ} : {A : Type ℓ} {x y : A} → some x ≡ some y → x ≡ y
some_inj e = cc

module _ {V : Type 0} (zarrs : DtypeNames) where
  -- A variable with its value where the fetch succeeds.
  abbrev pub with_fetched : VarMeta V → Option (EagerElements V) → VarMeta V
  with_fetched var none = var
  with_fetched var (some elements) = with_eager elements var

  abbrev pub fill_var : VarMeta V → VarMeta V
  fill_var var =
      if should_eager_fetch var
      then with_fetched var (fetched (fetch_all_elements zarrs var.array))
      else var

  abbrev pub fill_node : NodeData V → NodeData V
  fill_node node = with_vars node (map fill_var node.vars)

  -- The result of a task.
  abbrev done : EagerTask V → Fetched V
  done (ni, (vi, array)) = (ni, (vi, fetched (fetch_all_elements zarrs array)))

  assign-bind :
      (o : Option (List (NodeData V))) (rs qs : List (Fetched V)) (nodes : List (NodeData V))
      → ((ns : List (NodeData V))
          → assign rs ns ≡ some nodes
          → assign (rs ++ qs) ns ≡ assign qs nodes)
      → Option.bind o (assign rs) ≡ some nodes
      → Option.bind o (assign (rs ++ qs)) ≡ assign qs nodes
  unfolding Option.bind
  assign-bind none rs qs nodes k e = cc
  assign-bind (some ns) rs qs nodes k e = k ns e

  -- Results one after the other.
  assign-append :
      (rs qs : List (Fetched V)) (ns nodes : List (NodeData V))
      → assign rs ns ≡ some nodes
      → assign (rs ++ qs) ns ≡ assign qs nodes
  unfolding assign
  assign-append [] qs ns nodes e = ap (assign qs) (some_inj e)
  assign-append ((ni, (vi, none)) ∷ rs) qs ns nodes e = assign-append rs qs ns nodes e
  assign-append ((ni, (vi, some v)) ∷ rs) qs ns nodes e =
      assign-bind (set_eager ni vi v ns) rs qs nodes (λ m f. assign-append rs qs m nodes f) e

  module _ (pre : List (NodeData V)) (node : NodeData V) (post : List (NodeData V)) where
    -- The nodes when the variables of `node` are `vars`.
    abbrev around : List (VarMeta V) → List (NodeData V)
    around vars = pre ++ with_vars node vars ∷ post

    set_eager_lem :
        (vpre : List (VarMeta V)) (var : VarMeta V) (vars : List (VarMeta V)) (v : EagerElements V)
        → set_eager (length pre) (length vpre) v (around (vpre ++ var ∷ vars))
          ≡ some (around (vpre ++ with_eager v var ∷ vars))
    unfolding set_eager
    set_eager_lem vpre var vars v =
        update-append _ pre _ _ post
          (ap (Option.map (with_vars node)) (update-append _ vpre var (with_eager v var) vars refl))

    next_var :
        (vpre : List (VarMeta V)) (var : VarMeta V) (vars : List (VarMeta V))
        → assign
            (map done (work_vars (length pre) (length (vpre ++ var ∷ [])) vars))
            (around ((vpre ++ var ∷ []) ++ vars))
          ≡ some (around ((vpre ++ var ∷ []) ++ map fill_var vars))
        → assign
            (map done (work_vars (length pre) (suc (length vpre)) vars))
            (around (vpre ++ var ∷ vars))
          ≡ some (around (vpre ++ var ∷ map fill_var vars))
    next_var vpre var vars h =
        rw
          (
            length-snoc vpre var,
            snoc_append vpre var vars,
            snoc_append vpre var (map fill_var vars),
          )
          at h

    assign_vars :
        (vpre vars : List (VarMeta V))
        → assign (map done (work_vars (length pre) (length vpre) vars)) (around (vpre ++ vars))
          ≡ some (around (vpre ++ map fill_var vars))
    unfolding assign work_vars Option.bind
    assign_vars vpre [] = refl
    assign_vars vpre (var ∷ vars) =
        let next =
          λ (var' : VarMeta V). next_var vpre var' vars (assign_vars (vpre ++ var' ∷ []) vars) in
        elim (Bool-cases (should_eager_fetch var)) [
          | inr e ↦ rw e (next var)
          | inl e ↦ elim (Option-cases (fetched (fetch_all_elements zarrs var.array))) [
            | inl f ↦ rw (e, f) (next var)
            | inr (v, f) ↦
                rw (e, f)
                  (ap
                      (λ o.
                        Option.bind o
                          (assign (map done (work_vars (length pre) (suc (length vpre)) vars))))
                      (set_eager_lem vpre var vars v)
                    ∙ next (with_eager v var))
          ]
        ]

  -- The nodes behind a prefix.
  assign_nodes :
      (pre nodes : List (NodeData V))
      → assign (map done (work_nodes (length pre) nodes)) (pre ++ nodes)
        ≡ some (pre ++ map fill_node nodes)
  unfolding work_nodes
  assign_nodes pre [] = unfold assign in refl
  assign_nodes pre (node ∷ nodes) =
      ap (λ rs. assign rs (pre ++ node ∷ nodes))
        (map-append done (work_vars (length pre) 0 node.vars) (work_nodes (suc (length pre)) nodes))
      ∙ (assign-append (map done (work_vars (length pre) 0 node.vars))
            (map done (work_nodes (suc (length pre)) nodes)) (pre ++ node ∷ nodes)
            (pre ++ fill_node node ∷ nodes) (assign_vars pre node nodes [] node.vars)
          ∙ (rw
              (
                length-snoc pre (fill_node node),
                snoc_append pre (fill_node node) nodes,
                snoc_append pre (fill_node node) (map fill_node nodes),
              )
              at (assign_nodes (pre ++ fill_node node ∷ []) nodes)))

  run_all :
      (semaphore : Semaphore) (tasks : List (EagerTask V))
      → semaphore.closed ≡ false
      → map (run_task zarrs semaphore) tasks ≡ map ok (map done tasks)
  unfolding run_task
  run_all semaphore [] c = refl
  run_all semaphore (task ∷ tasks) c = rw (c, run_all semaphore tasks c) refl

  by_work :
      (race : Race) (semaphore : Semaphore) (nodes out : List (NodeData V))
      (work : List (EagerTask V))
      → semaphore.closed ≡ false
      → assign (map done work) nodes ≡ some out
      → (elim work [
        | [] ↦ some (ok nodes)
        | task ∷ tasks ↦
            assign_all (try_join_all race (map (run_task zarrs semaphore) (task ∷ tasks))) nodes
      ])
        ≡ some (ok out)
  by_work race semaphore nodes out [] c e = unfold assign in ap (λ ns. some (ok ns)) (some_inj e)
  by_work race semaphore nodes out (task ∷ tasks) c e =
      ap (λ rs. assign_all (try_join_all race rs) nodes) (run_all semaphore (task ∷ tasks) c)
      ∙ (ap (λ r. assign_all r nodes) (try_join_all-map race (map done (task ∷ tasks)))
          ∙ ap (Option.map ok) e)

  -- While the semaphore is open, for any scheduler: the phase does not fail and does not panic, and
  -- gives the nodes in which each variable that should be fetched, and whose fetch succeeds, holds
  -- what was fetched; every other variable stays as it was.
  pub eager_phase_lem :
      (race : Race) (semaphore : Semaphore) (nodes : List (NodeData V))
      → semaphore.closed ≡ false
      → eager_phase zarrs race semaphore nodes ≡ some (ok (map fill_node nodes))
  unfolding eager_phase
  eager_phase_lem race semaphore nodes is_open =
      by_work race semaphore nodes (map fill_node nodes) (work_nodes 0 nodes) is_open
        (assign_nodes [] nodes)
