-- ===== src/Walk/Snapshot/Orphans.antt =====
-- Arrays whose parent is not among the groups.
use rustytree.Prelude.{◌≡◌, refl, subst, inl, inr, none, Option-cases, List, [], ◌∷◌, Text, Occurs}
use rustytree.Error.{RustytreeError, Result, ok, err, ◌>>=◌, runtime_error, to_py_err}
use rustytree.Error
use rustytree.BTree.{get, keys}
use rustytree.BTree.Keys.{Occurs-get}
use rustytree.Node.{NodeData, VarMeta}
use rustytree.Walk.Snapshot.{attach_at, attach}
use rustytree.Walk.Snapshot.Pass.{IsNodeMap}
use rustytree.Walk.Snapshot.Attach.{attach_one}

-- A failure that Python sees as `RuntimeError`.
abbrev pub IsRuntimeError : {A : Type 0} → Result A → Type 0
IsRuntimeError (ok a) = ⊥
IsRuntimeError (err e) = Error.PyErr.exception (to_py_err e) ≡ runtime_error

module _ {V : Type 0} where
  refused :
      (parent : Text) (var : VarMeta V) (vars : List (VarMeta V))
      (jobs : List (Text × List (VarMeta V))) (groups : List (Text × NodeData V))
      → IsRuntimeError (attach_at none parent (var ∷ vars) groups >>= attach jobs)
  unfolding to_py_err
  refused parent var vars jobs groups = refl

  -- For a map of the groups by their paths, and jobs of which one has arrays for a parent that is
  -- not among the groups: attaching the arrays fails with an error that Python sees as
  -- `RuntimeError`, whatever the other jobs are.
  pub attach-orphan :
      (jobs : List (Text × List (VarMeta V))) (groups : List (Text × NodeData V)) (parent : Text)
      (var : VarMeta V) (vars : List (VarMeta V))
      → IsNodeMap groups
      → Occurs (parent, var ∷ vars) jobs
      → ¬ Occurs parent (keys groups)
      → IsRuntimeError (attach jobs groups)
  unfolding attach
  attach-orphan [] groups parent var vars n o out = absurd o
  attach-orphan ((p, vs) ∷ jobs) groups parent var vars n (inl e) out =
      elim (Option-cases (get parent groups)) [
        | inl f ↦
            subst (λ j. IsRuntimeError (attach_at (get j.0 groups) j.0 j.1 groups >>= attach jobs))
              e (rw f (refused parent var vars jobs groups))
        | inr (v, f) ↦ absurd (out (Occurs-get parent v groups f))
      ]
  attach-orphan ((p, vs) ∷ jobs) groups parent var vars n (inr o) out =
      elim (Option-cases (get p groups)) [
        | inl f ↦ rw f (none_there vs (attach-orphan jobs groups parent var vars n o out))
        | inr (v, f) ↦
            let (next, (g, (n', same))) = attach_one p vs groups n (Occurs-get p v groups f) in
            rw g (
              attach-orphan jobs next parent var vars n' o
                (λ o. out (subst (Occurs parent) same o)))
      ]
    where
      none_there :
          (vs : List (VarMeta V))
          → IsRuntimeError (attach jobs groups)
          → IsRuntimeError (attach_at none p vs groups >>= attach jobs)
      none_there [] later = later
      none_there (v ∷ vs) later = refused p v vs jobs groups
