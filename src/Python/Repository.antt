-- ===== src/Python/Repository.antt =====
-- `open_datatree` of src/lib.rs on the path of an icechunk repository, against the bytes of the same
-- session.
use rustytree.Prelude.{
  ℕ, ◌≡◌, refl, ap, inl, inr, Bool-cases, true, Option, none, some, List, [], ◌∷◌, Text, codes,
  text_eq,
}
use mathlib.Core.Option.{get_or}
use rustytree.Error
use rustytree.Error.{Result, PyErr}
use rustytree.Zarrs.{good}
use rustytree.Array.Read.{PyResult, ok, raise, panic, ◌>>=◌}
use rustytree.Node.{EagerElements, VarMeta, NodeData}
use rustytree.Url.{local, parse_store_spec}
use rustytree.Store.{
  ReopenSpec, session_bytes, looks_like_icechunk_repo, open_local_icechunk, build_local_store,
  build_store_from_spec, bundle_from_session_bytes,
}
use rustytree.Store.Handle.{into_py}
use rustytree.Walk.Recursive.{Outcome, done}
use rustytree.Python.Object.{
  PyAny, list, dict, ndarray, handle, PyItems, no_items, item, PyFields, no_entries, entry,
  Platform, append, set_item,
}
use rustytree.Python.Convert.{
  attrs_to_pydict, eager_to_pyarray, var_entries, with_data, var_to_pydict, vars_into,
  node_to_pydict, nodes_into, nodes_to_pydict,
}
use rustytree.Python.Open.{
  PySource, Arguments, PyOutcome, returned, Crates, options_or_default, to_python, open_source,
  open_session, parse_arguments, open_datatree,
}

-- An object with the reopen specification taken out of every handle in it.
abbrev mutual
  pub forget : {V : Type 0} → PyAny V → PyAny V
  forget (handle h) = handle (record { array = h.array; spec = none })
  forget (list items) = list (forget_items items)
  forget (dict d) = dict (forget_entries d)
  forget p = p

  pub forget_items : {V : Type 0} → PyItems V → PyItems V
  forget_items no_items = no_items
  forget_items (item p items) = item (forget p) (forget_items items)

  pub forget_entries : {V : Type 0} → PyFields V → PyFields V
  forget_entries no_entries = no_entries
  forget_entries (entry k p d) = entry k (forget p) (forget_entries d)

-- What a call gives, with the specifications taken out of the dict, if it returns one.
abbrev forget_result : {V : Type 0} → PyResult (PyFields V) → PyResult (PyFields V)
forget_result (ok d) = ok (forget_entries d)
forget_result (raise e) = raise e
forget_result panic = panic

abbrev pub without_specs : {V : Type 0} → PyOutcome V → PyOutcome V
without_specs (returned r) = returned (forget_result r)
without_specs PyOutcome.out_of_fuel = PyOutcome.out_of_fuel

-- Two calls of Python that give values with the same image, or the same error.
abbrev Agree : {A : Type 0} → (A → A) → PyResult A → PyResult A → Type 0
Agree f (ok a) (ok b) = f a ≡ f b
Agree f (raise e) (raise g) = e ≡ g
Agree f panic panic = Unit
Agree f _ _ = ⊥

module _ {A B : Type 0} where
  Agree-bind :
      (f : A → A) (g : B → B) (r s : PyResult A) (k l : A → PyResult B)
      → Agree f r s
      → ((a b : A) → f a ≡ f b → Agree g (k a) (l b))
      → Agree g (r >>= k) (s >>= l)
  Agree-bind f g (ok a) (ok b) k l h next = next a b h
  Agree-bind f g (raise e) (raise e2) k l h next = h
  Agree-bind f g panic panic k l h next = tt
  Agree-bind f g (ok a) (raise e) k l h next = absurd h
  Agree-bind f g (ok a) panic k l h next = absurd h
  Agree-bind f g (raise e) (ok a) k l h next = absurd h
  Agree-bind f g (raise e) panic k l h next = absurd h
  Agree-bind f g panic (ok a) k l h next = absurd h
  Agree-bind f g panic (raise e) k l h next = absurd h

  -- The first of two calls is the same.
  Agree-after :
      (g : B → B) (r : PyResult A) (k l : A → PyResult B)
      → ((a : A) → Agree g (k a) (l a))
      → Agree g (r >>= k) (r >>= l)
  Agree-after g (ok a) k l next = next a
  Agree-after g (raise e) k l next = refl
  Agree-after g panic k l next = tt

module _ {V : Type 0} where
  forget_items-append :
      (l : PyItems V) (p : PyAny V) → forget_items (append l p) ≡ append (forget_items l) (forget p)
  unfolding append
  forget_items-append no_items p = refl
  forget_items-append (item q l) p = ap (item (forget q)) (forget_items-append l p)

  forget_entries-set_item :
      (key : Text) (p : PyAny V) (d : PyFields V)
      → forget_entries (set_item key p d) ≡ set_item key (forget p) (forget_entries d)
  unfolding set_item
  forget_entries-set_item key p no_entries = refl
  forget_entries-set_item key p (entry k q d) = elim (Bool-cases (text_eq k key)) [
    | inl t ↦ rw t refl
    | inr f ↦ rw f (ap (entry k (forget q)) (forget_entries-set_item key p d))
  ]

  append-forget :
      (l m : PyItems V) (p q : PyAny V)
      → forget_items l ≡ forget_items m
      → forget p ≡ forget q
      → forget_items (append l p) ≡ forget_items (append m q)
  append-forget l m p q h k = rw (forget_items-append l p, forget_items-append m q, h, k) refl

  set_item-forget :
      (key : Text) (p q : PyAny V) (d e : PyFields V)
      → forget_entries d ≡ forget_entries e
      → forget p ≡ forget q
      → forget_entries (set_item key p d) ≡ forget_entries (set_item key q e)
  set_item-forget key p q d e h k =
      rw (forget_entries-set_item key p d, forget_entries-set_item key q e, h, k) refl

  -- The conversion with two reopen specifications.
  module _ (platform : Platform V) (s t : Option ReopenSpec) where
    with_data-Agree :
        (eager : Option (EagerElements V)) (shape : List ℕ) (d e : PyFields V)
        → forget_entries d ≡ forget_entries e
        → Agree forget_entries (with_data platform eager shape d) (with_data platform eager shape e)
    unfolding with_data
    with_data-Agree none shape d e h = h
    with_data-Agree (some eager) shape d e h =
        Agree-after forget_entries (eager_to_pyarray platform eager shape) _ _
          (λ a. set_item-forget (codes "data") (ndarray a) (ndarray a) d e h refl)

    var-Agree :
        (var : VarMeta V)
        → Agree forget_entries (var_to_pydict platform s var) (var_to_pydict platform t var)
    unfolding var_to_pydict
    var-Agree var = Agree-after forget_entries (attrs_to_pydict platform var.attrs) _ _ (λ attrs.
        with_data-Agree var.eager var.shape (var_entries s var attrs) (var_entries t var attrs)
          (set_item-forget (codes "handle") _ _ _ _ refl refl))

    vars-Agree :
        (vars : List (VarMeta V)) (l m : PyItems V)
        → forget_items l ≡ forget_items m
        → Agree forget_items (vars_into platform s vars l) (vars_into platform t vars m)
    unfolding vars_into
    vars-Agree [] l m h = h
    vars-Agree (var ∷ vars) l m h =
        Agree-bind forget_entries forget_items (var_to_pydict platform s var)
          (var_to_pydict platform t var) _ _ (var-Agree var)
          (λ d e k.
            vars-Agree vars (append l (dict d)) (append m (dict e))
              (append-forget l m (dict d) (dict e) h (ap dict k)))

    node-Agree :
        (node : NodeData V)
        → Agree forget_entries (node_to_pydict platform s node) (node_to_pydict platform t node)
    unfolding node_to_pydict
    node-Agree node = Agree-after forget_entries (attrs_to_pydict platform node.attrs) _ _ (λ attrs.
        Agree-bind forget_items forget_entries (vars_into platform s node.vars no_items)
          (vars_into platform t node.vars no_items) _ _
          (vars-Agree node.vars no_items no_items refl)
          (λ v w h. set_item-forget (codes "vars") (list v) (list w) _ _ refl (ap list h)))

    nodes-Agree :
        (nodes : List (NodeData V)) (d e : PyFields V)
        → forget_entries d ≡ forget_entries e
        → Agree forget_entries (nodes_into platform s nodes d) (nodes_into platform t nodes e)
    unfolding nodes_into
    nodes-Agree [] d e h = h
    nodes-Agree (node ∷ nodes) d e h =
        Agree-bind forget_entries forget_entries (node_to_pydict platform s node)
          (node_to_pydict platform t node) _ _ (node-Agree node)
          (λ p q k.
            nodes-Agree nodes (set_item node.path (dict p) d) (set_item node.path (dict q) e)
              (set_item-forget node.path (dict p) (dict q) d e h (ap dict k)))

  Agree-forget_result :
      (r s : PyResult (PyFields V)) → Agree forget_entries r s → forget_result r ≡ forget_result s
  Agree-forget_result (ok a) (ok b) h = ap ok h
  Agree-forget_result (raise e) (raise g) h = ap raise h
  Agree-forget_result panic panic h = refl
  Agree-forget_result (ok a) (raise e) h = absurd h
  Agree-forget_result (ok a) panic h = absurd h
  Agree-forget_result (raise e) (ok a) h = absurd h
  Agree-forget_result (raise e) panic h = absurd h
  Agree-forget_result panic (ok a) h = absurd h
  Agree-forget_result panic (raise e) h = absurd h

module _ {V : Type 0} (platform : Platform V) (crates : Crates V) (fuel : ℕ) where
  converted-forget :
      (s t : Option ReopenSpec) (r : Result (List (NodeData V)))
      → forget_result (into_py r >>= nodes_to_pydict platform s)
        ≡ forget_result (into_py r >>= nodes_to_pydict platform t)
  unfolding nodes_to_pydict
  converted-forget s t (Error.ok nodes) =
      Agree-forget_result _ _ (nodes-Agree platform s t nodes no_entries no_entries refl)
  converted-forget s t (Error.err e) = refl

  to_python-forget :
      (s t : Option ReopenSpec) (o : Outcome V)
      → without_specs (to_python platform crates fuel s o)
        ≡ without_specs (to_python platform crates fuel t o)
  to_python-forget s t (done r) = ap returned (converted-forget s t r)
  to_python-forget s t Outcome.out_of_fuel = refl
  to_python-forget s t Outcome.panic = refl

  -- For the path of a local icechunk repository, which opens a session on the branch that is named,
  -- or on `main`, and for the bytes that icechunk reads as the same session; with storage options
  -- that convert and any other arguments: `open_datatree` gives the same for both sources, a dict
  -- with the same entries at every depth or the same exception, but for the reopen specification in
  -- each array handle.
  pub open_datatree-same_session :
      (args : Arguments) (by_path by_bytes : PySource) (path p : Text)
      (options : List (Text × Text)) (bytes : List ℕ) (session : crates.backends.Session)
      → by_path.as_bytes ≡ none
      → by_path.as_string ≡ some path
      → parse_store_spec path ≡ Error.ok (local p)
      → options_or_default args.storage_options ≡ ok options
      → looks_like_icechunk_repo crates.backends p ≡ true
      → open_local_icechunk crates.backends p (get_or args.branch (codes "main")) ≡ Error.ok session
      → by_bytes.as_bytes ≡ some bytes
      → crates.backends.from_bytes bytes ≡ good session
      → without_specs (open_datatree platform crates fuel by_path args)
        ≡ without_specs (open_datatree platform crates fuel by_bytes args)
  unfolding open_datatree parse_arguments open_source build_local_store open_session
      build_store_from_spec bundle_from_session_bytes
  open_datatree-same_session args by_path by_bytes path p options bytes session no_bytes text parsed
        given repository opens is_bytes reads =
      rw (no_bytes, text, parsed, given, repository, opens, is_bytes, reads)
        (to_python-forget none (some (session_bytes bytes)) _)
