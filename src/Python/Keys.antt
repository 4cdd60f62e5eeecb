-- ===== src/Python/Keys.antt =====
-- The keys of the dict that `nodes_to_pydict` of src/lib.rs returns.
use rustytree.Prelude.{
  ◌≡◌, ◌≢◌, refl, sym, subst, ap, ◌∙◌, inl, inr, Option, List, [], ◌∷◌, ◌++◌, append_assoc,
  append-nil, map, Text, text_cases, All, All-append, All-imp,
}
use rustytree.BTree.Laws.{Before, Before-trans, Before-irrefl}
use rustytree.Array.Read.{ok, ◌>>=◌}
use rustytree.Node.{NodeData}
use rustytree.Store.{ReopenSpec}
use rustytree.Walk.Snapshot.Laws.{Ascending}
use rustytree.Python.Object.{PyAny, dict, PyFields, no_entries, entry, Platform, set_item}
use rustytree.Python.Convert.{nodes_into, nodes_to_pydict}
use rustytree.Python.Values.{ReadsNumbers}
use rustytree.Python.Complete.{entry_keys, NodeLoads, node_to_pydict-Gives}

module _ {V : Type 0} where
  -- An entry under a key that is not there goes to the end.
  entry_keys-set_item :
      (key : Text) (p : PyAny V) (d : PyFields V)
      → All (λ k. k ≢ key) (entry_keys d)
      → entry_keys (set_item key p d) ≡ entry_keys d ++ key ∷ []
  unfolding set_item
  entry_keys-set_item key p no_entries n = refl
  entry_keys-set_item key p (entry k q d) (ne, n) = elim (text_cases k key) [
    | inl (e, _) ↦ absurd (ne e)
    | inr (_, f) ↦ rw f (ap (◌∷◌ k) (entry_keys-set_item key p d n))
  ]

-- Each path of the first list stands before each one of the second.
abbrev Precede : List Text → List Text → Type 0
Precede ks ps = All (λ k. All (Before k) ps) ks

Ascending-All : (p : Text) (ps : List Text) → Ascending (p ∷ ps) → All (Before p) ps
Ascending-All p [] a = tt
Ascending-All p (q ∷ ps) (b, a) =
    (b, All-imp (Before q) (Before p) (λ r h. Before-trans p q r b h) ps (Ascending-All q ps a))

Ascending-tail : (p : Text) (ps : List Text) → Ascending (p ∷ ps) → Ascending ps
Ascending-tail p [] a = tt
Ascending-tail p (q ∷ ps) a = a.1

Precede-ne : (p : Text) (ps ks : List Text) → Precede ks (p ∷ ps) → All (λ k. k ≢ p) ks
Precede-ne p ps ks h =
    All-imp (λ k. All (Before k) (p ∷ ps)) (λ k. k ≢ p)
      (λ k b e. Before-irrefl p (subst (λ x. Before x p) e b.0)) ks h

Precede-next :
    (p : Text) (ps ks : List Text)
    → Ascending (p ∷ ps)
    → Precede ks (p ∷ ps)
    → Precede (ks ++ p ∷ []) ps
Precede-next p ps ks a h =
    All-append (λ k. All (Before k) ps) ks (p ∷ [])
      (All-imp (λ k. All (Before k) (p ∷ ps)) (λ k. All (Before k) ps) (λ k b. b.1) ks h)
      (Ascending-All p ps a, tt)

module _ {V : Type 0} (platform : Platform V) (numbers : ReadsNumbers platform) where
  nodes_into-keys :
      (spec : Option ReopenSpec) (nodes : List (NodeData V)) (d : PyFields V)
      → All (NodeLoads platform numbers) nodes
      → Ascending (map (λ n. n.path) nodes)
      → Precede (entry_keys d) (map (λ n. n.path) nodes)
      → (out : PyFields V) × ((nodes_into platform spec nodes d ≡ ok out)
          × (entry_keys out ≡ entry_keys d ++ map (λ n. n.path) nodes))
  unfolding nodes_into
  nodes_into-keys spec [] d h a b = (d, (refl, sym (append-nil (entry_keys d))))
  nodes_into-keys spec (node ∷ nodes) d (h, hs) a b =
      let paths = map (λ (n : NodeData V). n.path) nodes in
      let (p, e) = node_to_pydict-Gives platform numbers spec node h in
      let keys = entry_keys-set_item node.path (dict p) d (Precede-ne node.path paths _ b) in
      let (out, (f, g)) =
        nodes_into-keys spec nodes (set_item node.path (dict p) d) hs
          (Ascending-tail node.path paths a)
          (subst (λ ks. Precede ks paths) (sym keys) (Precede-next node.path paths _ a b)) in
      (
        out,
        (
          ap (λ r. r >>= λ p. nodes_into platform spec nodes (set_item node.path (dict p) d)) e ∙ f,
          g ∙ (ap (λ ks. ks ++ paths) keys ∙ append_assoc (entry_keys d) (node.path ∷ []) paths),
        ),
      )

  -- Nodes in ascending order of their paths convert, with their paths as the keys.
  pub nodes_to_pydict-keys :
      (spec : Option ReopenSpec) (nodes : List (NodeData V))
      → All (NodeLoads platform numbers) nodes
      → Ascending (map (λ n. n.path) nodes)
      → (out : PyFields V) × ((nodes_to_pydict platform spec nodes ≡ ok out)
          × (entry_keys out ≡ map (λ n. n.path) nodes))
  unfolding nodes_to_pydict
  nodes_to_pydict-keys spec nodes h a = nodes_into-keys spec nodes no_entries h a tt
