-- ===== src/Walk/Discover/Matches.antt =====
-- The discovery with a glob predicate, and the groups that the pattern matches.
use rustytree.Prelude.{
  ◌≡◌, subst, sym, ap, ◌∙◌, inl, inr, Bool, Bool-cases, true, some, List, [], ◌++◌, append-nil,
  append_assoc, Text, text_eq, text_eq_sound, codes, Occurs, Occurs-append_left,
  Occurs-append_right, Occurs-append_inv,
}
use rustytree.Glob.{names, parse}
use rustytree.Glob.Spec.{MatchesAll}
use rustytree.Glob.Names.{names-append, names-slash}
use rustytree.Glob.Predicate.{parse_keeps_above}
use rustytree.Walk.Paths.Laws.{child_path}
use rustytree.Walk.Discover.{concat, enters}
use rustytree.Walk.Discover.Spec.{
  Tree, node, Forest, nil, cons, root, visited, visited_each, IsNested, NestedIn, all_paths,
}

names-child_path : (path name : Text) → names (child_path path name) ≡ names path ++ names name
unfolding child_path
names-child_path path name = elim (Bool-cases (text_eq path (codes "/"))) [
  | inl e ↦ rw e (
      names-append [] name
      ∙ ap (λ ns. ns ++ names name)
          (sym names-slash ∙ ap names (sym (text_eq_sound path (codes "/") e))))
  | inr e ↦ rw e (names-append path name)
]

-- A path below a group has the segments of the group's path, and more.
abbrev Extends : Text → Text → Type 0
Extends path p = (more : List Text) × (names p ≡ names path ++ more)

Extends-child_path :
    (path p c name : Text) → c ≡ child_path path name → Extends c p → Extends path p
Extends-child_path path p c name e (more, f) = (
  names name ++ more,
  f
      ∙ (ap (λ c. names c ++ more) e
          ∙ (ap (λ ns. ns ++ more) (names-child_path path name)
              ∙ append_assoc (names path) (names name) more)),
)

mutual
  unfolding visited visited_each IsNested NestedIn

  all_paths-Extends :
      (t : Tree) → IsNested t → (p : Text) → Occurs p (all_paths t) → Extends (root t) p
  all_paths-Extends (node path f) n p (inl e) = ([], ap names e ∙ sym (append-nil (names path)))
  all_paths-Extends (node path f) n p (inr o) = each-Extends path f n p o

  each-Extends :
      (path : Text) (f : Forest)
      → NestedIn path f
      → (p : Text) → Occurs p (concat (visited_each (λ _. true) f))
      → Extends path p
  each-Extends path nil n p o = absurd o
  each-Extends path (cons t f) ((name, e), (here, there)) p o =
      elim (Occurs-append_inv p (all_paths t) (concat (visited_each (λ _. true) f)) o) [
        | inl o ↦ Extends-child_path path p (root t) name e (all_paths-Extends t here p o)
        | inr o ↦ each-Extends path f there p o
      ]

-- A walk that enters every group above a path visits the path.
module _ (enter : Text → Bool) (p : Text)
    (opens : (path : Text) → Extends path p → enter path ≡ true) where
  mutual
    unfolding visited visited_each IsNested NestedIn

    visited-Occurs : (t : Tree) → IsNested t → Occurs p (all_paths t) → Occurs p (visited enter t)
    visited-Occurs (node path f) n (inl e) = inl e
    visited-Occurs (node path f) n (inr o) = inr (each-Occurs path f n o)

    each-Occurs :
        (path : Text) (f : Forest)
        → NestedIn path f
        → Occurs p (concat (visited_each (λ _. true) f))
        → Occurs p (concat (visited_each enter f))
    each-Occurs path nil n o = o
    each-Occurs path (cons t f) (_, (here, there)) o =
        let later = each-Occurs path f there in
        elim (Occurs-append_inv p (all_paths t) (concat (visited_each (λ _. true) f)) o) [
          | inl o ↦ rw (opens (root t) (all_paths-Extends t here p o)) (
              Occurs-append_left p (visited enter t) (concat (visited_each enter f))
                (visited-Occurs t here o))
          | inr o ↦ elim (Bool-cases (enter (root t))) [
            | inl e ↦
                rw e (
                  Occurs-append_right p (visited enter t) (concat (visited_each enter f)) (later o))
            | inr e ↦ rw e (later o)
          ]
        ]

-- For every tree of groups whose paths are those of children, every pattern and every path in the
-- tree that matches the pattern segment by segment: the path is among those that the discovery
-- visits when it goes by the predicate parsed from the pattern.
pub visited-matches :
    (pattern p : Text) (t : Tree)
    → IsNested t
    → Occurs p (all_paths t)
    → MatchesAll (names pattern) (names p)
    → Occurs p (visited (enters (some (parse pattern))) t)
visited-matches pattern p t n o m =
    visited-Occurs (enters (some (parse pattern))) p
      (λ path (more, e).
        parse_keeps_above pattern path more (subst (MatchesAll (names pattern)) e m))
      t n o
