-- ===== src/Walk/Recursive/Sample.antt =====
-- The groups of the sample store, opened.
use rustytree.Prelude.{
  ℕ, refl, inl, inr, Bool, Bool-cases, List, [], ◌∷◌, Text, codes, All, text_eq,
}
use rustytree.Node.{NodeData, VarMeta}
use rustytree.Walk.Join.{Race, try_join_all}
use rustytree.Walk.Open.{open_single, open_array_meta, clone_attrs, var_meta}
use rustytree.Walk.Discover.Spec.{visited}
use rustytree.Walk.Recursive.Laws.{Picks, Opens}
use rustytree.Walk.Sample.{sample, sample_tree, int16_names, x_array}

abbrev pub first : Race
first e es = e

pub first-Picks : Picks first
first-Picks e es = inl refl

abbrev pub group_node : Text → List (VarMeta ℕ) → NodeData ℕ
group_node path vars = record { path = path; attrs = clone_attrs []; vars = vars }

root-Opens : Opens int16_names first sample (codes "/")
unfolding open_single sample text_eq try_join_all
root-Opens = (group_node (codes "/") [], refl)

a-Opens : Opens int16_names first sample (codes "/a")
unfolding open_single open_array_meta sample text_eq try_join_all
a-Opens = (group_node (codes "/a") (var_meta int16_names (codes "/a/x") x_array ∷ []), refl)

pub b-Opens : Opens int16_names first sample (codes "/b")
unfolding open_single sample text_eq try_join_all
b-Opens = (group_node (codes "/b") [], refl)

pub each_group-Opens :
    (enter : Text → Bool) → All (Opens int16_names first sample) (visited enter sample_tree)
unfolding visited
each_group-Opens enter = elim (Bool-cases (enter (codes "/a"))) [
  | inl e ↦ elim (Bool-cases (enter (codes "/b"))) [
    | inl f ↦ rw (e, f) (root-Opens, (a-Opens, (b-Opens, tt)))
    | inr f ↦ rw (e, f) (root-Opens, (a-Opens, tt))
  ]
  | inr e ↦ elim (Bool-cases (enter (codes "/b"))) [
    | inl f ↦ rw (e, f) (root-Opens, (b-Opens, tt))
    | inr f ↦ rw (e, f) (root-Opens, tt)
  ]
]
