-- ===== src/Walk/Eager/Tests.antt =====
-- The eager phase on the array of the sample store.
use rustytree.Prelude.{
  ℕ, ◌≡◌, ◌≢◌, ◌≤◌, ◌↔◌, ◌⊎◌, refl, true, some, [], ◌∷◌, map, codes, arith, text_eq,
}
use rustytree.Error.{ok}
use rustytree.Array.Slice.{product}
use rustytree.Array.Dtype.{for_each_supported_dtype}
use rustytree.Node.{NodeData, e_i16, eager_from_vec}
use rustytree.Walk.Eager.{
  should_eager_fetch, fetch_all_elements, eager_phase, product64, eager_fetch_max_elements,
  eager_fetch_max_object_elements,
}
use rustytree.Walk.Eager.Bounds.{should_eager_fetch_iff}
use rustytree.Walk.Eager.Phase.{fill_node, eager_phase_lem}
use rustytree.Walk.Sample.{int16_names, x_array, x_var, one_permit}

abbrev a_node : NodeData ℕ
a_node = record { path = codes "/a"; attrs = []; vars = x_var ∷ [] }

coordinate_fetched : should_eager_fetch x_var ≡ true
unfolding should_eager_fetch product64 text_eq
coordinate_fetched = refl

x_fetched : fetch_all_elements int16_names x_array ≡ ok (e_i16 (7 ∷ 8 ∷ []))
unfolding fetch_all_elements for_each_supported_dtype eager_from_vec
x_fetched = refl

eager_phase_lem_example :
    eager_phase int16_names (λ e es. e) one_permit (a_node ∷ [])
    ≡ some (ok (map (fill_node int16_names) (a_node ∷ [])))
eager_phase_lem_example = eager_phase_lem int16_names (λ e es. e) one_permit (a_node ∷ []) refl

should_eager_fetch_iff_example : (should_eager_fetch x_var ≡ true) ↔ (
    ((x_var.dtype ≡ codes "object")
      × ((product x_var.shape ≤ eager_fetch_max_object_elements)
          × ((x_var.shape ≡ []) ⊎ (x_var.dims ≡ x_var.name ∷ []))))
    ⊎ ((x_var.dtype ≢ codes "object")
        × ((product x_var.shape ≤ eager_fetch_max_elements) × (x_var.dims ≡ x_var.name ∷ []))))
should_eager_fetch_iff_example = should_eager_fetch_iff x_var refl (omega arith, tt)
