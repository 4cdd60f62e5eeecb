-- ===== src/Node.antt =====
-- src/node.rs: what the walk produces for each group. `V` holds the elements of the numeric types.
use rustytree.Prelude.{ℕ, Option, List, Text}
use rustytree.Array.Dtype.{
  Primitive, p_bool, p_i8, p_i16, p_i32, p_i64, p_u8, p_u16, p_u32, p_u64, p_f32, p_f64,
}
use rustytree.Json.{Json}
use rustytree.Zarrs.{ZarrsArray}

pub data EagerElements (V : Type 0) : Type 0 where
  e_bool : List V → EagerElements V
  e_i8 : List V → EagerElements V
  e_i16 : List V → EagerElements V
  e_i32 : List V → EagerElements V
  e_i64 : List V → EagerElements V
  e_u8 : List V → EagerElements V
  e_u16 : List V → EagerElements V
  e_u32 : List V → EagerElements V
  e_u64 : List V → EagerElements V
  e_f32 : List V → EagerElements V
  e_f64 : List V → EagerElements V
  e_str : List Text → EagerElements V

-- `eager_from_vec`, with the `EagerElementType` of each primitive type.
unfoldable pub eager_from_vec : {V : Type 0} → Primitive → List V → EagerElements V
eager_from_vec p_bool v = e_bool v
eager_from_vec p_i8 v = e_i8 v
eager_from_vec p_i16 v = e_i16 v
eager_from_vec p_i32 v = e_i32 v
eager_from_vec p_i64 v = e_i64 v
eager_from_vec p_u8 v = e_u8 v
eager_from_vec p_u16 v = e_u16 v
eager_from_vec p_u32 v = e_u32 v
eager_from_vec p_u64 v = e_u64 v
eager_from_vec p_f32 v = e_f32 v
eager_from_vec p_f64 v = e_f64 v

pub record VarMeta (V : Type 0) : Type 0 where
  pub name : Text
  pub dims : List Text
  pub dtype : Text
  pub shape : List ℕ
  pub attrs : List (Text × Json)
  pub array : ZarrsArray V
  pub eager : Option (EagerElements V)

pub record NodeData (V : Type 0) : Type 0 where
  pub path : Text
  pub attrs : List (Text × Json)
  pub vars : List (VarMeta V)

-- `node.vars = vars`
abbrev pub with_vars : {V : Type 0} → NodeData V → List (VarMeta V) → NodeData V
with_vars node vars = record { path = node.path; attrs = node.attrs; vars = vars }
