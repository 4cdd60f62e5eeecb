-- ===== src/BTree.antt =====
-- `BTreeMap<String, V>` of the standard library, as the crate uses it: an association list in
-- ascending order of its keys, which compare as `str` does, byte by byte.
pub mod Laws
pub mod Keys
use package.rustytree.Prelude.{ℕ, Option, none, some, List, [], ◌∷◌, map, Text}
use Prim.Native.Nat.{compare, Ordering}

-- `a.cmp(b)` on texts
unfoldable pub text_cmp : Text → Text → Ordering
text_cmp [] [] = Ordering.eq
text_cmp [] (b ∷ t) = Ordering.lt
text_cmp (a ∷ s) [] = Ordering.gt
text_cmp (a ∷ s) (b ∷ t) = elim (compare a b) [
  | Ordering.lt ↦ Ordering.lt
  | Ordering.gt ↦ Ordering.gt
  | Ordering.eq ↦ text_cmp s t
]

module _ {ℓ} {V : Type ℓ} where
  -- `m.insert(k, v)`, at an entry that the key compares to; `rest` has it further on.
  abbrev pub insert_at :
      Ordering → Text → V → Text × V → List (Text × V) → List (Text × V) → List (Text × V)
  insert_at Ordering.lt k v e m rest = (k, v) ∷ e ∷ m
  insert_at Ordering.eq k v e m rest = (k, v) ∷ m
  insert_at Ordering.gt k v e m rest = e ∷ rest

  unfoldable pub insert : Text → V → List (Text × V) → List (Text × V)
  insert k v [] = (k, v) ∷ []
  insert k v ((j, w) ∷ m) = insert_at (text_cmp k j) k v (j, w) m (insert k v m)

  -- `m.get(k)`
  abbrev pub get_at : Ordering → V → Option V → Option V
  get_at Ordering.lt w rest = rest
  get_at Ordering.eq w rest = some w
  get_at Ordering.gt w rest = rest

  unfoldable pub get : Text → List (Text × V) → Option V
  get k [] = none
  get k ((j, w) ∷ m) = get_at (text_cmp k j) w (get k m)

  unfoldable pub collect_into : List (Text × V) → List (Text × V) → List (Text × V)
  unfolding insert
  collect_into m [] = m
  collect_into m ((k, v) ∷ entries) = collect_into (insert k v m) entries

  -- `entries.collect()`
  unfoldable pub collect : List (Text × V) → List (Text × V)
  unfolding collect_into
  collect entries = collect_into [] entries

  abbrev pub keys : List (Text × V) → List Text
  keys m = map (λ e. e.0) m
