-- ===== src/Python/Values.antt =====
-- `json_to_py` of src/lib.rs, read back.
use rustytree.Prelude.{
  subst, arith, ◌<◌, ◌≤◌, ℕ, ◌≡◌, ◌≢◌, refl, sym, ap, ◌∙◌, inl, inr, Bool-cases, ltb, none, some,
  Text, text_eq, text_eq_sound,
}
use rustytree.Json.{
  Json, null, boolean, number, text, array, object, Number, positive, negative, float, Items, nil,
  cons, Fields, end, field,
}
use rustytree.Array.Read.{ok, ◌>>=◌}
use rustytree.Python.Object.{
  ℤ, pos, negsuc, PyAny, none_value, bool_value, int, float_value, str, list, dict, ndarray, handle,
  PyItems, no_items, item, PyFields, no_entries, entry, Platform, append, set_item,
}
use rustytree.Python.Convert.{number_to_py, json_to_py, items_to_py, fields_to_py}

-- What serde_json documents of a number: an integer is read as an `i64` or as a `u64` where it is
-- one, and a float only as an `f64`.
pub record ReadsNumbers {V : Type 0} (platform : Platform V) : Type 0 where
  pub small : (n : ℕ) → n < 9_223_372_036_854_775_808 → platform.as_i64 (positive n) ≡ some (pos n)
  pub large : (n : ℕ) → 9_223_372_036_854_775_808 ≤ n → platform.as_i64 (positive n) ≡ none
  pub unsigned : (n : ℕ) → platform.as_u64 (positive n) ≡ some n
  pub below : (n : ℕ) → platform.as_i64 (negative n) ≡ some (negsuc n)
  pub float_i64 : (b : ℕ) → platform.as_i64 (float b) ≡ none
  pub float_u64 : (b : ℕ) → platform.as_u64 (float b) ≡ none
  pub float_f64 : (b : ℕ) → platform.as_f64 (float b) ≡ some b

-- The attribute value that a Python object stands for; NumPy arrays and handles stand for none.
abbrev pub integer : ℤ → Number
integer (pos n) = positive n
integer (negsuc n) = negative n

unfoldable mutual
  pub read : {V : Type 0} → PyAny V → Json
  read none_value = null
  read (bool_value b) = boolean b
  read (int i) = number (integer i)
  read (float_value b) = number (float b)
  read (str s) = text s
  read (list items) = array (read_items items)
  read (dict entries) = object (read_entries entries)
  read (ndarray a) = null
  read (handle h) = null

  pub read_items : {V : Type 0} → PyItems V → Items
  read_items no_items = nil
  read_items (item p items) = cons (read p) (read_items items)

  pub read_entries : {V : Type 0} → PyFields V → Fields
  read_entries no_entries = end
  read_entries (entry k p entries) = field k (read p) (read_entries entries)

-- The key is not in the object; the keys of each object differ.
abbrev pub NotIn : Text → Fields → Type 0
NotIn k end = Unit
NotIn k (field j v map) = (j ≢ k) × NotIn k map

abbrev mutual
  pub HasDistinctKeys : Json → Type 0
  HasDistinctKeys (array items) = HaveDistinctKeys items
  HasDistinctKeys (object map) = AreDistinct map
  HasDistinctKeys _ = Unit

  pub HaveDistinctKeys : Items → Type 0
  HaveDistinctKeys nil = Unit
  HaveDistinctKeys (cons v items) = HasDistinctKeys v × HaveDistinctKeys items

  pub AreDistinct : Fields → Type 0
  AreDistinct end = Unit
  AreDistinct (field k v map) = NotIn k map × (HasDistinctKeys v × AreDistinct map)

-- Lists and objects one after the other.
abbrev join_items : Items → Items → Items
join_items nil vs = vs
join_items (cons v us) vs = cons v (join_items us vs)

abbrev join_fields : Fields → Fields → Fields
join_fields end m = m
join_fields (field k v l) m = field k v (join_fields l m)

join_items-nil : (us : Items) → join_items us nil ≡ us
join_items-nil nil = refl
join_items-nil (cons v us) = ap (cons v) (join_items-nil us)

join_items_assoc :
    (us vs ws : Items) → join_items (join_items us vs) ws ≡ join_items us (join_items vs ws)
join_items_assoc nil vs ws = refl
join_items_assoc (cons v us) vs ws = ap (cons v) (join_items_assoc us vs ws)

join_fields-end : (l : Fields) → join_fields l end ≡ l
join_fields-end end = refl
join_fields-end (field k v l) = ap (field k v) (join_fields-end l)

join_fields_assoc :
    (l m n : Fields) → join_fields (join_fields l m) n ≡ join_fields l (join_fields m n)
join_fields_assoc end m n = refl
join_fields_assoc (field k v l) m n = ap (field k v) (join_fields_assoc l m n)

-- No key of the second is one of the first.
abbrev Apart : Fields → Fields → Type 0
Apart d end = Unit
Apart d (field k v map) = NotIn k d × Apart d map

Apart-end : (map : Fields) → Apart end map
Apart-end end = tt
Apart-end (field k v map) = (tt, Apart-end map)

NotIn-join : (k : Text) (d m : Fields) → NotIn k d → NotIn k m → NotIn k (join_fields d m)
NotIn-join k end m h n = n
NotIn-join k (field j v d) m h n = (h.0, NotIn-join k d m h.1 n)

-- An entry more keeps what follows apart.
Apart-entry :
    (d : Fields) (k : Text) (v : Json) (map : Fields)
    → Apart d map
    → NotIn k map
    → Apart (join_fields d (field k v end)) map
Apart-entry d k v end a n = tt
Apart-entry d k v (field j w map) a n =
    (NotIn-join j d (field k v end) a.0 ((λ e. n.0 (sym e)), tt), Apart-entry d k v map a.1 n.1)

module _ {V : Type 0} where
  read-append :
      (l : PyItems V) (p : PyAny V)
      → read_items (append l p) ≡ join_items (read_items l) (cons (read p) nil)
  unfolding append read
  read-append no_items p = refl
  read-append (item q l) p = ap (cons (read q)) (read-append l p)

  -- An entry under a new key goes to the end.
  read-set_item :
      (k : Text) (p : PyAny V) (d : PyFields V)
      → NotIn k (read_entries d)
      → read_entries (set_item k p d) ≡ join_fields (read_entries d) (field k (read p) end)
  unfolding set_item read
  read-set_item k p no_entries n = refl
  read-set_item k p (entry j q d) n = elim (Bool-cases (text_eq j k)) [
    | inl t ↦ absurd (n.0 (text_eq_sound j k t))
    | inr f ↦ rw f (ap (field j (read q)) (read-set_item k p d n.1))
  ]

module _ {V : Type 0} (platform : Platform V) (numbers : ReadsNumbers platform) where
  pub number_to_py-read :
      (n : Number) → (p : PyAny V) × ((number_to_py platform n ≡ ok p) × (read p ≡ number n))
  unfolding number_to_py read
  number_to_py-read (positive n) = elim (Bool-cases (ltb n 9_223_372_036_854_775_808)) [
    | inl t ↦ (int (pos n), (rw (numbers.small n (ground arith)) refl, refl))
    | inr f ↦ (int (pos n), (rw (numbers.large n (ground arith), numbers.unsigned n) refl, refl))
  ]
  number_to_py-read (negative n) = (int (negsuc n), (rw (numbers.below n) refl, refl))
  number_to_py-read (float b) = (
    float_value b,
    (rw (numbers.float_i64 b, numbers.float_u64 b, numbers.float_f64 b) refl, refl),
  )

  mutual
    unfolding json_to_py read

    json_to_py-read :
        (v : Json)
        → HasDistinctKeys v
        → (p : PyAny V) × ((json_to_py platform v ≡ ok p) × (read p ≡ v))
    json_to_py-read null h = (none_value, (refl, refl))
    json_to_py-read (boolean b) h = (bool_value b, (refl, refl))
    json_to_py-read (number n) h = number_to_py-read n
    json_to_py-read (text s) h = (str s, (refl, refl))
    json_to_py-read (array items) h =
        let (l, (e, f)) = items_to_py-read items no_items h in (list l, (rw e refl, ap array f))
    json_to_py-read (object map) h =
        let (d, (e, f)) = fields_to_py-read map no_entries h (Apart-end map) in
        (dict d, (rw e refl, ap object f))

    items_to_py-read :
        (items : Items) (l : PyItems V)
        → HaveDistinctKeys items
        → (out : PyItems V) × ((items_to_py platform items l ≡ ok out)
            × (read_items out ≡ join_items (read_items l) items))
    items_to_py-read nil l h = (l, (refl, sym (join_items-nil (read_items l))))
    items_to_py-read (cons v items) l (h, hs) =
        let (p, (e, f)) = json_to_py-read v h in
        let (out, (g, k)) = items_to_py-read items (append l p) hs in
        (
          out,
          (
            ap (λ r. r >>= λ p. items_to_py platform items (append l p)) e ∙ g,
            k
                ∙ (ap (λ us. join_items us items)
                      (read-append l p ∙ ap (λ w. join_items (read_items l) (cons w nil)) f)
                    ∙ join_items_assoc (read_items l) (cons v nil) items),
          ),
        )

    fields_to_py-read :
        (map : Fields) (d : PyFields V)
        → AreDistinct map
        → Apart (read_entries d) map
        → (out : PyFields V) × ((fields_to_py platform map d ≡ ok out)
            × (read_entries out ≡ join_fields (read_entries d) map))
    fields_to_py-read end d h a = (d, (refl, sym (join_fields-end (read_entries d))))
    fields_to_py-read (field k v map) d (n, (h, hs)) a =
        let (p, (e, f)) = json_to_py-read v h in
        let entries =
          read-set_item k p d a.0 ∙ ap (λ w. join_fields (read_entries d) (field k w end)) f in
        let (out, (g, m)) =
          fields_to_py-read map (set_item k p d) hs
            (subst (λ x. Apart x map) (sym entries) (Apart-entry (read_entries d) k v map a.1 n)) in
        (
          out,
          (
            ap (λ r. r >>= λ p. fields_to_py platform map (set_item k p d)) e ∙ g,
            m
                ∙ (ap (λ x. join_fields x map) entries
                    ∙ join_fields_assoc (read_entries d) (field k v end) map),
          ),
        )

  -- With numbers that serde_json reads as it documents: every attribute value, nested to any depth
  -- and with no key twice in an object, converts to a Python object, and the object stands for the
  -- same value, with integers of the whole range of `i64` and `u64`, the items of each list in
  -- their order, and the entries of each object in theirs.
  pub read-json_to_py :
      (v : Json)
      → HasDistinctKeys v
      → (p : PyAny V) × ((json_to_py platform v ≡ ok p) × (read p ≡ v))
  read-json_to_py v h = json_to_py-read v h
