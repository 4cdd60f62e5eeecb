-- ===== src/Walk/Eager/Bounds.antt =====
-- Which variables are fetched during the walk.
use rustytree.Prelude.{
  ℕ, ◌≤◌, ◌<◌, ◌≡◌, ◌≢◌, refl, subst, sym, ap, ◌∙◌, ◌↔◌, ◌⊎◌, inl, inr, Bool, Bool-cases, true,
  false, ◌||◌, if◌then◌else◌, ltb, ltb→lt, ltb→le, List, [], ◌∷◌, length, Text, codes, text_eq,
  text_eq_sound, text_eq_iff, All, arith,
}
use rustytree.Array.Slice.{product}
use rustytree.Array.Read.{u64}
use rustytree.Node.{VarMeta}
use rustytree.Walk.Eager.{
  eager_fetch_max_elements, eager_fetch_max_object_elements, product64, is_empty, is_only,
  n_elements, is_self_named_1d, should_eager_fetch,
}

is_only_iff : (dims : List Text) (name : Text) → (is_only dims name ≡ true) ↔ (dims ≡ name ∷ [])
is_only_iff [] name = (λ e. cc, λ e. cc)
is_only_iff (d ∷ []) name =
    (λ e. ap (λ t. t ∷ []) ((text_eq_iff d name).0 e), λ e. (text_eq_iff d name).1 cc)
is_only_iff (d ∷ d' ∷ ds) name = (λ e. cc, λ e. cc)

is_empty_iff : (shape : List ℕ) → (is_empty shape ≡ true) ↔ (shape ≡ [])
is_empty_iff [] = (λ _. refl, λ _. refl)
is_empty_iff (n ∷ ns) = (λ e. cc, λ e. cc)

capped_iff :
    (cap n : ℕ) (x : Bool) → ((if ltb cap n then false else x) ≡ true) ↔ ((n ≤ cap) × (x ≡ true))
capped_iff cap n x = elim (Bool-cases (ltb cap n)) [
  | inl e ↦ let lt = ltb→lt cap n e in rw e ((λ f. cc), (λ (le, _). absurd (omega arith)))
  | inr e ↦ let le = ltb→le cap n e in rw e ((λ f. (le, f)), (λ (_, f). f))
]

or_iff : (a b : Bool) → ((a || b) ≡ true) ↔ ((a ≡ true) ⊎ (b ≡ true))
or_iff true b = (λ e. inl refl, λ e. refl)
or_iff false b = (λ e. inr e, λ o. elim o [ inl e ↦ cc | inr e ↦ e ])

-- The tests of `should_eager_fetch`, apart from what they are made of.
decision :
    (object empty only : Bool) (n : ℕ)
    → ((if object
          then (if ltb eager_fetch_max_object_elements n then false else empty || only)
          else if ltb eager_fetch_max_elements n
          then false
          else only)
        ≡ true)
      ↔ (((object ≡ true)
            × ((n ≤ eager_fetch_max_object_elements) × ((empty ≡ true) ⊎ (only ≡ true))))
          ⊎ ((object ≡ false) × ((n ≤ eager_fetch_max_elements) × (only ≡ true))))
decision true empty only n =
    let (to, from) = capped_iff eager_fetch_max_object_elements n (empty || only) in
    let (split, join) = or_iff empty only in
    (
      λ e. let (le, o) = to e in inl (refl, (le, split o)),
      λ o. elim o [ inl (_, (le, o)) ↦ from (le, join o) | inr (f, _) ↦ cc ],
    )
decision false empty only n =
    let (to, from) = capped_iff eager_fetch_max_elements n only in
    (λ e. inr (refl, to e), λ o. elim o [ inl (f, _) ↦ cc | inr (_, r) ↦ from r ])

-- Where the shape is empty or the one dimension is named, the product of the extents is exact.
n_elements_lem :
    {V : Type 0} (var : VarMeta V)
    → length var.dims ≡ length var.shape
    → All (λ n. n < u64) var.shape
    → (var.shape ≡ []) ⊎ (var.dims ≡ var.name ∷ [])
    → n_elements var ≡ product var.shape
n_elements_lem var rank small (inl e) = rw e refl
n_elements_lem var rank small (inr e) = one_axis var.shape (sym rank ∙ ap length e) small
  where
    one_axis :
        (shape : List ℕ)
        → length shape ≡ 1
        → All (λ n. n < u64) shape
        → (if is_empty shape then 1 else product64 1 shape) ≡ product shape
    one_axis [] r s = refl
    one_axis (n ∷ []) r (s, _) = unfold product64 in omega arith
    one_axis (n ∷ m ∷ ns) r s = absurd (omega arith)

-- For every variable with as many dimension names as extents, each extent below 2 ^ 64: it is
-- fetched eagerly exactly if its type is `object`, its true number of elements is at most 4096, and
-- it is a scalar or its one dimension has its name, or its type is another one, its true number of
-- elements is at most 2 ^ 20, and its one dimension has its name.
pub should_eager_fetch_iff :
    {V : Type 0} (var : VarMeta V)
    → length var.dims ≡ length var.shape
    → All (λ n. n < u64) var.shape
    → (should_eager_fetch var ≡ true) ↔ (
        ((var.dtype ≡ codes "object")
          × ((product var.shape ≤ eager_fetch_max_object_elements)
              × ((var.shape ≡ []) ⊎ (var.dims ≡ var.name ∷ []))))
        ⊎ ((var.dtype ≢ codes "object")
            × ((product var.shape ≤ eager_fetch_max_elements) × (var.dims ≡ var.name ∷ []))))
unfolding should_eager_fetch
should_eager_fetch_iff var rank small =
    let count = n_elements_lem var rank small in
    let object = text_eq_iff var.dtype (codes "object") in
    let empty = is_empty_iff var.shape in
    let only = is_only_iff var.dims var.name in
    let (to, from) =
      decision (text_eq var.dtype (codes "object")) (is_empty var.shape) (is_self_named_1d var)
        (n_elements var) in
    (
      λ e. elim (to e) [
        | inl (o, (le, inl f)) ↦
            inl (object.0 o, (subst (λ n. n ≤ 4096) (count (inl (empty.0 f))) le, inl (empty.0 f)))
        | inl (o, (le, inr f)) ↦
            inl (object.0 o, (subst (λ n. n ≤ 4096) (count (inr (only.0 f))) le, inr (only.0 f)))
        | inr (o, (le, f)) ↦ inr (
          (λ e. let t = object.1 e in cc),
          (subst (λ n. n ≤ 1_048_576) (count (inr (only.0 f))) le, only.0 f),
        )
      ],
      λ o. from (elim o [
        | inl (od, (le, inl f)) ↦
            inl (object.1 od, (subst (λ n. n ≤ 4096) (sym (count (inl f))) le, inl (empty.1 f)))
        | inl (od, (le, inr f)) ↦
            inl (object.1 od, (subst (λ n. n ≤ 4096) (sym (count (inr f))) le, inr (only.1 f)))
        | inr (od, (le, f)) ↦
            inr (no_object od, (subst (λ n. n ≤ 1_048_576) (sym (count (inr f))) le, only.1 f))
      ]),
    )
  where
    no_object : var.dtype ≢ codes "object" → text_eq var.dtype (codes "object") ≡ false
    no_object ne = elim (Bool-cases (text_eq var.dtype (codes "object"))) [
      | inl t ↦ absurd (ne (text_eq_sound var.dtype (codes "object") t))
      | inr f ↦ f
    ]
