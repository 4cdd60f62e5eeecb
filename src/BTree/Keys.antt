-- ===== src/BTree/Keys.antt =====
-- The keys of a map, and what holds of all its entries.
use Prim.Native.Nat.{Ordering}
use rustytree.Prelude.{
  ◌≡◌, refl, sym, subst, ap, ◌∙◌, ◌↔◌, ◌⊎◌, inl, inr, none, some, Option-cases, List, [], ◌∷◌, Text,
  All, All-imp, Occurs,
}
use rustytree.BTree.{text_cmp, insert, insert_at, get, get_at, keys}
use rustytree.BTree.Laws.{
  Before, Before-trans, Before-irrefl, Compared, text_cmp-Compared, text_cmp_refl, IsSorted,
  get-other,
}

module _ {V : Type 0} where
  -- The keys after an insertion: the new one and those that were there.
  pub Occurs-insert :
      (i k : Text) (v : V) (m : List (Text × V))
      → Occurs i (keys (insert k v m)) ↔ ((i ≡ k) ⊎ Occurs i (keys m))
  unfolding insert
  Occurs-insert i k v [] = (λ o. o, λ o. o)
  Occurs-insert i k v ((j, w) ∷ m) =
      at_key (text_cmp k j) (text_cmp-Compared k j) (Occurs-insert i k v m)
    where
      at_key :
          (o : Ordering)
          → Compared o k j
          → Occurs i (keys (insert k v m)) ↔ ((i ≡ k) ⊎ Occurs i (keys m))
          → Occurs i (keys (insert_at o k v (j, w) m (insert k v m)))
            ↔ ((i ≡ k) ⊎ ((i ≡ j) ⊎ Occurs i (keys m)))
      at_key Ordering.lt c h = (λ o. o, λ o. o)
      at_key Ordering.eq c h = (
        λ o. elim o [ inl e ↦ inl e | inr o ↦ inr (inr o) ],
        λ o. elim o [ inl e ↦ inl e | inr (inl e) ↦ inl (e ∙ sym c) | inr (inr o) ↦ inr o ],
      )
      at_key Ordering.gt c (to, from) = (
        λ o. elim o [
          | inl e ↦ inr (inl e)
          | inr o ↦ elim (to o) [ inl e ↦ inl e | inr o ↦ inr (inr o) ]
        ],
        λ o. elim o [
          | inl e ↦ inr (from (inl e))
          | inr (inl e) ↦ inl e
          | inr (inr o) ↦ inr (from (inr o))
        ],
      )

  pub All-insert :
      (P : Text × V → Type 0) (k : Text) (v : V) (m : List (Text × V))
      → P (k, v)
      → All P m
      → All P (insert k v m)
  unfolding insert
  All-insert P k v [] h a = (h, tt)
  All-insert P k v ((j, w) ∷ m) h (here, there) = at_key (text_cmp k j) (All-insert P k v m h there)
    where
      at_key :
          (o : Ordering) → All P (insert k v m) → All P (insert_at o k v (j, w) m (insert k v m))
      at_key Ordering.lt r = (h, (here, there))
      at_key Ordering.eq r = (h, there)
      at_key Ordering.gt r = (here, r)

  pub All-get :
      (P : Text × V → Type 0) (k : Text) (v : V) (m : List (Text × V))
      → All P m
      → get k m ≡ some v
      → P (k, v)
  unfolding get
  All-get P k v [] a e = cc
  All-get P k v ((j, w) ∷ m) (here, there) e =
      at_key (text_cmp k j) (text_cmp-Compared k j) (λ f. All-get P k v m there f) e
    where
      at_key :
          (o : Ordering)
          → Compared o k j
          → (get k m ≡ some v → P (k, v))
          → get_at o w (get k m) ≡ some v
          → P (k, v)
      at_key Ordering.lt c later e = later e
      at_key Ordering.eq c later e =
          let same : w ≡ v = cc in subst (λ x. P (k, x)) same (subst (λ x. P (x, w)) (sym c) here)
      at_key Ordering.gt c later e = later e

  -- A key that occurs is found.
  pub get-Occurs :
      (k : Text) (m : List (Text × V)) → Occurs k (keys m) → (v : V) × (get k m ≡ some v)
  unfolding get
  get-Occurs k [] o = absurd o
  get-Occurs k ((j, w) ∷ m) (inl e) =
      (w, ap (λ r. get_at r w (get k m)) (ap (text_cmp k) (sym e) ∙ text_cmp_refl k))
  get-Occurs k ((j, w) ∷ m) (inr o) = at_key (text_cmp k j) (get-Occurs k m o)
    where
      at_key :
          (o : Ordering) → (v : V) × (get k m ≡ some v) → (v : V) × (get_at o w (get k m) ≡ some v)
      at_key Ordering.lt h = h
      at_key Ordering.eq h = (w, refl)
      at_key Ordering.gt h = h

  -- The keys of a sorted map stand behind the first.
  pub Before-Occurs :
      (i j : Text) (w : V) (m : List (Text × V))
      → IsSorted ((j, w) ∷ m)
      → Occurs i (keys m)
      → Before j i
  Before-Occurs i j w [] s o = absurd o
  Before-Occurs i j w ((k, x) ∷ m) (b, s) (inl e) = subst (Before j) (sym e) b
  Before-Occurs i j w ((k, x) ∷ m) (b, s) (inr o) = Before-trans j k i b (Before-Occurs i k x m s o)

  -- An insertion at a key that occurs keeps the keys.
  pub keys-insert :
      (k : Text) (v : V) (m : List (Text × V))
      → IsSorted m
      → Occurs k (keys m)
      → keys (insert k v m) ≡ keys m
  unfolding insert
  keys-insert k v [] s o = absurd o
  keys-insert k v ((j, w) ∷ m) s o =
      at_key (text_cmp k j) (text_cmp-Compared k j) o (λ o. keys-insert k v m s.1 o)
    where
      at_key :
          (r : Ordering)
          → Compared r k j
          → Occurs k (keys ((j, w) ∷ m))
          → (Occurs k (keys m) → keys (insert k v m) ≡ keys m)
          → keys (insert_at r k v (j, w) m (insert k v m)) ≡ j ∷ keys m
      at_key Ordering.lt c (inl e) later = absurd (Before-irrefl j (subst (λ x. Before x j) e c))
      at_key Ordering.lt c (inr o) later =
          absurd (Before-irrefl k (Before-trans k j k c (Before-Occurs k j w m s o)))
      at_key Ordering.eq c o later = ap (λ x. x ∷ keys m) c
      at_key Ordering.gt c (inl e) later = absurd (Before-irrefl j (subst (Before j) e c))
      at_key Ordering.gt c (inr o) later = ap (◌∷◌ j) (later o)

  entries_occur : (m : List (Text × V)) → All (λ e. Occurs e.0 (keys m)) m
  entries_occur [] = tt
  entries_occur (e ∷ m) = (
    inl refl,
    All-imp (λ e. Occurs e.0 (keys m)) (λ f. Occurs f.0 (keys (e ∷ m))) (λ f o. inr o) m
        (entries_occur m),
  )

  -- A key that is found occurs.
  pub Occurs-get : (k : Text) (v : V) (m : List (Text × V)) → get k m ≡ some v → Occurs k (keys m)
  Occurs-get k v m e = All-get (λ e. Occurs e.0 (keys m)) k v m (entries_occur m) e

  entry-Occurs : (k : Text) (v : V) (m : List (Text × V)) → Occurs (k, v) m → Occurs k (keys m)
  entry-Occurs k v [] o = absurd o
  entry-Occurs k v (e ∷ m) (inl f) = inl (ap (λ x. x.0) f)
  entry-Occurs k v (e ∷ m) (inr o) = inr (entry-Occurs k v m o)

  -- The first key of a sorted map stands there once.
  pub get-rest : (k : Text) (v : V) (m : List (Text × V)) → IsSorted ((k, v) ∷ m) → get k m ≡ none
  get-rest k v m s = elim (Option-cases (get k m)) [
    | inl e ↦ e
    | inr (w, e) ↦ absurd (Before-irrefl k (Before-Occurs k k v m s (Occurs-get k w m e)))
  ]

  -- An entry of a sorted map is found under its key.
  pub get-entry :
      (k : Text) (v : V) (m : List (Text × V)) → IsSorted m → Occurs (k, v) m → get k m ≡ some v
  get-entry k v [] s o = absurd o
  get-entry k v ((j, w) ∷ m) s (inl e) =
      let here : get j ((j, w) ∷ m) ≡ some w =
        unfold get in ap (λ r. get_at r w (get j m)) (text_cmp_refl j) in
      subst (λ (x : Text × V). get x.0 ((j, w) ∷ m) ≡ some x.1) (sym e) here
  get-entry k v ((j, w) ∷ m) s (inr o) =
      get-other k j w m (λ e.
        Before-irrefl k
          (subst (λ x. Before x k) (sym e) (Before-Occurs k j w m s (entry-Occurs k v m o))))
      ∙ get-entry k v m s.1 o
