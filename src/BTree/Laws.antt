-- ===== src/BTree/Laws.antt =====
-- The order of texts, and insertion into a map.
use Prim.Native.Nat.{compare, Ordering}
use rustytree.Prelude.{
  ℕ, ◌<◌, ◌≡◌, ◌≢◌, refl, ◌∙◌, sym, subst, ap, ap₂, ◌⊎◌, inl, inr, Option, some, List, [], ◌∷◌,
  arith, Text,
}
use rustytree.BTree.{text_cmp, insert, get, get_at, insert_at, collect_into, collect, keys}

-- `s` stands before `t`.
abbrev pub Before : Text → Text → Type 0
Before [] [] = ⊥
Before [] (b ∷ t) = Unit
Before (a ∷ s) [] = ⊥
Before (a ∷ s) (b ∷ t) = (a < b) ⊎ ((a ≡ b) × Before s t)

pub Before-trans : (s t u : Text) → Before s t → Before t u → Before s u
Before-trans [] [] u h k = absurd h
Before-trans [] (b ∷ t) [] h k = absurd k
Before-trans [] (b ∷ t) (c ∷ u) h k = tt
Before-trans (a ∷ s) [] u h k = absurd h
Before-trans (a ∷ s) (b ∷ t) [] h k = absurd k
Before-trans (a ∷ s) (b ∷ t) (c ∷ u) (inl h) (inl k) = inl (omega arith)
Before-trans (a ∷ s) (b ∷ t) (c ∷ u) (inl h) (inr (e, k)) = inl (omega arith)
Before-trans (a ∷ s) (b ∷ t) (c ∷ u) (inr (e, h)) (inl k) = inl (omega arith)
Before-trans (a ∷ s) (b ∷ t) (c ∷ u) (inr (e, h)) (inr (f, k)) = inr (e ∙ f, Before-trans s t u h k)

-- What a comparison says.
abbrev pub Compared : Ordering → Text → Text → Type 0
Compared Ordering.lt s t = Before s t
Compared Ordering.eq s t = s ≡ t
Compared Ordering.gt s t = Before t s

Compared-cons :
    (o : Ordering) (a b : ℕ) (s t : Text) → a ≡ b → Compared o s t → Compared o (a ∷ s) (b ∷ t)
Compared-cons Ordering.lt a b s t e c = inr (e, c)
Compared-cons Ordering.eq a b s t e c = ap₂ ◌∷◌ e c
Compared-cons Ordering.gt a b s t e c = inr (sym e, c)

pub text_cmp-Compared : (s t : Text) → Compared (text_cmp s t) s t
unfolding text_cmp
text_cmp-Compared [] [] = refl
text_cmp-Compared [] (b ∷ t) = tt
text_cmp-Compared (a ∷ s) [] = tt
text_cmp-Compared (a ∷ s) (b ∷ t) = step (compare a b) refl (text_cmp-Compared s t)
  where
    step :
        (o : Ordering)
        → compare a b ≡ o
        → Compared (text_cmp s t) s t
        → Compared
            (elim o [
              | Ordering.lt ↦ Ordering.lt
              | Ordering.gt ↦ Ordering.gt
              | Ordering.eq ↦ text_cmp s t
            ])
            (a ∷ s)
            (b ∷ t)
    step Ordering.lt e c = inl (ground arith)
    step Ordering.gt e c = inl (ground arith)
    step Ordering.eq e c = Compared-cons (text_cmp s t) a b s t (ground arith) c

pub Before-irrefl : (s : Text) → Before s s → ⊥
Before-irrefl [] h = h
Before-irrefl (a ∷ s) (inl h) = omega arith
Before-irrefl (a ∷ s) (inr (_, h)) = Before-irrefl s h

pub text_cmp_refl : (s : Text) → text_cmp s s ≡ Ordering.eq
text_cmp_refl s = same (text_cmp s s) refl (text_cmp-Compared s s)
  where
    same : (o : Ordering) → text_cmp s s ≡ o → Compared o s s → text_cmp s s ≡ Ordering.eq
    same Ordering.eq e c = e
    same Ordering.lt e c = absurd (Before-irrefl s c)
    same Ordering.gt e c = absurd (Before-irrefl s c)

-- Every key of a map stands behind `k`.
abbrev pub Behind {ℓ} : {V : Type ℓ} → Text → List (Text × V) → Type 0
Behind k [] = Unit
Behind k ((j, _) ∷ m) = Before k j

abbrev pub IsSorted {ℓ} : {V : Type ℓ} → List (Text × V) → Type 0
IsSorted [] = Unit
IsSorted ((k, _) ∷ m) = Behind k m × IsSorted m

-- Whether a map is in order depends on its keys only.
Behind-keys {ℓ κ} :
    {V : Type ℓ} {W : Type κ} (k : Text) (m : List (Text × V)) (n : List (Text × W))
    → keys m ≡ keys n
    → Behind k m
    → Behind k n
Behind-keys k m [] e b = tt
Behind-keys k [] (_ ∷ _) e b = cc
Behind-keys k ((i, _) ∷ m) ((j, _) ∷ n) e b = let h : i ≡ j = cc in subst (Before k) h b

pub IsSorted-keys {ℓ κ} :
    {V : Type ℓ} {W : Type κ} (m : List (Text × V)) (n : List (Text × W))
    → keys m ≡ keys n
    → IsSorted m
    → IsSorted n
IsSorted-keys m [] e s = tt
IsSorted-keys [] (_ ∷ _) e s = cc
IsSorted-keys ((i, _) ∷ m) ((j, _) ∷ n) e (b, s) =
    let h : i ≡ j = cc in
    let t : keys m ≡ keys n = cc in
    (subst (λ x. Behind x n) h (Behind-keys i m n t b), IsSorted-keys m n t s)

module _ {ℓ} {V : Type ℓ} where
  Behind-trans : (k j : Text) (m : List (Text × V)) → Before k j → Behind j m → Behind k m
  Behind-trans k j [] h b = tt
  Behind-trans k j ((i, _) ∷ m) h b = Before-trans k j i h b

  insert-Behind :
      (i k : Text) (v : V) (m : List (Text × V)) → Before i k → Behind i m → Behind i (insert k v m)
  unfolding insert
  insert-Behind i k v [] h b = h
  insert-Behind i k v ((j, w) ∷ m) h b = behind (text_cmp k j)
    where
      behind : (o : Ordering) → Behind i (insert_at o k v (j, w) m (insert k v m))
      behind Ordering.lt = h
      behind Ordering.eq = h
      behind Ordering.gt = b

  pub insert-IsSorted :
      (k : Text) (v : V) (m : List (Text × V)) → IsSorted m → IsSorted (insert k v m)
  unfolding insert
  insert-IsSorted k v [] s = (tt, tt)
  insert-IsSorted k v ((j, w) ∷ m) (b, s) =
      place (text_cmp k j) (text_cmp-Compared k j) (insert-IsSorted k v m s)
    where
      place :
          (o : Ordering)
          → Compared o k j
          → IsSorted (insert k v m)
          → IsSorted (insert_at o k v (j, w) m (insert k v m))
      place Ordering.lt c s2 = (c, (b, s))
      place Ordering.eq c s2 = (subst (λ i. Behind i m) (sym c) b, s)
      place Ordering.gt c s2 = (insert-Behind j k v m c b, s2)

  pub collect_into-IsSorted :
      (m entries : List (Text × V)) → IsSorted m → IsSorted (collect_into m entries)
  unfolding collect_into
  collect_into-IsSorted m [] s = s
  collect_into-IsSorted m ((k, v) ∷ entries) s =
      collect_into-IsSorted (insert k v m) entries (insert-IsSorted k v m s)

  -- A collected map is in order.
  pub collect-IsSorted : (entries : List (Text × V)) → IsSorted (collect entries)
  unfolding collect
  collect-IsSorted entries = collect_into-IsSorted [] entries tt

  get-insert_same : (k : Text) (v : V) (m : List (Text × V)) → get k (insert k v m) ≡ some v
  unfolding get insert
  get-insert_same k v [] = rw (text_cmp_refl k)
  get-insert_same k v ((j, w) ∷ m) = found (text_cmp k j) refl (get-insert_same k v m)
    where
      found :
          (o : Ordering)
          → text_cmp k j ≡ o
          → get k (insert k v m) ≡ some v
          → get k (insert_at o k v (j, w) m (insert k v m)) ≡ some v
      found Ordering.lt e h = rw (text_cmp_refl k)
      found Ordering.eq e h = rw (text_cmp_refl k)
      found Ordering.gt e h = rw (e, h)

  get_at-other :
      (o : Ordering) (i k : Text) (w : V) (x : Option V) → Compared o i k → i ≢ k → get_at o w x ≡ x
  get_at-other Ordering.lt i k w x c d = refl
  get_at-other Ordering.eq i k w x c d = absurd (d c)
  get_at-other Ordering.gt i k w x c d = refl

  pub get-other : (i k : Text) (w : V) (m : List (Text × V)) → i ≢ k → get i ((k, w) ∷ m) ≡ get i m
  unfolding get
  get-other i k w m d = get_at-other (text_cmp i k) i k w (get i m) (text_cmp-Compared i k) d

  get-insert_other :
      (i k : Text) (v : V) (m : List (Text × V)) → i ≢ k → get i (insert k v m) ≡ get i m
  unfolding insert
  get-insert_other i k v [] d = get-other i k v [] d
  get-insert_other i k v ((j, w) ∷ m) d =
      skip (text_cmp k j) (text_cmp-Compared k j) (get-insert_other i k v m d)
    where
      skip :
          (o : Ordering)
          → Compared o k j
          → get i (insert k v m) ≡ get i m
          → get i (insert_at o k v (j, w) m (insert k v m)) ≡ get i ((j, w) ∷ m)
      skip Ordering.lt c h = get-other i k v ((j, w) ∷ m) d
      skip Ordering.eq c h = get-other i k v m d ∙ sym (get-other i j w m (λ e. d (e ∙ sym c)))
      skip Ordering.gt c h = unfold get in ap (get_at (text_cmp i j) w) h

  -- A map keeps the last value that was inserted for a key, and those of the other keys.
  pub get-insert :
      (k : Text) (v : V) (m : List (Text × V))
      → (get k (insert k v m) ≡ some v) × ((i : Text) → i ≢ k → get i (insert k v m) ≡ get i m)
  get-insert k v m = (get-insert_same k v m, λ i d. get-insert_other i k v m d)
