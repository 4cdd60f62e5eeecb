-- ===== src/Credentials/Laws.antt =====
-- What the credential fetchers hand out.
use rustytree.Prelude.{
  ℕ, ◌+◌, ◌<◌, ◌≡◌, refl, sym, subst, ◌∙◌, ◌↔◌, ◌⊎◌, inl, inr, Bool-cases, true, false, Option,
  none, some, List, Text, codes, ltb→lt, lt→ltb,
}
use rustytree.Zarrs.{Fallible, good, bad}
use rustytree.Credentials.{
  Instant, PythonCredentialsFetcher, S3StaticCredentials, GcsBearerCredential,
  AzureRefreshableCredential, access_key, sas_token, bearer_token, PyAttr, PyObject, is_fresh,
  refresh_error, s3_from_pyobj, gcs_from_pyobj, azure_from_pyobj, no_variant, World, Runs, ◌>>=◌,
  call_loaded, call_pickled, or_refresh_error, refresh, cached_or, s3_get, gcs_get, azure_get,
}

-- More than three minutes are left.
abbrev pub StillGood : Instant → Option Instant → Type 0
StillGood now none = Unit
StillGood now (some expiry) = now + 180_000_000_000 < expiry

is_fresh_iff : (now : Instant) (o : Option Instant) → (is_fresh now o ≡ true) ↔ StillGood now o
unfolding is_fresh
is_fresh_iff now none = (λ e. tt, λ h. refl)
is_fresh_iff now (some expiry) = (λ e. ltb→lt _ _ e, λ h. lt→ltb _ _ h)

-- The credentials that travelled with the session are still good.
abbrev pub HasFresh : {C : Type 0} → Instant → (C → Option Instant) → Option C → Type 0
HasFresh now expires_after none = ⊥
HasFresh now expires_after (some creds) = StillGood now (expires_after creds)

-- What a fetcher hands out for what its function gives: the credentials that the extractor reads of
-- the object, or else the advice with the exception of the function or of the extractor.
abbrev pub Delivers :
    {C : Type 0} → Text → (PyObject → Fallible C) → Fallible PyObject → Fallible C → Type 0
Delivers {C} provider from_pyobj obj (good creds) =
    (o : PyObject) × (obj ≡ good o) × (from_pyobj o ≡ good creds)
Delivers {C} provider from_pyobj obj (bad text) =
    (e : Text) × (text ≡ refresh_error provider e)
    × ((obj ≡ bad e) ⊎ ((o : PyObject) × (obj ≡ good o) × (from_pyobj o ≡ bad e)))

module _ (world : World) where
  -- A run of a pickled function: it is loaded once, and, if it loads, called once.
  pub data RunsOnce (pickled : List ℕ) (py : world.Interpreter)
      : Fallible PyObject → world.Interpreter → Type 0 where
    unreadable :
        (e : Text) (after : world.Interpreter)
        → world.loads pickled py ≡ (bad e, after)
        → RunsOnce pickled py (bad e) after
    called :
        (callable : world.Callable) (loaded after : world.Interpreter) (obj : Fallible PyObject)
        → world.loads pickled py ≡ (good callable, loaded)
        → world.call0 callable loaded ≡ (obj, after)
        → RunsOnce pickled py obj after

  -- A fetcher hands out its credentials while they are good, and leaves the interpreter as it is;
  -- with none that are good, it runs its function once and hands out what that gives.
  abbrev pub Caches :
      {C : Type 0}
      → (C → Option Instant)
      → Text
      → (PyObject → Fallible C)
      → PythonCredentialsFetcher C
      → world.Interpreter
      → Fallible C × world.Interpreter
      → Type 0
  Caches {C} expires_after provider from_pyobj self py (result, after) =
      ((creds : C) × (self.initial ≡ some creds)
        × StillGood world.now (expires_after creds)
        × (result ≡ good creds)
        × (after ≡ py))
      ⊎ ((obj : Fallible PyObject) × (¬ HasFresh world.now expires_after self.initial)
          × RunsOnce self.pickled_function py obj after
          × Delivers provider from_pyobj obj result)

  call_pickled-RunsOnce :
      (pickled : List ℕ) (py : world.Interpreter)
      → RunsOnce pickled py (call_pickled world pickled py).0 (call_pickled world pickled py).1
  unfolding call_pickled
  call_pickled-RunsOnce pickled py = loaded (world.loads pickled py) refl
    where
      loaded :
          (r : Fallible world.Callable × world.Interpreter)
          → world.loads pickled py ≡ r
          → RunsOnce pickled py (call_loaded world r).0 (call_loaded world r).1
      loaded (bad e, after) f = unreadable e after f
      loaded (good callable, after) f = called callable after _ _ f refl

  module _ {C : Type 0} (expires_after : C → Option Instant) (provider : Text)
      (from_pyobj : PyObject → Fallible C) where
    or_refresh_error-Delivers :
        (obj : Fallible PyObject)
        → Delivers provider from_pyobj obj (or_refresh_error world provider (obj >>= from_pyobj))
    or_refresh_error-Delivers (bad e) = (e, refl, inl refl)
    or_refresh_error-Delivers (good o) = extracted_as (from_pyobj o) refl
      where
        extracted_as :
            (r : Fallible C)
            → from_pyobj o ≡ r
            → Delivers provider from_pyobj (good o) (or_refresh_error world provider r)
        extracted_as (good creds) f = (o, refl, f)
        extracted_as (bad e) f = (e, refl, inr (o, refl, f))

    refreshed-Caches :
        (self : PythonCredentialsFetcher C) (py : world.Interpreter)
        → (¬ HasFresh world.now expires_after self.initial)
        → Caches expires_after provider from_pyobj self py
            (refresh world provider from_pyobj self.pickled_function py)
    unfolding refresh
    refreshed-Caches self py n = inr (
      _,
      n,
      call_pickled-RunsOnce self.pickled_function py,
      or_refresh_error-Delivers (call_pickled world self.pickled_function py).0,
    )

    cached_or-Caches :
        (self : PythonCredentialsFetcher C) (py : world.Interpreter)
        → Caches expires_after provider from_pyobj self py (
            cached_or world expires_after self.initial
              (refresh world provider from_pyobj self.pickled_function)
              py)
    cached_or-Caches self py = by_initial self.initial refl
      where
        true-ne-false : true ≡ false → ⊥
        true-ne-false e = cc

        by_initial :
            (initial : Option C)
            → self.initial ≡ initial
            → Caches expires_after provider from_pyobj self py (
                cached_or world expires_after initial
                  (refresh world provider from_pyobj self.pickled_function)
                  py)
        by_initial none f =
            refreshed-Caches self py
              (subst (λ o. ¬ HasFresh world.now expires_after o) (sym f) (λ h. h))
        by_initial (some creds) f =
            let (to, from) = is_fresh_iff world.now (expires_after creds) in
            elim (Bool-cases (is_fresh world.now (expires_after creds))) [
              | inl t ↦ rw t (inl (creds, f, to t, refl, refl))
              | inr n ↦ rw n (
                  refreshed-Caches self py (
                    subst (λ o. ¬ HasFresh world.now expires_after o) (sym f)
                      (λ h. true-ne-false (sym (from h) ∙ n))))
            ]

  -- For every interpreter in any state, every clock, and a fetcher of each of the three kinds: if
  -- the credentials that travelled with the session do not expire, or expire more than three minutes
  -- from now, the fetcher hands them out and does not touch the interpreter. In every other case it
  -- loads its pickled function once and, if that succeeds, calls it once, and nothing else; it hands
  -- out the credentials that it reads of the returned object, or, if one of the three steps fails,
  -- the advice on refreshing with the exception of that step.
  pub get-Caches :
      (s3 : PythonCredentialsFetcher S3StaticCredentials)
      (gcs : PythonCredentialsFetcher GcsBearerCredential)
      (azure : PythonCredentialsFetcher AzureRefreshableCredential) (py : world.Interpreter)
      → Caches (λ c. c.expires_after) (codes "S3") s3_from_pyobj s3 py (s3_get world s3 py)
        × Caches (λ c. c.expires_after) (codes "GCS") gcs_from_pyobj gcs py (gcs_get world gcs py)
        × Caches world.azure_expires_after
            (codes "Azure")
            azure_from_pyobj
            azure
            py
            (azure_get world azure py)
  unfolding s3_get gcs_get azure_get
  get-Caches s3 gcs azure py = (
    cached_or-Caches (λ c. c.expires_after) (codes "S3") s3_from_pyobj s3 py,
    cached_or-Caches (λ c. c.expires_after) (codes "GCS") gcs_from_pyobj gcs py,
    cached_or-Caches world.azure_expires_after (codes "Azure") azure_from_pyobj azure py,
  )

-- An attribute that the object has, with a text value; one that it lacks.
abbrev pub HasText : PyObject → Text → Text → Type 0
HasText obj name value = (attr : PyAttr) × ((obj name ≡ good attr) × (attr.as_string ≡ good value))

abbrev pub Lacks : PyObject → Text → Type 0
Lacks obj name = (e : Text) × (obj name ≡ bad e)

abbrev pub HasExpiry : PyObject → Option Instant → Type 0
HasExpiry obj expires =
    (attr : PyAttr) × ((obj (codes "expires_after") ≡ good attr)
      × (attr.as_option_datetime ≡ good expires))

-- An object that stands for Azure credentials, by the first of `key`, `token` and `bearer` that it
-- has; for none of them if it has no such attribute.
abbrev pub Describes : PyObject → Option AzureRefreshableCredential → Type 0
Describes obj (some (access_key key expires)) =
    HasExpiry obj expires × HasText obj (codes "key") key
Describes obj (some (sas_token token expires)) =
    HasExpiry obj expires × (Lacks obj (codes "key") × HasText obj (codes "token") token)
Describes obj (some (bearer_token bearer expires)) =
    (HasExpiry obj expires
      × (Lacks obj (codes "key")
          × (Lacks obj (codes "token") × HasText obj (codes "bearer") bearer)))
Describes obj none =
    ((expires : Option Instant) × HasExpiry obj expires)
    × (Lacks obj (codes "key") × (Lacks obj (codes "token") × Lacks obj (codes "bearer")))

-- What the extractor gives for what an object stands for.
abbrev pub extracted : Option AzureRefreshableCredential → Fallible AzureRefreshableCredential
extracted (some creds) = good creds
extracted none = bad no_variant

azure_from_pyobj_lem :
    (obj : PyObject) (creds : Option AzureRefreshableCredential)
    → Describes obj creds
    → azure_from_pyobj obj ≡ extracted creds
unfolding azure_from_pyobj
azure_from_pyobj_lem obj (some (access_key key expires)) ((e, (f, g)), (k, (h, i))) =
    rw (f, g, h, i) refl
azure_from_pyobj_lem obj (some (sas_token t expires)) ((e, (f, g)), ((x, k), (a, (h, i)))) =
    rw (f, g, k, h, i) refl
azure_from_pyobj_lem obj (some (bearer_token b expires))
      ((e, (f, g)), ((x, k), ((y, l), (a, (h, i))))) =
    rw (f, g, k, l, h, i) refl
azure_from_pyobj_lem obj none ((expires, (e, (f, g))), ((x, k), ((y, l), (z, m)))) =
    rw (f, g, k, l, m) refl

-- The credentials of an object, or the advice that a failed refresh gives.
abbrev pub refreshed_azure : Option AzureRefreshableCredential → Fallible AzureRefreshableCredential
refreshed_azure (some creds) = good creds
refreshed_azure none = bad (refresh_error (codes "Azure") no_variant)

module _ (world : World) where
  -- The pickled function is read, and returns the object.
  abbrev pub Returns : List ℕ → PyObject → world.Interpreter → world.Interpreter → Type 0
  Returns pickled obj py after =
      (callable : world.Callable) × (loaded : world.Interpreter) × (world.loads pickled py
        ≡ (good callable, loaded))
      × (world.call0 callable loaded ≡ (good obj, after))

  refresh_azure :
      (pickled : List ℕ) (obj : PyObject) (creds : Option AzureRefreshableCredential)
      (py after : world.Interpreter)
      → Returns pickled obj py after
      → Describes obj creds
      → refresh world (codes "Azure") azure_from_pyobj pickled py ≡ (refreshed_azure creds, after)
  unfolding refresh call_pickled
  refresh_azure pickled obj (some creds) py after (callable, loaded, l, c) d =
      rw (l, c, azure_from_pyobj_lem obj (some creds) d) refl
  refresh_azure pickled obj none py after (callable, loaded, l, c) d =
      rw (l, c, azure_from_pyobj_lem obj none d) refl

  cached_or-stale :
      (initial : Option AzureRefreshableCredential)
      (refreshed : Runs world AzureRefreshableCredential) (py : world.Interpreter)
      → (¬ HasFresh world.now world.azure_expires_after initial)
      → cached_or world world.azure_expires_after initial refreshed py ≡ refreshed py
  cached_or-stale none refreshed py n = refl
  cached_or-stale (some creds) refreshed py n =
      elim (Bool-cases (is_fresh world.now (world.azure_expires_after creds))) [
        | inl t ↦ absurd (n ((is_fresh_iff world.now (world.azure_expires_after creds)).0 t))
        | inr f ↦ rw f refl
      ]

  -- For an Azure fetcher with no fresh credentials, whose pickled function is read and returns an
  -- object with an expiry: the fetcher runs the function, and hands out the credentials that the
  -- object stands for, with that expiry, where `key` goes before `token` and `token` before
  -- `bearer`; for an object with none of the three it fails, with the advice on refreshing. It leaves
  -- the interpreter in the state in which the function does.
  pub azure_get-Describes :
      (self : PythonCredentialsFetcher AzureRefreshableCredential) (obj : PyObject)
      (creds : Option AzureRefreshableCredential) (py after : world.Interpreter)
      → (¬ HasFresh world.now world.azure_expires_after self.initial)
      → Returns self.pickled_function obj py after
      → Describes obj creds
      → azure_get world self py ≡ (refreshed_azure creds, after)
  unfolding azure_get
  azure_get-Describes self obj creds py after n r d =
      cached_or-stale self.initial _ py n
      ∙ refresh_azure self.pickled_function obj creds py after r d
