-- ===== src/Credentials.antt =====
-- src/py_credentials.rs: the credential fetchers that are registered for icechunk. Python objects
-- are records of answers; an exception of Python is the text that its `Display` gives.
pub mod Laws
mod Tests
use rustytree.Prelude.{
  ℕ, ◌+◌, ◌*◌, Bool, true, false, if◌then◌else◌, ltb, Option, none, some, List, [], ◌∷◌, ◌++◌, Text,
  codes,
}
use rustytree.Zarrs.{Fallible, good, bad}

-- A `DateTime<Utc>`, as the number of nanoseconds since the first one.
abbrev pub Instant : Type 0
Instant = ℕ

-- `REFRESH_BUFFER_SECS`, and a second in nanoseconds.
abbrev pub refresh_buffer_secs : ℕ
refresh_buffer_secs = 180

abbrev pub nanoseconds : ℕ
nanoseconds = 1_000_000_000

-- `PythonCredentialsFetcher<C>`
pub record PythonCredentialsFetcher (C : Type 0) : Type 0 where
  pub pickled_function : List ℕ
  pub initial : Option C

pub record S3StaticCredentials : Type 0 where
  pub access_key_id : Text
  pub secret_access_key : Text
  pub session_token : Option Text
  pub expires_after : Option Instant

pub record GcsBearerCredential : Type 0 where
  pub bearer : Text
  pub expires_after : Option Instant

pub data AzureRefreshableCredential : Type 0 where
  access_key sas_token bearer_token : Text → Option Instant → AzureRefreshableCredential

-- A Python object by what `extract` gives at each type that is asked of it.
pub record PyAttr : Type 0 where
  pub as_string : Fallible Text
  pub as_option_string : Fallible (Option Text)
  pub as_option_datetime : Fallible (Option Instant)

-- A Python object by its attributes, `getattr`.
abbrev pub PyObject : Type 0
PyObject = Text → Fallible PyAttr

infixl 5 ◌>>=◌
abbrev pub ◌>>=◌ : {A B : Type 0} → Fallible A → (A → Fallible B) → Fallible B
good a >>= f = f a
bad e >>= f = bad e

-- `is_fresh`, with the time that `Utc::now()` gives.
unfoldable pub is_fresh : Instant → Option Instant → Bool
is_fresh now none = true
is_fresh now (some expiry) = ltb (now + refresh_buffer_secs * nanoseconds) expiry

-- `refresh_error`
unfoldable pub refresh_error : Text → Text → Text
refresh_error provider e =
    codes
      "rustytree could not run the Python credential callback embedded in this icechunk session to refresh "
    ++ (provider
        ++ (codes " credentials ("
            ++ (e
                ++ codes
                    "). This session was likely created with delegated/refreshable credentials (e.g. arraylake/Earthmover). Either rebuild it with anonymous or static credentials, keep `scatter_initial_credentials=True` so fresh static credentials travel with the session, or make the credential function importable in this process.")))

unfoldable pub s3_from_pyobj : PyObject → Fallible S3StaticCredentials
s3_from_pyobj obj = do
  id_attr ← obj (codes "access_key_id")
  id ← id_attr.as_string
  secret_attr ← obj (codes "secret_access_key")
  secret ← secret_attr.as_string
  token_attr ← obj (codes "session_token")
  token ← token_attr.as_option_string
  expires_attr ← obj (codes "expires_after")
  expires ← expires_attr.as_option_datetime
  good (record {
    access_key_id = id;
    secret_access_key = secret;
    session_token = token;
    expires_after = expires;
  })

unfoldable pub gcs_from_pyobj : PyObject → Fallible GcsBearerCredential
gcs_from_pyobj obj = do
  bearer_attr ← obj (codes "bearer")
  bearer ← bearer_attr.as_string
  expires_attr ← obj (codes "expires_after")
  expires ← expires_attr.as_option_datetime
  good (record { bearer = bearer; expires_after = expires })

-- The exception of an object with no value attribute, as `Display` writes it.
abbrev pub no_variant : Text
no_variant =
    codes "ValueError: icechunk Azure credential object had none of `key`, `token`, or `bearer`"

-- `if let Ok(v) = obj.getattr(…) { return Ok(… v.extract()? …) }`, and what comes after it.
abbrev pub if_attr :
    Fallible PyAttr
    → (Text → AzureRefreshableCredential)
    → Fallible AzureRefreshableCredential
    → Fallible AzureRefreshableCredential
if_attr (good attr) variant otherwise = attr.as_string >>= λ value. good (variant value)
if_attr (bad e) variant otherwise = otherwise

unfoldable pub azure_from_pyobj : PyObject → Fallible AzureRefreshableCredential
azure_from_pyobj obj = do
  expires_attr ← obj (codes "expires_after")
  expires ← expires_attr.as_option_datetime
  if_attr (obj (codes "key")) (λ key. access_key key expires)
      (if_attr (obj (codes "token")) (λ token. sas_token token expires)
        (if_attr (obj (codes "bearer")) (λ bearer. bearer_token bearer expires) (bad no_variant)))

-- The interpreter, whose state each of the two calls changes: `pickle.loads`, with the import of
-- `pickle`, and the call of what it loads. The clock, and
-- `AzureRefreshableCredential::expires_after` of icechunk.
pub record World : Type 1 where
  pub Interpreter : Type 0
  pub Callable : Type 0
  pub loads : List ℕ → Interpreter → Fallible Callable × Interpreter
  pub call0 : Callable → Interpreter → Fallible PyObject × Interpreter
  pub now : Instant
  pub azure_expires_after : AzureRefreshableCredential → Option Instant

module _ (world : World) where
  -- A call with a result, from the state of the interpreter before it to the one after it.
  abbrev pub Runs : Type 0 → Type 0
  Runs A = world.Interpreter → Fallible A × world.Interpreter

  -- `callable.call0()`, after `?`.
  abbrev pub call_loaded :
      Fallible world.Callable × world.Interpreter → Fallible PyObject × world.Interpreter
  call_loaded (good callable, py) = world.call0 callable py
  call_loaded (bad e, py) = (bad e, py)

  unfoldable pub call_pickled : List ℕ → Runs PyObject
  call_pickled pickled py = call_loaded (world.loads pickled py)

  -- `.map_err(|err| refresh_error(provider, &err))`
  abbrev pub or_refresh_error : {C : Type 0} → Text → Fallible C → Fallible C
  or_refresh_error provider (good creds) = good creds
  or_refresh_error provider (bad e) = bad (refresh_error provider e)

  -- `Python::attach(|py| from_pyobj(&call_pickled(…)?))`, with the error mapped.
  unfoldable pub refresh : {C : Type 0} → Text → (PyObject → Fallible C) → List ℕ → Runs C
  refresh provider from_pyobj pickled py =
      let (obj, after) = call_pickled pickled py in
      (or_refresh_error provider (obj >>= from_pyobj), after)

  -- The cached credentials while they are fresh, and else what a refresh gives.
  abbrev pub cached_or : {C : Type 0} → (C → Option Instant) → Option C → Runs C → Runs C
  cached_or expires_after none refreshed py = refreshed py
  cached_or expires_after (some creds) refreshed py =
      if is_fresh world.now (expires_after creds) then (good creds, py) else refreshed py

  -- `get` of `S3CredentialsFetcher`
  unfoldable pub s3_get : PythonCredentialsFetcher S3StaticCredentials → Runs S3StaticCredentials
  s3_get self =
      cached_or (λ creds. creds.expires_after) self.initial
        (refresh (codes "S3") s3_from_pyobj self.pickled_function)

  -- `get` of `GcsCredentialsFetcher`
  unfoldable pub gcs_get : PythonCredentialsFetcher GcsBearerCredential → Runs GcsBearerCredential
  gcs_get self =
      cached_or (λ creds. creds.expires_after) self.initial
        (refresh (codes "GCS") gcs_from_pyobj self.pickled_function)

  -- `get` of `AzureCredentialsFetcher`
  unfoldable pub azure_get :
      PythonCredentialsFetcher AzureRefreshableCredential → Runs AzureRefreshableCredential
  azure_get self =
      cached_or world.azure_expires_after self.initial
        (refresh (codes "Azure") azure_from_pyobj self.pickled_function)
