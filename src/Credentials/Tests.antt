-- ===== src/Credentials/Tests.antt =====
-- Fetchers in a world whose clock stands at second 1000, and whose callables return one object. Its
-- interpreter keeps a log of what it loads and calls, with the last one first.
use rustytree.Prelude.{
  ℕ, ◌*◌, ◌≡◌, refl, if◌then◌else◌, Option, none, some, List, [], ◌∷◌, codes, text_eq, arith,
}
use rustytree.Zarrs.{Fallible, good, bad}
use rustytree.Credentials.{
  PythonCredentialsFetcher, S3StaticCredentials, GcsBearerCredential, AzureRefreshableCredential,
  access_key, sas_token, bearer_token, PyAttr, PyObject, is_fresh, World, s3_get, gcs_get,
  azure_get, nanoseconds, Instant, s3_from_pyobj, gcs_from_pyobj, azure_from_pyobj, refresh_error,
  refresh, call_pickled,
}
use rustytree.Credentials.Laws.{
  HasFresh, Caches, get-Caches, Describes, refreshed_azure, azure_get-Describes,
}

abbrev attr : PyAttr
attr = record {
  as_string = good (codes "value");
  as_option_string = good none;
  as_option_datetime = good none;
}

-- `expires_after` is None, `token` and `bearer` are there, and there is no `key`.
token_object : PyObject
unfolding text_eq
token_object name =
    if text_eq name (codes "key") then bad (codes "AttributeError: key") else good attr

abbrev azure_expiry : AzureRefreshableCredential → Option Instant
azure_expiry (access_key v e) = e
azure_expiry (sas_token v e) = e
azure_expiry (bearer_token v e) = e

data Event : Type 0 where
  loaded called : List ℕ → Event

-- A pickle of no bytes does not load.
abbrev loads_logged : List ℕ → List Event → Fallible (List ℕ) × List Event
loads_logged [] log = (bad (codes "EOFError: Ran out of input"), loaded [] ∷ log)
loads_logged (b ∷ bytes) log = (good (b ∷ bytes), loaded (b ∷ bytes) ∷ log)

abbrev world : World
world = record {
  Interpreter = List Event;
  Callable = List ℕ;
  loads = loads_logged;
  call0 = λ callable log. (good token_object, called callable ∷ log);
  now = 1000 * nanoseconds;
  azure_expires_after = azure_expiry;
}

abbrev azure : PythonCredentialsFetcher AzureRefreshableCredential
azure = record {
  pickled_function = 1 ∷ [];
  initial = some (access_key (codes "k") (some (1100 * nanoseconds)));
}

abbrev gcs : PythonCredentialsFetcher GcsBearerCredential
gcs = record {
  pickled_function = 2 ∷ [];
  initial = some (record { bearer = codes "b"; expires_after = some (2000 * nanoseconds) });
}

abbrev s3 : PythonCredentialsFetcher S3StaticCredentials
s3 = record { pickled_function = 3 ∷ []; initial = none }

gcs_cached :
    gcs_get world gcs []
    ≡ (good (record { bearer = codes "b"; expires_after = some (2000 * nanoseconds) }), [])
unfolding gcs_get is_fresh
gcs_cached = refl

s3_refreshed : s3_get world s3 [] ≡ (
  good (record {
    access_key_id = codes "value";
    secret_access_key = codes "value";
    session_token = none;
    expires_after = none;
  }),
  called (3 ∷ []) ∷ loaded (3 ∷ []) ∷ [],
)
unfolding s3_get refresh call_pickled s3_from_pyobj token_object text_eq
s3_refreshed = refl

-- A function that does not load is not called.
s3_unreadable :
    s3_get world (record { pickled_function = []; initial = none }) []
    ≡ (bad (refresh_error (codes "S3") (codes "EOFError: Ran out of input")), loaded [] ∷ [])
unfolding s3_get refresh call_pickled
s3_unreadable = refl

get-Caches_example :
    Caches world (λ c. c.expires_after) (codes "S3") s3_from_pyobj s3 [] (s3_get world s3 [])
    × Caches world (λ c. c.expires_after) (codes "GCS") gcs_from_pyobj gcs [] (gcs_get world gcs [])
    × Caches world world.azure_expires_after
        (codes "Azure")
        azure_from_pyobj
        azure
        []
        (azure_get world azure [])
get-Caches_example = get-Caches world s3 gcs azure []

azure-stale : ¬ HasFresh world.now world.azure_expires_after azure.initial
azure-stale h = absurd (omega arith)

token_object-Describes : Describes token_object (some (sas_token (codes "value") none))
unfolding token_object text_eq
token_object-Describes =
    ((attr, (refl, refl)), ((codes "AttributeError: key", refl), (attr, (refl, refl))))

azure_get-Describes_example : azure_get world azure [] ≡ (
  refreshed_azure (some (sas_token (codes "value") none)),
  called (1 ∷ []) ∷ loaded (1 ∷ []) ∷ [],
)
azure_get-Describes_example =
    azure_get-Describes world azure token_object (some (sas_token (codes "value") none)) []
      (called (1 ∷ []) ∷ loaded (1 ∷ []) ∷ []) azure-stale
      (1 ∷ [], loaded (1 ∷ []) ∷ [], refl, refl) token_object-Describes
