-- ===== src/Store/Sample.antt =====
-- A file system, an object store and a pickle codec for the tests.
use rustytree.Prelude.{
  ℕ, ◌+◌, length, take, drop, take-length, drop-length, refl, true, false, if◌then◌else◌, text_eq,
  List, [], ◌∷◌, ◌++◌, Text, codes,
}
use rustytree.Zarrs.{Fallible, good, bad}
use rustytree.Walk.Sample.{sample, session}
use rustytree.Store.{S3Api, Backends, ReopenSpec, session_bytes}
use rustytree.Store.Handle.{Msgpack, RoundTrips}

abbrev pub backends : Backends ℕ
backends = record {
  is_file = λ path name. false;
  is_dir = λ path name. false;
  local_file_system = λ path. good sample;
  IceStorage = Text;
  Repository = Text;
  Session = List ℕ;
  local_storage = λ path. good path;
  open_repository = λ storage. good storage;
  readonly_session = λ repo branch. good branch;
  from_bytes = λ bytes. good bytes;
  session_store = λ session. sample;
  session_answers = λ s. session;
}

-- A file system of icechunk repositories, each with the branch `main` only.
abbrev pub repositories : Backends ℕ
repositories = record {
  is_file = λ path name. true;
  is_dir = λ path name. true;
  local_file_system = λ path. good sample;
  IceStorage = Text;
  Repository = Text;
  Session = List ℕ;
  local_storage = λ path. good path;
  open_repository = λ storage. good storage;
  readonly_session = λ repo branch.
      if text_eq branch (codes "main") then good (5 ∷ []) else bad (codes "no such branch");
  from_bytes = λ bytes. good bytes;
  session_store = λ session. sample;
  session_answers = λ s. session;
}

-- A builder that counts the settings.
abbrev pub api : S3Api ℕ
api = record {
  Builder = ℕ;
  from_env = 0;
  with_url = λ url b. b + 1;
  with_region = λ v b. b + 1;
  with_endpoint = λ v b. b + 1;
  with_access_key_id = λ v b. b + 1;
  with_secret_access_key = λ v b. b + 1;
  with_token = λ v b. b + 1;
  with_allow_http = λ v b. b + 1;
  with_skip_signature = λ v b. b + 1;
  build = λ b. good sample;
  debug = λ t. t;
}

-- A codec whose bytes are the number of session bytes, the session bytes and the path.
abbrev pub encode : ReopenSpec × Text → List ℕ
encode (session_bytes bytes, path) = length bytes ∷ (bytes ++ path)

abbrev pub decode : List ℕ → Fallible (ReopenSpec × Text)
decode [] = bad (codes "no bytes")
decode (n ∷ bytes) = good (session_bytes (take n bytes), drop n bytes)

abbrev pub msgpack : Msgpack
msgpack = record { to_vec = λ x. good (encode x); from_slice = decode; debug = λ t. t }

pub msgpack-RoundTrips : RoundTrips msgpack
msgpack-RoundTrips (session_bytes bytes, path) = (
  length bytes ∷ (bytes ++ path),
  (refl, rw (take-length bytes path, drop-length bytes path) refl),
)
