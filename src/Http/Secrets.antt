-- ===== src/Http/Secrets.antt =====
-- The secrets' handlers: crates/converge-server/src/http/secrets.rs. `x_as` is the handler `x` behind its
-- authorization.
pub mod Names
pub mod Rotation
pub mod Reading
use Prim.Native.Nat.{◌^◌}
use Prim.Native.Char.{code}
use Prim.Native.String.{len}
use convergence.Prelude.{
  ℕ, ◌+◌, ◌%◌, String, Bool, true, false, not, ◌&&◌, ◌||◌, Option, none, some, List, [], ◌∷◌, map,
  any, keep, find, contains, is_nil, leb, ltb, eqb, format, decimal, ◌==◌, if◌then◌else◌,
}
use convergence.Records.{PublicKeyRecord}
use convergence.Meta.{Meta, SecretRecord, add_event}
use convergence.Meta.Batch.{
  MetaOp, assert_secret_version, put_secret, add_event_op, apply_batch, BatchResult, committed,
  batch_conflict, batch_error,
}
use convergence.Meta.Accounts.{get_secret, list_secrets, list_public_keys, delete_secret}
use convergence.Authz.{AuthzContext, secret, read}
use convergence.Engine.{
  ◌>>>◌, Answer, ok, refuse, ◌>>◌, check, bad_request, forbidden, not_found, conflicting, internal,
}
use convergence.Http.{AppState, authorize_repo}

pub record SetSecretRequest : Type 0 where
  pub ciphertext : String
  pub recipients : List String
  pub expected_version : ℕ
  pub value_changed : Bool

pub record SecretSummary : Type 0 where
  pub name : String
  pub owner : String
  pub recipients : List String
  pub version : ℕ
  pub value_version : ℕ
  pub value_updated_at : String
  pub updated_at : String
  pub updated_by : String

unfoldable pub summarize_secret : SecretRecord → SecretSummary
summarize_secret s = record {
  name = s.name;
  owner = s.owner;
  recipients = s.recipients;
  version = s.version;
  value_version = s.value_version;
  value_updated_at = s.value_updated_at;
  updated_at = s.updated_at;
  updated_by = s.updated_by;
}

-- `c.is_ascii_alphanumeric() || matches!(c, '-' | '_' | '.')`
abbrev pub is_name_char : ℕ → Bool
is_name_char c =
    (leb 48 c && leb c 57)
    || (leb 65 c && leb c 90)
    || (leb 97 c && leb c 122)
    || eqb c 45
    || eqb c 95
    || eqb c 46

unfoldable pub all_name_chars : String → Bool
all_name_chars String.[] = true
all_name_chars (String.◌∷◌ c rest) = is_name_char (code c) && all_name_chars rest

-- `name.len()`: the bytes of the UTF-8 encoding
abbrev pub byte_width : ℕ → ℕ
byte_width c = if ltb c 0x80 then 1 else if ltb c 0x800 then 2 else if ltb c 0x10000 then 3 else 4

unfoldable pub byte_len : String → ℕ
byte_len String.[] = 0
byte_len (String.◌∷◌ c rest) = byte_width (code c) + byte_len rest

unfoldable pub validate_secret_name : String → Answer Unit
unfolding all_name_chars byte_len
validate_secret_name name =
    if name == "" || ltb 128 (byte_len name)
    then refuse bad_request
    else if not (all_name_chars name)
    then refuse bad_request
    else ok tt

-- `u64` addition
abbrev pub next_version : ℕ → ℕ
next_version v = (v + 1) % (2 ^ 64)

abbrev pub value_version_of : Option SecretRecord → ℕ
value_version_of none = 0
value_version_of (some s) = s.value_version

-- The value's version and its time: a re-share keeps them.
unfoldable pub value_stamp : Option SecretRecord → Bool → String → ℕ × String
value_stamp previous true now = (next_version (value_version_of previous), now)
value_stamp (some previous) false now = (previous.value_version, previous.value_updated_at)
value_stamp none false now = (1, now)

unfoldable pub secret_record :
    String → String → SetSecretRequest → Option SecretRecord → String → SecretRecord
unfolding value_stamp
secret_record subject name request previous now = record {
  name = name;
  owner = subject;
  recipients = request.recipients;
  ciphertext = request.ciphertext;
  version = next_version request.expected_version;
  updated_at = now;
  updated_by = subject;
  value_version = (value_stamp previous request.value_changed now).0;
  value_updated_at = (value_stamp previous request.value_changed now).1;
}

abbrev pub secret_event : String → String → SecretRecord → String
secret_event subject name s = format (subject ∷ ("/" ∷ (name ∷ ("@" ∷ (decimal s.version ∷ [])))))

unfoldable pub secret_ops : String → String → String → ℕ → SecretRecord → List MetaOp
secret_ops repo subject name expected s =
    assert_secret_version repo subject name expected
    ∷ (put_secret repo s
        ∷ (add_event_op repo "secret.changed" (secret_event subject name s) s.updated_at ∷ []))

abbrev pub stored : SecretRecord → Meta × BatchResult → Answer SecretSummary × Meta
stored s (m, committed) = (ok (summarize_secret s), m)
stored s (m, batch_conflict) = (refuse conflicting, m)
stored s (m, batch_error) = (refuse internal, m)

unfoldable pub check_request : String → SetSecretRequest → Answer Unit
unfolding validate_secret_name
check_request name request = do
  validate_secret_name name
  check (not (request.ciphertext == "")) bad_request
  check (not (is_nil request.recipients)) bad_request

abbrev pub store_with :
    Answer Unit
    → AuthzContext
    → String
    → SetSecretRequest
    → String
    → Meta
    → Answer SecretSummary × Meta
store_with (refuse r) ctx name request now m = (refuse r, m)
store_with (ok u) ctx name request now m =
    let s =
      secret_record ctx.subject name request (get_secret m ctx.repo_id ctx.subject name) now in
    stored s (apply_batch (secret_ops ctx.repo_id ctx.subject name request.expected_version s) m)

unfoldable pub set_secret_as :
    AuthzContext → String → SetSecretRequest → String → Meta → Answer SecretSummary × Meta
unfolding check_request secret_record secret_ops summarize_secret
set_secret_as ctx name request now m =
    store_with (check_request name request) ctx name request now m

unfoldable pub set_secret :
    AppState
    → Option String
    → String
    → String
    → SetSecretRequest
    → String
    → Meta
    → Answer SecretSummary × Meta
unfolding set_secret_as
set_secret state bearer repo name request now m =
    authorize_repo state bearer repo secret now m >>> λ ctx m'.
    set_secret_as ctx name request now m'

abbrev pub holds_key : String → String → PublicKeyRecord → Bool
holds_key key_id subject key = key.key_id == key_id && key.subject == subject

unfoldable pub is_recipient : SecretRecord → String → List PublicKeyRecord → Bool
is_recipient s subject keys =
    s.owner == subject || any (λ key_id. any (holds_key key_id subject) keys) s.recipients

abbrev pub owned_by : Option String → SecretRecord → Bool
owned_by none s = true
owned_by (some owner) s = s.owner == owner

abbrev pub only_one : List SecretRecord → Answer SecretRecord
only_one [] = refuse not_found
only_one (s ∷ []) = ok s
only_one (s ∷ (t ∷ more)) = refuse bad_request

abbrev pub mine_or : Option SecretRecord → List SecretRecord → Answer SecretRecord
mine_or (some s) readable = ok s
mine_or none readable = only_one readable

unfoldable pub matching : Meta → String → String → Option String → List SecretRecord
matching m repo name owner =
    keep (owned_by owner) (keep (λ s. s.name == name) (list_secrets m repo))

unfoldable pub find_secret : Meta → String → String → String → Option String → Answer SecretRecord
unfolding matching is_recipient
find_secret m repo name subject owner =
    mine_or (find (λ s. s.owner == subject) (matching m repo name owner))
      (keep (λ s. is_recipient s subject (list_public_keys m repo)) (matching m repo name owner))

abbrev pub read_found :
    AuthzContext → String → String → Answer SecretRecord → Meta → Answer SecretRecord × Meta
read_found ctx name now (refuse r) m = (refuse r, m)
read_found ctx name now (ok s) m =
    if is_recipient s ctx.subject (list_public_keys m ctx.repo_id)
    then (ok s, add_event ctx.repo_id "secret.read" (secret_event ctx.subject name s) now m)
    else (refuse not_found, m)

unfoldable pub get_secret_as :
    AuthzContext → String → Option String → String → Meta → Answer SecretRecord × Meta
unfolding find_secret is_recipient
get_secret_as ctx name owner now m =
    read_found ctx name now (find_secret m ctx.repo_id name ctx.subject owner) m

-- The handler `get_secret`
unfoldable pub fetch_secret :
    AppState
    → Option String
    → String
    → String
    → Option String
    → String
    → Meta
    → Answer SecretRecord × Meta
unfolding get_secret_as
fetch_secret state bearer repo name owner now m =
    authorize_repo state bearer repo secret now m >>> λ ctx m'. get_secret_as ctx name owner now m'

-- The handler `list_secrets`
unfoldable pub secret_summaries :
    AppState → Option String → String → String → Meta → Answer (List SecretSummary) × Meta
unfolding summarize_secret
secret_summaries state bearer repo now m = authorize_repo state bearer repo read now m >>> λ ctx m'.
    (ok (map summarize_secret (list_secrets m' repo)), m')

abbrev pub delete_found : AuthzContext → String → Answer SecretRecord → Meta → Answer String × Meta
delete_found ctx name (refuse r) m = (refuse r, m)
delete_found ctx name (ok s) m =
    if not (s.owner == ctx.subject)
    then (refuse forbidden, m)
    else (ok name, delete_secret ctx.repo_id ctx.subject name m)

-- The handler `delete_secret`
unfoldable pub drop_secret :
    AppState → Option String → String → String → String → Meta → Answer String × Meta
unfolding find_secret
drop_secret state bearer repo name now m =
    authorize_repo state bearer repo secret now m >>> λ ctx m'.
    delete_found ctx name (find_secret m' repo name ctx.subject (some ctx.subject)) m'
