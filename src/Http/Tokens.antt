-- ===== src/Http/Tokens.antt =====
-- Tokens: `issue_token`, `parse_capability`, `list_tokens` and `revoke_token` of
-- crates/converge-server/src/http/auth.rs. The minted text and the expiry that the `time` library formats are
-- parameters.
pub mod Scope
pub mod Revoked
use convergence.Prelude.{
  ℕ, String, Bool, true, false, not, Option, none, some, List, [], ◌∷◌, find, is_nil, eqb, format,
  take_chars, ◌==◌, if◌then◌else◌,
}
use convergence.Records.{TokenRecord}
use convergence.Meta.{Meta, add_event}
use convergence.Meta.Accounts.{create_token_record, list_tokens, revoke_token}
use convergence.Authz.{
  Capability, read, snap_sync, publish, resolve, approve, promote, release, secret, admin, as_str,
  AuthzContext, Authorized, authorize,
}
use convergence.Engine.{
  ◌>>>◌, Answer, ok, refuse, ◌>>=◌, ◌>>◌, check, ok_or, bad_request, forbidden, not_found,
}
use convergence.Http.{AppState, Caller, permits, caller, context_of, authorize_repo}

pub record IssueTokenRequest : Type 0 where
  pub label : String
  pub capabilities : List String
  pub expires_in_days : Option ℕ

-- What `mint_token` returned, and the text of `now + days`
pub record Minted : Type 0 where
  pub token : String
  pub expiry : ℕ → String

-- `known`, which is `Capability::ALL` too
abbrev pub all_capabilities : List Capability
all_capabilities =
    read
    ∷ (snap_sync
        ∷ (publish ∷ (resolve ∷ (approve ∷ (promote ∷ (release ∷ (secret ∷ (admin ∷ []))))))))

unfoldable pub parse_capability : String → Answer Capability
parse_capability name = ok_or bad_request (find (λ c. as_str c == name) all_capabilities)

-- The checks on one name, and the loop over the names asked for
unfoldable pub issued_capability : Caller → String → String → Meta → Answer Capability
unfolding parse_capability
issued_capability c repo name m = do
  capability ← parse_capability name
  check (permits c capability) forbidden
  context ← context_of (authorize m c.subject repo "*" capability)
  ok capability

unfoldable pub issued_capabilities : Caller → String → List String → Meta → Answer (List String)
unfolding issued_capability
issued_capabilities c repo [] m = ok []
issued_capabilities c repo (name ∷ names) m = do
  capability ← issued_capability c repo name m
  more ← issued_capabilities c repo names m
  ok (as_str capability ∷ more)

unfoldable pub issuable : Caller → String → IssueTokenRequest → Meta → Answer (List String)
unfolding issued_capabilities
issuable c repo request m = do
  context ← context_of (authorize m c.subject repo "*" read)
  capabilities ← issued_capabilities c repo request.capabilities m
  check (not (is_nil capabilities)) bad_request
  ok capabilities

-- `expires_in_days.unwrap_or(DEFAULT_TOKEN_DAYS)`
abbrev pub days_of : Option ℕ → ℕ
days_of none = 90
days_of (some days) = days

abbrev pub expires_at_of : Minted → Option ℕ → String
expires_at_of minted asked = if eqb (days_of asked) 0 then "" else minted.expiry (days_of asked)

unfoldable pub token_record :
    AppState
    → String
    → String
    → String
    → String
    → String
    → Minted
    → Option ℕ
    → List String
    → TokenRecord
token_record state subject label now issuer repo minted asked capabilities = record {
  token_id = take_chars 12 (state.token_hash minted.token);
  subject = subject;
  label = label;
  issued_at = now;
  issued_by = issuer;
  repo_id = repo;
  expires_at = expires_at_of minted asked;
  last_used_at = "";
  revoked_at = "";
  revoked_by = "";
  revoked_reason = "";
  capabilities = capabilities;
}

abbrev pub token_subject : TokenRecord → String
token_subject t = format (t.subject ∷ ("/" ∷ (t.token_id ∷ [])))

unfoldable pub record_token : AppState → String → Minted → TokenRecord → Meta → Meta
record_token state repo minted t m =
    add_event repo "token.issued" (token_subject t) t.issued_at
      (create_token_record (state.token_hash minted.token) t m)

abbrev pub issued :
    AppState
    → Caller
    → String
    → IssueTokenRequest
    → Minted
    → String
    → Answer (List String)
    → Meta
    → Answer TokenRecord × Meta
issued state c repo request minted now (refuse r) m = (refuse r, m)
issued state c repo request minted now (ok capabilities) m =
    let t =
      token_record state c.subject request.label now c.subject repo minted request.expires_in_days
        capabilities in
    (ok t, record_token state repo minted t m)

unfoldable pub issue_token :
    AppState
    → Option String
    → String
    → IssueTokenRequest
    → Minted
    → String
    → Meta
    → Answer TokenRecord × Meta
unfolding issuable token_record record_token
issue_token state bearer repo request minted now m = caller state bearer now m >>> λ c m'.
    issued state c repo request minted now (issuable c repo request m') m'

-- The handler `list_tokens`
unfoldable pub repo_tokens :
    AppState → Option String → String → String → Meta → Answer (List TokenRecord) × Meta
repo_tokens state bearer repo now m =
    authorize_repo state bearer repo admin now m >>> λ ctx m'. (ok (list_tokens m' repo), m')

abbrev pub revoked_with : String → String → Option TokenRecord × Meta → Answer TokenRecord × Meta
revoked_with repo now (none, m) = (refuse not_found, m)
revoked_with repo now (some t, m) = (ok t, add_event repo "token.revoked" (token_subject t) now m)

-- The handler `revoke_token`
unfoldable pub revoke :
    AppState → Option String → String → String → String → String → Meta → Answer TokenRecord × Meta
revoke state bearer repo token_id reason now m =
    authorize_repo state bearer repo admin now m >>> λ ctx m'.
    revoked_with repo now (revoke_token token_id now ctx.subject reason m')
