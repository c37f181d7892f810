-- ===== src/Http.antt =====
-- The handlers of crates/converge-server/src/http.rs and http/ that keep secrets, tokens and members,
-- from the bearer token of a request on. A handler takes the tables and gives its answer and the tables
-- that it leaves; its time is the text that `now_rfc3339()` returned.
pub mod Callers
pub mod Secrets
pub mod Tokens
pub mod Members
pub mod Examples
use Prim.Native.String.{len}
use convergence.Prelude.{
  ℕ, String, Bool, true, false, not, ◌&&◌, ◌||◌, Option, none, some, List, [], ◌∷◌, any, contains,
  lookup, leb, compare, Ordering, take_chars, is_nil, opt_eq, ◌==◌, if◌then◌else◌,
}
use convergence.Records.{TokenRecord}
use convergence.Meta.{Meta}
use convergence.Meta.Accounts.{token_by_hash, touch_token}
use convergence.Authz.{
  Capability, as_str, satisfying_capabilities, AuthzContext, Authorized, authorized, denied,
  unknown_scope, authorize,
}
use convergence.Engine.{Refusal, Answer, ok, refuse, ◌>>>◌, unauthorized, forbidden}

-- The part of `AppState` that authentication reads: the startup tokens with their subjects, and
-- `token_hash`, which is the BLAKE3 library's.
pub record AppState : Type 0 where
  pub tokens : List (String × String)
  pub token_hash : String → String

pub record Caller : Type 0 where
  pub subject : String
  pub scope : List String

-- `Caller::permits`
unfoldable pub permits : Caller → Capability → Bool
permits caller capability =
    is_nil caller.scope
    || any (λ c. contains caller.scope (as_str c)) (satisfying_capabilities capability)

-- `<=` on texts
abbrev pub at_most : String → String → Bool
at_most a b = elim (compare a b) [ Ordering.gt ↦ false | _ ↦ true ]

-- `text.get(..10)` of an RFC3339 text, whose characters are bytes
abbrev pub day : String → Option String
day text = if leb 10 (len text) then some (take_chars 10 text) else none

abbrev pub is_revoked : TokenRecord → Bool
is_revoked t = not (t.revoked_at == "")

abbrev pub is_expired : String → TokenRecord → Bool
is_expired now t = not (t.expires_at == "") && at_most t.expires_at now

abbrev pub subject_of : String → String → Option TokenRecord → Meta → Answer String × Meta
subject_of hash now none m = (refuse unauthorized, m)
subject_of hash now (some t) m =
    if is_revoked t
    then (refuse unauthorized, m)
    else if is_expired now t
    then (refuse unauthorized, m)
    else (ok t.subject, if opt_eq (day t.last_used_at) (day now) then m else touch_token hash now m)

abbrev pub scope_of : Option TokenRecord → List String
scope_of none = []
scope_of (some t) = t.capabilities

-- `caller`, for the text behind `Bearer ` in the header, if it has one
abbrev pub caller_with : AppState → String → String → Option String → Meta → Answer Caller × Meta
caller_with state token now (some subject) m = (ok (record { subject = subject; scope = [] }), m)
caller_with state token now none m =
    let record_of = token_by_hash m (state.token_hash token) in
    subject_of (state.token_hash token) now record_of m >>> λ subject m'.
    (ok (record { subject = subject; scope = scope_of record_of }), m')

unfoldable pub caller : AppState → Option String → String → Meta → Answer Caller × Meta
unfolding touch_token
caller state none now m = (refuse unauthorized, m)
caller state (some token) now m = caller_with state token now (lookup token state.tokens) m

abbrev pub context_of : Authorized → Answer AuthzContext
context_of (authorized ctx) = ok ctx
context_of denied = refuse forbidden
context_of unknown_scope = refuse forbidden

-- The token's scope, and then the subject's grants
abbrev pub authorized_as : String → String → Capability → Caller → Meta → Answer AuthzContext × Meta
authorized_as repo scope capability c m =
    if not (permits c capability)
    then (refuse forbidden, m)
    else (context_of (authorize m c.subject repo scope capability), m)

unfoldable pub authorize_scoped :
    AppState
    → Option String
    → String
    → String
    → Capability
    → String
    → Meta
    → Answer AuthzContext × Meta
unfolding caller
authorize_scoped state bearer repo scope capability now m =
    caller state bearer now m >>> authorized_as repo scope capability

unfoldable pub authorize_repo :
    AppState → Option String → String → Capability → String → Meta → Answer AuthzContext × Meta
unfolding authorize_scoped
authorize_repo state bearer repo capability now m =
    authorize_scoped state bearer repo "*" capability now m
