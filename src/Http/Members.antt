-- ===== src/Http/Members.antt =====
-- Membership: crates/converge-server/src/http/members.rs. `x_as` is the handler `x` behind its
-- authorization.
pub mod Removed
use convergence.Prelude.{
  ℕ, String, Bool, true, false, not, ◌&&◌, ◌||◌, Option, none, some, List, [], ◌∷◌, ◌++◌, map, any,
  all, keep, contains, is_nil, eqb, format, ◌==◌, if◌then◌else◌,
}
use convergence.Records.{TokenRecord, PublicKeyRecord}
use convergence.Meta.{Meta, Grant, SecretRecord}
use convergence.Meta.Accounts.{
  upsert_user, add_grant, list_grants, remove_grants, list_public_keys, list_secrets,
}
use convergence.Authz.{Capability, as_str, AuthzContext, admin, read}
use convergence.Engine.{◌>>>◌, Answer, ok, refuse, ◌>>◌, check, bad_request}
use convergence.Http.{AppState, authorize_repo}
use convergence.Http.Secrets.{SecretSummary, summarize_secret}
use convergence.Http.Tokens.{all_capabilities, Minted, expires_at_of, token_record, record_token}

pub record AddMemberRequest : Type 0 where
  pub subject : String
  pub capabilities : List String
  pub scope_pattern : String
  pub issue_token : Bool
  pub expires_in_days : Option ℕ

pub record MemberAdded : Type 0 where
  pub subject : String
  pub granted : List String
  pub token : Option String
  pub token_expires_at : String

abbrev pub is_known : String → Bool
is_known name = any (λ c. as_str c == name) all_capabilities

unfoldable pub check_member : AddMemberRequest → Answer Unit
check_member request = do
  check (not (request.subject == "")) bad_request
  check (not (is_nil request.capabilities)) bad_request
  check (all is_known request.capabilities) bad_request

abbrev pub pattern_of : AddMemberRequest → String
pattern_of request = if request.scope_pattern == "" then "*" else request.scope_pattern

-- The loop of `add_grant`
unfoldable pub grant_all : String → String → String → List String → Meta → Meta
grant_all subject repo pattern [] m = m
grant_all subject repo pattern (capability ∷ capabilities) m =
    grant_all subject repo pattern capabilities (
      add_grant
        (record {
          subject = subject;
          repo_id = repo;
          scope_pattern = pattern;
          capability = capability;
        })
        m)

abbrev pub token_for :
    AppState → AuthzContext → String → AddMemberRequest → Minted → String → Meta → Meta
token_for state ctx repo request minted now m =
    record_token state repo minted
      (token_record state request.subject (format ("issued by " ∷ (ctx.subject ∷ []))) now
        ctx.subject repo minted request.expires_in_days [])
      m

abbrev pub member_added :
    AppState
    → AuthzContext
    → String
    → AddMemberRequest
    → Minted
    → String
    → Bool
    → Meta
    → MemberAdded × Meta
member_added state ctx repo request minted now true m = (
  record {
    subject = request.subject;
    granted = request.capabilities;
    token = some minted.token;
    token_expires_at = expires_at_of minted request.expires_in_days;
  },
  token_for state ctx repo request minted now m,
)
member_added state ctx repo request minted now false m = (
  record {
    subject = request.subject;
    granted = request.capabilities;
    token = none;
    token_expires_at = "";
  },
  m,
)

abbrev pub add_valid :
    AppState
    → AuthzContext
    → String
    → AddMemberRequest
    → Minted
    → String
    → Answer Unit
    → Meta
    → Answer MemberAdded × Meta
add_valid state ctx repo request minted now (refuse r) m = (refuse r, m)
add_valid state ctx repo request minted now (ok u) m =
    let (answer, m') = member_added state ctx repo request minted now request.issue_token (
      grant_all request.subject repo (pattern_of request) request.capabilities
        (upsert_user request.subject m)) in
    (ok answer, m')

unfoldable pub add_member :
    AppState
    → Option String
    → String
    → AddMemberRequest
    → Minted
    → String
    → Meta
    → Answer MemberAdded × Meta
unfolding check_member grant_all token_record record_token upsert_user add_grant
add_member state bearer repo request minted now m =
    authorize_repo state bearer repo admin now m >>> λ ctx m'.
    add_valid state ctx repo request minted now (check_member request) m'

pub record MemberRemoved : Type 0 where
  pub subject : String
  pub grants_removed : ℕ
  pub still_sealed : List SecretSummary

-- `admins.len() == 1 && admins[0] == &subject`
abbrev pub is_only : String → List String → Bool
is_only subject (only ∷ []) = only == subject
is_only subject _ = false

abbrev pub admins_of : List Grant → List String
admins_of grants = map (λ g. g.subject) (keep (λ g. g.capability == as_str admin) grants)

abbrev pub sealed_to : String → List String → SecretRecord → Bool
sealed_to subject key_ids s = s.owner == subject || any (contains key_ids) s.recipients

unfoldable pub still_sealed_to : Meta → String → String → List SecretSummary
still_sealed_to m repo subject =
    let key_ids =
      map (λ k. k.key_id) (keep (λ k. k.subject == subject) (list_public_keys m repo)) in
    map summarize_secret (keep (sealed_to subject key_ids) (list_secrets m repo))

unfoldable pub check_removal : AuthzContext → String → String → Meta → Answer Unit
check_removal ctx repo subject m = do
  check (not (ctx.subject == subject)) bad_request
  check (not (is_only subject (admins_of (list_grants m repo)))) bad_request

abbrev pub remove_valid : String → String → Answer Unit → Meta → Answer MemberRemoved × Meta
remove_valid repo subject (refuse r) m = (refuse r, m)
remove_valid repo subject (ok u) m =
    let (removed, m') = remove_grants repo subject m in
    (
      ok (record {
        subject = subject;
        grants_removed = removed;
        still_sealed = still_sealed_to m' repo subject;
      }),
      m',
    )

unfoldable pub remove_member :
    AppState → Option String → String → String → String → Meta → Answer MemberRemoved × Meta
unfolding check_removal remove_grants still_sealed_to
remove_member state bearer repo subject now m =
    authorize_repo state bearer repo admin now m >>> λ ctx m'.
    remove_valid repo subject (check_removal ctx repo subject m') m'

pub record MemberRecord : Type 0 where
  pub subject : String
  pub grants : List (String × String)

-- Consecutive grants of one subject are one member.
abbrev pub push_grant : Grant → List MemberRecord → List MemberRecord
push_grant g [] = record { subject = g.subject; grants = (g.capability, g.scope_pattern) ∷ [] } ∷ []
push_grant g (member ∷ members) =
    if member.subject == g.subject
    then record member { grants = (g.capability, g.scope_pattern) ∷ member.grants } ∷ members
    else record { subject = g.subject; grants = (g.capability, g.scope_pattern) ∷ [] }
      ∷ (member ∷ members)

unfoldable pub group_members : List Grant → List MemberRecord
group_members [] = []
group_members (g ∷ grants) = push_grant g (group_members grants)

unfoldable pub list_members :
    AppState → Option String → String → String → Meta → Answer (List MemberRecord) × Meta
unfolding group_members
list_members state bearer repo now m = authorize_repo state bearer repo read now m >>> λ ctx m'.
    (ok (group_members (list_grants m' repo)), m')
