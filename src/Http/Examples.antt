-- ===== src/Http/Examples.antt =====
-- A server with an admin, a member and a stored token, requests to its handlers, and the theorems at
-- them. The hash of a token is its text.
use Prim.Native.Nat.{◌^◌}
use convergence.Prelude.{
  ◌≤◌, ◌<◌, String, ◌≡◌, ◌≢◌, refl, ◌↔◌, true, none, some, [], ◌∷◌, All, length, lookup, arith,
}
use convergence.Records.{TokenRecord, PublicKeyRecord}
use convergence.Meta.{Meta, Grant, SecretRecord, scope_exists, add_event}
use convergence.Meta.Batch.{apply_batch, apply_ops, apply_op}
use convergence.Meta.Accounts.{
  token_by_hash, touch_token, get_secret, list_secrets, list_public_keys, revoke_token, list_grants,
  remove_grants,
}
use convergence.Authz.{
  secret, admin, as_str, AuthzContext, authorized, authorize, satisfying_capabilities, has_grant,
  scope_pattern_matches,
}
use convergence.Authz.Decision.{Granted}
use convergence.Authz.Examples.{no_rows}
use convergence.Engine.{ok, refuse, conflicting, unauthorized}
use convergence.Http.{AppState, permits, caller, authorize_scoped, authorize_repo}
use convergence.Http.Callers.{Bears, authorize_scoped-Bears}
use convergence.Http.Secrets.{
  SetSecretRequest, SecretSummary, summarize_secret, validate_secret_name, all_name_chars, byte_len,
  value_stamp, secret_record, secret_ops, check_request, set_secret_as, is_recipient, matching,
  find_secret, get_secret_as, fetch_secret, secret_event,
}
use convergence.Http.Secrets.Names.{codes, NameChar, validate_secret_name_iff}
use convergence.Http.Secrets.Rotation.{Rotates, set_secret_as-Rotates, set_secret_as-race}
use convergence.Http.Secrets.Reading.{MayOpen, Matches, fetch_secret-MayOpen}
use convergence.Http.Tokens.{IssueTokenRequest, Minted, parse_capability, revoke}
use convergence.Http.Tokens.Scope.{parse_capability-as_str}
use convergence.Http.Tokens.Revoked.{revoke-locks_out}
use convergence.Http.Members.{check_removal, still_sealed_to, MemberRemoved, remove_member}
use convergence.Http.Members.Removed.{Decides, remove_member-Decides}

abbrev server : AppState
server = record { tokens = ("root", "ana") ∷ []; token_hash = λ token. token }

abbrev stored : TokenRecord
stored = record {
  token_id = "b1";
  subject = "ben";
  label = "laptop";
  issued_at = "2026-07-01T00:00:00Z";
  issued_by = "ana";
  repo_id = "repo";
  expires_at = "";
  last_used_at = "";
  revoked_at = "";
  revoked_by = "";
  revoked_reason = "";
  capabilities = "secret" ∷ [];
}

abbrev grant : String → String → Grant
grant subject capability = record {
  subject = subject;
  repo_id = "repo";
  scope_pattern = "*";
  capability = capability;
}

abbrev password : SecretRecord
password = record {
  name = "db";
  owner = "ana";
  recipients = "k1" ∷ [];
  ciphertext = "sealed";
  version = 3;
  updated_at = "2026-07-01T00:00:00Z";
  updated_by = "ana";
  value_version = 2;
  value_updated_at = "2026-07-01T00:00:00Z";
}

abbrev key : PublicKeyRecord
key = record {
  key_id = "k1";
  subject = "ben";
  public_key = "age1";
  label = "laptop";
  created_at = "2026-07-01T00:00:00Z";
}

abbrev tables : Meta
tables = record no_rows {
  grants = grant "ana" "admin" ∷ (grant "ben" "secret" ∷ []);
  tokens = ("bearer", stored) ∷ [];
  public_keys = ("repo", key) ∷ [];
  secrets = ("repo", password) ∷ [];
}

abbrev now : String
now = "2026-07-02T00:00:00Z"

abbrev asking : AuthzContext
asking = record { subject = "ben"; repo_id = "repo"; scope_id = "*"; capability = secret }

abbrev writing : AuthzContext
writing = record { subject = "ana"; repo_id = "repo"; scope_id = "*"; capability = secret }

passes : (authorize_scoped server (some "bearer") "repo" "*" secret now tables).0 ≡ ok asking
unfolding authorize_scoped caller permits authorize satisfying_capabilities has_grant
    scope_pattern_matches scope_exists touch_token token_by_hash as_str
passes = refl

authorize_scoped-Bears_example :
    (token : String) × (some "bearer" ≡ some token)
    × Bears server tables now secret token "ben"
    × (authorize tables "ben" "repo" "*" secret ≡ authorized asking)
authorize_scoped-Bears_example =
    authorize_scoped-Bears server (some "bearer") "repo" "*" now secret tables asking passes

validate_secret_name_iff_example :
    (validate_secret_name "db-1" ≡ ok tt)
    ↔ ((1 ≤ length (codes "db-1")) × (length (codes "db-1") ≤ 128) × All NameChar (codes "db-1"))
validate_secret_name_iff_example = validate_secret_name_iff "db-1"

abbrev rotation : SetSecretRequest
rotation = record {
  ciphertext = "resealed";
  recipients = "k1" ∷ [];
  expected_version = 3;
  value_changed = true;
}

abbrev rotated : SecretSummary
rotated = record {
  name = "db";
  owner = "ana";
  recipients = "k1" ∷ [];
  version = 4;
  value_version = 3;
  value_updated_at = now;
  updated_at = now;
  updated_by = "ana";
}

valid : check_request "db" rotation ≡ ok tt
unfolding check_request validate_secret_name all_name_chars byte_len
valid = refl

rotates : (set_secret_as writing "db" rotation now tables).0 ≡ ok rotated
unfolding set_secret_as check_request validate_secret_name all_name_chars byte_len secret_record
    value_stamp secret_ops get_secret apply_batch apply_ops apply_op summarize_secret
rotates = refl

set_secret_as-Rotates_example :
    Rotates writing "db" rotation now tables
      (set_secret_as writing "db" rotation now tables).1
      rotated
set_secret_as-Rotates_example =
    set_secret_as-Rotates writing "db" rotation now tables rotated rotates

bounded : 3 < 2 ^ 64
bounded = omega arith

set_secret_as-race_example :
    set_secret_as writing "db" rotation "later" (set_secret_as writing "db" rotation now tables).1
    ≡ (refuse conflicting, (set_secret_as writing "db" rotation now tables).1)
set_secret_as-race_example =
    set_secret_as-race writing "db" rotation rotation now "later" tables rotated rotates valid refl
      bounded

fetches : (fetch_secret server (some "bearer") "repo" "db" none now tables).0 ≡ ok password
unfolding fetch_secret authorize_repo authorize_scoped caller permits authorize
    satisfying_capabilities has_grant scope_pattern_matches scope_exists touch_token token_by_hash
    as_str get_secret_as find_secret matching is_recipient list_secrets list_public_keys
fetches = refl

fetch_secret-MayOpen_example :
    (token : String) × (subject : String) × (some "bearer" ≡ some token)
    × Bears server tables now secret token subject
    × Granted tables subject "repo" "*" (satisfying_capabilities secret)
    × Matches tables "repo" "db" none password
    × MayOpen tables "repo" subject password
    × ((fetch_secret server (some "bearer") "repo" "db" none now tables).1.events
        ≡ (add_event "repo" "secret.read" (secret_event subject "db" password) now tables).events)
fetch_secret-MayOpen_example =
    fetch_secret-MayOpen server (some "bearer") "repo" "db" now none tables password fetches

parse_capability-as_str_example :
    (parse_capability (as_str secret) ≡ ok secret)
    × (parse_capability "secret" ≡ ok secret → as_str secret ≡ "secret")
parse_capability-as_str_example = parse_capability-as_str secret "secret"

abbrev request : IssueTokenRequest
request = record {
  label = "agent";
  capabilities = "snap-sync" ∷ ("publish" ∷ []);
  expires_in_days = none;
}

abbrev minted : Minted
minted = record { token = "fresh-token-0001"; expiry = λ days. "2026-09-30T00:00:00Z" }

abbrev agent : TokenRecord
agent = record {
  token_id = "fresh-token-";
  subject = "ana";
  label = "agent";
  issued_at = now;
  issued_by = "ana";
  repo_id = "repo";
  expires_at = "2026-09-30T00:00:00Z";
  last_used_at = "";
  revoked_at = "";
  revoked_by = "";
  revoked_reason = "";
  capabilities = "snap-sync" ∷ ("publish" ∷ []);
}

abbrev revoked : TokenRecord
revoked = record stored { revoked_at = now; revoked_by = "ana"; revoked_reason = "lost" }

revokes : (revoke server (some "root") "repo" "b1" "lost" now tables).0 ≡ ok revoked
unfolding revoke revoke_token authorize_repo authorize_scoped caller permits authorize
    satisfying_capabilities has_grant scope_pattern_matches scope_exists as_str
revokes = refl

dated : ◌≢◌ {A = String} now ""
dated h = cc

unlisted : lookup "bearer" server.tokens ≡ none
unlisted = refl

found : token_by_hash tables "bearer" ≡ some stored
unfolding token_by_hash
found = refl

revoke-locks_out_example :
    caller server
      (some "bearer")
      "later"
      (revoke server (some "root") "repo" "b1" "lost" now tables).1
    ≡ (refuse unauthorized, (revoke server (some "root") "repo" "b1" "lost" now tables).1)
revoke-locks_out_example =
    revoke-locks_out server (some "root") "repo" "b1" "lost" now tables revoked revokes dated
      "bearer" "later" stored unlisted found refl

abbrev removal : MemberRemoved
removal = record { subject = "ben"; grants_removed = 1; still_sealed = sealed ∷ [] }
  where
    sealed : SecretSummary
    sealed = record {
      name = "db";
      owner = "ana";
      recipients = "k1" ∷ [];
      version = 3;
      value_version = 2;
      value_updated_at = "2026-07-01T00:00:00Z";
      updated_at = "2026-07-01T00:00:00Z";
      updated_by = "ana";
    }

removes : (remove_member server (some "root") "repo" "ben" now tables).0 ≡ ok removal
unfolding remove_member check_removal remove_grants still_sealed_to list_grants list_secrets
    list_public_keys summarize_secret authorize_repo authorize_scoped caller permits authorize
    satisfying_capabilities has_grant scope_pattern_matches scope_exists as_str
removes = refl

remove_member-Decides_example :
    Decides "repo" "ben" tables (remove_member server (some "root") "repo" "ben" now tables).1
    × ((by : String) × (by ≢ "ben")
        × Granted tables by "repo" "*" (satisfying_capabilities admin)
        × Granted
            (remove_member server (some "root") "repo" "ben" now tables).1
            by
            "repo"
            "*"
            (satisfying_capabilities admin))
remove_member-Decides_example =
    remove_member-Decides server (some "root") "repo" "ben" now tables removal removes
