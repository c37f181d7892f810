-- ===== src/Meta/Accounts.antt =====
-- Users, grants, tokens, keys and secrets: their statements in crates/converge-server/src/meta_sqlite.rs.
-- `ORDER BY` is a sort of the rows by the columns that the query names.
pub mod Ordered
use convergence.Prelude.{
  ℕ, suc, String, Bool, true, false, not, ◌&&◌, ◌||◌, Option, none, some, List, [], ◌∷◌, ◌++◌, map,
  any, keep, find, length, contains, compare, Ordering, ◌==◌, if◌then◌else◌,
}
use convergence.Records.{TokenRecord, PublicKeyRecord}
use convergence.Meta.{Meta, Grant, SecretRecord}
use convergence.Meta.Batch.{is_secret, without_secret}

-- Rows compared by a list of columns, the first that differs deciding
abbrev pub columns_before : List String → List String → Bool
columns_before [] _ = true
columns_before (a ∷ more) [] = false
columns_before (a ∷ more) (b ∷ bs) =
    let later = columns_before more bs in
    elim (compare a b) [ Ordering.lt ↦ true | Ordering.eq ↦ later | Ordering.gt ↦ false ]

abbrev pub place_row : {A : Type 0} → (A → List String) → A → List A → List A
place_row columns a [] = a ∷ []
place_row columns a (x ∷ xs) =
    let rest = place_row columns a xs in
    if columns_before (columns a) (columns x) then a ∷ x ∷ xs else x ∷ rest

abbrev pub order_by : {A : Type 0} → (A → List String) → List A → List A
order_by columns [] = []
order_by columns (x ∷ xs) = place_row columns x (order_by columns xs)

unfoldable pub upsert_user : String → Meta → Meta
upsert_user handle m =
    if contains m.users handle then m else record m { users = m.users ++ (handle ∷ []) }

abbrev pub same_grant : Grant → Grant → Bool
same_grant a b =
    a.subject == b.subject
    && a.repo_id == b.repo_id
    && a.scope_pattern == b.scope_pattern
    && a.capability == b.capability

-- `INSERT OR IGNORE`: the four columns are the key.
unfoldable pub add_grant : Grant → Meta → Meta
add_grant g m =
    if any (same_grant g) m.grants then m else record m { grants = m.grants ++ (g ∷ []) }

abbrev pub grant_columns : Grant → List String
grant_columns g = g.subject ∷ (g.capability ∷ (g.scope_pattern ∷ []))

unfoldable pub list_grants : Meta → String → List Grant
list_grants m repo = order_by grant_columns (keep (λ g. g.repo_id == repo) m.grants)

abbrev pub granted_to : String → String → Grant → Bool
granted_to repo subject g = g.repo_id == repo && g.subject == subject

unfoldable pub remove_grants : String → String → Meta → ℕ × Meta
remove_grants repo subject m = (
  length (keep (granted_to repo subject) m.grants),
  record m { grants = keep (λ g. not (granted_to repo subject g)) m.grants },
)

-- `INSERT OR REPLACE` under the key `token_hash`; the columns that a new token has not got are ''.
abbrev pub fresh_token : TokenRecord → TokenRecord
fresh_token t = record t {
  last_used_at = "";
  revoked_at = "";
  revoked_by = "";
  revoked_reason = "";
}

unfoldable pub create_token_record : String → TokenRecord → Meta → Meta
create_token_record hash t m = record m {
  tokens =
      keep (λ (row : String × TokenRecord). not (row.0 == hash)) m.tokens
      ++ ((hash, fresh_token t) ∷ []);
}

abbrev pub token_row : Option (String × TokenRecord) → Option TokenRecord
token_row none = none
token_row (some (hash, t)) = some t

unfoldable pub token_by_hash : Meta → String → Option TokenRecord
token_by_hash m hash = token_row (find (λ (row : String × TokenRecord). row.0 == hash) m.tokens)

unfoldable pub list_tokens : Meta → String → List TokenRecord
list_tokens m repo =
    order_by (λ t. t.subject ∷ (t.issued_at ∷ []))
      (keep (λ t. t.repo_id == repo) (map (λ (row : String × TokenRecord). row.1) m.tokens))

abbrev pub is_live : String → TokenRecord → Bool
is_live id t = t.token_id == id && t.revoked_at == ""

abbrev pub revoke_row :
    String → String → String → String → (String × TokenRecord) → String × TokenRecord
revoke_row id at by reason (hash, t) = (
  hash,
  if is_live id t
      then record t { revoked_at = at; revoked_by = by; revoked_reason = reason }
      else t,
)

-- `revoke_token`: every live row with the id is revoked, and the first row with the id is the answer.
unfoldable pub revoke_token : String → String → String → String → Meta → Option TokenRecord × Meta
revoke_token id at by reason m =
    if any (λ (row : String × TokenRecord). is_live id row.1) m.tokens
    then (
      token_row (
          find (λ (row : String × TokenRecord). row.1.token_id == id)
            (map (revoke_row id at by reason) m.tokens)),
      record m { tokens = map (revoke_row id at by reason) m.tokens },
    )
    else (none, m)

unfoldable pub touch_token : String → String → Meta → Meta
touch_token hash at m = record m {
  tokens =
      map
        (λ (row : String × TokenRecord).
          (row.0, if row.0 == hash then record row.1 { last_used_at = at } else row.1))
        m.tokens;
}

unfoldable pub add_public_key : String → PublicKeyRecord → Meta → Meta
add_public_key repo key m = record m {
  public_keys =
      keep (λ (row : String × PublicKeyRecord). not (row.0 == repo && row.1.key_id == key.key_id))
        m.public_keys
      ++ ((repo, key) ∷ []);
}

unfoldable pub list_public_keys : Meta → String → List PublicKeyRecord
list_public_keys m repo =
    order_by (λ k. k.subject ∷ (k.created_at ∷ (k.key_id ∷ [])))
      (map (λ (row : String × PublicKeyRecord). row.1)
        (keep (λ (row : String × PublicKeyRecord). row.0 == repo) m.public_keys))

abbrev pub secret_row : Option (String × SecretRecord) → Option SecretRecord
secret_row none = none
secret_row (some (repo, s)) = some s

-- `get_secret_conn`
unfoldable pub get_secret : Meta → String → String → String → Option SecretRecord
get_secret m repo owner name = secret_row (find (is_secret repo owner name) m.secrets)

unfoldable pub list_secrets : Meta → String → List SecretRecord
list_secrets m repo =
    order_by (λ s. s.owner ∷ (s.name ∷ []))
      (map (λ (row : String × SecretRecord). row.1)
        (keep (λ (row : String × SecretRecord). row.0 == repo) m.secrets))

unfoldable pub delete_secret : String → String → String → Meta → Meta
delete_secret repo owner name m = record m { secrets = without_secret repo owner name m.secrets }
