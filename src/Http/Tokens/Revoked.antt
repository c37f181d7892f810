-- ===== src/Http/Tokens/Revoked.antt =====
-- A revoked token authenticates no request.
use convergence.Prelude.{
  String, ◌≡◌, ◌≢◌, refl, sym, ap, subst, ◌∙◌, inl, inr, Bool, true, false, Option, none, some,
  List, [], ◌∷◌, map, any, find, lookup, ◌==◌, eq_iff, arith, Bool-cases, if◌then◌else◌,
}
use convergence.Records.{TokenRecord}
use convergence.Meta.{Meta, add_event}
use convergence.Meta.Accounts.{
  token_row, token_by_hash, is_live, revoke_row, revoke_token, touch_token,
}
use convergence.Authz.{AuthzContext, admin}
use convergence.Engine.{Answer, ok, refuse, unauthorized, not_found}
use convergence.Engine.Answers.{>>>-ok, >>>-after}
use convergence.Http.{AppState, is_revoked, caller, authorize_scoped, authorize_repo}
use convergence.Http.Callers.{authorize_scoped-tables}
use convergence.Http.Tokens.{revoked_with, revoke}

find-revoke_row :
    (id at by reason hash : String) (rows : List (String × TokenRecord)) (t : TokenRecord)
    → token_row (find (λ (row : String × TokenRecord). row.0 == hash) rows) ≡ some t
    → token_row (
        find
          (λ (row : String × TokenRecord). row.0 == hash)
          (map (revoke_row id at by reason) rows))
      ≡ some (revoke_row id at by reason (hash, t)).1
find-revoke_row id at by reason hash [] t h = cc
find-revoke_row id at by reason hash ((key, u) ∷ rows) t h =
    let later = find-revoke_row id at by reason hash rows t in
    elim (Bool-cases (key == hash)) [
      | inl e ↦ rw e (ap some (ap (λ x. (revoke_row id at by reason (hash, x)).1) (same e)))
      | inr e ↦ rw e (later (ground (arith, e, h)))
    ]
  where
    same : key == hash ≡ true → u ≡ t
    same e = ground (arith, e, h)

revoked_row :
    (id at by reason hash : String) (t : TokenRecord)
    → at ≢ ""
    → t.token_id ≡ id
    → is_revoked (revoke_row id at by reason (hash, t)).1 ≡ true
revoked_row id at by reason hash t dated same =
    ground (arith, eq_iff t.token_id id, eq_iff at "", dated, same)

-- A bearer token whose stored record is revoked
refused_revoked :
    (state : AppState) (token now : String) (m : Meta) (t : TokenRecord)
    → lookup token state.tokens ≡ none
    → token_by_hash m (state.token_hash token) ≡ some t
    → is_revoked t ≡ true
    → caller state (some token) now m ≡ (refuse unauthorized, m)
unfolding caller
refused_revoked state token now m t unlisted found revoked = rw (unlisted, found, revoked) refl

-- The stored record of a bearer token with the short id
HasId : Meta → String → String → Type 0
HasId m hash id = (t : TokenRecord) × (token_by_hash m hash ≡ some t) × (t.token_id ≡ id)

find-touch :
    (touched now hash id : String) (rows : List (String × TokenRecord)) (t : TokenRecord)
    → token_row (find (λ (row : String × TokenRecord). row.0 == hash) rows) ≡ some t
    → t.token_id ≡ id
    → (u : TokenRecord) × (token_row (
          find
            (λ (row : String × TokenRecord). row.0 == hash)
            (map
              (λ (row : String × TokenRecord).
                (row.0, if row.0 == touched then record row.1 { last_used_at = now } else row.1))
              rows))
        ≡ some u)
      × (u.token_id ≡ id)
find-touch touched now hash id [] t h same = cc
find-touch touched now hash id ((key, v) ∷ rows) t h same =
    let later = find-touch touched now hash id rows t in
    elim (Bool-cases (key == hash)) [
      | inl e ↦ (
        (if key == touched then record v { last_used_at = now } else v),
        rw e refl,
        kept (key == touched) (ground (arith, e, h)),
      )
      | inr e ↦ let (u, found, named) = later (ground (arith, e, h)) same in (u, rw e found, named)
    ]
  where
    kept : (b : Bool) → v ≡ t → (if b then record v { last_used_at = now } else v).token_id ≡ id
    kept true e = ap (λ x. x.token_id) e ∙ same
    kept false e = ap (λ x. x.token_id) e ∙ same

touch-HasId :
    (touched now hash id : String) (m : Meta)
    → HasId m hash id
    → HasId (touch_token touched now m) hash id
unfolding HasId token_by_hash touch_token
touch-HasId touched now hash id m (t, found, same) =
    find-touch touched now hash id m.tokens t found same

-- A revocation that is answered with a record has revoked the rows.
revoked_rows :
    (repo id now by reason : String) (m : Meta) (answer : TokenRecord)
    → (revoked_with repo now (revoke_token id now by reason m)).0 ≡ ok answer
    → (revoked_with repo now (revoke_token id now by reason m)).1.tokens
      ≡ map (revoke_row id now by reason) m.tokens
unfolding revoke_token add_event
revoked_rows repo id now by reason m answer h =
    elim (Bool-cases (any (λ (row : String × TokenRecord). is_live id row.1) m.tokens)) [
      | inl e ↦
          rw e (some_row _ (subst (λ out. (revoked_with repo now out).0 ≡ ok answer) (taken e) h))
      | inr e ↦
          absurd (clash (subst (λ out. (revoked_with repo now out).0 ≡ ok answer) (left_out e) h))
    ]
  where
    revoked : Meta
    revoked = record m { tokens = map (revoke_row id now by reason) m.tokens }

    first : Option TokenRecord
    first = token_row (
        find (λ (row : String × TokenRecord). row.1.token_id == id)
          (map (revoke_row id now by reason) m.tokens))

    taken :
        any (λ (row : String × TokenRecord). is_live id row.1) m.tokens ≡ true
        → revoke_token id now by reason m ≡ (first, revoked)
    taken e = rw e refl

    left_out :
        any (λ (row : String × TokenRecord). is_live id row.1) m.tokens ≡ false
        → revoke_token id now by reason m ≡ (none, m)
    left_out e = rw e refl

    clash : refuse not_found ≡ ok answer → ⊥
    clash k = cc

    some_row :
        (o : Option TokenRecord)
        → (revoked_with repo now (o, revoked)).0 ≡ ok answer
        → (revoked_with repo now (o, revoked)).1.tokens ≡ revoked.tokens
    some_row none k = refl
    some_row (some r) k = refl

-- Revoking by a short id, when it is answered with a record, locks out every bearer token whose stored
-- record has the id, at any later time, unless it is a startup token: it authenticates no request.
pub revoke-locks_out :
    (state : AppState) (bearer : Option String) (repo id reason now : String) (m : Meta)
    (answer : TokenRecord)
    → (revoke state bearer repo id reason now m).0 ≡ ok answer
    → now ≢ ""
    → (token later : String) (t : TokenRecord) → lookup token state.tokens ≡ none
    → token_by_hash m (state.token_hash token) ≡ some t
    → t.token_id ≡ id
    → let after = (revoke state bearer repo id reason now m).1 in
      caller state (some token) later after ≡ (refuse unauthorized, after)
unfolding revoke authorize_repo HasId token_by_hash
revoke-locks_out state bearer repo id reason now m answer h dated token later t unlisted found
      same =
    let (ctx, passed, rest) = >>>-ok reached handle answer h in
    let (u, stored, named) = before in
    let rows = revoked_rows repo id now ctx.subject reason reached.1 answer rest in
    subst (λ out. caller state (some token) later out.1 ≡ (refuse unauthorized, out.1))
      (sym (>>>-after reached handle ctx passed))
      (refused_revoked state token later (handle ctx reached.1).1
        (revoke_row id now ctx.subject reason (state.token_hash token, u)).1 unlisted
        (ap
            (λ ts.
              token_row (find (λ (row : String × TokenRecord). row.0 == state.token_hash token) ts))
            rows
          ∙ find-revoke_row id now ctx.subject reason (state.token_hash token) reached.1.tokens u
              stored)
        (revoked_row id now ctx.subject reason (state.token_hash token) u dated named))
  where
    reached : Answer AuthzContext × Meta
    reached = authorize_scoped state bearer repo "*" admin now m

    handle : AuthzContext → Meta → Answer TokenRecord × Meta
    handle = λ ctx m'. revoked_with repo now (revoke_token id now ctx.subject reason m')

    before : HasId reached.1 (state.token_hash token) id
    before = elim (authorize_scoped-tables state bearer repo "*" now admin m) [
      | inl e ↦ subst (λ x. HasId x (state.token_hash token) id) (sym e) (t, found, same)
      | inr (hash, e) ↦
          subst (λ x. HasId x (state.token_hash token) id) (sym e)
            (touch-HasId hash now (state.token_hash token) id m (t, found, same))
    ]
