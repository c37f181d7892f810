-- ===== src/Http/Secrets/Rotation.antt =====
-- Writing a secret is guarded by its version.
use Prim.Native.Nat.{◌^◌}
use convergence.Prelude.{
  ℕ, ◌+◌, ◌%◌, ◌<◌, String, Bool, none, ◌≡◌, refl, sym, ap, subst, ◌∙◌, inl, inr, true, false, ◌&&◌,
  Option, some, List, [], ◌∷◌, ◌++◌, find, eqb, ◌==◌, eq_iff, eq_refl, if◌then◌else◌, arith,
  Bool-cases,
}
use convergence.Meta.{Meta, SecretRecord, add_event}
use convergence.Meta.Batch.{
  is_secret, version_of, without_secret, apply_op, apply_ops, apply_batch, committed,
  batch_conflict,
}
use convergence.Meta.Accounts.{secret_row, get_secret}
use convergence.Authz.{AuthzContext}
use convergence.Engine.{Answer, ok, refuse, conflicting}
use convergence.Http.Secrets.{
  SetSecretRequest, SecretSummary, summarize_secret, secret_record, secret_ops, secret_event,
  check_request, value_stamp, store_with, set_secret_as,
}

find-append :
    (repo owner name : String) (rows : List (String × SecretRecord)) (new : String × SecretRecord)
    → is_secret repo owner name new ≡ true
    → find (is_secret repo owner name) (without_secret repo owner name rows ++ (new ∷ []))
      ≡ some new
find-append repo owner name [] new h = ground (arith, h)
find-append repo owner name (row ∷ rows) new h =
    ground (arith, h, find-append repo owner name rows new h)

other_secret :
    (r o n r' o' n' : String) (row : String × SecretRecord)
    → (r == r' && o == o' && n == n') ≡ false
    → is_secret r o n row ≡ true
    → is_secret r' o' n' row ≡ false
other_secret r o n r' o' n' (repo, s) h k =
    (λ i. (own.0 i == r') && (own.1 i == o') && (own.2 i == n')) ∙ h
  where
    own : (repo ≡ r) × (s.owner ≡ o) × (s.name ≡ n)
    own = ground (arith, eq_iff repo r, eq_iff s.owner o, eq_iff s.name n)

find-append_other :
    (r o n r' o' n' : String) (rows : List (String × SecretRecord)) (new : String × SecretRecord)
    → (r == r' && o == o' && n == n') ≡ false
    → is_secret r o n new ≡ true
    → find (is_secret r' o' n') (without_secret r o n rows ++ (new ∷ []))
      ≡ find (is_secret r' o' n') rows
find-append_other r o n r' o' n' [] new h own =
    ground (arith, other_secret r o n r' o' n' new h own)
find-append_other r o n r' o' n' (row ∷ rows) new h own =
    ground
      (arith, other_secret r o n r' o' n' row h, find-append_other r o n r' o' n' rows new h own)

-- The tables after the batch of a write
abbrev pub written : String → String → SecretRecord → Meta → Meta
written repo subject s m =
    add_event repo "secret.changed" (secret_event subject s.name s) s.updated_at
      (record m { secrets = without_secret repo s.owner s.name m.secrets ++ ((repo, s) ∷ []) })

ops-written :
    (repo subject name now : String) (request : SetSecretRequest) (previous : Option SecretRecord)
    (m : Meta)
    → let s = secret_record subject name request previous now in
      apply_batch (secret_ops repo subject name request.expected_version s) m ≡ (
        if eqb (version_of (find (is_secret repo subject name) m.secrets)) request.expected_version
        then (written repo subject s m, committed)
        else (m, batch_conflict))
unfolding apply_batch apply_ops apply_op secret_ops secret_record
ops-written repo subject name now request previous m = ground arith

-- The answer of a write whose request is in order
abbrev pub after_write : AuthzContext → String → SetSecretRequest → String → Meta → SecretRecord
after_write ctx name request now m =
    secret_record ctx.subject name request (get_secret m ctx.repo_id ctx.subject name) now

abbrev pub stored_version : Meta → String → String → String → ℕ
stored_version m repo owner name = version_of (find (is_secret repo owner name) m.secrets)

set_secret_as-guarded :
    (ctx : AuthzContext) (name : String) (request : SetSecretRequest) (now : String) (m : Meta)
    → check_request name request ≡ ok tt
    → set_secret_as ctx name request now m ≡ (
        if eqb (stored_version m ctx.repo_id ctx.subject name) request.expected_version
        then (
          ok (summarize_secret (after_write ctx name request now m)),
          written ctx.repo_id ctx.subject (after_write ctx name request now m) m,
        )
        else (refuse conflicting, m))
unfolding set_secret_as
set_secret_as-guarded ctx name request now m valid = rw valid (
    ground (
      arith,
      ops-written ctx.repo_id ctx.subject name now request
          (get_secret m ctx.repo_id ctx.subject name) m,
    ))

valid_of_ok :
    (ctx : AuthzContext) (name : String) (request : SetSecretRequest) (now : String) (m : Meta)
    (summary : SecretSummary)
    → (set_secret_as ctx name request now m).0 ≡ ok summary
    → check_request name request ≡ ok tt
unfolding set_secret_as
valid_of_ok ctx name request now m summary h = through (check_request name request) refl h
  where
    through :
        (a : Answer Unit)
        → check_request name request ≡ a
        → (store_with a ctx name request now m).0 ≡ ok summary
        → check_request name request ≡ ok tt
    through (ok tt) e k = e
    through (refuse r) e k = cc

-- The outcomes of a write whose request is in order
write-hit :
    (ctx : AuthzContext) (name : String) (request : SetSecretRequest) (now : String) (m : Meta)
    → check_request name request ≡ ok tt
    → stored_version m ctx.repo_id ctx.subject name ≡ request.expected_version
    → set_secret_as ctx name request now m ≡ (
      ok (summarize_secret (after_write ctx name request now m)),
      written ctx.repo_id ctx.subject (after_write ctx name request now m) m,
    )
write-hit ctx name request now m valid same =
    set_secret_as-guarded ctx name request now m valid ∙ rw (hit same) refl
  where
    hit :
        stored_version m ctx.repo_id ctx.subject name ≡ request.expected_version
        → eqb (stored_version m ctx.repo_id ctx.subject name) request.expected_version ≡ true
    hit e = ground (arith, e)

write-miss :
    (ctx : AuthzContext) (name : String) (request : SetSecretRequest) (now : String) (m : Meta)
    → check_request name request ≡ ok tt
    → eqb (stored_version m ctx.repo_id ctx.subject name) request.expected_version ≡ false
    → set_secret_as ctx name request now m ≡ (refuse conflicting, m)
write-miss ctx name request now m valid e =
    set_secret_as-guarded ctx name request now m valid ∙ rw e refl

get-written :
    (ctx : AuthzContext) (name : String) (request : SetSecretRequest) (now : String) (m : Meta)
    → find
        (is_secret ctx.repo_id ctx.subject name)
        (written ctx.repo_id ctx.subject (after_write ctx name request now m) m).secrets
      ≡ some (ctx.repo_id, after_write ctx name request now m)
unfolding add_event secret_record
get-written ctx name request now m =
    find-append ctx.repo_id ctx.subject name m.secrets
      (ctx.repo_id, after_write ctx name request now m)
      (ground (arith, eq_refl ctx.repo_id, eq_refl ctx.subject, eq_refl name))

get-written_other :
    (ctx : AuthzContext) (name : String) (request : SetSecretRequest) (now : String) (m : Meta)
    (r o n : String)
    → (ctx.repo_id == r && ctx.subject == o && name == n) ≡ false
    → get_secret (written ctx.repo_id ctx.subject (after_write ctx name request now m) m) r o n
      ≡ get_secret m r o n
unfolding add_event secret_record get_secret
get-written_other ctx name request now m r o n differs = ap secret_row (
    find-append_other ctx.repo_id ctx.subject name r o n m.secrets
      (ctx.repo_id, after_write ctx name request now m) differs
      (ground (arith, eq_refl ctx.repo_id, eq_refl ctx.subject, eq_refl name)))

-- A record that carries a request: its ciphertext and recipients under the caller's name, one version up
-- as a u64 counts. The value's stamp is that of the record before, one up and of now if the value changed;
-- without a record before it is the first.
pub record Carries (subject name : String) (request : SetSecretRequest) (now : String)
    (previous : Option SecretRecord) (s : SecretRecord) : Type 0 where
  pub owner : s.owner ≡ subject
  pub name_of : s.name ≡ name
  pub ciphertext : s.ciphertext ≡ request.ciphertext
  pub recipients : s.recipients ≡ request.recipients
  pub version : s.version ≡ (request.expected_version + 1) % (2 ^ 64)
  pub updated : (s.updated_at ≡ now) × (s.updated_by ≡ subject)
  pub changed :
      (old : SecretRecord)
      → previous ≡ some old
      → request.value_changed ≡ true
      → (s.value_version ≡ (old.value_version + 1) % (2 ^ 64)) × (s.value_updated_at ≡ now)
  pub unchanged :
      (old : SecretRecord)
      → previous ≡ some old
      → request.value_changed ≡ false
      → (s.value_version ≡ old.value_version) × (s.value_updated_at ≡ old.value_updated_at)
  pub first : previous ≡ none → (s.value_version ≡ 1) × (s.value_updated_at ≡ now)

secret_record-Carries :
    (subject name : String) (request : SetSecretRequest) (now : String)
    (previous : Option SecretRecord)
    → Carries subject name request now previous (secret_record subject name request previous now)
unfolding secret_record value_stamp
secret_record-Carries subject name request now previous = record {
  owner = refl;
  name_of = refl;
  ciphertext = refl;
  recipients = refl;
  version = refl;
  updated = (refl, refl);
  changed = λ old e h. rw (e, h) (refl, refl);
  unchanged = λ old e h. rw (e, h) (refl, refl);
  first = λ e. subst First (sym e) (fresh request.value_changed);
}
  where
    First : Option SecretRecord → Type 0
    First = λ o.
        ((value_stamp o request.value_changed now).0 ≡ 1)
        × ((value_stamp o request.value_changed now).1 ≡ now)

    fresh : (b : Bool) → ((value_stamp none b now).0 ≡ 1) × ((value_stamp none b now).1 ≡ now)
    fresh true = (refl, refl)
    fresh false = (refl, refl)

-- What a write that is answered with a summary did
pub record Rotates (ctx : AuthzContext) (name : String) (request : SetSecretRequest) (now : String)
    (m after : Meta) (summary : SecretSummary) : Type 0 where
  pub valid : check_request name request ≡ ok tt
  pub current : stored_version m ctx.repo_id ctx.subject name ≡ request.expected_version
  pub held : SecretRecord
  pub carries :
      Carries ctx.subject name request now (get_secret m ctx.repo_id ctx.subject name) held
  pub reports : summary ≡ summarize_secret held
  pub keeps : get_secret after ctx.repo_id ctx.subject name ≡ some held
  pub leaves :
      (r o n : String)
      → (ctx.repo_id == r && ctx.subject == o && name == n) ≡ false
      → get_secret after r o n ≡ get_secret m r o n

-- A write of a secret is answered with a summary only if the request is in order and names the version
-- that is stored (0 for none); then the tables hold a record with the request's ciphertext and
-- recipients, one version up, its value's stamp moved on only if the value changed, the summary is that of the
-- record, and every other secret of every repo and owner is as it was.
pub set_secret_as-Rotates :
    (ctx : AuthzContext) (name : String) (request : SetSecretRequest) (now : String) (m : Meta)
    (summary : SecretSummary)
    → (set_secret_as ctx name request now m).0 ≡ ok summary
    → Rotates ctx name request now m (set_secret_as ctx name request now m).1 summary
unfolding get_secret
set_secret_as-Rotates ctx name request now m summary h =
    elim (Bool-cases
      (eqb (stored_version m ctx.repo_id ctx.subject name) request.expected_version)) [
        | inl e ↦
            let hit = write-hit ctx name request now m valid (ground (arith, e)) in
            record {
              valid = valid;
              current = ground (arith, e);
              held = after_write ctx name request now m;
              carries =
                  secret_record-Carries ctx.subject name request now
                    (get_secret m ctx.repo_id ctx.subject name);
              reports = ok_inj (sym h ∙ ap (λ out. out.0) hit);
              keeps =
                  subst
                    (λ out.
                      get_secret out.1 ctx.repo_id ctx.subject name
                      ≡ some (after_write ctx name request now m))
                    (sym hit) (ap secret_row (get-written ctx name request now m));
              leaves = λ r o n differs.
                  subst (λ out. get_secret out.1 r o n ≡ get_secret m r o n) (sym hit)
                    (get-written_other ctx name request now m r o n differs);
            }
        | inr e ↦
            absurd (clash (sym h ∙ ap (λ out. out.0) (write-miss ctx name request now m valid e)))
      ]
  where
    valid : check_request name request ≡ ok tt
    valid = valid_of_ok ctx name request now m summary h

    ok_inj : {a b : SecretSummary} → ok a ≡ ok b → a ≡ b
    ok_inj k = ground arith

    clash : ok summary ≡ refuse conflicting → ⊥
    clash k = cc

-- Of two writes of one secret that expect the same version, the second is refused as a conflict and
-- changes nothing, whatever the two carry: a concurrent rotation is not lost. A version is below 2^64.
pub set_secret_as-race :
    (ctx : AuthzContext) (name : String) (first second : SetSecretRequest) (t1 t2 : String)
    (m : Meta) (summary : SecretSummary)
    → (set_secret_as ctx name first t1 m).0 ≡ ok summary
    → check_request name second ≡ ok tt
    → second.expected_version ≡ first.expected_version
    → first.expected_version < 2 ^ 64
    → let after = (set_secret_as ctx name first t1 m).1 in
      set_secret_as ctx name second t2 after ≡ (refuse conflicting, after)
unfolding secret_record
set_secret_as-race ctx name first second t1 t2 m summary h valid same bound =
    let done = set_secret_as-Rotates ctx name first t1 m summary h in
    let hit = write-hit ctx name first t1 m done.valid done.current in
    subst (λ out. set_secret_as ctx name second t2 out.1 ≡ (refuse conflicting, out.1)) (sym hit)
      (write-miss ctx name second t2 _ valid moved)
  where
    moved :
        eqb
          (stored_version
            (written ctx.repo_id ctx.subject (after_write ctx name first t1 m) m)
            ctx.repo_id
            ctx.subject
            name)
          second.expected_version
        ≡ false
    moved = ground (arith, get-written ctx name first t1 m, same, bound)
