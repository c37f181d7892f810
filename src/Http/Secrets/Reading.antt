-- ===== src/Http/Secrets/Reading.antt =====
-- Who may read a secret.
use convergence.Prelude.{
  String, ◌≡◌, refl, ap, subst, ◌∙◌, ◌⊎◌, inl, inr, true, false, Option, none, some, List, [], ◌∷◌,
  In, here, In-of_find, In-of_any, any, keep, find, ◌==◌, eq_iff, arith, Bool-cases,
}
use convergence.Records.{PublicKeyRecord}
use convergence.Meta.{Meta, SecretRecord, add_event}
use convergence.Meta.Accounts.{list_secrets, list_public_keys, touch_token}
use convergence.Meta.Accounts.Ordered.{In-order_by, In-keep, In-map_inv}
use convergence.Authz.{AuthzContext, secret, satisfying_capabilities}
use convergence.Authz.Decision.{Granted, authorize-authorized_iff}
use convergence.Http.Callers.{Bears, authorize_scoped-Bears, authorize_scoped-before}
use convergence.Engine.{Answer, ok, refuse, not_found}
use convergence.Engine.Answers.{>>>-ok, >>>-after}
use convergence.Http.{AppState, authorize_repo, authorize_scoped}
use convergence.Http.Secrets.{
  is_recipient, holds_key, owned_by, only_one, mine_or, matching, find_secret, read_found,
  secret_event, get_secret_as, fetch_secret,
}

-- The subject owns the secret, or has registered in the repo a key that it is sealed to.
pub MayOpen : Meta → String → String → SecretRecord → Type 0
MayOpen m repo subject s =
    (s.owner ≡ subject)
    ⊎ ((key : PublicKeyRecord) × In (repo, key) m.public_keys
        × (key.subject ≡ subject)
        × In key.key_id s.recipients)

-- The secret is a row of the repo with the name, and of the owner if the request named one.
pub Matches : Meta → String → String → Option String → SecretRecord → Type 0
Matches m repo name owner s = In (repo, s) m.secrets × (s.name ≡ name) × (owned_by owner s ≡ true)

In-list_secrets :
    (m : Meta) (repo : String) (s : SecretRecord)
    → In s (list_secrets m repo)
    → In (repo, s) m.secrets
unfolding list_secrets
In-list_secrets m repo s at =
    let ((r, t), kept, same) =
      In-map_inv (λ (row : String × SecretRecord). row.1) s _
        (In-order_by (λ x. x.owner ∷ (x.name ∷ [])) s _ at) in
    let (stored, of_repo) =
      In-keep (λ (row : String × SecretRecord). row.0 == repo) (r, t) m.secrets kept in
    subst (λ (row : String × SecretRecord). In row m.secrets)
      (λ i. ((eq_iff r repo).0 of_repo i, same i)) stored

In-list_public_keys :
    (m : Meta) (repo : String) (k : PublicKeyRecord)
    → In k (list_public_keys m repo)
    → In (repo, k) m.public_keys
unfolding list_public_keys
In-list_public_keys m repo k at =
    let ((r, t), kept, same) =
      In-map_inv (λ (row : String × PublicKeyRecord). row.1) k _
        (In-order_by (λ x. x.subject ∷ (x.created_at ∷ (x.key_id ∷ []))) k _ at) in
    let (stored, of_repo) =
      In-keep (λ (row : String × PublicKeyRecord). row.0 == repo) (r, t) m.public_keys kept in
    subst (λ (row : String × PublicKeyRecord). In row m.public_keys)
      (λ i. ((eq_iff r repo).0 of_repo i, same i)) stored

In-matching :
    (m : Meta) (repo name : String) (owner : Option String) (s : SecretRecord)
    → In s (matching m repo name owner)
    → Matches m repo name owner s
unfolding matching Matches
In-matching m repo name owner s at =
    let (named, owned) = In-keep (owned_by owner) s _ at in
    let (listed, same) = In-keep (λ x. x.name == name) s _ named in
    (In-list_secrets m repo s listed, (eq_iff s.name name).0 same, owned)

only_one-In : (s : SecretRecord) (ss : List SecretRecord) → only_one ss ≡ ok s → In s ss
only_one-In s [] h = cc
only_one-In s (t ∷ []) h = subst (λ x. In x (t ∷ [])) (ok_inj h) here
  where
    ok_inj : ok t ≡ ok s → t ≡ s
    ok_inj k = ground arith
only_one-In s (t ∷ (u ∷ more)) h = cc

find_secret-Matches :
    (m : Meta) (repo name subject : String) (owner : Option String) (s : SecretRecord)
    → find_secret m repo name subject owner ≡ ok s
    → Matches m repo name owner s
unfolding find_secret
find_secret-Matches m repo name subject owner s h =
    chosen (find (λ x. x.owner == subject) (matching m repo name owner)) refl h
  where
    readable : List SecretRecord
    readable =
        keep (λ x. is_recipient x subject (list_public_keys m repo)) (matching m repo name owner)

    chosen :
        (mine : Option SecretRecord)
        → find (λ x. x.owner == subject) (matching m repo name owner) ≡ mine
        → mine_or mine readable ≡ ok s
        → Matches m repo name owner s
    chosen none e k =
        In-matching m repo name owner s
          (In-keep (λ x. is_recipient x subject (list_public_keys m repo)) s _
            (only_one-In s _ k)).0
    chosen (some t) e k =
        subst (Matches m repo name owner) (ok_inj k)
          (In-matching m repo name owner t (In-of_find (λ x. x.owner == subject) _ t e).0)
      where
        ok_inj : ok t ≡ ok s → t ≡ s
        ok_inj q = ground arith

is_recipient-MayOpen :
    (m : Meta) (repo subject : String) (s : SecretRecord)
    → is_recipient s subject (list_public_keys m repo) ≡ true
    → MayOpen m repo subject s
unfolding is_recipient MayOpen
is_recipient-MayOpen m repo subject s h = elim (Bool-cases (s.owner == subject)) [
  | inl own ↦ inl ((eq_iff s.owner subject).0 own)
  | inr other ↦
      let (id, sealed, held) =
        In-of_any (λ key_id. any (holds_key key_id subject) (list_public_keys m repo)) s.recipients
          (ground (arith, other)) in
      let (key, listed, e) = In-of_any (holds_key id subject) (list_public_keys m repo) held in
      inr (
        key,
        In-list_public_keys m repo key listed,
        ground (arith, eq_iff key.subject subject),
        subst (λ x. In x s.recipients) (ground (arith, eq_iff key.key_id id)) sealed,
      )
]

get_secret_as-MayOpen :
    (ctx : AuthzContext) (name now : String) (owner : Option String) (m : Meta) (s : SecretRecord)
    → (get_secret_as ctx name owner now m).0 ≡ ok s
    → Matches m ctx.repo_id name owner s
      × MayOpen m ctx.repo_id ctx.subject s
      × ((get_secret_as ctx name owner now m).1
          ≡ add_event ctx.repo_id "secret.read" (secret_event ctx.subject name s) now m)
unfolding get_secret_as
get_secret_as-MayOpen ctx name now owner m s h =
    found (find_secret m ctx.repo_id name ctx.subject owner) refl h
  where
    found :
        (a : Answer SecretRecord)
        → find_secret m ctx.repo_id name ctx.subject owner ≡ a
        → (read_found ctx name now a m).0 ≡ ok s
        → Matches m ctx.repo_id name owner s
          × MayOpen m ctx.repo_id ctx.subject s
          × ((read_found ctx name now a m).1
              ≡ add_event ctx.repo_id "secret.read" (secret_event ctx.subject name s) now m)
    found (refuse r) e k = cc
    found (ok t) e k =
        elim (Bool-cases (is_recipient t ctx.subject (list_public_keys m ctx.repo_id))) [
          | inl mine ↦
              let same : t ≡ s =
                ok_inj
                  (subst (λ (out : Answer SecretRecord × Meta). out.0 ≡ ok s) (opened mine) k) in
              (
                subst (Matches m ctx.repo_id name owner) same
                    (find_secret-Matches m ctx.repo_id name ctx.subject owner t e),
                subst (MayOpen m ctx.repo_id ctx.subject) same
                    (is_recipient-MayOpen m ctx.repo_id ctx.subject t mine),
                ap (λ out. out.1) (opened mine)
                    ∙ ap
                        (λ x.
                          add_event ctx.repo_id "secret.read" (secret_event ctx.subject name x) now
                            m)
                        same,
              )
          | inr other ↦
              absurd (
                clash (subst (λ (out : Answer SecretRecord × Meta). out.0 ≡ ok s) (closed other) k))
        ]
      where
        ok_inj : ok t ≡ ok s → t ≡ s
        ok_inj q = ground arith

        clash : refuse not_found ≡ ok s → ⊥
        clash q = cc

        opened :
            is_recipient t ctx.subject (list_public_keys m ctx.repo_id) ≡ true
            → read_found ctx name now (ok t) m
              ≡ (ok t, add_event ctx.repo_id "secret.read" (secret_event ctx.subject name t) now m)
        opened q = rw q refl

        closed :
            is_recipient t ctx.subject (list_public_keys m ctx.repo_id) ≡ false
            → read_found ctx name now (ok t) m ≡ (refuse not_found, m)
        closed q = rw q refl

-- A ciphertext is handed out only to a subject that a live bearer token with the capability stands for,
-- that is granted the capability on the repo, and that owns the secret or has registered a key the
-- secret is sealed to, an admin of the repo too. The secret is one of the repo with the name asked
-- for, and of the owner asked for if one was; and the log has one event more, which names who read which version.
pub fetch_secret-MayOpen :
    (state : AppState) (bearer : Option String) (repo name now : String) (owner : Option String)
    (m : Meta) (s : SecretRecord)
    → (fetch_secret state bearer repo name owner now m).0 ≡ ok s
    → (token : String) × (subject : String) × (bearer ≡ some token)
      × Bears state m now secret token subject
      × Granted m subject repo "*" (satisfying_capabilities secret)
      × Matches m repo name owner s
      × MayOpen m repo subject s
      × ((fetch_secret state bearer repo name owner now m).1.events
          ≡ (add_event repo "secret.read" (secret_event subject name s) now m).events)
unfolding fetch_secret authorize_repo Matches MayOpen touch_token add_event
fetch_secret-MayOpen state bearer repo name now owner m s h =
    let (ctx, passed, rest) = >>>-ok reached handle s h in
    let (token, from_header, bears, may) =
      authorize_scoped-Bears state bearer repo "*" now secret m ctx passed in
    let (same, granted, scope) =
      (authorize-authorized_iff m ctx.subject repo "*" secret ctx).0 may in
    let found = get_secret_as-MayOpen ctx name now owner reached.1 s rest in
    let own_repo : ctx.repo_id ≡ repo = ap (λ c. c.repo_id) same in
    let (matches, opens, log) = before ctx (
      subst (λ r. Seen r ctx.subject reached.1 (handle ctx reached.1).1) own_repo
        (found.0, found.1, ap (λ t. t.events) found.2)) in
    (
      token,
      ctx.subject,
      from_header,
      bears,
      granted,
      matches,
      opens,
      ap (λ out. out.1.events) (>>>-after reached handle ctx passed) ∙ log,
    )
  where
    reached : Answer AuthzContext × Meta
    reached = authorize_scoped state bearer repo "*" secret now m

    handle : AuthzContext → Meta → Answer SecretRecord × Meta
    handle = λ ctx m'. get_secret_as ctx name owner now m'

    Seen : String → String → Meta → Meta → Type 0
    Seen r subject t after =
        Matches t r name owner s
        × MayOpen t r subject s
        × (after.events ≡ (add_event r "secret.read" (secret_event subject name s) now t).events)

    before :
        (ctx : AuthzContext)
        → Seen repo ctx.subject reached.1 (handle ctx reached.1).1
        → Seen repo ctx.subject m (handle ctx reached.1).1
    before ctx =
        authorize_scoped-before state bearer repo "*" now secret m
          (λ t. Seen repo ctx.subject t (handle ctx reached.1).1) (λ hash p. p)
