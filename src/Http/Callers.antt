-- ===== src/Http/Callers.antt =====
-- Who a request is: what an authorization that passes says of the bearer token.
use convergence.Prelude.{
  String, ◌≡◌, refl, sym, ap, ◌∙◌, subst, ◌⊎◌, inl, inr, true, false, Option, none, some, List, [],
  ◌∷◌, lookup, ◌==◌, eq_iff, arith, Bool-cases, if◌then◌else◌, opt_eq,
}
use convergence.Records.{TokenRecord}
use convergence.Meta.{Meta, scope_exists}
use convergence.Meta.Accounts.{token_by_hash, touch_token}
use convergence.Authz.{
  Capability, AuthzContext, Authorized, authorized, denied, unknown_scope, authorize, granted_by,
  has_grant, satisfying_capabilities, as_str,
}
use convergence.Authz.Decision.{authorize-authorized_iff}
use convergence.Engine.{◌>>>◌, Answer, ok, refuse, unauthorized, forbidden}
use convergence.Engine.Answers.{>>>-ok}
use convergence.Http.{
  AppState, Caller, permits, at_most, is_revoked, is_expired, subject_of, caller_with, caller,
  context_of, authorized_as, authorize_scoped, day, scope_of,
}

-- The bearer token is one of the startup tokens of the subject, or a stored one of theirs that is
-- neither revoked nor expired and carries the capability.
pub data Bears (state : AppState) (m : Meta) (now : String) (capability : Capability)
    (token subject : String) : Type 0 where
  by_startup : lookup token state.tokens ≡ some subject → Bears state m now capability token subject
  by_record :
      (t : TokenRecord)
      → token_by_hash m (state.token_hash token) ≡ some t
      → t.subject ≡ subject
      → t.revoked_at ≡ ""
      → (t.expires_at ≡ "") ⊎ (at_most t.expires_at now ≡ false)
      → permits (record { subject = subject; scope = t.capabilities }) capability ≡ true
      → Bears state m now capability token subject

pub context_of-ok :
    (a : Authorized) (ctx : AuthzContext) → context_of a ≡ ok ctx → a ≡ authorized ctx
context_of-ok (authorized c) ctx h = ground arith
context_of-ok denied ctx h = cc
context_of-ok unknown_scope ctx h = cc

-- A token's last use is no part of a decision.
granted_by-touch_token :
    (hash now subject repo scope : String) (cs : List Capability) (m : Meta)
    → granted_by (touch_token hash now m) subject repo scope cs ≡ granted_by m subject repo scope cs
unfolding touch_token has_grant
granted_by-touch_token hash now subject repo scope [] m = refl
granted_by-touch_token hash now subject repo scope (c ∷ cs) m =
    ap (λ later. if has_grant m subject repo scope (as_str c) then true else later)
      (granted_by-touch_token hash now subject repo scope cs m)

pub authorize-touch_token :
    (hash now subject repo scope : String) (capability : Capability) (m : Meta)
    → authorize (touch_token hash now m) subject repo scope capability
      ≡ authorize m subject repo scope capability
unfolding authorize touch_token scope_exists
authorize-touch_token hash now subject repo scope capability m =
    rw (granted_by-touch_token hash now subject repo scope (satisfying_capabilities capability) m)
      refl

subject_of-ok :
    (hash now subject : String) (t : TokenRecord) (m : Meta)
    → (subject_of hash now (some t) m).0 ≡ ok subject
    → (t.subject ≡ subject)
      × (t.revoked_at ≡ "")
      × ((t.expires_at ≡ "") ⊎ (at_most t.expires_at now ≡ false))
      × (((subject_of hash now (some t) m).1 ≡ m)
          ⊎ ((subject_of hash now (some t) m).1 ≡ touch_token hash now m))
subject_of-ok hash now subject t m h = elim (Bool-cases (is_revoked t)) [
  | inl revoked ↦ absurd (refused (rw revoked refl) h)
  | inr live ↦ elim (Bool-cases (is_expired now t)) [
    | inl expired ↦ absurd (refused (rw (live, expired) refl) h)
    | inr fresh ↦ (
      ground (arith, live, fresh, h),
      ground (arith, live, eq_iff t.revoked_at ""),
      unexpired fresh,
      elim (Bool-cases (opt_eq (day t.last_used_at) (day now))) [
        | inl e ↦ inl (rw (live, fresh, e) refl)
        | inr e ↦ inr (rw (live, fresh, e) refl)
      ],
    )
  ]
]
  where
    refused :
        (subject_of hash now (some t) m).0 ≡ refuse unauthorized
        → (subject_of hash now (some t) m).0 ≡ ok subject
        → ⊥
    refused a b = cc

    unexpired : is_expired now t ≡ false → (t.expires_at ≡ "") ⊎ (at_most t.expires_at now ≡ false)
    unexpired e = elim (Bool-cases (t.expires_at == "")) [
      | inl empty ↦ inl ((eq_iff t.expires_at "").0 empty)
      | inr set ↦ inr (ground (arith, set, e))
    ]

-- What `caller` answers, and that it leaves the grants and the scopes as they were
record Known (state : AppState) (now token : String) (m : Meta) (c : Caller) (after : Meta)
    : Type 0 where
  bears :
      (capability : Capability)
      → permits c capability ≡ true
      → Bears state m now capability token c.subject
  untouched : (after ≡ m) ⊎ (after ≡ touch_token (state.token_hash token) now m)

>>>-tables :
    {A B : Type 0} (r : Answer A × Meta) (g : A → B) → (r >>> λ a m'. (ok (g a), m')).1 ≡ r.1
>>>-tables (ok a, m) g = refl
>>>-tables (refuse r, m) g = refl

module _ (state : AppState) (token now : String) (m : Meta) (c : Caller) where
  hash : String
  hash = state.token_hash token

  known_stored :
      (t : TokenRecord)
      → token_by_hash m hash ≡ some t
      → (subject : String) → (subject_of hash now (some t) m).0 ≡ ok subject
      → record { subject = subject; scope = t.capabilities } ≡ c
      → Known state now token m c (subject_of hash now (some t) m).1
  unfolding hash
  known_stored t found subject h same =
      let (owner, live, fresh, after) = subject_of-ok hash now subject t m h in
      record {
        bears = λ capability allowed.
            by_record t found (owner ∙ ap (λ d. d.subject) same) live fresh (
              subst (λ d. permits d capability ≡ true)
                (sym same
                  ∙ ap (λ s. record { subject = s; scope = t.capabilities })
                      (ap (λ d. d.subject) same))
                allowed);
        untouched = after;
      }

  known_unlisted :
      (found : Option TokenRecord)
      → token_by_hash m hash ≡ found
      → (subject : String) → (subject_of hash now found m).0 ≡ ok subject
      → record { subject = subject; scope = scope_of found } ≡ c
      → Known state now token m c (subject_of hash now found m).1
  known_unlisted none e subject h same = cc
  known_unlisted (some t) e subject h same = known_stored t e subject h same

  known_with :
      (found : Option String)
      → lookup token state.tokens ≡ found
      → (caller_with state token now found m).0 ≡ ok c
      → Known state now token m c (caller_with state token now found m).1
  unfolding hash
  known_with (some subject) e h = record {
    bears = λ capability allowed. by_startup (e ∙ ap some (owner h));
    untouched = inl refl;
  }
    where
      owner : (caller_with state token now (some subject) m).0 ≡ ok c → subject ≡ c.subject
      owner k = ground arith
  known_with none e h =
      let steps = subject_of hash now (token_by_hash m hash) m in
      let (subject, first, rest) =
        >>>-ok steps
          (λ who m'. (ok (record { subject = who; scope = scope_of (token_by_hash m hash) }), m')) c
          h in
      subst (Known state now token m c)
        (sym (
          >>>-tables steps
            (λ who. record { subject = who; scope = scope_of (token_by_hash m hash) })))
        (known_unlisted (token_by_hash m hash) refl subject first (ok_inj rest))
    where
      ok_inj : {a b : Caller} → ok a ≡ ok b → a ≡ b
      ok_inj k = ground arith

  known :
      (caller state (some token) now m).0 ≡ ok c
      → Known state now token m c (caller state (some token) now m).1
  unfolding caller
  known h = known_with (lookup token state.tokens) refl h

-- A request passes the authorization of a capability on a scope only if it has a bearer token that the
-- subject may use for that capability now, a startup token or a stored one that is neither revoked nor
-- expired and whose own scope permits it, and only if the subject's grants authorize it; the context is
-- that of the request.
pub authorize_scoped-Bears :
    (state : AppState) (bearer : Option String) (repo scope now : String) (capability : Capability)
    (m : Meta) (ctx : AuthzContext)
    → (authorize_scoped state bearer repo scope capability now m).0 ≡ ok ctx
    → (token : String) × (bearer ≡ some token)
      × Bears state m now capability token ctx.subject
      × (authorize m ctx.subject repo scope capability ≡ authorized ctx)
unfolding authorize_scoped
authorize_scoped-Bears state none repo scope now capability m ctx h = absurd (anonymous h)
  where
    anonymous : refuse unauthorized ≡ ok ctx → ⊥
    anonymous e = cc
authorize_scoped-Bears state (some token) repo scope now capability m ctx h =
    let (c, first, rest) =
      >>>-ok (caller state (some token) now m) (authorized_as repo scope capability) ctx h in
    let (allowed, given) = passed c (caller state (some token) now m).1 rest in
    let facts = known state token now m c first in
    let mine = decided c (caller state (some token) now m).1 facts.untouched given in
    let same =
      ap (λ x. x.subject)
        ((authorize-authorized_iff m c.subject repo scope capability ctx).0 mine).0 in
    (
      token,
      refl,
      subst (Bears state m now capability token) (sym same) (facts.bears capability allowed),
      subst (λ who. authorize m who repo scope capability ≡ authorized ctx) (sym same) mine,
    )
  where
    denied_answer : refuse forbidden ≡ ok ctx → ⊥
    denied_answer e = cc

    passed :
        (c : Caller) (m' : Meta)
        → (authorized_as repo scope capability c m').0 ≡ ok ctx
        → (permits c capability ≡ true)
          × (authorize m' c.subject repo scope capability ≡ authorized ctx)
    passed c m' k = elim (Bool-cases (permits c capability)) [
      | inl e ↦ (e, context_of-ok _ ctx (subst (λ r. r ≡ ok ctx) (rw e refl) k))
      | inr e ↦ absurd (denied_answer (subst (λ r. r ≡ ok ctx) (rw e refl) k))
    ]

    decided :
        (c : Caller) (m' : Meta)
        → (m' ≡ m) ⊎ (m' ≡ touch_token (state.token_hash token) now m)
        → authorize m' c.subject repo scope capability ≡ authorized ctx
        → authorize m c.subject repo scope capability ≡ authorized ctx
    decided c m' (inl e) k =
        subst (λ t. authorize t c.subject repo scope capability ≡ authorized ctx) e k
    decided c m' (inr e) k =
        sym (authorize-touch_token (state.token_hash token) now c.subject repo scope capability m)
        ∙ subst (λ t. authorize t c.subject repo scope capability ≡ authorized ctx) e k

-- Authorizing a request writes at most a token's last use.
pub authorize_scoped-tables :
    (state : AppState) (bearer : Option String) (repo scope now : String) (capability : Capability)
    (m : Meta)
    → ((authorize_scoped state bearer repo scope capability now m).1 ≡ m)
      ⊎ ((hash : String) × ((authorize_scoped state bearer repo scope capability now m).1
            ≡ touch_token hash now m))
unfolding authorize_scoped caller
authorize_scoped-tables state none repo scope now capability m = inl refl
authorize_scoped-tables state (some token) repo scope now capability m =
    elim (looked (lookup token state.tokens)) [
      | inl e ↦ inl (passes _ ∙ e)
      | inr e ↦ inr (state.token_hash token, passes _ ∙ e)
    ]
  where
    read :
        (found : Option TokenRecord)
        → ((subject_of (state.token_hash token) now found m).1 ≡ m)
          ⊎ ((subject_of (state.token_hash token) now found m).1
              ≡ touch_token (state.token_hash token) now m)
    read none = inl refl
    read (some t) = elim (Bool-cases (is_revoked t)) [
      | inl e ↦ inl (rw e refl)
      | inr live ↦ elim (Bool-cases (is_expired now t)) [
        | inl e ↦ inl (rw (live, e) refl)
        | inr fresh ↦ elim (Bool-cases (opt_eq (day t.last_used_at) (day now))) [
          | inl e ↦ inl (rw (live, fresh, e) refl)
          | inr e ↦ inr (rw (live, fresh, e) refl)
        ]
      ]
    ]

    looked :
        (found : Option String)
        → ((caller_with state token now found m).1 ≡ m)
          ⊎ ((caller_with state token now found m).1 ≡ touch_token (state.token_hash token) now m)
    looked (some subject) = inl refl
    looked none = elim (read (token_by_hash m (state.token_hash token))) [
      | inl e ↦ inl (>>>-tables _ _ ∙ e)
      | inr e ↦ inr (>>>-tables _ _ ∙ e)
    ]

    passes : (r : Answer Caller × Meta) → (r >>> authorized_as repo scope capability).1 ≡ r.1
    passes (refuse r, m') = refl
    passes (ok c, m') = elim (Bool-cases (permits c capability)) [
      | inl e ↦ rw e refl
      | inr e ↦ rw e refl
    ]

-- What holds of the tables behind the authorization holds of those before it, if a token's last use
-- does not matter to it.
pub authorize_scoped-before :
    (state : AppState) (bearer : Option String) (repo scope now : String) (capability : Capability)
    (m : Meta) (P : Meta → Type 0)
    → ((hash : String) → P (touch_token hash now m) → P m)
    → P (authorize_scoped state bearer repo scope capability now m).1
    → P m
authorize_scoped-before state bearer repo scope now capability m P blind p =
    elim (authorize_scoped-tables state bearer repo scope now capability m) [
      | inl e ↦ subst P e p
      | inr (hash, e) ↦ blind hash (subst P e p)
    ]
