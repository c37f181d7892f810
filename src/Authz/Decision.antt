-- ===== src/Authz/Decision.antt =====
-- Who is authorized.
use convergence.Prelude.{
  String, ◌≡◌, refl, ◌∙◌, sym, ◌↔◌, ◌⊎◌, Bool, true, ◌&&◌, List, [], ◌∷◌, any, keep, In, arith,
  eq_iff, In-of_any, any-In,
}
use convergence.Meta.{Meta, Grant, scope_exists}
use convergence.Authz.{
  Capability, AuthzContext, authorized, authorize, satisfying_capabilities, granted_by, has_grant,
  as_str, carries, scope_pattern_matches,
}

any-keep : (p q : Grant → Bool) (gs : List Grant) → any p (keep q gs) ≡ any (λ g. q g && p g) gs
any-keep p q [] = refl
any-keep p q (g ∷ gs) = ground (arith, any-keep p q gs)

-- The grant `g` gives `subject` the capability `c` on a scope of the repo.
pub Gives : Grant → String → String → String → Capability → Type 0
Gives g subject repo scope c =
    (g.subject ≡ subject)
    × (g.repo_id ≡ repo)
    × (g.capability ≡ as_str c)
    × (scope_pattern_matches g.scope_pattern scope ≡ true)

Gives-iff :
    (g : Grant) (subject repo scope : String) (c : Capability)
    → ((carries subject repo (as_str c) g && scope_pattern_matches g.scope_pattern scope) ≡ true)
      ↔ Gives g subject repo scope c
unfolding Gives
Gives-iff g subject repo scope c =
    ground (arith, eq_iff g.subject subject, eq_iff g.repo_id repo, eq_iff g.capability (as_str c))

has_grant_iff :
    (m : Meta) (subject repo scope : String) (c : Capability)
    → (has_grant m subject repo scope (as_str c) ≡ true)
      ↔ ((g : Grant) × In g m.grants × Gives g subject repo scope c)
unfolding has_grant
has_grant_iff m subject repo scope c = (
  λ h.
      let (g, at, e) = In-of_any test m.grants (sym kept ∙ h) in
      (g, at, (Gives-iff g subject repo scope c).0 e),
  λ w. kept ∙ any-In test w.1 ((Gives-iff w.0 subject repo scope c).1 w.2),
)
  where
    test : Grant → Bool
    test = λ g. carries subject repo (as_str c) g && scope_pattern_matches g.scope_pattern scope

    kept : has_grant m subject repo scope (as_str c) ≡ any test m.grants
    kept =
        any-keep (λ g. scope_pattern_matches g.scope_pattern scope)
          (carries subject repo (as_str c)) m.grants

granted_by-any :
    (m : Meta) (subject repo scope : String) (cs : List Capability)
    → granted_by m subject repo scope cs ≡ any (λ c. has_grant m subject repo scope (as_str c)) cs
granted_by-any m subject repo scope [] = refl
granted_by-any m subject repo scope (c ∷ cs) =
    ground (arith, granted_by-any m subject repo scope cs)

unfoldable pub Granted : Meta → String → String → String → List Capability → Type 0
Granted m subject repo scope cs =
    (c : Capability) × In c cs × ((g : Grant) × In g m.grants × Gives g subject repo scope c)

granted_by_iff :
    (m : Meta) (subject repo scope : String) (cs : List Capability)
    → (granted_by m subject repo scope cs ≡ true) ↔ Granted m subject repo scope cs
unfolding Granted
granted_by_iff m subject repo scope cs = (
  λ h.
      let (c, at, e) = In-of_any test cs (sym kept ∙ h) in
      (c, at, (has_grant_iff m subject repo scope c).0 e),
  λ w. kept ∙ any-In test w.1 ((has_grant_iff m subject repo scope w.0).1 w.2),
)
  where
    test : Capability → Bool
    test = λ c. has_grant m subject repo scope (as_str c)

    kept : granted_by m subject repo scope cs ≡ any test cs
    kept = granted_by-any m subject repo scope cs

-- `authorize` gives a context exactly when the context repeats the request, some row of the grants gives
-- the subject a capability that satisfies the requested one under a pattern that covers the scope, and
-- the scope is `*` or registered in the repo.
pub authorize-authorized_iff :
    (m : Meta) (subject repo scope : String) (capability : Capability) (ctx : AuthzContext)
    → (authorize m subject repo scope capability ≡ authorized ctx) ↔ (
        (ctx
          ≡ record { subject = subject; repo_id = repo; scope_id = scope; capability = capability })
        × Granted m subject repo scope (satisfying_capabilities capability)
        × ((scope ≡ "*") ⊎ (scope_exists m repo scope ≡ true)))
unfolding authorize
authorize-authorized_iff m subject repo scope capability ctx = ground (
  arith,
  granted_by_iff m subject repo scope (satisfying_capabilities capability),
  eq_iff scope "*",
)
