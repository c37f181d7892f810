-- ===== src/Http/Members/Removed.antt =====
-- What removing a member takes away, and what it leaves.
use convergence.Prelude.{
  String, ◌≡◌, ◌≢◌, refl, sym, ap, subst, ◌∙◌, ◌⊎◌, inr, true, false, not, keep, Option, List, [],
  ◌∷◌, ◌==◌, eq_iff, arith,
}
use convergence.Meta.{Meta, Grant, scope_exists}
use convergence.Meta.Accounts.{granted_to, remove_grants, list_grants}
use convergence.Authz.{
  Capability, as_str, AuthzContext, denied, authorize, granted_by, has_grant, carries,
  satisfying_capabilities, admin,
}
use convergence.Authz.Decision.{Granted, authorize-authorized_iff}
use convergence.Engine.{Answer, ok, refuse, check, bad_request}
use convergence.Engine.Answers.{then-ok, check-ok, >>>-ok, >>>-after}
use convergence.Http.{AppState, authorize_scoped, authorize_repo}
use convergence.Http.Callers.{
  authorize_scoped-before, authorize_scoped-Bears, authorize-touch_token,
}
use convergence.Http.Members.{
  is_only, admins_of, check_removal, remove_valid, MemberRemoved, remove_member,
}

module _ (repo subject : String) where
  abbrev left : List Grant → List Grant
  left grants = keep (λ g. not (granted_to repo subject g)) grants

  carries-own :
      (capability : String) (grants : List Grant)
      → keep (carries subject repo capability) (left grants) ≡ []
  carries-own capability [] = refl
  carries-own capability (g ∷ grants) = ground (arith, carries-own capability grants)

  carries-other :
      (who r capability : String) (grants : List Grant)
      → (r ≢ repo) ⊎ (who ≢ subject)
      → keep (carries who r capability) (left grants) ≡ keep (carries who r capability) grants
  carries-other who r capability [] h = refl
  carries-other who r capability (g ∷ grants) h = ground (
    arith,
    eq_iff g.subject subject,
    eq_iff g.subject who,
    eq_iff g.repo_id repo,
    eq_iff g.repo_id r,
    h,
    carries-other who r capability grants h,
  )

  abbrev gone : Meta → Meta
  gone m = record m { grants = left m.grants }

  granted_by-own :
      (m : Meta) (scope : String) (cs : List Capability)
      → granted_by (gone m) subject repo scope cs ≡ false
  unfolding has_grant
  granted_by-own m scope [] = refl
  granted_by-own m scope (c ∷ cs) =
      ground (arith, carries-own (as_str c) m.grants, granted_by-own m scope cs)

  granted_by-other :
      (m : Meta) (who r scope : String) (cs : List Capability)
      → (r ≢ repo) ⊎ (who ≢ subject)
      → granted_by (gone m) who r scope cs ≡ granted_by m who r scope cs
  unfolding has_grant
  granted_by-other m who r scope [] h = refl
  granted_by-other m who r scope (c ∷ cs) h =
      ground (arith, carries-other who r (as_str c) m.grants h, granted_by-other m who r scope cs h)

  -- Every decision after the removal, by the grants before it
  abbrev pub Decides : Meta → Meta → Type 0
  Decides m after =
      ((scope : String) (capability : Capability)
        → authorize after subject repo scope capability ≡ denied)
      × ((who r scope : String) (capability : Capability)
          → (r ≢ repo) ⊎ (who ≢ subject)
          → authorize after who r scope capability ≡ authorize m who r scope capability)

  gone-Decides : (m : Meta) → Decides m (gone m)
  unfolding authorize scope_exists
  gone-Decides m = (
    λ scope capability. rw (granted_by-own m scope (satisfying_capabilities capability)) refl,
    λ who r scope capability h.
        rw (granted_by-other m who r scope (satisfying_capabilities capability) h) refl,
  )

-- A member that an admin removes holds nothing in the repo any more: every authorization of theirs there is
-- denied, on every scope and for every capability. Every decision on another subject or another repo is
-- the one it was, and the admin who removed them is somebody else, who still is an admin of the repo.
pub remove_member-Decides :
    (state : AppState) (bearer : Option String) (repo subject now : String) (m : Meta)
    (answer : MemberRemoved)
    → (remove_member state bearer repo subject now m).0 ≡ ok answer
    → let after = (remove_member state bearer repo subject now m).1 in
      Decides repo subject m after
      × ((by : String) × (by ≢ subject)
          × Granted m by repo "*" (satisfying_capabilities admin)
          × Granted after by repo "*" (satisfying_capabilities admin))
unfolding remove_member authorize_repo remove_grants check_removal
remove_member-Decides state bearer repo subject now m answer h =
    let (ctx, passed, rest) = >>>-ok reached handle answer h in
    let (differs, emptied) = removed ctx reached.1 rest in
    let (token, from_header, bears, may) =
      authorize_scoped-Bears state bearer repo "*" now admin m ctx passed in
    let decides = before (gone-Decides repo subject reached.1) in
    let kept = (decides.1 ctx.subject repo "*" admin (inr differs) ∙ may) in
    let after_same = ap (λ out. out.1) (>>>-after reached handle ctx passed) in
    subst
      (λ after.
        Decides repo subject m after
        × ((by : String) × (by ≢ subject)
            × Granted m by repo "*" (satisfying_capabilities admin)
            × Granted after by repo "*" (satisfying_capabilities admin)))
      (sym (after_same ∙ emptied))
      (
        decides,
        (
          ctx.subject,
          differs,
          ((authorize-authorized_iff m ctx.subject repo "*" admin ctx).0 may).1,
          ((authorize-authorized_iff (gone repo subject reached.1) ctx.subject repo "*" admin ctx).0
              kept).1,
        ),
      )
  where
    reached : Answer AuthzContext × Meta
    reached = authorize_scoped state bearer repo "*" admin now m

    handle : AuthzContext → Meta → Answer MemberRemoved × Meta
    handle = λ ctx m'. remove_valid repo subject (check_removal ctx repo subject m') m'

    others : (ctx : AuthzContext) → not (ctx.subject == subject) ≡ true → ctx.subject ≢ subject
    others ctx k = ground (arith, eq_iff ctx.subject subject, k)

    settled :
        (ctx : AuthzContext) (m' : Meta) (a : Answer Unit)
        → check_removal ctx repo subject m' ≡ a
        → (remove_valid repo subject a m').0 ≡ ok answer
        → (ctx.subject ≢ subject) × ((remove_valid repo subject a m').1 ≡ gone repo subject m')
    settled ctx m' (refuse r) e k = cc
    settled ctx m' (ok tt) e k = (
      others ctx (
          check-ok (not (ctx.subject == subject)) bad_request
            (then-ok (check (not (ctx.subject == subject)) bad_request)
              (check (not (is_only subject (admins_of (list_grants m' repo)))) bad_request) tt
              e).0),
      refl,
    )

    removed :
        (ctx : AuthzContext) (m' : Meta)
        → (handle ctx m').0 ≡ ok answer
        → (ctx.subject ≢ subject) × ((handle ctx m').1 ≡ gone repo subject m')
    removed ctx m' k = settled ctx m' (check_removal ctx repo subject m') refl k

    before :
        Decides repo subject reached.1 (gone repo subject reached.1)
        → Decides repo subject m (gone repo subject reached.1)
    before =
        authorize_scoped-before state bearer repo "*" now admin m
          (λ t. Decides repo subject t (gone repo subject reached.1))
          (λ hash d. (
            d.0,
            λ who r scope capability e.
                d.1 who r scope capability e
                ∙ authorize-touch_token hash now who r scope capability m,
          ))
