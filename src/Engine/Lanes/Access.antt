-- ===== src/Engine/Lanes/Access.antt =====
-- Who may write a lane may read it.
use convergence.Prelude.{
  String, ◌≡◌, refl, ◌∙◌, sym, ap, subst, true, ◌&&◌, Option, none, some, List, [], ◌∷◌, ◌++◌, find,
  ◌==◌, eq_iff, eq_refl, arith,
}
use convergence.Records.{LaneRecord}
use convergence.Meta.{Meta}
use convergence.Authz.{AuthzContext}
use convergence.Engine.{Answer, ok}
use convergence.Engine.Lanes.{
  get_lane, create_lane, check_readable, check_lane_readable, personal, own_lane, writable,
  provisioned, created, resolve_writable_lane,
}

find-snoc :
    (repo id : String) (lanes : List LaneRecord) (lane : LaneRecord)
    → find (λ l. l.repo_id == repo && l.lane_id == id) lanes ≡ none
    → (lane.repo_id == repo && lane.lane_id == id) ≡ true
    → find (λ l. l.repo_id == repo && l.lane_id == id) (lanes ++ (lane ∷ [])) ≡ some lane
find-snoc repo id [] lane h e = rw e
find-snoc repo id (l ∷ lanes) lane h e = ground (arith, find-snoc repo id lanes lane)

writable-readable :
    (ctx : AuthzContext) (given id : String) (lane : Option LaneRecord)
    → writable ctx given lane ≡ ok id
    → (given ≡ id) × (check_readable ctx lane ≡ ok tt)
writable-readable ctx given id none h = cc
writable-readable ctx given id (some lane) h = ground arith

owner-readable :
    (ctx : AuthzContext) (lane : LaneRecord)
    → lane.owner ≡ ctx.subject
    → check_readable ctx (some lane) ≡ ok tt
owner-readable ctx lane e = ground (arith, eq_iff lane.owner ctx.subject)

create_lane-new :
    (ctx : AuthzContext) (at : String) (m : Meta)
    → get_lane m ctx.repo_id (personal ctx) ≡ none
    → create_lane (own_lane ctx at) m
      ≡ some (record m { lanes = m.lanes ++ (own_lane ctx at ∷ []) })
unfolding create_lane
create_lane-new ctx at m e = rw (e, create_lane)

-- The lane that a publisher without a lane gets
Provides : AuthzContext → (Answer String × Meta) → Type 0
Provides ctx out =
    (out.0 ≡ ok (personal ctx)) × (check_lane_readable ctx (personal ctx) out.1 ≡ ok tt)

provisioned-Provides :
    (ctx : AuthzContext) (at : String) (m : Meta) (lane : Option LaneRecord)
    → get_lane m ctx.repo_id (personal ctx) ≡ lane
    → ((l : LaneRecord) → lane ≡ some l → l.owner ≡ ctx.subject)
    → Provides ctx (provisioned ctx at lane m)
unfolding check_lane_readable get_lane Provides
provisioned-Provides ctx at m none e owned =
    subst (λ o. Provides ctx (created ctx m o)) (sym (create_lane-new ctx at m e))
      (
        refl,
        ap (check_readable ctx)
              (find-snoc ctx.repo_id (personal ctx) m.lanes (own_lane ctx at) e own)
            ∙ owner-readable ctx (own_lane ctx at) refl,
      )
  where
    own : (ctx.repo_id == ctx.repo_id && personal ctx == personal ctx) ≡ true
    own = ground (arith, eq_refl ctx.repo_id, eq_refl (personal ctx))
provisioned-Provides ctx at m (some l) e owned =
    (refl, ap (check_readable ctx) e ∙ owner-readable ctx l (owned l refl))

-- When `resolve_writable_lane` names a lane for a publisher, the publisher may read that lane in the
-- tables that it leaves, if the subject's personal lane, where one is registered, is the subject's own.
pub resolve_writable_lane-readable :
    (ctx : AuthzContext) (given : Option String) (at : String) (m : Meta) (id : String)
    → ((l : LaneRecord) → get_lane m ctx.repo_id (personal ctx) ≡ some l → l.owner ≡ ctx.subject)
    → (resolve_writable_lane ctx given at m).0 ≡ ok id
    → check_lane_readable ctx id (resolve_writable_lane ctx given at m).1 ≡ ok tt
unfolding resolve_writable_lane check_lane_readable Provides
resolve_writable_lane-readable ctx (some lane) at m id owned h =
    let (same, reads) = writable-readable ctx lane id (get_lane m ctx.repo_id lane) h in
    subst (λ x. check_readable ctx (get_lane m ctx.repo_id x) ≡ ok tt) same reads
resolve_writable_lane-readable ctx none at m id owned h =
    let (answer, reads) =
      provisioned-Provides ctx at m (get_lane m ctx.repo_id (personal ctx)) refl owned in
    subst
      (λ x.
        check_lane_readable ctx x (provisioned ctx at (get_lane m ctx.repo_id (personal ctx)) m).1
        ≡ ok tt)
      (named (sym answer ∙ h)) reads
  where
    named : ok (personal ctx) ≡ ok id → personal ctx ≡ id
    named e = cc
