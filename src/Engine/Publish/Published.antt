-- ===== src/Engine/Publish/Published.antt =====
-- What `publish` promises as a whole.
use convergence.Prelude.{
  ℕ, suc, String, ◌≡◌, refl, sym, ap, subst, ◌∙◌, true, Option, none, some, [], ◌∷◌, ◌++◌, keep,
  opt_eq_iff, arith,
}
use convergence.Records.{SnapRecord, StoredCandidate, PartitionState, LaneRecord}
use convergence.Meta.{Meta, add_publication, in_partition}
use convergence.Meta.Batch.{state_eq}
use convergence.Authz.{AuthzContext}
use convergence.Engine.{Answer, ok, refuse, ◌>>>◌}
use convergence.Engine.Answers.{>>>-ok, >>>-after}
use convergence.Engine.Lanes.{
  get_lane, create_lane, own_lane, personal, created, provisioned, resolve_writable_lane,
}
use convergence.Engine.Pins.{unpin_tree}
use convergence.Engine.Publish.{
  PublishInput, World, check_snap, uploaded, put_snap_record, upload_snap_record,
}
use convergence.Engine.Publish.Handler.{
  check_target, check_base, publication_of, partition_of, tried_candidate, attempt, won, settle,
  publish_loop, publish_over,
}
use convergence.Engine.Publish.Window.{Ascending, IsOrdered}
use convergence.Engine.Publish.Guarded.{committed_tables, committing, commit_added}
use convergence.Engine.Publish.Admitted.{Admitted, guards-Admitted}
use convergence.Engine.Publish.Current.{Met, Ordered, Appends, Current, publish_loop-Current}

upload-publications :
    (world : World) (ctx : AuthzContext) (snap : SnapRecord) (m : Meta)
    → (upload_snap_record world ctx snap m).1.publications ≡ m.publications
unfolding upload_snap_record put_snap_record
upload-publications world ctx snap m = known (check_snap world snap)
  where
    known : (a : Answer Unit) → (uploaded a ctx snap m).1.publications ≡ m.publications
    known (refuse r) = refl
    known (ok u) = refl

lane-publications :
    (ctx : AuthzContext) (lane : Option String) (at : String) (m : Meta)
    → (resolve_writable_lane ctx lane at m).1.publications ≡ m.publications
unfolding resolve_writable_lane create_lane
lane-publications ctx (some lane) at m = refl
lane-publications ctx none at m = personal_lane (get_lane m ctx.repo_id (personal ctx)) refl
  where
    personal_lane :
        (found : Option LaneRecord)
        → get_lane m ctx.repo_id (personal ctx) ≡ found
        → (provisioned ctx at found m).1.publications ≡ m.publications
    personal_lane (some lane) e = refl
    personal_lane none e = ap (λ o. (created ctx m o).1.publications) (fresh e)
      where
        fresh :
            get_lane m ctx.repo_id (personal ctx) ≡ none
            → create_lane (own_lane ctx at) m
              ≡ some (record m { lanes = m.lanes ++ (own_lane ctx at ∷ []) })
        fresh k = rw (k, create_lane) refl

-- The tables that the first attempt reads
abbrev pub prepared : World → AuthzContext → PublishInput → String → Meta → Meta
prepared world ctx input now m =
    (resolve_writable_lane ctx input.lane_id now (upload_snap_record world ctx input.snap m).1).1

-- When `publish` answers with a candidate, its guards held: the capability, a gate of the repo's graph, the
-- stored root, the identity of the snap, and a declared base of the same partition. The candidate is the
-- fold of the open window that the tables then hold: every publication above the partition's floor in
-- order, the new one last, numbered as the store numbers it, and over the partition's base; its tree and
-- status are what the merge of the trees of those publications comes to, each against its own base, or a
-- failure if one of them names a base that the tables which the winning attempt read refuse. This holds whatever
-- other requests commit while it works, as long as they keep the partition's publications in order and only
-- append to its open window.
pub publish_over-Current :
    (world : World) (ctx : AuthzContext) (input : PublishInput) (now : String) (at : ℕ → String)
    (others : ℕ → Meta → Meta) (m : Meta) (c : StoredCandidate)
    → ((lane : String) → Appends world ctx input lane others)
    → IsOrdered ctx.repo_id ctx.scope_id input.gate_id m
    → (publish_over world ctx input now at others m).0 ≡ ok c
    → Admitted world ctx input m
      × (seen : Meta) × Met others 32 (prepared world ctx input now m) seen
      × Current world ctx input seen c (publish_over world ctx input now at others m).1
unfolding publish_over IsOrdered Ordered
publish_over-Current world ctx input now at others m c appends order h =
    let (u0, targeted, h0) = >>>-ok (check_target world ctx input m, m) uploading c h in
    let (u1, sent, h1) = >>>-ok (upload_snap_record world ctx input.snap m) basing c h0 in
    let m1 = (upload_snap_record world ctx input.snap m).1 in
    let (u2, based, h2) =
      >>>-ok (check_base ctx input input.base_candidate_id m1, m1) laning c h1 in
    let (lane, open_lane, h3) =
      >>>-ok (resolve_writable_lane ctx input.lane_id now m1) looping c h2 in
    let m3 = (resolve_writable_lane ctx input.lane_id now m1).1 in
    let rows =
      lane-publications ctx input.lane_id now m1 ∙ upload-publications world ctx input.snap m in
    let (seen, met, result) =
      publish_loop-Current world ctx input lane 32 at others m3 c (appends lane)
        (subst (λ ps. Ascending (keep (in_partition ctx.repo_id ctx.scope_id input.gate_id) ps))
          (sym rows) order)
        h3 in
    let path =
      >>>-after (check_target world ctx input m, m) uploading u0 targeted
      ∙ >>>-after (upload_snap_record world ctx input.snap m) basing u1 sent
      ∙ >>>-after (check_base ctx input input.base_candidate_id m1, m1) laning u2 based
      ∙ >>>-after (resolve_writable_lane ctx input.lane_id now m1) looping lane open_lane in
    (
      guards-Admitted world ctx input m targeted sent based,
      seen,
      met,
      subst (λ out. Current world ctx input seen c out.1) (sym path) result,
    )
  where
    looping : String → Meta → Answer StoredCandidate × Meta
    looping = λ lane m3. publish_loop 32 world ctx input lane at others m3

    laning : Unit {0} → Meta → Answer StoredCandidate × Meta
    laning = λ u m2. resolve_writable_lane ctx input.lane_id now m2 >>> looping

    basing : Unit {0} → Meta → Answer StoredCandidate × Meta
    basing = λ u m1. (check_base ctx input input.base_candidate_id m1, m1) >>> laning

    uploading : Unit {0} → Meta → Answer StoredCandidate × Meta
    uploading = λ u m0. upload_snap_record world ctx input.snap m0 >>> basing

state_eq_refl : (p : PartitionState) → state_eq p p ≡ true
state_eq_refl p = ground (arith, (opt_eq_iff p.base_candidate_id p.base_candidate_id).1 refl)

-- An attempt whose reads no other request disturbs commits, if the window can be folded and the new
-- publication's id is not taken: the loop of `publish` then ends in that turn, with the candidate in the
-- tables, whatever attempts are left, and only the release of the upload's pins is still to come.
pub publish_loop-alone :
    (world : World) (ctx : AuthzContext) (input : PublishInput) (lane : String) (left : ℕ)
    (at : ℕ → String) (others : ℕ → Meta → Meta) (m between : Meta) (c : StoredCandidate)
    → others left m ≡ m
    → tried_candidate world ctx input lane (at left) m ≡ ok c
    → add_publication (publication_of world ctx input lane (at left)) m ≡ some between
    → publish_loop (suc left) world ctx input lane at others m ≡ (
        unpin_tree world.objects ctx.repo_id input.snap.root_manifest
          (committed_tables ctx c (at left) between)
        >>> λ u m'. (ok c, m'))
unfolding publish_loop attempt committing
publish_loop-alone world ctx input lane left at others m between c quiet tried free =
    ap (λ t. settle world ctx input (attempt world ctx input lane (at left) m t) next) quiet
    ∙ ap (λ out. settle world ctx input out next) (attempted ∙ won_now)
  where
    next : Meta → Answer StoredCandidate × Meta
    next = publish_loop left world ctx input lane at others

    attempted :
        attempt world ctx input lane (at left) m m ≡ committing world ctx input lane (at left) m m c
    attempted = rw tried refl

    won_now :
        committing world ctx input lane (at left) m m c
        ≡ (won c, committed_tables ctx c (at left) between)
    won_now =
        commit_added world ctx input lane (at left) m m c (some between)
          (state_eq_refl (partition_of ctx input m)) (ground arith) free
