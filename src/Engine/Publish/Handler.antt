-- ===== src/Engine/Publish/Handler.antt =====
-- `publish` of crates/converge-server/src/engine/publish.rs: its guards, one attempt at a commit, and the loop over
-- attempts. An attempt reads the tables `seen` and commits to tables that other requests may have written in
-- between; `others` is what they did during each attempt.
use convergence.Prelude.{
  ℕ, zero, suc, ◌+◌, String, ◌&&◌, Option, none, some, List, [], ◌∷◌, ◌++◌, any, length, max, ◌==◌,
}
use convergence.Records.{PublicationRecord, StoredCandidate, PartitionState}
use convergence.Objects.{has_manifest}
use convergence.Meta.{
  Meta, PublicationRow, repo_exists, get_gate_graph, get_partition_state, list_publications_after,
}
use convergence.Meta.Batch.{
  MetaOp, assert_partition_state, assert_publication_count, add_publication_op, put_candidate_op,
  add_event_op, apply_batch, BatchResult, committed, batch_conflict, batch_error,
}
use convergence.Authz.{AuthzContext, publish}
use convergence.Engine.{
  Refusal, Answer, ok, refuse, ◌>>=◌, ◌>>◌, ◌>>>◌, check, ok_or, require, get_candidate, no_graph,
  unknown_gate, unknown_repo, not_uploaded, unknown_base, other_base, batch_failed, kept_losing,
}
use convergence.Engine.Lanes.{resolve_writable_lane}
use convergence.Engine.Pins.{unpin_tree}
use convergence.Engine.Publish.{PublishInput, World, as_bytes, all_bytes, upload_snap_record}
use convergence.Engine.Publish.Build.{last_seq, build_candidate}

-- The checks before anything is written
unfoldable pub check_target : World → AuthzContext → PublishInput → Meta → Answer Unit
unfolding has_manifest
check_target world ctx input m = do
  require ctx publish
  check (repo_exists m ctx.repo_id) unknown_repo
  graph ← ok_or no_graph (get_gate_graph m ctx.repo_id)
  check (any (λ g. g.gate_id == input.gate_id) graph.gates) unknown_gate
  check (has_manifest world.objects input.snap.root_manifest) not_uploaded

abbrev pub known_base : Answer StoredCandidate → Answer StoredCandidate
known_base (ok c) = ok c
known_base (refuse r) = refuse unknown_base

-- The base that the publisher declares is a candidate of the same partition.
unfoldable pub check_base : AuthzContext → PublishInput → Option String → Meta → Answer Unit
check_base ctx input none m = ok tt
check_base ctx input (some id) m = do
  base ← known_base (get_candidate m id)
  check
      (base.repo_id == ctx.repo_id
        && base.scope_id == ctx.scope_id
        && base.gate_id == input.gate_id)
      other_base

unfoldable pub publication_of :
    World → AuthzContext → PublishInput → String → String → PublicationRecord
unfolding as_bytes
publication_of world ctx input lane at = record {
  publication_id = world.digest (
      all_bytes (
        ctx.repo_id
        ∷ (ctx.scope_id ∷ (input.gate_id ∷ (input.snap.id ∷ (ctx.subject ∷ (at ∷ [])))))));
  snap_id = input.snap.id;
  root_manifest = input.snap.root_manifest;
  base_candidate_id = input.base_candidate_id;
  snap_parents = input.snap.parents;
  repo_id = ctx.repo_id;
  scope_id = ctx.scope_id;
  target_gate_id = input.gate_id;
  lane_id = lane;
  publisher = ctx.subject;
  created_at = at;
  notes = input.notes;
}

abbrev pub partition_of : AuthzContext → PublishInput → Meta → PartitionState
partition_of ctx input m = get_partition_state m ctx.repo_id ctx.scope_id input.gate_id

-- `existing`: the open window
abbrev pub open_window : AuthzContext → PublishInput → ℕ → Meta → List PublicationRow
open_window ctx input floor m =
    list_publications_after m ctx.repo_id ctx.scope_id input.gate_id floor

unfoldable pub expected_seq : List PublicationRow → ℕ → ℕ
expected_seq existing floor = max (last_seq existing) floor + 1

unfoldable pub publish_ops :
    AuthzContext
    → PublishInput
    → PartitionState
    → ℕ
    → PublicationRecord
    → StoredCandidate
    → String
    → List MetaOp
publish_ops ctx input p count publication c at =
    assert_partition_state ctx.repo_id ctx.scope_id input.gate_id p
    ∷ (assert_publication_count ctx.repo_id ctx.scope_id input.gate_id p.window_floor count
        ∷ (add_publication_op publication
            ∷ (put_candidate_op c ∷ (add_event_op ctx.repo_id "candidate" c.candidate_id at ∷ []))))

-- The window that an attempt folds
abbrev pub tried_window :
    World → AuthzContext → PublishInput → String → String → Meta → List PublicationRow
tried_window world ctx input lane at seen =
    let p = partition_of ctx input seen in
    let existing = open_window ctx input p.window_floor seen in
    existing
    ++ (record {
      seq = expected_seq existing p.window_floor;
      publication = publication_of world ctx input lane at;
    }
        ∷ [])

unfoldable pub tried_candidate :
    World → AuthzContext → PublishInput → String → String → Meta → Answer StoredCandidate
unfolding publication_of expected_seq build_candidate
tried_candidate world ctx input lane at seen =
    build_candidate world ctx input.gate_id (partition_of ctx input seen)
      (tried_window world ctx input lane at seen) at seen

unfoldable pub tried_ops :
    World → AuthzContext → PublishInput → String → String → Meta → StoredCandidate → List MetaOp
unfolding publication_of publish_ops
tried_ops world ctx input lane at seen c =
    let p = partition_of ctx input seen in
    publish_ops ctx input p (length (open_window ctx input p.window_floor seen))
      (publication_of world ctx input lane at) c at

-- How an attempt ends
pub data Outcome : Type 0 where
  won : StoredCandidate → Outcome
  lost : Outcome
  gave_up : Refusal → Outcome

abbrev pub outcome_of : StoredCandidate → Meta × BatchResult → Outcome × Meta
outcome_of c (m, committed) = (won c, m)
outcome_of c (m, batch_conflict) = (lost, m)
outcome_of c (m, batch_error) = (gave_up batch_failed, m)

abbrev pub try_commit :
    World
    → AuthzContext
    → PublishInput
    → String
    → String
    → Meta
    → Answer StoredCandidate
    → Meta
    → Outcome × Meta
try_commit world ctx input lane at seen (refuse r) m = (gave_up r, m)
try_commit world ctx input lane at seen (ok c) m =
    outcome_of c (apply_batch (tried_ops world ctx input lane at seen c) m)

unfoldable pub attempt :
    World → AuthzContext → PublishInput → String → String → Meta → Meta → Outcome × Meta
unfolding tried_candidate tried_ops
attempt world ctx input lane at seen m =
    try_commit world ctx input lane at seen (tried_candidate world ctx input lane at seen) m

abbrev pub settle :
    World
    → AuthzContext
    → PublishInput
    → Outcome × Meta
    → (Meta → Answer StoredCandidate × Meta)
    → Answer StoredCandidate × Meta
settle world ctx input (won c, m) again =
    unpin_tree world.objects ctx.repo_id input.snap.root_manifest m >>> λ u m'. (ok c, m')
settle world ctx input (lost, m) again = again m
settle world ctx input (gave_up r, m) again = (refuse r, m)

-- The loop, with the attempts that are left; `at` is the time of each.
unfoldable pub publish_loop :
    ℕ
    → World
    → AuthzContext
    → PublishInput
    → String
    → (ℕ → String)
    → (ℕ → Meta → Meta)
    → Meta
    → Answer StoredCandidate × Meta
unfolding attempt unpin_tree
publish_loop zero world ctx input lane at others m = (refuse kept_losing, m)
publish_loop (suc left) world ctx input lane at others m =
    settle world ctx input (attempt world ctx input lane (at left) m (others left m))
      (publish_loop left world ctx input lane at others)

-- `publish`, with its 32 attempts
unfoldable pub publish_over :
    World
    → AuthzContext
    → PublishInput
    → String
    → (ℕ → String)
    → (ℕ → Meta → Meta)
    → Meta
    → Answer StoredCandidate × Meta
unfolding check_target check_base publish_loop upload_snap_record
publish_over world ctx input now at others m = (check_target world ctx input m, m) >>> λ u m0.
    upload_snap_record world ctx input.snap m0 >>> λ u m1.
    (check_base ctx input input.base_candidate_id m1, m1) >>> λ u m2.
    resolve_writable_lane ctx input.lane_id now m2 >>> λ lane m3.
    publish_loop 32 world ctx input lane at others m3
