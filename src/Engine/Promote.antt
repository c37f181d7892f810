-- ===== src/Engine/Promote.antt =====
-- `promote` of crates/converge-server/src/engine/gates.rs: the checks on the tables that it reads, and the
-- batch that it commits, which may meet other tables than those it read.
pub mod Checks
pub mod Safety
pub mod Race
pub mod Retry
pub mod Effects
use convergence.Prelude.{
  ℕ, String, Bool, true, false, not, ◌&&◌, ◌||◌, Option, none, some, List, [], ◌∷◌, ◌++◌, contains,
  find, ltb, leb, eqb, ◌==◌, opt_eq, if◌then◌else◌,
}
use convergence.Gates.{GateNode, GateGraph}
use convergence.Records.{StoredCandidate, PartitionState}
use convergence.Meta.{Meta, get_gate_graph, get_partition_state, list_promotions, count_approvals}
use convergence.Meta.Batch.{
  MetaOp, assert_partition_state, record_promotion_op, set_partition_state_op, apply_batch,
  BatchResult, committed, batch_conflict, batch_error,
}
use convergence.Authz.{Capability, AuthzContext}
use convergence.Engine.{
  Refusal, Answer, ok, refuse, ◌>>=◌, ◌>>◌, check, ok_or, require, ensure_partition, get_candidate,
  check_promotable, reached_gates, find_gate, unknown_target_gate, not_upstream, unknown_gate,
  missing_approvals, no_graph, stale_candidate, forked_base, advanced_concurrently, batch_failed,
}

-- The gate that the candidate leaves: the first that it reached of those upstream of the target
unfoldable pub leaving_gate : Meta → GateGraph → StoredCandidate → String → Answer GateNode
leaving_gate m graph c to = do
  target ← ok_or unknown_target_gate (find_gate graph to)
  from ← ok_or not_upstream (find (contains target.upstreams) (reached_gates m c))
  ok_or unknown_gate (find_gate graph from)

-- The candidate is the window's base already.
abbrev pub is_current : PartitionState → StoredCandidate → Bool
is_current p c = opt_eq p.base_candidate_id (some c.candidate_id) && eqb p.window_floor c.window.1

-- The guards that let a promotion only advance the window
unfoldable pub check_window : PartitionState → StoredCandidate → Answer Unit
check_window p c = if is_current p c then ok tt else do
  check (ltb p.window_floor c.window.1) stale_candidate
  check (opt_eq c.base_candidate_id p.base_candidate_id) forked_base

abbrev pub advanced : StoredCandidate → PartitionState
advanced c = record { window_floor = c.window.1; base_candidate_id = some c.candidate_id }

unfoldable pub promotion_ops :
    AuthzContext → StoredCandidate → PartitionState → String → String → List MetaOp
promotion_ops ctx c p to at =
    assert_partition_state ctx.repo_id ctx.scope_id c.gate_id p
    ∷ (record_promotion_op c.candidate_id c.gate_id to at
        ∷ (if is_current p c
            then []
            else set_partition_state_op ctx.repo_id ctx.scope_id c.gate_id (advanced c) ∷ []))

pub data Step : Type 0 where
  done : Step
  commit : List MetaOp → Step

-- What `promote` does before it commits: `done` is the early return of a retry.
unfoldable pub promotion : AuthzContext → String → String → String → Meta → Answer Step
unfolding promotion_ops
promotion ctx given to at m = do
  require ctx Capability.promote
  c ← get_candidate m given
  ensure_partition ctx c
  check_promotable c.status
  graph ← ok_or no_graph (get_gate_graph m ctx.repo_id)
  producing ← leaving_gate m graph c to
  check (leb producing.required_approvals (count_approvals m c.candidate_id)) missing_approvals
  check_window (get_partition_state m ctx.repo_id ctx.scope_id c.gate_id) c
  ok (
      if contains (list_promotions m c.candidate_id) to
      then done
      else commit
          (promotion_ops ctx c (get_partition_state m ctx.repo_id ctx.scope_id c.gate_id) to at))

abbrev pub answer_of : Meta × BatchResult → Answer Unit × Meta
answer_of (m, committed) = (ok tt, m)
answer_of (m, batch_conflict) = (refuse advanced_concurrently, m)
answer_of (m, batch_error) = (refuse batch_failed, m)

abbrev pub finish : Meta → Answer Step → Answer Unit × Meta
finish m (refuse r) = (refuse r, m)
finish m (ok done) = (ok tt, m)
finish m (ok (commit ops)) = answer_of (apply_batch ops m)

-- `promote` that reads the tables `seen` and commits to the tables `m`: other requests may have written
-- between.
unfoldable pub promote_over :
    AuthzContext → String → String → String → Meta → Meta → Answer Unit × Meta
unfolding promotion
promote_over ctx given to at seen m = finish m (promotion ctx given to at seen)

unfoldable pub promote : AuthzContext → String → String → String → Meta → Answer Unit × Meta
unfolding promote_over
promote ctx given to at m = promote_over ctx given to at m m
