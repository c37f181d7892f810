-- ===== src/Engine/Promote/Effects.antt =====
-- What `promote` leaves behind.
use convergence.Prelude.{
  String, ◌≡◌, refl, ◌∙◌, sym, ap, subst, ◌⊎◌, true, contains, if◌then◌else◌, arith,
}
use convergence.Gates.{GateNode, GateGraph}
use convergence.Records.{StoredCandidate, PartitionState}
use convergence.Meta.{
  Meta, get_partition_state, set_partition_state, record_promotion, list_promotions,
}
use convergence.Meta.Batch.{
  apply_batch, apply_ops, apply_op, state_eq, committed, batch_conflict, settle_batch, Applied,
  applied, conflict, refused,
}
use convergence.Authz.{AuthzContext}
use convergence.Engine.{Refusal, Answer, ok, refuse}
use convergence.Engine.Promote.{
  is_current, advanced, promotion_ops, Step, done, commit, promotion, promote_over, finish,
  answer_of,
}
use convergence.Engine.Promote.Checks.{Passes, step_of, promotion-Passes}

-- The tables after the batch of a promotion
unfoldable pub promoted :
    AuthzContext → StoredCandidate → PartitionState → String → String → Meta → Meta
promoted ctx c p to at m =
    let recorded = record_promotion c.candidate_id c.gate_id to at m in
    if is_current p c
    then recorded
    else set_partition_state ctx.repo_id ctx.scope_id c.gate_id (advanced c) recorded

pub ops-promoted :
    (ctx : AuthzContext) (c : StoredCandidate) (p : PartitionState) (to at : String) (m : Meta)
    → apply_batch (promotion_ops ctx c p to at) m ≡ (
        if state_eq (get_partition_state m ctx.repo_id ctx.scope_id c.gate_id) p
        then (promoted ctx c p to at m, committed)
        else (m, batch_conflict))
unfolding apply_batch apply_ops apply_op promotion_ops promoted
ops-promoted ctx c p to at m = ground arith

batch-refused :
    (m : Meta) (a : Applied) (r : Refusal)
    → (answer_of (settle_batch m a)).0 ≡ refuse r
    → (answer_of (settle_batch m a)).1 ≡ m
batch-refused m (applied m') r h = cc
batch-refused m conflict r h = refl
batch-refused m refused r h = refl

finish-refused :
    (m : Meta) (a : Answer Step) (r : Refusal) → (finish m a).0 ≡ refuse r → (finish m a).1 ≡ m
unfolding apply_batch
finish-refused m (refuse q) r h = refl
finish-refused m (ok done) r h = cc
finish-refused m (ok (commit ops)) r h = batch-refused m (apply_ops ops m) r h

finish-ok : (m : Meta) (a : Answer Step) → (finish m a).0 ≡ ok tt → (step : Step) × (a ≡ ok step)
finish-ok m (ok step) h = (step, refl)
finish-ok m (refuse r) h = cc

-- When `promote` refuses, whatever was written between its reads and its commit, it writes nothing.
pub promote_over-refused :
    (ctx : AuthzContext) (given to at : String) (seen m : Meta) (r : Refusal)
    → (promote_over ctx given to at seen m).0 ≡ refuse r
    → (promote_over ctx given to at seen m).1 ≡ m
unfolding promote_over
promote_over-refused ctx given to at seen m r h =
    finish-refused m (promotion ctx given to at seen) r h

-- How a promotion of `c` that was planned on `seen` ends on `m`, when it ends well
abbrev pub Ends : AuthzContext → String → String → Meta → Meta → StoredCandidate → Meta → Type 0
Ends ctx to at seen m c after =
    ((contains (list_promotions seen c.candidate_id) to ≡ true) × (after ≡ m))
    ⊎ ((state_eq (get_partition_state m ctx.repo_id ctx.scope_id c.gate_id)
            (get_partition_state seen ctx.repo_id ctx.scope_id c.gate_id)
          ≡ true)
        × (after
            ≡ promoted ctx c (get_partition_state seen ctx.repo_id ctx.scope_id c.gate_id) to at m))

step-Ends :
    (ctx : AuthzContext) (to at : String) (seen m : Meta) (c : StoredCandidate)
    → (finish m (ok (step_of ctx to at seen c))).0 ≡ ok tt
    → Ends ctx to at seen m c (finish m (ok (step_of ctx to at seen c))).1
unfolding step_of
step-Ends ctx to at seen m c h = ground (
  arith,
  ops-promoted ctx c (get_partition_state seen ctx.repo_id ctx.scope_id c.gate_id) to at m,
)

pub promote_over-ok :
    (ctx : AuthzContext) (given to at : String) (seen m : Meta)
    → (promote_over ctx given to at seen m).0 ≡ ok tt
    → (c : StoredCandidate) × (graph : GateGraph) × (producing : GateNode) × Passes ctx given to
        seen c graph producing
      × Ends ctx to at seen m c (promote_over ctx given to at seen m).1
unfolding promote_over
promote_over-ok ctx given to at seen m h =
    let (step, planned) = finish-ok m (promotion ctx given to at seen) h in
    let (c, graph, producing, passes, e) = promotion-Passes ctx given to at seen step planned in
    let same = ap (finish m) (planned ∙ ap ok (sym e)) in
    (
      c,
      graph,
      producing,
      passes,
      subst (λ out. Ends ctx to at seen m c out.1) (sym same)
          (step-Ends ctx to at seen m c (ap (λ out. out.0) (sym same) ∙ h)),
    )
