-- ===== src/Engine/Promote/Checks.antt =====
-- What holds when `promote` passes its checks.
use convergence.Prelude.{String, ◌≡◌, true, some, contains, leb, if◌then◌else◌, arith}
use convergence.Gates.{GateNode, GateGraph}
use convergence.Records.{StoredCandidate}
use convergence.Meta.{Meta, get_gate_graph, get_partition_state, list_promotions, count_approvals}
use convergence.Authz.{Capability, AuthzContext}
use convergence.Engine.{
  ok, require, ensure_partition, get_candidate, check_promotable, no_graph, missing_approvals,
}
use convergence.Engine.Answers.{bind-ok, then-ok, check-ok, ok_or-ok}
use convergence.Engine.Promote.{
  leaving_gate, check_window, promotion_ops, Step, done, commit, promotion,
}

-- The checks of `promote` on the tables `m`, for the candidate `c` that leaves the gate `producing`
pub record Passes (ctx : AuthzContext) (given to : String) (m : Meta) (c : StoredCandidate)
    (graph : GateGraph) (producing : GateNode) : Type 0 where
  pub may_promote : require ctx Capability.promote ≡ ok tt
  pub found : get_candidate m given ≡ ok c
  pub covered : ensure_partition ctx c ≡ ok tt
  pub is_ready : check_promotable c.status ≡ ok tt
  pub has_graph : get_gate_graph m ctx.repo_id ≡ some graph
  pub leaves : leaving_gate m graph c to ≡ ok producing
  pub is_approved : leb producing.required_approvals (count_approvals m c.candidate_id) ≡ true
  pub advances : check_window (get_partition_state m ctx.repo_id ctx.scope_id c.gate_id) c ≡ ok tt

unfoldable pub step_of : AuthzContext → String → String → Meta → StoredCandidate → Step
step_of ctx to at m c =
    if contains (list_promotions m c.candidate_id) to
    then done
    else commit
        (promotion_ops ctx c (get_partition_state m ctx.repo_id ctx.scope_id c.gate_id) to at)

pub promotion-Passes :
    (ctx : AuthzContext) (given to at : String) (m : Meta) (step : Step)
    → promotion ctx given to at m ≡ ok step
    → (c : StoredCandidate) × (graph : GateGraph) × (producing : GateNode) × Passes ctx given to m c
        graph producing
      × (step_of ctx to at m c ≡ step)
unfolding promotion step_of
promotion-Passes ctx given to at m step h =
    let (may_promote, h1) = then-ok _ _ step h in
    let (c, found, h2) = bind-ok _ _ step h1 in
    let (covered, h3) = then-ok _ _ step h2 in
    let (is_ready, h4) = then-ok _ _ step h3 in
    let (graph, has_graph, h5) = bind-ok _ _ step h4 in
    let (producing, leaves, h6) = bind-ok _ _ step h5 in
    let (is_approved, h7) = then-ok _ _ step h6 in
    let (advances, h8) = then-ok _ _ step h7 in
    (
      c,
      graph,
      producing,
      record {
        may_promote = may_promote;
        found = found;
        covered = covered;
        is_ready = is_ready;
        has_graph = ok_or-ok no_graph _ graph has_graph;
        leaves = leaves;
        is_approved = check-ok _ missing_approvals is_approved;
        advances = advances;
      },
      ground arith,
    )

pub promotion-of_Passes :
    (ctx : AuthzContext) (given to at : String) (m : Meta) (c : StoredCandidate) (graph : GateGraph)
    (producing : GateNode)
    → Passes ctx given to m c graph producing
    → promotion ctx given to at m ≡ ok (step_of ctx to at m c)
unfolding promotion step_of
promotion-of_Passes ctx given to at m c graph producing p = rw (
  p.may_promote, p.found, p.covered, p.is_ready, p.has_graph, p.leaves, p.is_approved, p.advances,
)
