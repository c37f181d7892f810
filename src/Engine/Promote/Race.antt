-- ===== src/Engine/Promote/Race.antt =====
-- Two promotions that were planned on the same tables.
use convergence.Prelude.{
  String, ◌≡◌, refl, ◌∙◌, sym, ap, inl, inr, true, false, ◌&&◌, contains, ◌==◌, opt_eq_iff,
  if◌then◌else◌, arith, eq_refl,
}
use convergence.Gates.{GateNode, GateGraph}
use convergence.Records.{StoredCandidate, PartitionState}
use convergence.Meta.{Meta, get_partition_state, list_promotions}
use convergence.Meta.Batch.{state_eq}
use convergence.Authz.{AuthzContext}
use convergence.Engine.{ok, refuse, advanced_concurrently}
use convergence.Engine.Promote.{
  is_current, check_window, advanced, promote_over, finish, commit, promotion_ops,
}
use convergence.Engine.Promote.Checks.{Passes, promotion-of_Passes, step_of}
use convergence.Engine.Promote.Effects.{promoted, ops-promoted}
use convergence.Engine.Promote.Safety.{get-promoted, window-cases}

-- A promotion that passed its checks on `seen`, and is no retry, is written to the tables `m` exactly when
-- the state of the candidate's partition there is still the one that it read; otherwise it answers that
-- the partition advanced, and `m` stays.
pub promote_over-guarded :
    (ctx : AuthzContext) (given to at : String) (seen m : Meta) (c : StoredCandidate)
    (graph : GateGraph) (producing : GateNode)
    → Passes ctx given to seen c graph producing
    → contains (list_promotions seen c.candidate_id) to ≡ false
    → let p = get_partition_state seen ctx.repo_id ctx.scope_id c.gate_id in
      promote_over ctx given to at seen m ≡ (
        if state_eq (get_partition_state m ctx.repo_id ctx.scope_id c.gate_id) p
        then (ok tt, promoted ctx c p to at m)
        else (refuse advanced_concurrently, m))
unfolding promote_over step_of
promote_over-guarded ctx given to at seen m c graph producing passes new =
    ap (finish m) (promotion-of_Passes ctx given to at seen c graph producing passes ∙ ap ok step)
    ∙ written
  where
    p : PartitionState
    p = get_partition_state seen ctx.repo_id ctx.scope_id c.gate_id

    step : step_of ctx to at seen c ≡ commit (promotion_ops ctx c p to at)
    step = rw new

    written : finish m (ok (commit (promotion_ops ctx c p to at))) ≡ (
        if state_eq (get_partition_state m ctx.repo_id ctx.scope_id c.gate_id) p
        then (ok tt, promoted ctx c p to at m)
        else (refuse advanced_concurrently, m))
    written = ground (arith, ops-promoted ctx c p to at m)

state_eq_refl : (p : PartitionState) → state_eq p p ≡ true
state_eq_refl p = ground (arith, (opt_eq_iff p.base_candidate_id p.base_candidate_id).1 refl)

advanced-differs :
    (ctx : AuthzContext) (c : StoredCandidate) (p : PartitionState) (to at : String) (m : Meta)
    → check_window p c ≡ ok tt
    → is_current p c ≡ false
    → state_eq (get_partition_state (promoted ctx c p to at m) ctx.repo_id ctx.scope_id c.gate_id) p
      ≡ false
advanced-differs ctx c p to at m h fresh =
    rw (get-promoted ctx c p to at m ctx.repo_id ctx.scope_id c.gate_id) (rw (fresh, own) differs)
  where
    own :
        (ctx.repo_id == ctx.repo_id && ctx.scope_id == ctx.scope_id && c.gate_id == c.gate_id)
        ≡ true
    own = ground (arith, eq_refl ctx.repo_id, eq_refl ctx.scope_id, eq_refl c.gate_id)

    differs : state_eq (advanced c) p ≡ false
    differs = elim (window-cases p c h) [ inl current ↦ cc | inr (f, above) ↦ ground arith ]

-- Two promotions in the same partition both pass their checks on the same tables, and neither is a retry.
-- When the first, whose candidate is not the window's base yet, has committed, the second is refused as
-- overtaken and changes nothing.
pub promote_over-race :
    (ctx other : AuthzContext) (given to at given' to' at' : String) (seen : Meta)
    (c c' : StoredCandidate) (graph graph' : GateGraph) (producing producing' : GateNode)
    → Passes ctx given to seen c graph producing
    → Passes other given' to' seen c' graph' producing'
    → ctx.repo_id ≡ other.repo_id
    → ctx.scope_id ≡ other.scope_id
    → c.gate_id ≡ c'.gate_id
    → contains (list_promotions seen c.candidate_id) to ≡ false
    → contains (list_promotions seen c'.candidate_id) to' ≡ false
    → is_current (get_partition_state seen ctx.repo_id ctx.scope_id c.gate_id) c ≡ false
    → ((promote_over ctx given to at seen seen).0 ≡ ok tt)
      × (promote_over other given' to' at' seen (promote_over ctx given to at seen seen).1
          ≡ (refuse advanced_concurrently, (promote_over ctx given to at seen seen).1))
promote_over-race ctx other given to at given' to' at' seen c c' graph graph' producing producing'
      passes passes' er es eg new new' fresh =
    (ap (λ out. out.0) first, second)
  where
    p : PartitionState
    p = get_partition_state seen ctx.repo_id ctx.scope_id c.gate_id

    after : Meta
    after = promoted ctx c p to at seen

    first : promote_over ctx given to at seen seen ≡ (ok tt, after)
    first =
        promote_over-guarded ctx given to at seen seen c graph producing passes new
        ∙ rw (state_eq_refl p)

    overtaken :
        state_eq
          (get_partition_state after other.repo_id other.scope_id c'.gate_id)
          (get_partition_state seen other.repo_id other.scope_id c'.gate_id)
        ≡ false
    overtaken =
        (λ i.
          state_eq (get_partition_state after (sym er i) (sym es i) (sym eg i))
            (get_partition_state seen (sym er i) (sym es i) (sym eg i)))
        ∙ advanced-differs ctx c p to at seen passes.advances fresh

    second :
        promote_over other given' to' at' seen (promote_over ctx given to at seen seen).1
        ≡ (refuse advanced_concurrently, (promote_over ctx given to at seen seen).1)
    second = rw first (
        promote_over-guarded other given' to' at' seen after c' graph' producing' passes' new'
        ∙ rw overtaken)
