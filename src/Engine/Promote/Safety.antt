-- ===== src/Engine/Promote/Safety.antt =====
-- The policy that a promotion obeys, and the floors of the windows.
use convergence.Prelude.{
  String, ◌≡◌, refl, sym, subst, ◌⊎◌, inl, inr, true, false, ◌&&◌, some, In-contains, In,
  In-of_find, ltb, leb→le, ◌==◌, if◌then◌else◌, arith, Bool-cases, ◌≤◌, eq_iff,
}
use convergence.Gates.{GateNode, GateGraph}
use convergence.Records.{StoredCandidate, PartitionState, ready}
use convergence.Meta.{Meta, get_gate_graph, get_partition_state, record_promotion, count_approvals}
use convergence.Meta.Batch.{state_eq}
use convergence.Meta.Partitions.{get-record_promotion, get-set_partition_state_eq}
use convergence.Authz.{AuthzContext}
use convergence.Engine.{
  Answer, ok, refuse, get_candidate, ensure_partition, reached_gates, unknown_target_gate,
  not_upstream, unknown_gate, other_partition,
}
use convergence.Engine.Answers.{bind-ok, check-ok, ok_or-ok, check_promotable-ok}
use convergence.Engine.Promote.{is_current, check_window, advanced, leaving_gate, promote_over}
use convergence.Engine.Promote.Checks.{Passes}
use convergence.Engine.Promote.Effects.{promoted, Ends, promote_over-ok, promote_over-refused}

-- A gate that the candidate reached and that the target takes promotions from
pub record Leaves (m : Meta) (graph : GateGraph) (c : StoredCandidate) (target producing : GateNode)
    (to : String) : Type 0 where
  pub is_target : target.gate_id ≡ to
  pub target_known : In target graph.gates
  pub producing_known : In producing graph.gates
  pub is_reached : In producing.gate_id (reached_gates m c)
  pub is_upstream : In producing.gate_id target.upstreams

leaving_gate-Leaves :
    (m : Meta) (graph : GateGraph) (c : StoredCandidate) (to : String) (producing : GateNode)
    → leaving_gate m graph c to ≡ ok producing
    → (target : GateNode) × Leaves m graph c target producing to
unfolding leaving_gate
leaving_gate-Leaves m graph c to producing h =
    let (target, e1, h1) = bind-ok _ _ producing h in
    let (from, e2, h2) = bind-ok _ _ producing h1 in
    let (at, t) = In-of_find _ graph.gates target (ok_or-ok unknown_target_gate _ target e1) in
    let (reached, up) = In-of_find _ (reached_gates m c) from (ok_or-ok not_upstream _ from e2) in
    let (known, p) = In-of_find _ graph.gates producing (ok_or-ok unknown_gate _ producing h2) in
    let own = (eq_iff producing.gate_id from).0 p in
    (
      target,
      record {
        is_target = (eq_iff target.gate_id to).0 t;
        target_known = at;
        producing_known = known;
        is_reached = subst (λ id. In id (reached_gates m c)) (sym own) reached;
        is_upstream =
            subst (λ id. In id target.upstreams) (sym own) (In-contains target.upstreams from up);
      },
    )

pub window-cases :
    (p : PartitionState) (c : StoredCandidate)
    → check_window p c ≡ ok tt
    → (is_current p c ≡ true) ⊎ ((is_current p c ≡ false) × (ltb p.window_floor c.window.1 ≡ true))
unfolding check_window
window-cases p c h = ground arith

pub get-promoted :
    (ctx : AuthzContext) (c : StoredCandidate) (p : PartitionState) (to at : String) (m : Meta)
    (r s g : String)
    → get_partition_state (promoted ctx c p to at m) r s g ≡ (
        if is_current p c
        then get_partition_state m r s g
        else if ctx.repo_id == r && ctx.scope_id == s && c.gate_id == g
        then advanced c
        else get_partition_state m r s g)
unfolding promoted
get-promoted ctx c p to at m r s g = ground (
  arith,
  get-record_promotion c.candidate_id c.gate_id to at m r s g,
  get-set_partition_state_eq ctx.repo_id ctx.scope_id c.gate_id r s g (advanced c)
      (record_promotion c.candidate_id c.gate_id to at m),
)

promoted-floor :
    (ctx : AuthzContext) (c : StoredCandidate) (p : PartitionState) (to at : String) (m : Meta)
    (r s g : String)
    → check_window p c ≡ ok tt
    → state_eq (get_partition_state m ctx.repo_id ctx.scope_id c.gate_id) p ≡ true
    → (get_partition_state m r s g).window_floor
      ≤ (get_partition_state (promoted ctx c p to at m) r s g).window_floor
promoted-floor ctx c p to at m r s g h e = elim (window-cases p c h) [
  | inl current ↦ rw (get-promoted ctx c p to at m r s g) (rw current (omega arith))
  | inr (fresh, above) ↦
      elim (Bool-cases (ctx.repo_id == r && ctx.scope_id == s && c.gate_id == g)) [
        | inl own ↦ rw (get-promoted ctx c p to at m r s g) (rw (fresh, own) (rises own above))
        | inr other ↦ rw (get-promoted ctx c p to at m r s g) (rw (fresh, other) (omega arith))
      ]
]
  where
    rises :
        (ctx.repo_id == r && ctx.scope_id == s && c.gate_id == g) ≡ true
        → ltb p.window_floor c.window.1 ≡ true
        → (get_partition_state m r s g).window_floor ≤ c.window.1
    rises own above =
        let (er, es, eg) = same own in
        subst (λ x. x ≤ c.window.1) (λ i. (get_partition_state m (er i) (es i) (eg i)).window_floor)
          (ground arith)
      where
        same :
            (ctx.repo_id == r && ctx.scope_id == s && c.gate_id == g) ≡ true
            → (ctx.repo_id ≡ r) × (ctx.scope_id ≡ s) × (c.gate_id ≡ g)
        same own = ground (arith, eq_iff ctx.repo_id r, eq_iff ctx.scope_id s, eq_iff c.gate_id g)

-- What a promotion that passed has shown of the tables that it read
pub record Permitted (ctx : AuthzContext) (given to : String) (m : Meta) (c : StoredCandidate)
    : Type 0 where
  pub found : get_candidate m given ≡ ok c
  pub own_repo : c.repo_id ≡ ctx.repo_id
  pub own_scope : c.scope_id ≡ ctx.scope_id
  pub is_promotable : c.status ≡ ready true
  pub graph : GateGraph
  pub is_graph : get_gate_graph m ctx.repo_id ≡ some graph
  pub target : GateNode
  pub producing : GateNode
  pub leaves : Leaves m graph c target producing to
  pub is_approved : producing.required_approvals ≤ count_approvals m c.candidate_id

Passes-Permitted :
    (ctx : AuthzContext) (given to : String) (m : Meta) (c : StoredCandidate) (graph : GateGraph)
    (producing : GateNode)
    → Passes ctx given to m c graph producing
    → Permitted ctx given to m c
unfolding ensure_partition
Passes-Permitted ctx given to m c graph producing p =
    let (target, leaves) = leaving_gate-Leaves m graph c to producing p.leaves in
    let (repo, scope) = owns (check-ok _ other_partition p.covered) in
    record {
      found = p.found;
      own_repo = repo;
      own_scope = scope;
      is_promotable = check_promotable-ok c.status p.is_ready;
      graph = graph;
      is_graph = p.has_graph;
      target = target;
      producing = producing;
      leaves = leaves;
      is_approved =
          leb→le producing.required_approvals (count_approvals m c.candidate_id) p.is_approved;
    }
  where
    owns :
        (c.repo_id == ctx.repo_id && c.scope_id == ctx.scope_id) ≡ true
        → (c.repo_id ≡ ctx.repo_id) × (c.scope_id ≡ ctx.scope_id)
    owns h = ground (arith, eq_iff c.repo_id ctx.repo_id, eq_iff c.scope_id ctx.scope_id)

-- When `promote` answers ok, the tables that it read hold the candidate that was named: it belongs to the
-- partition of the context, is ready and promotable, and leaves a gate that it has reached, that stands
-- upstream of a target gate with the given id, and whose required approvals it has.
pub promote_over-Permitted :
    (ctx : AuthzContext) (given to at : String) (seen m : Meta)
    → (promote_over ctx given to at seen m).0 ≡ ok tt
    → (c : StoredCandidate) × Permitted ctx given to seen c
promote_over-Permitted ctx given to at seen m h =
    let (c, graph, producing, passes, ends) = promote_over-ok ctx given to at seen m h in
    (c, Passes-Permitted ctx given to seen c graph producing passes)

Ends-floor :
    (ctx : AuthzContext) (to at : String) (seen m after : Meta) (c : StoredCandidate)
    (r s g : String)
    → check_window (get_partition_state seen ctx.repo_id ctx.scope_id c.gate_id) c ≡ ok tt
    → Ends ctx to at seen m c after
    → (get_partition_state m r s g).window_floor ≤ (get_partition_state after r s g).window_floor
Ends-floor ctx to at seen m after c r s g w (inl (already, same)) = rw same (omega arith)
Ends-floor ctx to at seen m after c r s g w (inr (still, same)) =
    rw same (promoted-floor ctx c _ to at m r s g w still)

-- Whatever was written between the reads of `promote` and its commit, and whatever it answers, the window
-- floor of no partition falls.
pub promote_over-floor :
    (ctx : AuthzContext) (given to at : String) (seen m : Meta) (r s g : String)
    → (get_partition_state m r s g).window_floor
      ≤ (get_partition_state (promote_over ctx given to at seen m).1 r s g).window_floor
promote_over-floor ctx given to at seen m r s g =
    by_answer (promote_over ctx given to at seen m).0 refl
  where
    by_answer :
        (a : Answer Unit)
        → (promote_over ctx given to at seen m).0 ≡ a
        → (get_partition_state m r s g).window_floor
          ≤ (get_partition_state (promote_over ctx given to at seen m).1 r s g).window_floor
    by_answer (refuse why) h = rw (promote_over-refused ctx given to at seen m why h) (omega arith)
    by_answer (ok tt) h =
        let (c, graph, producing, passes, ends) = promote_over-ok ctx given to at seen m h in
        Ends-floor ctx to at seen m _ c r s g passes.advances ends
