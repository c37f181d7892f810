-- ===== src/Engine/Promote/Retry.antt =====
-- A promotion that is asked for again.
use convergence.Prelude.{
  String, ◌≡◌, refl, ◌∙◌, sym, ap, subst, ◌⊎◌, inl, inr, Bool, true, false, ◌&&◌, ◌||◌, some, List,
  [], ◌∷◌, ◌++◌, contains, contains-append, find, leb, ◌==◌, arith, Bool-cases, eq_refl,
}
use convergence.Gates.{GateNode, GateGraph}
use convergence.Records.{StoredCandidate, PartitionState}
use convergence.Meta.{
  Meta, get_gate_graph, get_partition_state, set_partition_state, record_promotion, list_promotions,
  count_approvals,
}
use convergence.Meta.Partitions.{list-record_promotion}
use convergence.Authz.{AuthzContext}
use convergence.Engine.{
  Answer, ok, ◌>>=◌, get_candidate, resolve_candidate_prefix, reached_gates, find_gate, ok_or,
  unknown_target_gate, not_upstream, unknown_gate,
}
use convergence.Engine.Answers.{bind-ok, ok_or-ok}
use convergence.Engine.Promote.{
  is_current, check_window, advanced, leaving_gate, promote_over, promote, finish, done,
}
use convergence.Engine.Promote.Checks.{Passes, promotion-of_Passes, step_of}
use convergence.Engine.Promote.Effects.{promoted, Ends, promote_over-ok}
use convergence.Engine.Promote.Safety.{get-promoted}

find-append :
    {A : Type 0} (p : A → Bool) (xs ys : List A) (a : A)
    → find p xs ≡ some a
    → find p (xs ++ ys) ≡ some a
find-append p [] ys a h = cc
find-append p (x ∷ xs) ys a h = ground (arith, find-append p xs ys a)

-- What a promotion does not touch
module _ (ctx : AuthzContext) (c : StoredCandidate) (p : PartitionState) (to at : String)
    (m : Meta) where
  candidate-promoted :
      (given : String) → get_candidate (promoted ctx c p to at m) given ≡ get_candidate m given
  unfolding promoted get_candidate resolve_candidate_prefix record_promotion set_partition_state
  candidate-promoted given = elim (Bool-cases (is_current p c)) [ inl e ↦ rw e | inr e ↦ rw e ]

  graph-promoted :
      (repo : String) → get_gate_graph (promoted ctx c p to at m) repo ≡ get_gate_graph m repo
  unfolding promoted get_gate_graph record_promotion set_partition_state
  graph-promoted repo = elim (Bool-cases (is_current p c)) [ inl e ↦ rw e | inr e ↦ rw e ]

  approvals-promoted :
      (id : String) → count_approvals (promoted ctx c p to at m) id ≡ count_approvals m id
  unfolding promoted count_approvals record_promotion set_partition_state
  approvals-promoted id = elim (Bool-cases (is_current p c)) [ inl e ↦ rw e | inr e ↦ rw e ]

  list-promoted :
      list_promotions (promoted ctx c p to at m) c.candidate_id
      ≡ list_promotions m c.candidate_id ++ (to ∷ [])
  unfolding promoted list_promotions set_partition_state
  list-promoted = elim (Bool-cases (is_current p c)) [
    | inl e ↦ rw e (list-record_promotion c.candidate_id c.gate_id to at m)
    | inr e ↦ rw e (list-record_promotion c.candidate_id c.gate_id to at m)
  ]

  contains-promoted : contains (list_promotions (promoted ctx c p to at m) c.candidate_id) to ≡ true
  contains-promoted =
      rw list-promoted (rw (contains-append (list_promotions m c.candidate_id) (to ∷ []) to) last)
    where
      last : (contains (list_promotions m c.candidate_id) to || (to == to || false)) ≡ true
      last = ground (arith, eq_refl to)

leaving_gate-append :
    (m m' : Meta) (graph : GateGraph) (c : StoredCandidate) (to : String) (more : List String)
    (producing : GateNode)
    → reached_gates m' c ≡ reached_gates m c ++ more
    → leaving_gate m graph c to ≡ ok producing
    → leaving_gate m' graph c to ≡ ok producing
unfolding leaving_gate
leaving_gate-append m m' graph c to more producing e h =
    let (target, e1, h1) =
      bind-ok (ok_or unknown_target_gate (find_gate graph to)) onward producing h in
    let (from, e2, h2) =
      bind-ok (ok_or not_upstream (find (contains target.upstreams) (reached_gates m c))) leave
        producing h1 in
    rw (e1, e)
      (rw
        (find-append (contains target.upstreams) (reached_gates m c) more from
          (ok_or-ok not_upstream _ from e2))
        h2)
  where
    leave : String → Answer GateNode
    leave = λ from. ok_or unknown_gate (find_gate graph from)

    onward : GateNode → Answer GateNode
    onward = λ target.
        ok_or not_upstream (find (contains target.upstreams) (reached_gates m c)) >>= leave

is_current-promoted :
    (ctx : AuthzContext) (c : StoredCandidate) (to at : String) (m : Meta)
    → let p = get_partition_state m ctx.repo_id ctx.scope_id c.gate_id in
      is_current
        (get_partition_state (promoted ctx c p to at m) ctx.repo_id ctx.scope_id c.gate_id)
        c
      ≡ true
is_current-promoted ctx c to at m = elim (Bool-cases (is_current p c)) [
  | inl current ↦
      rw (get-promoted ctx c p to at m ctx.repo_id ctx.scope_id c.gate_id) (rw current current)
  | inr fresh ↦
      rw (get-promoted ctx c p to at m ctx.repo_id ctx.scope_id c.gate_id) (rw (fresh, own) here)
]
  where
    p : PartitionState
    p = get_partition_state m ctx.repo_id ctx.scope_id c.gate_id

    own :
        (ctx.repo_id == ctx.repo_id && ctx.scope_id == ctx.scope_id && c.gate_id == c.gate_id)
        ≡ true
    own = ground (arith, eq_refl ctx.repo_id, eq_refl ctx.scope_id, eq_refl c.gate_id)

    here : is_current (advanced c) c ≡ true
    here = ground (arith, eq_refl c.candidate_id)

check_window-of_current :
    (p : PartitionState) (c : StoredCandidate) → is_current p c ≡ true → check_window p c ≡ ok tt
unfolding check_window
check_window-of_current p c h = rw h

Passes-promoted :
    (ctx : AuthzContext) (given to at : String) (m : Meta) (c : StoredCandidate) (graph : GateGraph)
    (producing : GateNode)
    → Passes ctx given to m c graph producing
    → Passes ctx given to
        (promoted ctx c (get_partition_state m ctx.repo_id ctx.scope_id c.gate_id) to at m)
        c
        graph
        producing
unfolding reached_gates
Passes-promoted ctx given to at m c graph producing passes = record {
  may_promote = passes.may_promote;
  covered = passes.covered;
  is_ready = passes.is_ready;
  found = candidate-promoted ctx c p to at m given ∙ passes.found;
  has_graph = graph-promoted ctx c p to at m ctx.repo_id ∙ passes.has_graph;
  leaves =
      leaving_gate-append m _ graph c to (to ∷ []) producing
        (ap (λ gates. c.gate_id ∷ gates) (list-promoted ctx c p to at m)) passes.leaves;
  is_approved =
      ap (leb producing.required_approvals) (approvals-promoted ctx c p to at m c.candidate_id)
      ∙ passes.is_approved;
  advances = check_window-of_current _ c (is_current-promoted ctx c to at m);
}
  where
    p : PartitionState
    p = get_partition_state m ctx.repo_id ctx.scope_id c.gate_id

-- A candidate that passes and was promoted to the gate before: nothing is done.
promote-again :
    (ctx : AuthzContext) (given to at : String) (m : Meta) (c : StoredCandidate) (graph : GateGraph)
    (producing : GateNode)
    → Passes ctx given to m c graph producing
    → contains (list_promotions m c.candidate_id) to ≡ true
    → promote ctx given to at m ≡ (ok tt, m)
unfolding promote promote_over step_of
promote-again ctx given to at m c graph producing passes already =
    ap (finish m) (promotion-of_Passes ctx given to at m c graph producing passes ∙ ap ok step)
  where
    step : step_of ctx to at m c ≡ done
    step = rw already

-- After a promotion of `c` that left the tables `after`: they name the gate once more at most, and a
-- second request changes nothing.
pub Settled : AuthzContext → String → String → String → Meta → StoredCandidate → Meta → Type 0
Settled ctx given to later m c after =
    (contains (list_promotions after c.candidate_id) to ≡ true)
    × ((list_promotions after c.candidate_id ≡ list_promotions m c.candidate_id)
        ⊎ (list_promotions after c.candidate_id ≡ list_promotions m c.candidate_id ++ (to ∷ [])))
    × (promote ctx given to later after ≡ (ok tt, after))

Ends-Settled :
    (ctx : AuthzContext) (given to at later : String) (m after : Meta) (c : StoredCandidate)
    (graph : GateGraph) (producing : GateNode)
    → Passes ctx given to m c graph producing
    → Ends ctx to at m m c after
    → Settled ctx given to later m c after
unfolding Settled
Ends-Settled ctx given to at later m after c graph producing passes (inl (already, same)) =
    subst (Settled ctx given to later m c) (sym same)
      (already, inl refl, promote-again ctx given to later m c graph producing passes already)
Ends-Settled ctx given to at later m after c graph producing passes (inr (still, same)) =
    subst (Settled ctx given to later m c) (sym same) (
      contains-promoted ctx c p to at m,
      inr (list-promoted ctx c p to at m),
      promote-again ctx given to later _ c graph producing
          (Passes-promoted ctx given to at m c graph producing passes)
          (contains-promoted ctx c p to at m),
    )
  where
    p : PartitionState
    p = get_partition_state m ctx.repo_id ctx.scope_id c.gate_id

-- When `promote` answers ok, the candidate's promotions name the gate, they are those of before or those
-- and the gate, and a second request for the same promotion answers ok and changes nothing.
pub promote-retry :
    (ctx : AuthzContext) (given to at later : String) (m : Meta)
    → (promote ctx given to at m).0 ≡ ok tt
    → (c : StoredCandidate) × (get_candidate m given ≡ ok c)
      × Settled ctx given to later m c (promote ctx given to at m).1
unfolding promote
promote-retry ctx given to at later m h =
    let (c, graph, producing, passes, ends) = promote_over-ok ctx given to at m m h in
    (c, passes.found, Ends-Settled ctx given to at later m _ c graph producing passes ends)
