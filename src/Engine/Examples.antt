-- ===== src/Engine/Examples.antt =====
-- A repo with a staged graph and one candidate, requests to the engine, and the theorems at them.
use convergence.Prelude.{
  ℕ, ◌≤◌, String, ◌≡◌, refl, Bool, true, false, none, some, List, [], ◌∷◌, if◌then◌else◌, ap,
}
use convergence.Gates.{GateNode, GateGraph}
use convergence.Records.{StoredCandidate, ready}
use convergence.Meta.{Meta, get_partition_state, list_promotions, count_approvals, get_gate_graph}
use convergence.Meta.Batch.{state_eq}
use convergence.Authz.{Capability, AuthzContext, as_str, same_capability}
use convergence.Authz.Examples.{no_rows}
use convergence.Engine.{
  ok, refuse, wrong_capability, advanced_concurrently, get_candidate, require, ensure_partition,
  resolve_candidate_prefix, check_promotable, reached_gates,
}
use convergence.Engine.Promote.{promote_over, promote, promotion, leaving_gate, check_window}
use convergence.Engine.Promote.Checks.{Passes}
use convergence.Engine.Promote.Effects.{promoted}
use convergence.Engine.Promote.Safety.{Permitted, promote_over-Permitted, promote_over-floor}
use convergence.Engine.Promote.Retry.{Settled, promote-retry}
use convergence.Engine.Promote.Race.{promote_over-guarded, promote_over-race}

abbrev gate : String → List String → ℕ → Bool → GateNode
gate id upstreams approvals may_release = record {
  gate_id = id;
  name = id;
  upstreams = upstreams;
  required_approvals = approvals;
  strategy = "whole-file";
  may_release = may_release;
}

abbrev pub graph : GateGraph
graph = record {
  gates =
      gate "intake" [] 1 false
      ∷ (gate "review" ("intake" ∷ []) 0 false ∷ (gate "out" ("review" ∷ []) 0 true ∷ []));
}

abbrev pub candidate : String → StoredCandidate
candidate id = record {
  candidate_id = id;
  repo_id = "repo";
  scope_id = "main";
  gate_id = "intake";
  inputs = "p1" ∷ [];
  root_manifest = some "m1";
  base_candidate_id = none;
  window = (1, 1);
  strategy = "whole-file";
  status = ready true;
  created_at = "2026-07-01T00:00:00Z";
}

abbrev pub tables : Meta
tables = record no_rows {
  gate_graphs = ("repo", graph) ∷ [];
  candidates = candidate "c1" ∷ (candidate "c2" ∷ []);
  approvals = ("c1", "ana") ∷ (("c2", "ana") ∷ []);
}

abbrev pub context : Capability → AuthzContext
context capability = record {
  subject = "ben";
  repo_id = "repo";
  scope_id = "main";
  capability = capability;
}

abbrev pub promoter : AuthzContext
promoter = context Capability.promote

first-Passes :
    Passes promoter "c1" "review" tables (candidate "c1") graph (gate "intake" [] 1 false)
unfolding require same_capability as_str get_candidate resolve_candidate_prefix ensure_partition
    check_promotable get_gate_graph leaving_gate reached_gates list_promotions count_approvals
    check_window get_partition_state
first-Passes = record {
  may_promote = refl;
  found = refl;
  covered = refl;
  is_ready = refl;
  has_graph = refl;
  leaves = refl;
  is_approved = refl;
  advances = refl;
}

second-Passes :
    Passes promoter "c2" "review" tables (candidate "c2") graph (gate "intake" [] 1 false)
unfolding require same_capability as_str get_candidate resolve_candidate_prefix ensure_partition
    check_promotable get_gate_graph leaving_gate reached_gates list_promotions count_approvals
    check_window get_partition_state
second-Passes = record {
  may_promote = refl;
  found = refl;
  covered = refl;
  is_ready = refl;
  has_graph = refl;
  leaves = refl;
  is_approved = refl;
  advances = refl;
}

abbrev after : Meta
after =
    promoted promoter (candidate "c1") (get_partition_state tables "repo" "main" "intake") "review"
      "t1" tables

promotes : promote_over promoter "c1" "review" "t1" tables tables ≡ (ok tt, after)
unfolding get_partition_state list_promotions
promotes =
    promote_over-guarded promoter "c1" "review" "t1" tables tables (candidate "c1") graph
      (gate "intake" [] 1 false) first-Passes refl

promote_over-guarded_example : promote_over promoter "c1" "review" "t1" tables tables ≡ (
    if state_eq
      (get_partition_state tables "repo" "main" "intake")
      (get_partition_state tables "repo" "main" "intake")
    then (ok tt, after)
    else (refuse advanced_concurrently, tables))
unfolding list_promotions
promote_over-guarded_example =
    promote_over-guarded promoter "c1" "review" "t1" tables tables (candidate "c1") graph
      (gate "intake" [] 1 false) first-Passes refl

promote_over-race_example :
    ((promote_over promoter "c1" "review" "t1" tables tables).0 ≡ ok tt)
    × (promote_over promoter "c2" "review" "t2" tables
          (promote_over promoter "c1" "review" "t1" tables tables).1
        ≡ (
          refuse advanced_concurrently,
          (promote_over promoter "c1" "review" "t1" tables tables).1,
        ))
unfolding list_promotions get_partition_state
promote_over-race_example =
    promote_over-race promoter promoter "c1" "review" "t1" "c2" "review" "t2" tables
      (candidate "c1") (candidate "c2") graph graph (gate "intake" [] 1 false)
      (gate "intake" [] 1 false) first-Passes second-Passes refl refl refl refl refl refl

promote_over-Permitted_example : (c : StoredCandidate) × Permitted promoter "c1" "review" tables c
promote_over-Permitted_example =
    promote_over-Permitted promoter "c1" "review" "t1" tables tables (ap (λ out. out.0) promotes)

promote_over-floor_example :
    (get_partition_state tables "repo" "main" "intake").window_floor
    ≤ (get_partition_state
        (promote_over promoter "c1" "review" "t1" tables tables).1
        "repo"
        "main"
        "intake").window_floor
promote_over-floor_example =
    promote_over-floor promoter "c1" "review" "t1" tables tables "repo" "main" "intake"

promote-ok : (promote promoter "c1" "review" "t1" tables).0 ≡ ok tt
unfolding promote
promote-ok = ap (λ out. out.0) promotes

promote-retry_example :
    (c : StoredCandidate) × (get_candidate tables "c1" ≡ ok c)
    × Settled promoter "c1" "review" "t2" tables c (promote promoter "c1" "review" "t1" tables).1
promote-retry_example = promote-retry promoter "c1" "review" "t1" "t2" tables promote-ok

lacks_promote :
    (promote_over (context Capability.approve) "c1" "review" "t1" tables tables).0
    ≡ refuse wrong_capability
unfolding promote_over promotion require same_capability as_str
lacks_promote = refl
