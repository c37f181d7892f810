-- ===== src/Gates/Examples.antt =====
-- A staged graph, a graph that turns in a circle, and the theorems at them.
use convergence.Prelude.{
  String, ◌≡◌, refl, ◌↔◌, Bool, true, false, none, some, List, [], ◌∷◌, contains, In, is_blank,
}
use convergence.Gates.{GateNode, GateGraph}
use convergence.Gates.Reachable.{reachable_from_entries, grows}
use convergence.Gates.Reachable.Exact.{Reaches, reachable_from_entries_iff}
use convergence.Gates.Cycle.{find_cycle, edges_of}
use convergence.Gates.Cycle.Links.{IsCycle, Grounded}
use convergence.Gates.Cycle.Exact.{find_cycle-none_iff, find_cycle_sound}
use convergence.Gates.Validate.{validate, node_faults, upstream_faults, unreachable}
use convergence.Gates.Validate.Legal.{IsLegal, validate-nil_iff}
use convergence.Gates.Impact.{GateOccupancy, is_vacant, strands_work, impact_of}
use convergence.Gates.Impact.Strands.{Disturbed, strands_work_iff}

abbrev pub gate : String → List String → Bool → GateNode
gate id upstreams may_release = record {
  gate_id = id;
  name = id;
  upstreams = upstreams;
  required_approvals = 1;
  strategy = "whole-file";
  may_release = may_release;
}

abbrev pub staged : GateGraph
staged = record {
  gates =
      gate "intake" [] false
      ∷ (gate "review" ("intake" ∷ []) false ∷ (gate "out" ("review" ∷ []) true ∷ []));
}

abbrev circular : GateGraph
circular = record {
  gates =
      gate "intake" [] false
      ∷ (gate "review" ("out" ∷ []) false ∷ (gate "out" ("review" ∷ []) true ∷ []));
}

abbrev shortened : GateGraph
shortened = record { gates = gate "intake" [] false ∷ (gate "out" ("intake" ∷ []) true ∷ []) }

abbrev occupancy : List GateOccupancy
occupancy =
    record {
      gate_id = "intake";
      candidates = 3;
      open_publications = 0;
      has_partition_state = false;
    }
    ∷ (record {
      gate_id = "review";
      candidates = 0;
      open_publications = 1;
      has_partition_state = true;
    }
        ∷ [])

staged_is_valid : validate staged ≡ []
unfolding validate find_cycle reachable_from_entries node_faults is_blank upstream_faults
    unreachable grows
staged_is_valid = refl

circle_found : find_cycle circular ≡ some ("out" ∷ ("review" ∷ ("out" ∷ [])))
unfolding find_cycle
circle_found = refl

validate-nil_iff_example : (validate staged ≡ []) ↔ IsLegal staged
validate-nil_iff_example = validate-nil_iff staged

find_cycle-none_iff_example :
    (find_cycle staged ≡ none)
    ↔ ((g : GateNode) → In g staged.gates → Grounded (edges_of staged.gates) g.gate_id)
find_cycle-none_iff_example = find_cycle-none_iff staged

find_cycle_sound_example : IsCycle (edges_of circular.gates) ("out" ∷ ("review" ∷ ("out" ∷ [])))
find_cycle_sound_example =
    find_cycle_sound circular ("out" ∷ ("review" ∷ ("out" ∷ []))) circle_found

reachable_from_entries_iff_example :
    (contains (reachable_from_entries staged) "out" ≡ true) ↔ Reaches staged.gates "out"
reachable_from_entries_iff_example = reachable_from_entries_iff staged "out"

strands_work_iff_example : (strands_work (impact_of staged shortened occupancy) ≡ true) ↔ (
    (o : GateOccupancy) × In o occupancy
    × (is_vacant o ≡ false)
    × Disturbed staged shortened o.gate_id)
strands_work_iff_example = strands_work_iff staged shortened occupancy
