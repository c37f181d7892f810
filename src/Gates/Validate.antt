-- ===== src/Gates/Validate.antt =====
-- `validate` of crates/converge-model/src/gates.rs: every fault of a graph, in the order in which the
-- code pushes them.
pub mod Nodes
pub mod Legal
use convergence.Prelude.{
  is_nil, String, Bool, true, false, not, Option, none, some, List, [], ◌∷◌, ◌++◌, contains, any,
  is_blank, ◌==◌, if◌then◌else◌,
}
use convergence.Gates.{
  GateNode, GateGraph, GraphFault, empty, duplicate_gate, unknown_upstream, self_upstream, cycle,
  no_entry_gate, unknown_strategy, unreachable_release, empty_gate_id, strategies,
}
use convergence.Gates.Reachable.{entries, reachable_from_entries}
use convergence.Gates.Cycle.{find_cycle}

-- The body of the first loop, for one gate; `seen` is what stands before it.
unfoldable pub node_faults : List String → GateNode → List GraphFault
node_faults seen g =
    if is_blank g.gate_id
    then empty_gate_id ∷ []
    else (if contains seen g.gate_id then duplicate_gate g.gate_id ∷ [] else [])
      ++ (if contains strategies g.strategy then [] else unknown_strategy g.gate_id g.strategy ∷ [])

-- The first loop: the faults, and `seen` at its end.
unfoldable pub check_nodes : List GateNode → List String → List GraphFault × List String
check_nodes [] seen = ([], seen)
check_nodes (g ∷ gates) seen =
    let (faults, all) = check_nodes gates (if is_blank g.gate_id then seen else g.gate_id ∷ seen) in
    (node_faults seen g ++ faults, all)

unfoldable pub upstream_faults : List String → String → List String → List GraphFault
upstream_faults seen gate [] = []
upstream_faults seen gate (u ∷ upstreams) =
    (if u == gate
      then self_upstream gate ∷ []
      else if contains seen u
      then []
      else unknown_upstream gate u ∷ [])
    ++ upstream_faults seen gate upstreams

-- The second loop.
unfoldable pub check_upstreams : List String → List GateNode → List GraphFault
check_upstreams seen [] = []
check_upstreams seen (g ∷ gates) =
    upstream_faults seen g.gate_id g.upstreams ++ check_upstreams seen gates

abbrev pub is_unknown_upstream : GraphFault → Bool
is_unknown_upstream (unknown_upstream gate upstream) = true
is_unknown_upstream _ = false

abbrev pub is_cycle : GraphFault → Bool
is_cycle (cycle gates) = true
is_cycle _ = false

abbrev pub cycle_fault : Option (List String) → List GraphFault
cycle_fault none = []
cycle_fault (some gates) = cycle gates ∷ []

-- A cycle is looked for only once every upstream is known.
unfoldable pub check_cycle : GateGraph → List GraphFault → List GraphFault
check_cycle graph faults =
    if any is_unknown_upstream faults then [] else cycle_fault (find_cycle graph)

unfoldable pub unreachable : List String → List GateNode → List GraphFault
unreachable reachable [] = []
unreachable reachable (g ∷ gates) =
    (if g.may_release
      then if contains reachable g.gate_id then [] else unreachable_release g.gate_id ∷ []
      else [])
    ++ unreachable reachable gates

-- Release gates are checked only in a graph that has an entry and no cycle.
unfoldable pub check_releases : GateGraph → List GraphFault → List GraphFault
check_releases graph faults =
    if is_nil (entries graph.gates)
    then no_entry_gate ∷ []
    else if any is_cycle faults
    then []
    else unreachable (reachable_from_entries graph) graph.gates

unfoldable pub validate : GateGraph → List GraphFault
unfolding check_nodes check_upstreams check_cycle check_releases
validate graph =
    if is_nil graph.gates
    then empty ∷ []
    else let (nodes, seen) = check_nodes graph.gates [] in
      let edges : List GraphFault = nodes ++ check_upstreams seen graph.gates in
      let cycles : List GraphFault = edges ++ check_cycle graph edges in
      cycles ++ check_releases graph cycles
