-- ===== src/Gates/Reachable.antt =====
-- `reachable_from_entries` of crates/converge-model/src/gates.rs. The loop `settle` has fuel for
-- one round more than there are gates; the exactness below shows that it never runs out.
pub mod Exact
use convergence.Prelude.{
  ℕ, zero, suc, String, Bool, true, false, not, ◌&&◌, List, [], ◌∷◌, map, contains, any, keep,
  length, is_nil, if◌then◌else◌,
}
use convergence.Gates.{GateNode, GateGraph}

abbrev pub entries : List GateNode → List GateNode
entries gates = keep (λ g. is_nil g.upstreams) gates

-- A gate that the loop's body adds: not there yet, and with an upstream that is.
unfoldable pub grows : List String → GateNode → Bool
grows reachable g = not (contains reachable g.gate_id) && any (contains reachable) g.upstreams

-- One round: `for gate in &graph.gates`, with `grew`.
unfoldable pub round : List GateNode → List String → Bool → List String × Bool
round [] reachable grew = (reachable, grew)
round (g ∷ gates) reachable grew =
    let added = grows reachable g in
    round gates (if added then g.gate_id ∷ reachable else reachable) (if added then true else grew)

unfoldable pub settle : ℕ → List GateNode → List String → List String
settle zero gates reachable = reachable
settle (suc fuel) gates reachable =
    let (reachable', grew) = round gates reachable false in
    let again = settle fuel gates reachable' in if grew then again else reachable'

unfoldable pub reachable_from_entries : GateGraph → List String
unfolding round settle
reachable_from_entries graph =
    settle (suc (length graph.gates)) graph.gates (map (λ g. g.gate_id) (entries graph.gates))
