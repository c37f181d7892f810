-- ===== src/Gates/Cycle.antt =====
-- `find_cycle` of crates/converge-model/src/gates.rs: a depth-first walk with a colour map. White is
-- absence from the map. `walk` has fuel for each name that the graph mentions and one more.
pub mod Links
pub mod White
pub mod Walks
pub mod Exact
use convergence.Prelude.{
  ℕ, zero, suc, String, Option, none, some, List, [], ◌∷◌, ◌++◌, map, contains, length, lookup,
  insert, collect, sort, ◌==◌, if◌then◌else◌,
}
use convergence.Gates.{GateNode, GateGraph}

pub data Mark : Type 0 where
  grey black : Mark

abbrev pub Marks : Type 0
Marks = List (String × Mark)

abbrev pub Edges : Type 0
Edges = List (String × List String)

-- `downstream_of`, which maps a gate to its upstreams
abbrev pub gate_pairs : List GateNode → List (String × List String)
gate_pairs [] = []
gate_pairs (g ∷ gates) = (g.gate_id, g.upstreams) ∷ gate_pairs gates

abbrev pub edges_of : List GateNode → Edges
edges_of gates = collect (gate_pairs gates)

-- `edges.get(gate).into_iter().flatten()`
abbrev pub successors : Edges → String → List String
successors edges gate = elim (lookup gate edges) [ none ↦ [] | some next ↦ next ]

-- `exhausted` is the model's own: the fuel ran out.
pub data Walked : Type 0 where
  found : List String → Walked
  finished : Marks → Walked
  exhausted : Walked

-- `path[from..]`, where `from` is the position of `next`
abbrev pub suffix_from : String → List String → List String
suffix_from next [] = []
suffix_from next (x ∷ path) = if x == next then x ∷ path else suffix_from next path

-- `position` and its `unwrap_or(0)`, and the closing gate
abbrev pub close : List String → String → List String
close path next = (if contains path next then suffix_from next path else path) ++ (next ∷ [])

-- The loop over `next` in the body of `walk`; `visit` is the recursive call.
unfoldable pub scan : (String → Marks → Walked) → List String → List String → Marks → Walked
scan visit path [] marks = finished marks
scan visit path (next ∷ rest) marks = elim (lookup next marks) [
  | none ↦ elim (visit next marks) [
    | found cycle ↦ found cycle
    | finished after ↦ scan visit path rest after
    | exhausted ↦ exhausted
  ]
  | some mark ↦ elim mark [ grey ↦ found (close path next) | black ↦ scan visit path rest marks ]
]

-- `path.pop(); marks.insert(gate, Mark::Black); None`
abbrev pub blacken : String → Walked → Walked
blacken gate (found cycle) = found cycle
blacken gate (finished marks) = finished (insert gate black marks)
blacken gate exhausted = exhausted

unfoldable pub walk : ℕ → Edges → List String → String → Marks → Walked
unfolding scan
walk zero edges path gate marks = exhausted
walk (suc fuel) edges path gate marks = blacken gate (
    scan (walk fuel edges (path ++ (gate ∷ []))) (path ++ (gate ∷ [])) (successors edges gate)
      (insert gate grey marks))

-- `for root in roots`
unfoldable pub from_roots : (String → Marks → Walked) → List String → Marks → Walked
from_roots visit [] marks = finished marks
from_roots visit (root ∷ roots) marks = elim (lookup root marks) [
  | some mark ↦ from_roots visit roots marks
  | none ↦ elim (visit root marks) [
    | found cycle ↦ found cycle
    | finished after ↦ from_roots visit roots after
    | exhausted ↦ exhausted
  ]
]

-- Every name that the graph mentions.
abbrev pub names : List GateNode → List String
names [] = []
names (g ∷ gates) = g.gate_id ∷ (g.upstreams ++ names gates)

abbrev pub cycle_of : Walked → Option (List String)
cycle_of (found cycle) = some cycle
cycle_of (finished marks) = none
cycle_of exhausted = none

unfoldable pub walk_graph : GateGraph → Walked
unfolding walk from_roots
walk_graph graph =
    from_roots (walk (suc (length (names graph.gates))) (edges_of graph.gates) [])
      (sort (map (λ g. g.gate_id) graph.gates)) []

unfoldable pub find_cycle : GateGraph → Option (List String)
unfolding walk_graph
find_cycle graph = cycle_of (walk_graph graph)
