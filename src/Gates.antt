-- ===== src/Gates.antt =====
-- The gate graph (crates/converge-model/src/wire.rs) and the faults that a graph is refused for
-- (crates/converge-model/src/gates.rs). The checks and their proofs are in the modules below.
pub mod Reachable
pub mod Cycle
pub mod Validate
pub mod Impact
pub mod Examples
use convergence.Prelude.{ℕ, String, Bool, List, [], ◌∷◌, format, join}

pub record GateNode : Type 0 where
  pub gate_id : String
  pub name : String
  pub upstreams : List String
  pub required_approvals : ℕ
  pub strategy : String
  pub may_release : Bool

pub record GateGraph : Type 0 where
  pub gates : List GateNode

-- `STRATEGIES`
abbrev pub strategies : List String
strategies = "whole-file" ∷ "text-line-merge" ∷ []

pub data GraphFault : Type 0 where
  empty : GraphFault
  duplicate_gate : String → GraphFault
  unknown_upstream : String → String → GraphFault
  self_upstream : String → GraphFault
  cycle : List String → GraphFault
  no_entry_gate : GraphFault
  unknown_strategy : String → String → GraphFault
  unreachable_release : String → GraphFault
  empty_gate_id : GraphFault

-- `impl Display for GraphFault`
unfoldable pub describe : GraphFault → String
describe empty = "a gate graph needs at least one gate"
describe empty_gate_id = "a gate id cannot be empty"
describe (duplicate_gate gate) = format ("gate " ∷ gate ∷ " is declared more than once" ∷ [])
describe (unknown_upstream gate upstream) =
    format
      ("gate " ∷ gate ∷ " names upstream " ∷ upstream ∷ ", which is not a gate in this graph" ∷ [])
describe (self_upstream gate) = format ("gate " ∷ gate ∷ " lists itself as its own upstream" ∷ [])
describe (cycle gates) = format (
    "gates "
    ∷ join " -> " gates
    ∷ " form a cycle; promotion walks upstreams and would not terminate"
    ∷ [])
describe no_entry_gate =
    "every gate has an upstream, so there is nowhere to publish; at least one gate must have none"
describe (unknown_strategy gate strategy) = format (
    "gate "
    ∷ gate
    ∷ " uses strategy "
    ∷ strategy
    ∷ ", which is not one of: "
    ∷ join ", " strategies
    ∷ [])
describe (unreachable_release gate) =
    format ("gate " ∷ gate ∷ " may release but nothing can reach it from an entry gate" ∷ [])
