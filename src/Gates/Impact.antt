-- ===== src/Gates/Impact.antt =====
-- What a change of the gate graph would do: the last part of crates/converge-model/src/gates.rs.
pub mod Strands
use convergence.Prelude.{
  is_nil, ℕ, String, Bool, true, false, not, ◌&&◌, none, some, List, [], ◌∷◌, ◌++◌, contains, any,
  all, keep, lookup, collect, keys, eqb, ◌==◌, Ordering, if◌then◌else◌, compare,
}
use convergence.Gates.{GateNode, GateGraph}

pub record GateOccupancy : Type 0 where
  pub gate_id : String
  pub candidates : ℕ
  pub open_publications : ℕ
  pub has_partition_state : Bool

-- `GateOccupancy::is_empty`
unfoldable pub is_vacant : GateOccupancy → Bool
is_vacant o = eqb o.candidates 0 && eqb o.open_publications 0 && not o.has_partition_state

pub record GraphImpact : Type 0 where
  pub added : List String
  pub removed : List String
  pub reparented : List (String × List String × List String)
  pub retuned : List String
  pub occupancy : List GateOccupancy

unfoldable pub strands_work : GraphImpact → Bool
strands_work impact = any (λ o. not (is_vacant o)) impact.occupancy

unfoldable pub is_noop : GraphImpact → Bool
is_noop impact =
    is_nil impact.added
    && is_nil impact.removed
    && is_nil impact.reparented
    && is_nil impact.retuned

abbrev pub Gates : Type 0
Gates = List (String × GateNode)

abbrev pub by_id : List GateNode → Gates
by_id [] = []
by_id (g ∷ gates) = (g.gate_id, g) ∷ by_id gates

abbrev pub gate_map : GateGraph → Gates
gate_map graph = collect (by_id graph.gates)

abbrev pub has_key : Gates → String → Bool
has_key m id = elim (lookup id m) [ none ↦ false | some g ↦ true ]

-- `before_up == after_up` on two `BTreeSet`s
abbrev pub same_set : List String → List String → Bool
same_set xs ys = all (contains ys) xs && all (contains xs) ys

abbrev pub bool_eq : Bool → Bool → Bool
bool_eq true b = b
bool_eq false b = not b

-- The settings that a retuning changes.
unfoldable pub same_settings : GateNode → GateNode → Bool
same_settings a b =
    eqb a.required_approvals b.required_approvals
    && a.strategy == b.strategy
    && bool_eq a.may_release b.may_release
    && a.name == b.name

-- `for (id, old_gate) in &old`, where the new graph has the gate still
unfoldable pub reparented_in : Gates → Gates → List (String × List String × List String)
reparented_in new [] = []
reparented_in new ((id, a) ∷ old) =
    let rest = reparented_in new old in
    elim (lookup id new) [
      | none ↦ rest
      | some b ↦
          if same_set a.upstreams b.upstreams then rest else (id, a.upstreams, b.upstreams) ∷ rest
    ]

unfoldable pub retuned_in : Gates → Gates → List String
retuned_in new [] = []
retuned_in new ((id, a) ∷ old) =
    let rest = retuned_in new old in
    elim (lookup id new) [
      | none ↦ rest
      | some b ↦
          if same_set a.upstreams b.upstreams
          then if same_settings a b then rest else id ∷ rest
          else rest
    ]

abbrev pub reparented_ids : List (String × List String × List String) → List String
reparented_ids [] = []
reparented_ids ((id, before, after) ∷ rest) = id ∷ reparented_ids rest

-- `sort_by(|a, b| a.gate_id.cmp(&b.gate_id))`, a stable sort
unfoldable pub place : GateOccupancy → List GateOccupancy → List GateOccupancy
place o [] = o ∷ []
place o (p ∷ rest) =
    let later = place o rest in
    elim (compare o.gate_id p.gate_id) [ Ordering.gt ↦ p ∷ later | _ ↦ o ∷ p ∷ rest ]

unfoldable pub sort_occupancy : List GateOccupancy → List GateOccupancy
sort_occupancy [] = []
sort_occupancy (o ∷ rest) = place o (sort_occupancy rest)

unfoldable pub impact_of : GateGraph → GateGraph → List GateOccupancy → GraphImpact
impact_of before after occupancy =
    let old : Gates = gate_map before in
    let new : Gates = gate_map after in
    let removed : List String = keep (λ id. not (has_key new id)) (keys old) in
    let reparented : List (String × List String × List String) = reparented_in new old in
    let disturbed : List String = removed ++ reparented_ids reparented in
    record {
      added = keep (λ id. not (has_key old id)) (keys new);
      removed = removed;
      reparented = reparented;
      retuned = retuned_in new old;
      occupancy = sort_occupancy (keep (λ o. contains disturbed o.gate_id) occupancy);
    }
