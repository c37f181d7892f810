-- ===== src/Engine/Publish/Build.antt =====
-- `build_candidate` of crates/converge-server/src/engine/publish.rs.
use convergence.Prelude.{ℕ, String, not, Option, none, some, List, [], ◌∷◌, map}
use convergence.Gates.{GateNode}
use convergence.Records.{ObjectId, StoredCandidate, PartitionState, CandidateStatus, ready, failed}
use convergence.Meta.{Meta, PublicationRow, get_gate_graph}
use convergence.Authz.{AuthzContext}
use convergence.Engine.{Answer, ok, refuse, ◌>>=◌, ok_or, get_candidate, find_gate, no_graph}
use convergence.Engine.Publish.{MergeInput, Merged, merged, merge_failed, World, candidate_hash}

-- `get_candidate(id)?.root_manifest` of a base that is named
unfoldable pub base_root : Meta → Option String → Answer (Option ObjectId)
base_root m none = ok none
base_root m (some id) = do c ← get_candidate m id; ok c.root_manifest

-- Collecting the inputs stops at the first base that is gone.
unfoldable pub merge_inputs : Meta → List PublicationRow → Answer (List MergeInput)
unfolding base_root
merge_inputs m [] = ok []
merge_inputs m (row ∷ rows) = do
  base ← base_root m row.publication.base_candidate_id
  rest ← merge_inputs m rows
  ok (
      record { lane = row.publication.lane_id; base = base; tree = row.publication.root_manifest }
      ∷ rest)

abbrev pub first_seq : List PublicationRow → ℕ
first_seq [] = 0
first_seq (row ∷ rows) = row.seq

abbrev pub last_seq : List PublicationRow → ℕ
last_seq [] = 0
last_seq (row ∷ []) = row.seq
last_seq (row ∷ (next ∷ rows)) = last_seq (next ∷ rows)

abbrev pub strategy_of : Option GateNode → String
strategy_of none = "whole-file"
strategy_of (some gate) = gate.strategy

abbrev pub ids_of : List PublicationRow → List String
ids_of rows = map (λ row. row.publication.publication_id) rows

abbrev pub merged_window : World → Option ObjectId → String → Answer (List MergeInput) → Merged
merged_window world w_root strategy (refuse r) = merge_failed (world.error_text r)
merged_window world w_root strategy (ok inputs) = world.merge w_root inputs strategy

abbrev pub root_of : Merged → Option ObjectId
root_of (merged root superposed) = some root
root_of (merge_failed reason) = none

abbrev pub status_of : Merged → CandidateStatus
status_of (merged root superposed) = ready (not superposed)
status_of (merge_failed reason) = failed reason

unfoldable pub built :
    World
    → AuthzContext
    → String
    → PartitionState
    → List PublicationRow
    → String
    → Option ObjectId
    → String
    → Merged
    → StoredCandidate
unfolding candidate_hash
built world ctx gate p window strategy w_root at outcome = record {
  candidate_id = candidate_hash world gate w_root (ids_of window) strategy (root_of outcome);
  repo_id = ctx.repo_id;
  scope_id = ctx.scope_id;
  gate_id = gate;
  inputs = ids_of window;
  root_manifest = root_of outcome;
  base_candidate_id = p.base_candidate_id;
  window = (first_seq window, last_seq window);
  strategy = strategy;
  status = status_of outcome;
  created_at = at;
}

unfoldable pub build_candidate :
    World
    → AuthzContext
    → String
    → PartitionState
    → List PublicationRow
    → String
    → Meta
    → Answer StoredCandidate
unfolding built merge_inputs base_root
build_candidate world ctx gate p window at m = do
  graph ← ok_or no_graph (get_gate_graph m ctx.repo_id)
  w_root ← base_root m p.base_candidate_id
  let strategy = strategy_of (find_gate graph gate)
  ok (
      built world ctx gate p window strategy w_root at
        (merged_window world w_root strategy (merge_inputs m window)))
