-- ===== src/Meta/Batch.antt =====
-- The atomic batch: `MetaOp` of crates/converge-server/src/storage.rs, `apply_op_conn` of
-- meta_sqlite/ops.rs, and `apply_batch` of meta_sqlite.rs.
use convergence.Prelude.{
  ℕ, String, Bool, true, false, not, ◌&&◌, Option, none, some, List, [], ◌∷◌, ◌++◌, find, length,
  is_nil, eqb, ◌==◌, opt_eq, if◌then◌else◌,
}
use convergence.Gates.{GateNode, GateGraph}
use convergence.Records.{PublicationRecord, StoredCandidate, PartitionState}
use convergence.Meta.{
  Meta, SecretRecord, add_publication, put_candidate, set_partition_state, record_promotion,
  add_event, get_partition_state, list_publications_after, graph_row,
}

pub data MetaOp : Type 0 where
  add_publication_op : PublicationRecord → MetaOp
  put_candidate_op : StoredCandidate → MetaOp
  set_partition_state_op : String → String → String → PartitionState → MetaOp
  record_promotion_op : String → String → String → String → MetaOp
  add_event_op : String → String → String → String → MetaOp
  assert_partition_state : String → String → String → PartitionState → MetaOp
  put_secret : String → SecretRecord → MetaOp
  assert_secret_version : String → String → String → ℕ → MetaOp
  set_gate_graph : String → GateGraph → MetaOp
  assert_gate_graph : String → GateGraph → MetaOp
  assert_publication_count : String → String → String → ℕ → ℕ → MetaOp

-- `conflict` is a `BatchConflict`; `refused` is any other error.
pub data Applied : Type 0 where
  applied : Meta → Applied
  conflict : Applied
  refused : Applied

abbrev pub strings_eq : List String → List String → Bool
strings_eq [] [] = true
strings_eq (x ∷ xs) (y ∷ ys) = x == y && strings_eq xs ys
strings_eq _ _ = false

abbrev pub flag_eq : Bool → Bool → Bool
flag_eq true b = b
flag_eq false b = not b

-- The derived `PartialEq` of `GateNode` and `GateGraph`
abbrev pub node_eq : GateNode → GateNode → Bool
node_eq a b =
    a.gate_id == b.gate_id
    && a.name == b.name
    && strings_eq a.upstreams b.upstreams
    && eqb a.required_approvals b.required_approvals
    && a.strategy == b.strategy
    && flag_eq a.may_release b.may_release

abbrev pub nodes_eq : List GateNode → List GateNode → Bool
nodes_eq [] [] = true
nodes_eq (x ∷ xs) (y ∷ ys) = node_eq x y && nodes_eq xs ys
nodes_eq _ _ = false

abbrev pub state_eq : PartitionState → PartitionState → Bool
state_eq a b = eqb a.window_floor b.window_floor && opt_eq a.base_candidate_id b.base_candidate_id

abbrev pub is_secret : String → String → String → (String × SecretRecord) → Bool
is_secret repo owner name (r, s) = r == repo && s.owner == owner && s.name == name

abbrev pub version_of : Option (String × SecretRecord) → ℕ
version_of none = 0
version_of (some (r, s)) = s.version

-- `INSERT OR REPLACE`: the old row goes, the new one is the last.
abbrev pub without_secret :
    String → String → String → List (String × SecretRecord) → List (String × SecretRecord)
without_secret repo owner name [] = []
without_secret repo owner name (row ∷ rows) =
    let rest = without_secret repo owner name rows in
    if is_secret repo owner name row then rest else row ∷ rest

abbrev pub upsert_graph : String → GateGraph → List (String × GateGraph) → List (String × GateGraph)
upsert_graph repo graph [] = (repo, graph) ∷ []
upsert_graph repo graph ((r, g) ∷ rows) =
    let rest = upsert_graph repo graph rows in
    if r == repo then (repo, graph) ∷ rows else (r, g) ∷ rest

abbrev pub graph_matches : Option GateGraph → GateGraph → Bool
graph_matches none expected = is_nil expected.gates
graph_matches (some g) expected = nodes_eq g.gates expected.gates

unfoldable pub apply_op : MetaOp → Meta → Applied
apply_op (add_publication_op p) m = elim (add_publication p m) [
  | none ↦ refused
  | some m' ↦ applied m'
]
apply_op (put_candidate_op c) m = applied (put_candidate c m)
apply_op (set_partition_state_op repo scope gate state) m =
    applied (set_partition_state repo scope gate state m)
apply_op (record_promotion_op candidate from to at) m =
    applied (record_promotion candidate from to at m)
apply_op (add_event_op repo kind subject at) m = applied (add_event repo kind subject at m)
apply_op (assert_partition_state repo scope gate expected) m =
    if state_eq (get_partition_state m repo scope gate) expected then applied m else conflict
apply_op (put_secret repo s) m =
    applied
      (record m { secrets = without_secret repo s.owner s.name m.secrets ++ ((repo, s) ∷ []) })
apply_op (assert_secret_version repo owner name expected) m =
    if eqb (version_of (find (is_secret repo owner name) m.secrets)) expected
    then applied m
    else conflict
apply_op (set_gate_graph repo graph) m =
    applied (record m { gate_graphs = upsert_graph repo graph m.gate_graphs })
apply_op (assert_gate_graph repo expected) m =
    if graph_matches (graph_row repo m.gate_graphs) expected then applied m else refused
apply_op (assert_publication_count repo scope gate after expected) m =
    if eqb (length (list_publications_after m repo scope gate after)) expected
    then applied m
    else conflict

-- The loop of `apply_batch` inside its transaction: the first failure ends it.
unfoldable pub apply_ops : List MetaOp → Meta → Applied
apply_ops [] m = applied m
apply_ops (op ∷ ops) m = elim (apply_op op m) [
  | applied m' ↦ apply_ops ops m'
  | conflict ↦ conflict
  | refused ↦ refused
]

pub data BatchResult : Type 0 where
  committed batch_conflict batch_error : BatchResult

-- `apply_batch`: a failure rolls the transaction back.
abbrev pub settle_batch : Meta → Applied → Meta × BatchResult
settle_batch m (applied m') = (m', committed)
settle_batch m conflict = (m, batch_conflict)
settle_batch m refused = (m, batch_error)

unfoldable pub apply_batch : List MetaOp → Meta → Meta × BatchResult
unfolding apply_ops apply_op
apply_batch ops m = settle_batch m (apply_ops ops m)
