-- ===== src/Engine/Publish.antt =====
-- What `publish` of crates/converge-server/src/engine/publish.rs works with: its input, what lies outside, the
-- identities of snaps and candidates (`compute_snap_id` of crates/converge-model/src/snap.rs, `candidate_hash`
-- of engine.rs), and `upload_snap_record` of engine/flow.rs.
pub mod Build
pub mod Handler
pub mod Window
pub mod Guarded
pub mod Folds
pub mod Admitted
pub mod Current
pub mod Published
pub mod Examples
use Prim.Native.Char.{code}
use convergence.Prelude.{
  ℕ, zero, suc, ◌+◌, ◌*◌, ◌/◌, ◌%◌, String, Bool, true, false, not, ◌&&◌, ◌||◌, Option, none, some,
  List, [], ◌∷◌, ◌++◌, map, any, find, length, ltb, max, ◌==◌, if◌then◌else◌,
}
use convergence.Gates.{GateGraph, GateNode}
use convergence.Records.{
  ObjectId, SnapRecord, PublicationRecord, StoredCandidate, PartitionState, CandidateStatus, ready,
  failed,
}
use convergence.Objects.{Store, has_manifest}
use convergence.Meta.{
  Meta, PublicationRow, repo_exists, get_gate_graph, get_partition_state, list_publications_after,
}
use convergence.Meta.Batch.{
  MetaOp, assert_partition_state, assert_publication_count, add_publication_op, put_candidate_op,
  add_event_op, apply_batch, BatchResult, committed, batch_conflict, batch_error,
}
use convergence.Authz.{AuthzContext, publish}
use convergence.Engine.{
  Refusal, Answer, ok, refuse, ◌>>=◌, ◌>>◌, ◌>>>◌, check, ok_or, require, get_candidate, find_gate,
  no_graph, unknown_gate, unknown_repo, not_uploaded, snap_mismatch, unknown_base, other_base,
  batch_failed, kept_losing,
}
use convergence.Engine.Lanes.{resolve_writable_lane}
use convergence.Engine.Pins.{unpin_tree}

pub record PublishInput : Type 0 where
  pub gate_id : String
  pub snap : SnapRecord
  pub base_candidate_id : Option String
  pub lane_id : Option String
  pub notes : Option String

-- An input of the merge: the lane, the tree that it was written against, and its tree
pub record MergeInput : Type 0 where
  pub lane : String
  pub base : Option ObjectId
  pub tree : ObjectId

-- What the merge of a window comes to: a root and whether it holds superpositions, or an error's text
pub data Merged : Type 0 where
  merged : ObjectId → Bool → Merged
  merge_failed : String → Merged

-- What lies outside: the BLAKE3 digest of bytes in hex, the object store, and the merge of a window
-- onto a root under a strategy (crates/converge-server/src/merge.rs), and the text of an error.
pub record World : Type 0 where
  pub digest : List ℕ → String
  pub objects : Store
  pub merge : Option ObjectId → List MergeInput → String → Merged
  pub error_text : Refusal → String

-- `as_bytes`: the UTF-8 encoding
abbrev pub utf8_char : ℕ → List ℕ
utf8_char c =
    if ltb c 0x80
    then c ∷ []
    else if ltb c 0x800
    then (0xc0 + c / 64) ∷ ((0x80 + c % 64) ∷ [])
    else if ltb c 0x10000
    then (0xe0 + c / 4096) ∷ ((0x80 + (c / 64) % 64) ∷ ((0x80 + c % 64) ∷ []))
    else (0xf0 + c / 262144)
      ∷ ((0x80 + (c / 4096) % 64) ∷ ((0x80 + (c / 64) % 64) ∷ ((0x80 + c % 64) ∷ [])))

unfoldable pub as_bytes : String → List ℕ
as_bytes String.[] = []
as_bytes (String.◌∷◌ c rest) = utf8_char (code c) ++ as_bytes rest

-- `(n as u64).to_le_bytes()`: `places` digits to the base 256, the low one first
unfoldable pub le_bytes : ℕ → ℕ → List ℕ
le_bytes zero n = []
le_bytes (suc places) n = (n % 256) ∷ le_bytes places (n / 256)

abbrev pub all_bytes : List String → List ℕ
all_bytes [] = []
all_bytes (text ∷ texts) = as_bytes text ++ all_bytes texts

-- A text behind its length
abbrev pub sized_bytes : String → List ℕ
sized_bytes text = le_bytes 8 (length (as_bytes text)) ++ as_bytes text

abbrev pub parents_bytes : List String → List ℕ
parents_bytes [] = []
parents_bytes (p ∷ parents) = sized_bytes p ++ parents_bytes parents

abbrev pub derived_bytes : Option String → List ℕ
derived_bytes none = 0 ∷ sized_bytes ""
derived_bytes (some candidate) = 1 ∷ sized_bytes candidate

-- What `compute_snap_id` feeds the hasher
unfoldable pub snap_bytes : ObjectId → List String → Option String → List ℕ
unfolding as_bytes le_bytes
snap_bytes root parents derived =
    as_bytes "converge-snap-v4\n"
    ++ (as_bytes root
        ++ (as_bytes "\n"
            ++ (le_bytes 8 (length parents)
                ++ (parents_bytes parents ++ (as_bytes "\n" ++ derived_bytes derived)))))

unfoldable pub compute_snap_id : World → ObjectId → List String → Option String → String
unfolding snap_bytes
compute_snap_id world root parents derived = world.digest (snap_bytes root parents derived)

abbrev pub texts_of : Option String → List String
texts_of none = []
texts_of (some text) = text ∷ []

unfoldable pub candidate_hash :
    World → String → Option ObjectId → List String → String → Option ObjectId → String
unfolding as_bytes
candidate_hash world gate w_root input_ids strategy root =
    world.digest (all_bytes ((gate ∷ texts_of w_root) ++ (input_ids ++ (strategy ∷ texts_of root))))

-- `put_snap_record`: INSERT OR REPLACE, the row is the last
abbrev pub other_snap : String → String → List (String × SnapRecord) → List (String × SnapRecord)
other_snap repo id [] = []
other_snap repo id ((r, s) ∷ rows) =
    let rest = other_snap repo id rows in if r == repo && s.id == id then rest else (r, s) ∷ rest

unfoldable pub put_snap_record : String → SnapRecord → Meta → Meta
put_snap_record repo snap m = record m {
  snap_records = other_snap repo snap.id m.snap_records ++ ((repo, snap) ∷ []);
}

unfoldable pub check_snap : World → SnapRecord → Answer Unit
unfolding compute_snap_id has_manifest
check_snap world snap = do
  check
      (compute_snap_id world snap.root_manifest snap.parents snap.derived_from_candidate == snap.id)
      snap_mismatch
  check (has_manifest world.objects snap.root_manifest) not_uploaded

abbrev pub uploaded : Answer Unit → AuthzContext → SnapRecord → Meta → Answer Unit × Meta
uploaded (refuse r) ctx snap m = (refuse r, m)
uploaded (ok u) ctx snap m = (ok tt, put_snap_record ctx.repo_id snap m)

unfoldable pub upload_snap_record : World → AuthzContext → SnapRecord → Meta → Answer Unit × Meta
unfolding check_snap put_snap_record
upload_snap_record world ctx snap m = uploaded (check_snap world snap) ctx snap m
