-- ===== src/Meta.antt =====
-- The metadata that the server keeps: the tables of crates/converge-server/src/meta_sqlite/schema.rs as
-- lists of rows in order of insertion, and the statements of meta_sqlite.rs over them. A column of a
-- record's JSON is the record. The batch operations are in `Batch`.
pub mod Batch
pub mod Partitions
pub mod Accounts
pub mod Objects
pub mod Collected
pub mod Events
use convergence.Prelude.{
  ℕ, suc, ◌+◌, String, Bool, true, false, not, ◌&&◌, ◌||◌, Option, none, some, List, [], ◌∷◌, ◌++◌,
  map, any, keep, find, length, contains, ltb, eqb, max, ◌==◌, opt_eq, if◌then◌else◌,
}
use convergence.Gates.{GateGraph}
use convergence.Records.{
  PublicationRecord, StoredCandidate, PartitionState, LaneRecord, LaneHead, ReleaseRecord,
  EventRecord, SnapRecord, TokenRecord, PublicKeyRecord, ObjectId,
}
use convergence.Retention.{RetentionPolicy}

pub record Grant : Type 0 where
  pub subject : String
  pub repo_id : String
  pub scope_pattern : String
  pub capability : String

pub record PublicationRow : Type 0 where
  pub seq : ℕ
  pub publication : PublicationRecord

pub record PartitionRow : Type 0 where
  pub repo_id : String
  pub scope_id : String
  pub gate_id : String
  pub state : PartitionState

pub record Promotion : Type 0 where
  pub candidate_id : String
  pub from_gate : String
  pub to_gate : String
  pub promoted_at : String

pub record SecretRecord : Type 0 where
  pub name : String
  pub owner : String
  pub recipients : List String
  pub ciphertext : String
  pub version : ℕ
  pub updated_at : String
  pub updated_by : String
  pub value_version : ℕ
  pub value_updated_at : String

-- A row of `object_repos`, and one of `object_pins`; the kind is the name of its directory.
pub record ObjectRow : Type 0 where
  pub repo_id : String
  pub kind : String
  pub object_id : ObjectId

pub record PinRow : Type 0 where
  pub object : ObjectRow
  pub pinned_at : ℕ

-- `event_seq` is the high-water mark that SQLite keeps for the AUTOINCREMENT key of the events.
pub record Meta : Type 0 where
  pub users : List String
  pub tokens : List (String × TokenRecord)
  pub public_keys : List (String × PublicKeyRecord)
  pub grants : List Grant
  pub repos : List String
  pub scopes : List (String × String)
  pub gate_graphs : List (String × GateGraph)
  pub publications : List PublicationRow
  pub candidates : List StoredCandidate
  pub approvals : List (String × String)
  pub lanes : List LaneRecord
  pub snap_records : List (String × SnapRecord)
  pub lane_heads : List (String × LaneHead)
  pub partitions : List PartitionRow
  pub events : List EventRecord
  pub releases : List ReleaseRecord
  pub promotions : List Promotion
  pub secrets : List (String × SecretRecord)
  pub event_seq : ℕ
  pub event_floors : List (String × ℕ)
  pub retention : List (String × RetentionPolicy)
  pub object_repos : List ObjectRow
  pub object_pins : List PinRow

-- `scope_exists`
unfoldable pub scope_exists : Meta → String → String → Bool
scope_exists m repo scope = any (λ (s : String × String). s.0 == repo && s.1 == scope) m.scopes

unfoldable pub repo_exists : Meta → String → Bool
repo_exists m repo = contains m.repos repo

abbrev pub graph_row : String → List (String × GateGraph) → Option GateGraph
graph_row repo [] = none
graph_row repo ((r, g) ∷ rows) =
    let rest = graph_row repo rows in if r == repo then some g else rest

-- `get_gate_graph`: `none` is the error that the repo has no graph.
unfoldable pub get_gate_graph : Meta → String → Option GateGraph
get_gate_graph m repo = graph_row repo m.gate_graphs

abbrev pub in_partition : String → String → String → PublicationRow → Bool
in_partition repo scope gate row =
    row.publication.repo_id == repo
    && row.publication.scope_id == scope
    && row.publication.target_gate_id == gate

-- `list_publications_after`; rows are inserted with a growing `seq`, which is the order of the query.
unfoldable pub list_publications_after : Meta → String → String → String → ℕ → List PublicationRow
list_publications_after m repo scope gate after =
    keep (λ row. in_partition repo scope gate row && ltb after row.seq) m.publications

abbrev pub is_partition : String → String → String → PartitionRow → Bool
is_partition repo scope gate row =
    row.repo_id == repo && row.scope_id == scope && row.gate_id == gate

-- `get_partition_state`: a missing row is the default state.
abbrev pub no_partition : PartitionState
no_partition = record { window_floor = 0; base_candidate_id = none }

abbrev pub state_of : Option PartitionRow → PartitionState
state_of none = no_partition
state_of (some row) = row.state

unfoldable pub get_partition_state : Meta → String → String → String → PartitionState
get_partition_state m repo scope gate = state_of (find (is_partition repo scope gate) m.partitions)

-- `INSERT … ON CONFLICT(repo_id, scope_id, gate_id) DO UPDATE`
abbrev pub upsert_partition :
    String → String → String → PartitionState → List PartitionRow → List PartitionRow
upsert_partition repo scope gate state [] =
    record { repo_id = repo; scope_id = scope; gate_id = gate; state = state } ∷ []
upsert_partition repo scope gate state (row ∷ rows) =
    let rest = upsert_partition repo scope gate state rows in
    if is_partition repo scope gate row then record row { state = state } ∷ rows else row ∷ rest

unfoldable pub set_partition_state : String → String → String → PartitionState → Meta → Meta
set_partition_state repo scope gate state m = record m {
  partitions = upsert_partition repo scope gate state m.partitions;
}

-- `(SELECT MAX(seq) …)` over the publications of a partition, 0 if there is none
abbrev pub max_seq : String → String → String → List PublicationRow → ℕ
max_seq repo scope gate [] = 0
max_seq repo scope gate (row ∷ rows) =
    let rest = max_seq repo scope gate rows in
    if in_partition repo scope gate row then max row.seq rest else rest

unfoldable pub next_seq : Meta → String → String → String → ℕ
next_seq m repo scope gate =
    max (max_seq repo scope gate m.publications)
      (get_partition_state m repo scope gate).window_floor
    + 1

-- `add_publication_conn`; the primary key refuses a `publication_id` that is there.
unfoldable pub add_publication : PublicationRecord → Meta → Option Meta
add_publication p m =
    if any (λ row. row.publication.publication_id == p.publication_id) m.publications
    then none
    else some (record m {
      publications =
          m.publications
          ++ (record { seq = next_seq m p.repo_id p.scope_id p.target_gate_id; publication = p }
              ∷ []);
    })

-- `put_candidate_conn`: a candidate that is there gets the new root and status alone.
abbrev pub upsert_candidate : StoredCandidate → List StoredCandidate → List StoredCandidate
upsert_candidate c [] = c ∷ []
upsert_candidate c (row ∷ rows) =
    let rest = upsert_candidate c rows in
    if row.candidate_id == c.candidate_id
    then record row { root_manifest = c.root_manifest; status = c.status } ∷ rows
    else row ∷ rest

unfoldable pub put_candidate : StoredCandidate → Meta → Meta
put_candidate c m = record m { candidates = upsert_candidate c m.candidates }

-- `record_promotion_conn`
unfoldable pub record_promotion : String → String → String → String → Meta → Meta
record_promotion candidate from to at m = record m {
  promotions =
      m.promotions
      ++ (record { candidate_id = candidate; from_gate = from; to_gate = to; promoted_at = at }
          ∷ []);
}

-- `list_promotions`: the gates that the candidate was promoted to, in order.
abbrev pub promoted_to : String → List Promotion → List String
promoted_to candidate [] = []
promoted_to candidate (p ∷ rows) =
    let rest = promoted_to candidate rows in
    if p.candidate_id == candidate then p.to_gate ∷ rest else rest

unfoldable pub list_promotions : Meta → String → List String
list_promotions m candidate = promoted_to candidate m.promotions

-- `add_event_conn`
unfoldable pub add_event : String → String → String → String → Meta → Meta
add_event repo kind subject at m = record m {
  events =
      m.events
      ++ (record {
        seq = m.event_seq + 1;
        repo_id = repo;
        kind = kind;
        subject_id = subject;
        created_at = at;
      }
          ∷ []);
  event_seq = m.event_seq + 1;
}

-- `add_approval`: INSERT OR IGNORE under the key (candidate, approver)
unfoldable pub add_approval : String → String → Meta → Meta
add_approval candidate approver m =
    if any (λ (a : String × String). a.0 == candidate && a.1 == approver) m.approvals
    then m
    else record m { approvals = m.approvals ++ ((candidate, approver) ∷ []) }

unfoldable pub count_approvals : Meta → String → ℕ
count_approvals m candidate = length (keep (λ (a : String × String). a.0 == candidate) m.approvals)

-- `add_release`, `list_releases`, `get_release`, `set_release_yanked`
unfoldable pub add_release : ReleaseRecord → Meta → Meta
add_release r m = record m { releases = m.releases ++ (r ∷ []) }

unfoldable pub list_releases : Meta → String → List ReleaseRecord
list_releases m repo = keep (λ r. r.repo_id == repo) m.releases

unfoldable pub get_release : Meta → String → String → Option ReleaseRecord
get_release m repo version = find (λ r. r.repo_id == repo && r.version == version) m.releases

-- The first row is read, and every row of the version is written with it.
unfoldable pub set_release_yanked : String → String → String → Meta → Meta × Bool
unfolding get_release
set_release_yanked repo version reason m = elim (get_release m repo version) [
  | none ↦ (m, false)
  | some r ↦ (
    record m {
      releases =
          map
            (λ row.
              if row.repo_id == repo && row.version == version
              then record r { yanked = true; yank_reason = some reason }
              else row)
            m.releases;
    },
    true,
  )
]
