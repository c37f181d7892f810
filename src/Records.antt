-- ===== src/Records.antt =====
-- The records that the server stores and sends: crates/converge-model/src/wire.rs, snap.rs, and
-- crates/converge-server/src/storage.rs. An `ObjectId` is its text.
use convergence.Prelude.{ℕ, String, Bool, Option, List}

abbrev pub ObjectId : Type 0
ObjectId = String

pub record PublicationRecord : Type 0 where
  pub publication_id : String
  pub snap_id : String
  pub root_manifest : ObjectId
  pub base_candidate_id : Option String
  pub snap_parents : List String
  pub repo_id : String
  pub scope_id : String
  pub target_gate_id : String
  pub lane_id : String
  pub publisher : String
  pub created_at : String
  pub notes : Option String

pub data CandidateStatus : Type 0 where
  building : CandidateStatus
  ready : Bool → CandidateStatus
  failed : String → CandidateStatus

pub record StoredCandidate : Type 0 where
  pub candidate_id : String
  pub repo_id : String
  pub scope_id : String
  pub gate_id : String
  pub inputs : List String
  pub root_manifest : Option ObjectId
  pub base_candidate_id : Option String
  pub window : ℕ × ℕ
  pub strategy : String
  pub status : CandidateStatus
  pub created_at : String

pub record PartitionState : Type 0 where
  pub window_floor : ℕ
  pub base_candidate_id : Option String

pub record LaneRecord : Type 0 where
  pub lane_id : String
  pub repo_id : String
  pub owner : String
  pub members : List String
  pub visibility : String
  pub created_at : String

pub record LaneHead : Type 0 where
  pub lane_id : String
  pub snap_id : String
  pub updated_at : String

pub record ReleaseRecord : Type 0 where
  pub version : String
  pub yanked : Bool
  pub yank_reason : Option String
  pub repo_id : String
  pub scope_id : String
  pub candidate_id : String
  pub released_by : String
  pub notes : Option String
  pub created_at : String

pub record EventRecord : Type 0 where
  pub seq : ℕ
  pub repo_id : String
  pub kind : String
  pub subject_id : String
  pub created_at : String

pub record SnapStats : Type 0 where
  pub files : ℕ
  pub dirs : ℕ
  pub symlinks : ℕ
  pub bytes : ℕ

pub record SnapRecord : Type 0 where
  pub version : ℕ
  pub id : String
  pub created_at : String
  pub root_manifest : ObjectId
  pub parents : List String
  pub derived_from_candidate : Option String
  pub message : Option String
  pub trigger : String
  pub stats : SnapStats

pub record TokenRecord : Type 0 where
  pub token_id : String
  pub subject : String
  pub label : String
  pub issued_at : String
  pub issued_by : String
  pub repo_id : String
  pub expires_at : String
  pub last_used_at : String
  pub revoked_at : String
  pub revoked_by : String
  pub revoked_reason : String
  pub capabilities : List String

pub record PublicKeyRecord : Type 0 where
  pub key_id : String
  pub subject : String
  pub public_key : String
  pub label : String
  pub created_at : String
