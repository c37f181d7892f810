-- ===== src/Gc/Roots.antt =====
-- The roots that `gc` of crates/converge-server/src/gc.rs marks from: candidates, publications, lineages of lane
-- heads and releases of every repo. They are collected before they are marked: marking writes no tables.
pub mod Members
pub mod Lineage
pub mod Complete
use convergence.Prelude.{
  ℕ, zero, suc, ◌+◌, String, Bool, ◌&&◌, Option, none, some, List, [], ◌∷◌, ◌++◌, contains, ◌==◌,
  if◌then◌else◌,
}
use convergence.Records.{ObjectId, StoredCandidate, LaneRecord, LaneHead, ReleaseRecord, SnapRecord}
use convergence.Meta.{Meta, PublicationRow, list_publications_after, list_releases}
use convergence.Meta.Collected.{list_lanes, get_lane_head, candidate_ids, list_partitions}
use convergence.Engine.{Answer, ok, refuse, ◌>>=◌, ok_or, get_candidate, out_of_fuel}
use convergence.Engine.Lanes.{get_snap_record, extend, parents_of, all_parents}

-- What retention drops from the repo that triggered the run
pub record Drops : Type 0 where
  pub repo : String
  pub releases : List String
  pub candidates : List String
  pub publications : List String

unfoldable pub read_candidates : Meta → List String → Answer (List StoredCandidate)
read_candidates m [] = ok []
read_candidates m (id ∷ ids) = do
  c ← get_candidate m id
  rest ← read_candidates m ids
  ok (c ∷ rest)

-- `list_candidates_all_scopes`
unfoldable pub list_candidates : Meta → String → Answer (List StoredCandidate)
unfolding read_candidates
list_candidates m repo = read_candidates m (candidate_ids m repo)

abbrev pub root_of : Option ObjectId → List ObjectId
root_of none = []
root_of (some root) = root ∷ []

abbrev pub skips : Drops → String → List String → String → Bool
skips drops repo ids id = repo == drops.repo && contains ids id

abbrev pub candidate_roots : Drops → String → List StoredCandidate → List ObjectId
candidate_roots drops repo [] = []
candidate_roots drops repo (c ∷ candidates) =
    let rest = candidate_roots drops repo candidates in
    if skips drops repo drops.candidates c.candidate_id
    then rest
    else root_of c.root_manifest ++ rest

abbrev pub row_roots : Drops → String → List PublicationRow → List ObjectId
row_roots drops repo [] = []
row_roots drops repo (row ∷ rows) =
    let rest = row_roots drops repo rows in
    if skips drops repo drops.publications row.publication.publication_id
    then rest
    else row.publication.root_manifest ∷ rest

abbrev pub publication_roots : Drops → Meta → String → List (String × (String × ℕ)) → List ObjectId
publication_roots drops m repo [] = []
publication_roots drops m repo ((scope, (gate, floor)) ∷ partitions) =
    row_roots drops repo (list_publications_after m repo scope gate 0)
    ++ publication_roots drops m repo partitions

abbrev pub snap_root : Option SnapRecord → List ObjectId
snap_root none = []
snap_root (some s) = s.root_manifest ∷ []

-- `mark_snap_lineage`; `none` is out of fuel.
unfoldable pub lineage :
    ℕ → (String → Option SnapRecord) → List String → List String → Option (List ObjectId)
lineage zero record_of stack seen = none
lineage (suc fuel) record_of [] seen = some []
lineage (suc fuel) record_of (id ∷ stack) seen =
    let rest =
      lineage fuel record_of
        (if contains seen id then stack else extend (parents_of (record_of id)) stack)
        (if contains seen id then seen else id ∷ seen) in
    if contains seen id
    then rest
    else elim rest [ none ↦ none | some roots ↦ some (snap_root (record_of id) ++ roots) ]

unfoldable pub head_roots : Meta → String → Option LaneHead → Answer (List ObjectId)
unfolding lineage extend get_snap_record
head_roots m repo none = ok []
head_roots m repo (some head) =
    ok_or out_of_fuel
      (lineage (all_parents m.snap_records + 2) (get_snap_record m repo) (head.snap_id ∷ []) [])

unfoldable pub lane_roots : Meta → String → List LaneRecord → Answer (List ObjectId)
unfolding head_roots get_lane_head
lane_roots m repo [] = ok []
lane_roots m repo (lane ∷ lanes) = do
  roots ← head_roots m repo (get_lane_head m repo lane.lane_id)
  rest ← lane_roots m repo lanes
  ok (roots ++ rest)

abbrev pub found_root : Answer StoredCandidate → List ObjectId
found_root (ok c) = root_of c.root_manifest
found_root (refuse r) = []

abbrev pub release_roots : Drops → Meta → String → List ReleaseRecord → List ObjectId
release_roots drops m repo [] = []
release_roots drops m repo (r ∷ releases) =
    let rest = release_roots drops m repo releases in
    if skips drops repo drops.releases r.candidate_id
    then rest
    else found_root (get_candidate m r.candidate_id) ++ rest

unfoldable pub repo_roots : Drops → Meta → String → Answer (List ObjectId)
unfolding list_candidates list_partitions lane_roots list_lanes
repo_roots drops m repo = do
  candidates ← list_candidates m repo
  lanes ← lane_roots m repo (list_lanes m repo)
  ok (
      candidate_roots drops repo candidates
      ++ (publication_roots drops m repo (list_partitions m repo)
          ++ (lanes ++ release_roots drops m repo (list_releases m repo))))

unfoldable pub all_roots : Drops → Meta → List String → Answer (List ObjectId)
unfolding repo_roots
all_roots drops m [] = ok []
all_roots drops m (repo ∷ repos) = do
  roots ← repo_roots drops m repo
  rest ← all_roots drops m repos
  ok (roots ++ rest)
