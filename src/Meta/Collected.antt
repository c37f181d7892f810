-- ===== src/Meta/Collected.antt =====
-- The queries and deletions of garbage collection in crates/converge-server/src/meta_sqlite.rs.
use convergence.Prelude.{
  ℕ, String, Bool, not, ◌&&◌, Option, none, some, List, [], ◌∷◌, map, any, keep, contains, sort,
  eqb, ◌==◌, if◌then◌else◌,
}
use convergence.Records.{LaneRecord, LaneHead}
use convergence.Retention.{RetentionPolicy}
use convergence.Meta.{Meta, PublicationRow, get_partition_state}
use convergence.Meta.Accounts.{order_by}

unfoldable pub list_repos : Meta → List String
list_repos m = sort m.repos

unfoldable pub list_scopes : Meta → String → List String
list_scopes m repo =
    sort (map (λ (s : String × String). s.1) (keep (λ (s : String × String). s.0 == repo) m.scopes))

unfoldable pub list_lanes : Meta → String → List LaneRecord
list_lanes m repo = order_by (λ l. l.lane_id ∷ []) (keep (λ l. l.repo_id == repo) m.lanes)

abbrev pub head_row : String → String → List (String × LaneHead) → Option LaneHead
head_row repo lane [] = none
head_row repo lane ((r, h) ∷ rows) =
    let rest = head_row repo lane rows in if r == repo && h.lane_id == lane then some h else rest

unfoldable pub get_lane_head : Meta → String → String → Option LaneHead
get_lane_head m repo lane = head_row repo lane m.lane_heads

-- The ids that `list_candidates_all_scopes` reads, oldest first
unfoldable pub candidate_ids : Meta → String → List String
candidate_ids m repo =
    map (λ c. c.candidate_id)
      (order_by (λ c. c.created_at ∷ []) (keep (λ c. c.repo_id == repo) m.candidates))

abbrev pub same_partition : String × (String × ℕ) → String × (String × ℕ) → Bool
same_partition a b = a.0 == b.0 && a.1.0 == b.1.0 && eqb a.1.1 b.1.1

abbrev pub add_partition :
    String × (String × ℕ) → List (String × (String × ℕ)) → List (String × (String × ℕ))
add_partition p rows = if any (same_partition p) rows then rows else p ∷ rows

-- `SELECT DISTINCT` over the publications of the repo, joined with the floor of their partition
abbrev pub partitions_of : Meta → String → List PublicationRow → List (String × (String × ℕ))
partitions_of m repo [] = []
partitions_of m repo (row ∷ rows) =
    let rest = partitions_of m repo rows in
    let p = row.publication in
    if p.repo_id == repo
    then add_partition
        (
          p.scope_id,
          (p.target_gate_id, (get_partition_state m repo p.scope_id p.target_gate_id).window_floor),
        )
        rest
    else rest

unfoldable pub list_partitions : Meta → String → List (String × (String × ℕ))
list_partitions m repo = partitions_of m repo m.publications

abbrev pub no_policy : RetentionPolicy
no_policy = record {
  keep_releases = none;
  keep_candidates_per_gate = none;
  keep_publication_days = none;
  keep_events = none;
}

abbrev pub policy_row : String → List (String × RetentionPolicy) → RetentionPolicy
policy_row repo [] = no_policy
policy_row repo ((r, p) ∷ rows) = let rest = policy_row repo rows in if r == repo then p else rest

unfoldable pub get_retention : Meta → String → RetentionPolicy
get_retention m repo = policy_row repo m.retention

unfoldable pub set_retention : String → RetentionPolicy → Meta → Meta
set_retention repo policy m = record m { retention = replaced m.retention }
  where
    replaced : List (String × RetentionPolicy) → List (String × RetentionPolicy)
    replaced [] = (repo, policy) ∷ []
    replaced ((r, p) ∷ rows) =
        let rest = replaced rows in if r == repo then (r, policy) ∷ rows else (r, p) ∷ rest

unfoldable pub delete_releases_for_candidates : String → List String → Meta → Meta
delete_releases_for_candidates repo ids m = record m {
  releases = keep (λ r. not (r.repo_id == repo && contains ids r.candidate_id)) m.releases;
}

unfoldable pub delete_candidates : String → List String → Meta → Meta
delete_candidates repo [] m = m
delete_candidates repo (id ∷ ids) m = delete_candidates repo ids (record m {
  candidates = keep (λ c. not (c.repo_id == repo && c.candidate_id == id)) m.candidates;
  approvals = keep (λ (a : String × String). not (a.0 == id)) m.approvals;
})

unfoldable pub delete_publications : String → List String → Meta → Meta
delete_publications repo [] m = m
delete_publications repo (id ∷ ids) m = delete_publications repo ids (record m {
  publications =
      keep (λ row. not (row.publication.repo_id == repo && row.publication.publication_id == id))
        m.publications;
})
