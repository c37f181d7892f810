-- ===== src/Retention/Examples.antt =====
-- Three releases and three candidates under a small policy, and the theorems at them.
use convergence.Prelude.{
  String, ◌≡◌, refl, ◌↔◌, ◌-◌, Bool, true, false, none, some, List, [], ◌∷◌, map, take, length,
  contains,
}
use convergence.Records.{ReleaseRecord, StoredCandidate, ready}
use convergence.Retention.{RetentionPolicy, releases_to_drop, candidates_to_drop}
use convergence.Retention.Releases.{drop_order, releases_to_drop-eq}
use convergence.Retention.Candidates.{excess, of_gate, candidates_to_drop_iff}

abbrev policy : RetentionPolicy
policy = record {
  keep_releases = some 1;
  keep_candidates_per_gate = some 1;
  keep_publication_days = none;
  keep_events = none;
}

abbrev release_of : String → Bool → ReleaseRecord
release_of id yanked = record {
  version = "1.0.0";
  yanked = yanked;
  yank_reason = none;
  repo_id = "repo";
  scope_id = "main";
  candidate_id = id;
  released_by = "ana";
  notes = none;
  created_at = "2026-07-01T00:00:00Z";
}

abbrev releases : List ReleaseRecord
releases = release_of "a" false ∷ (release_of "b" true ∷ (release_of "c" false ∷ []))

abbrev candidate_of : String → String → StoredCandidate
candidate_of id gate = record {
  candidate_id = id;
  repo_id = "repo";
  scope_id = "main";
  gate_id = gate;
  inputs = [];
  root_manifest = none;
  base_candidate_id = none;
  window = (1, 2);
  strategy = "whole-file";
  status = ready true;
  created_at = "2026-07-01T00:00:00Z";
}

abbrev built : List StoredCandidate
built = candidate_of "a" "intake" ∷ (candidate_of "b" "review" ∷ (candidate_of "c" "intake" ∷ []))

releases_to_drop-eq_example :
    (releases_to_drop releases policy
      ≡ map (λ r. r.candidate_id) (take (length releases - 1) (drop_order releases)))
    × (length (releases_to_drop releases policy) ≡ length releases - 1)
releases_to_drop-eq_example = releases_to_drop-eq releases policy 1 refl

candidates_to_drop_iff_example :
    (contains (candidates_to_drop built policy ("b" ∷ [])) "a" ≡ true) ↔ (
      (contains ("b" ∷ []) "a" ≡ false)
      × ((gate : String) × (contains (map (λ c. c.candidate_id) (excess 1 (of_gate gate built))) "a"
            ≡ true)))
candidates_to_drop_iff_example = candidates_to_drop_iff built policy ("b" ∷ []) 1 "a" refl
