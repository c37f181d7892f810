-- ===== src/Meta/Events/Examples.antt =====
-- A log of two repos, and the theorems at it.
use convergence.Prelude.{ℕ, ◌-◌, ◌≤◌, String, ◌≡◌, ◌≢◌, refl, [], ◌∷◌, keep, drop, length, arith}
use convergence.Records.{EventRecord}
use convergence.Meta.{Meta}
use convergence.Authz.Examples.{no_rows}
use convergence.Meta.Events.{list_events, event_floor, of_repo, prune_events, cut_seq}
use convergence.Meta.Events.Cursor.{prune_events-no_gap}
use convergence.Meta.Events.Kept.{Ascending, IsOrdered, prune_events-latest}

abbrev event : ℕ → String → EventRecord
event seq repo = record {
  seq = seq;
  repo_id = repo;
  kind = "candidate";
  subject_id = "c1";
  created_at = "2026-07-01T00:00:00Z";
}

abbrev log : Meta
log = record no_rows {
  events = event 1 "repo" ∷ (event 2 "other" ∷ (event 3 "repo" ∷ (event 4 "repo" ∷ [])));
  event_seq = 4;
}

log-IsOrdered : IsOrdered log
unfolding IsOrdered Ascending
log-IsOrdered = ground arith

repo_other : ◌≢◌ {A = String} "repo" "other"
repo_other h = cc

prunes : (prune_events "repo" 1 log).0 ≡ 2
unfolding prune_events cut_seq
prunes = refl

prune_events-no_gap_example :
    (event_floor log "repo" ≤ event_floor (prune_events "repo" 1 log).1 "repo")
    × (event_floor (prune_events "repo" 1 log).1 "repo" ≤ 3
        → list_events (prune_events "repo" 1 log).1 "repo" 3 ≡ list_events log "repo" 3)
prune_events-no_gap_example = prune_events-no_gap log "repo" "repo" 1 3

prune_events-latest_example :
    (keep (of_repo "repo") (prune_events "repo" 1 log).1.events
      ≡ drop (length (keep (of_repo "repo") log.events) - 1) (keep (of_repo "repo") log.events))
    × (keep (of_repo "other") (prune_events "repo" 1 log).1.events
        ≡ keep (of_repo "other") log.events)
prune_events-latest_example = prune_events-latest log "repo" "other" 1 log-IsOrdered repo_other
