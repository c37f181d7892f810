-- ===== src/Gc/Examples.antt =====
-- A server on which the head of a lane holds a directory that holds itself, with an object that nothing
-- names, and the theorems at it.
use convergence.Prelude.{ℕ, String, ◌≡◌, refl, false, none, Option, List, [], ◌∷◌}
use convergence.Retention.{releases_to_drop, candidates_to_drop}
use convergence.Objects.{blob, manifest, get_manifest}
use convergence.Meta.{Meta, get_gate_graph, list_publications_after, list_releases}
use convergence.Meta.Objects.{
  is_object_pinned, remove_object_associations, sweep_stale_pins, object_row,
}
use convergence.Meta.Events.{prune_events}
use convergence.Meta.Collected.{
  list_repos, list_scopes, list_lanes, get_lane_head, candidate_ids, list_partitions, get_retention,
  delete_releases_for_candidates, delete_candidates, delete_publications,
}
use convergence.Authz.{AuthzContext, admin, as_str, has_grant, scope_pattern_matches}
use convergence.Authz.Examples.{no_rows}
use convergence.Engine.{ok}
use convergence.Engine.Lanes.{get_snap_record, extend}
use convergence.Engine.Publish.Examples.{store, snap}
use convergence.Gc.{mark_roots, mark_manifest, mark_entries, mark_entry, is_marked}
use convergence.Gc.Sweep.{StoredObject, Limits, sweep, is_garbage, mark_and_sweep}
use convergence.Gc.Roots.{
  all_roots, repo_roots, list_candidates, read_candidates, lane_roots, head_roots, lineage,
}
use convergence.Gc.Handler.{GcReport, planned, protected, delete_dropped, collected, gc_report, gc}

abbrev named : StoredObject
named = record { kind = blob; id = "b1"; bytes = 3; mtime = 10 }

abbrev unnamed : StoredObject
unnamed = record { kind = blob; id = "b7"; bytes = 5; mtime = 10 }

abbrev root : StoredObject
root = record { kind = manifest; id = "m1"; bytes = 40; mtime = 10 }

abbrev stored : List StoredObject
stored = named ∷ (unnamed ∷ (root ∷ []))

abbrev limits : Limits
limits = record { pins = 0; cutoff = 100; dry_run = false }

abbrev ctx : AuthzContext
ctx = record { subject = "ana"; repo_id = "repo"; scope_id = "main"; capability = admin }

abbrev tables : Meta
tables = record no_rows {
  repos = "repo" ∷ [];
  grants =
      record { subject = "ana"; repo_id = "repo"; scope_pattern = "*"; capability = "admin" } ∷ [];
  lanes =
      record {
        lane_id = "personal/ana";
        repo_id = "repo";
        owner = "ana";
        members = [];
        visibility = "private";
        created_at = "2026-07-01T00:00:00Z";
      }
      ∷ [];
  lane_heads =
      (
        "repo",
        record { lane_id = "personal/ana"; snap_id = "38"; updated_at = "2026-07-01T00:00:00Z" },
      )
      ∷ [];
  snap_records = ("repo", snap) ∷ [];
}

abbrev days : String → ℕ → Option String
days = λ now count. none

abbrev report : GcReport
report = record {
  dry_run = false;
  dropped_releases = 0;
  dropped_candidates = 0;
  dropped_publications = 0;
  pruned_events = 0;
  reachable_objects = 2;
  swept_objects = 1;
  swept_bytes = 5;
  expired_pins = 0;
}

gc_sweeps :
    (gc days ctx limits store stored "2026-07-02T00:00:00Z" tables).0
    ≡ ok (report, named ∷ (root ∷ []))
unfolding gc has_grant scope_pattern_matches as_str planned protected delete_dropped collected
    gc_report list_repos list_scopes list_lanes get_lane_head candidate_ids list_partitions
    get_retention delete_releases_for_candidates delete_candidates delete_publications prune_events
    get_gate_graph list_publications_after list_releases all_roots repo_roots list_candidates
    read_candidates lane_roots head_roots lineage get_snap_record extend mark_and_sweep mark_roots
    mark_manifest mark_entries mark_entry get_manifest is_marked sweep is_garbage is_object_pinned
    object_row remove_object_associations sweep_stale_pins candidates_to_drop releases_to_drop
gc_sweeps = refl
