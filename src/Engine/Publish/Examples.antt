-- ===== src/Engine/Publish/Examples.antt =====
-- A publication to a gate whose window holds one already, and the theorems at it. The digest is the
-- number of the bytes.
use convergence.Prelude.{
  ℕ, String, ◌≡◌, ◌≢◌, refl, ap, true, false, none, some, List, [], ◌∷◌, ◌++◌, length, decimal,
}
use convergence.Records.{SnapRecord, StoredCandidate, ready}
use convergence.Objects.{Manifest, ManifestEntryKind, decoded, Store, get_manifest, has_manifest}
use convergence.Meta.{
  Meta, PinRow, PublicationRow, repo_exists, get_gate_graph, get_partition_state,
  list_publications_after, add_publication, next_seq, put_candidate, add_event,
}
use convergence.Meta.Batch.{apply_batch, apply_ops, apply_op}
use convergence.Meta.Objects.{unpin_object, object_row}
use convergence.Authz.{AuthzContext, publish, as_str, same_capability}
use convergence.Authz.Examples.{no_rows}
use convergence.Engine.{ok, refuse, ◌>>>◌, out_of_fuel, require}
use convergence.Engine.Examples.{graph}
use convergence.Engine.Lanes.{get_lane, create_lane, resolve_writable_lane}
use convergence.Engine.Pins.{unpin_tree, unpin_walk, unpin_entries, unpin_entry}
use convergence.Engine.Pins.Ends.{unpin_tree-ends}
use convergence.Engine.Publish.{
  PublishInput, merged, World, as_bytes, le_bytes, snap_bytes, compute_snap_id, candidate_hash,
  put_snap_record, check_snap, upload_snap_record,
}
use convergence.Engine.Publish.Build.{base_root, merge_inputs, built, build_candidate}
use convergence.Engine.Publish.Handler.{
  check_target, check_base, publication_of, partition_of, open_window, expected_seq, publish_ops,
  tried_candidate, tried_ops, attempt, publish_loop, publish_over,
}
use convergence.Engine.Publish.Window.{Ascending, IsOrdered}
use convergence.Engine.Publish.Guarded.{committed_tables}
use convergence.Engine.Publish.Current.{Met, Grows, Appends, Current}
use convergence.Engine.Publish.Admitted.{Admitted}
use convergence.Engine.Publish.Published.{prepared, publish_over-Current, publish_loop-alone}

-- A directory that holds itself
abbrev pub tree : Manifest
tree = record {
  version = 1;
  entries =
      record { name = "a"; kind = ManifestEntryKind.file "b1" 420 3 }
      ∷ (record { name = "sub"; kind = ManifestEntryKind.sub_dir "m1" } ∷ []);
}

abbrev pub store : Store
store = record { manifests = ("m1", decoded tree) ∷ []; recipes = [] }

abbrev world : World
world = record {
  digest = λ bytes. decimal (length bytes);
  objects = store;
  merge = λ root inputs strategy. merged "m9" false;
  error_text = λ r. "error";
}

abbrev pub snap : SnapRecord
snap = record {
  version = 1;
  id = "38";
  created_at = "2026-07-01T00:00:00Z";
  root_manifest = "m1";
  parents = [];
  derived_from_candidate = none;
  message = none;
  trigger = "explicit";
  stats = record { files = 1; dirs = 1; symlinks = 0; bytes = 3 };
}

abbrev input : PublishInput
input = record {
  gate_id = "intake";
  snap = snap;
  base_candidate_id = none;
  lane_id = none;
  notes = none;
}

abbrev ctx : AuthzContext
ctx = record { subject = "ben"; repo_id = "repo"; scope_id = "main"; capability = publish }

abbrev earlier : PublicationRow
earlier = record {
  seq = 4;
  publication = record {
    publication_id = "p1";
    snap_id = "s0";
    root_manifest = "m1";
    base_candidate_id = none;
    snap_parents = [];
    repo_id = "repo";
    scope_id = "main";
    target_gate_id = "intake";
    lane_id = "personal/ana";
    publisher = "ana";
    created_at = "2026-07-01T00:00:00Z";
    notes = none;
  };
}

abbrev tables : Meta
tables = record no_rows {
  repos = "repo" ∷ [];
  gate_graphs = ("repo", graph) ∷ [];
  publications = earlier ∷ [];
}

unpin_tree-ends_example :
    ((pins : List PinRow) × ((unpin_tree store "repo" "m1" tables).1
        ≡ record tables { object_pins = pins }))
    × ((unpin_tree store "repo" "m1" tables).0 ≢ refuse out_of_fuel)
unpin_tree-ends_example = unpin_tree-ends store "repo" "m1" tables

alone : ℕ → Meta → Meta
alone = λ turn m. m

alone_quiet : (m : Meta) → alone 31 m ≡ m
unfolding alone
alone_quiet m = refl

clock : ℕ → String
clock = λ turn. "2026-07-02T00:00:00Z"

tables-IsOrdered : IsOrdered "repo" "main" "intake" tables
unfolding IsOrdered Ascending
tables-IsOrdered = (tt, tt)

append_nil : (rows : List PublicationRow) → rows ≡ rows ++ []
append_nil [] = refl
append_nil (row ∷ rows) = ap (λ more. row ∷ more) (append_nil rows)

alone-Appends : (lane : String) → Appends world ctx input lane alone
unfolding Appends Grows alone
alone-Appends lane turn m order =
    (order, ([], append_nil (open_window ctx input (partition_of ctx input m).window_floor m)))

abbrev folded : StoredCandidate
folded = record {
  candidate_id = "22";
  repo_id = "repo";
  scope_id = "main";
  gate_id = "intake";
  inputs = "p1" ∷ ("39" ∷ []);
  root_manifest = some "m9";
  base_candidate_id = none;
  window = (4, 5);
  strategy = "whole-file";
  status = ready true;
  created_at = "2026-07-02T00:00:00Z";
}

tries : tried_candidate world ctx input "personal/ben" (clock 31) tables ≡ ok folded
unfolding tried_candidate build_candidate built merge_inputs base_root candidate_hash as_bytes
    publication_of expected_seq get_gate_graph get_partition_state list_publications_after decimal
    clock
tries = refl

publishes : (publish_over world ctx input "t0" clock alone tables).0 ≡ ok folded
unfolding publish_over check_target require same_capability as_str repo_exists get_gate_graph
    has_manifest get_manifest upload_snap_record check_snap compute_snap_id snap_bytes as_bytes
    le_bytes put_snap_record check_base resolve_writable_lane get_lane create_lane publish_loop
    attempt tried_candidate build_candidate built merge_inputs base_root candidate_hash
    publication_of expected_seq get_partition_state list_publications_after decimal clock alone
    tried_ops publish_ops apply_batch apply_ops apply_op add_publication next_seq put_candidate
    add_event unpin_tree unpin_walk unpin_entries unpin_entry unpin_object object_row
publishes = refl

publish_over-Current_example :
    Admitted world ctx input tables
    × (seen : Meta) × Met alone 32 (prepared world ctx input "t0" tables) seen
    × Current world ctx input seen folded (publish_over world ctx input "t0" clock alone tables).1
publish_over-Current_example =
    publish_over-Current world ctx input "t0" clock alone tables folded alone-Appends
      tables-IsOrdered publishes

abbrev joined_tables : Meta
joined_tables = record tables {
  publications =
      earlier
      ∷ (record {
        seq = 5;
        publication = publication_of world ctx input "personal/ben" "2026-07-02T00:00:00Z";
      }
          ∷ []);
}

joins :
    add_publication (publication_of world ctx input "personal/ben" (clock 31)) tables
    ≡ some joined_tables
unfolding add_publication next_seq publication_of as_bytes get_partition_state decimal clock
joins = refl

publish_loop-alone_example : publish_loop 32 world ctx input "personal/ben" clock alone tables ≡ (
    unpin_tree world.objects "repo" "m1" (committed_tables ctx folded (clock 31) joined_tables)
    >>> λ u m'. (ok folded, m'))
publish_loop-alone_example =
    publish_loop-alone world ctx input "personal/ben" 31 clock alone tables joined_tables folded
      (alone_quiet tables) tries joins
