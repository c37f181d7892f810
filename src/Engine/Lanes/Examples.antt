-- ===== src/Engine/Lanes/Examples.antt =====
-- A lineage of three snaps with a cycle beside it, a lane, and the theorems at them.
use convergence.Prelude.{String, ◌≡◌, refl, ◌⊎◌, true, false, none, some, List, [], ◌∷◌}
use convergence.Records.{SnapRecord, LaneRecord}
use convergence.Meta.{Meta}
use convergence.Authz.{Capability, AuthzContext}
use convergence.Authz.Examples.{no_rows}
use convergence.Engine.{ok}
use convergence.Engine.Examples.{context}
use convergence.Engine.Lanes.{
  is_ancestor, get_snap_record, search, extend, get_lane, create_lane, check_lane_readable,
  resolve_writable_lane, personal,
}
use convergence.Engine.Lanes.Ancestors.{Descends, is_ancestor-Descends}
use convergence.Engine.Lanes.Access.{resolve_writable_lane-readable}

abbrev snap : String → List String → SnapRecord
snap id parents = record {
  version = 1;
  id = id;
  created_at = "t";
  root_manifest = "m";
  parents = parents;
  derived_from_candidate = none;
  message = none;
  trigger = "user";
  stats = record { files = 1; dirs = 0; symlinks = 0; bytes = 1 };
}

abbrev lineage : Meta
lineage = record no_rows {
  snap_records =
      ("repo", snap "s3" ("s2" ∷ ("x" ∷ [])))
      ∷ (("repo", snap "s2" ("s1" ∷ []))
          ∷ (("repo", snap "s1" []) ∷ (("repo", snap "x" ("s3" ∷ [])) ∷ [])));
}

found_behind : is_ancestor lineage "repo" "s1" "s3" ≡ some true
unfolding is_ancestor get_snap_record search extend
found_behind = refl

not_ahead : is_ancestor lineage "repo" "s4" "s3" ≡ some false
unfolding is_ancestor get_snap_record search extend
not_ahead = refl

is_ancestor-Descends_example :
    ((is_ancestor lineage "repo" "s4" "s3" ≡ some true)
      × Descends (get_snap_record lineage "repo") "s3" "s4")
    ⊎ ((is_ancestor lineage "repo" "s4" "s3" ≡ some false)
        × (¬ (Descends (get_snap_record lineage "repo") "s3" "s4")))
is_ancestor-Descends_example = is_ancestor-Descends lineage "repo" "s4" "s3"

abbrev syncer : AuthzContext
syncer = context Capability.snap_sync

missing : get_lane no_rows "repo" (personal syncer) ≡ none
unfolding get_lane
missing = refl

owned : (l : LaneRecord) → get_lane no_rows "repo" (personal syncer) ≡ some l → l.owner ≡ "ben"
unfolding get_lane
owned l h = cc

provisions : (resolve_writable_lane syncer none "t" no_rows).0 ≡ ok "personal/ben"
unfolding resolve_writable_lane get_lane create_lane
provisions = refl

resolve_writable_lane-readable_example :
    check_lane_readable syncer "personal/ben" (resolve_writable_lane syncer none "t" no_rows).1
    ≡ ok tt
resolve_writable_lane-readable_example =
    resolve_writable_lane-readable syncer none "t" no_rows "personal/ben" owned provisions
