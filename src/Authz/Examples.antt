-- ===== src/Authz/Examples.antt =====
-- One grant, and the theorem at it.
use convergence.Prelude.{String, ◌≡◌, ◌↔◌, ◌⊎◌, true, [], ◌∷◌}
use convergence.Meta.{Meta, scope_exists}
use convergence.Authz.{
  scope_pattern_matches, snap_sync, AuthzContext, authorize, authorized, satisfying_capabilities,
}
use Prim.Native.String.{◌++◌}
use convergence.Authz.Patterns.{scope_pattern_matches-below_iff}
use convergence.Authz.Decision.{Granted, authorize-authorized_iff}

abbrev pub no_rows : Meta
no_rows = record {
  users = [];
  tokens = [];
  public_keys = [];
  grants = [];
  repos = [];
  scopes = [];
  gate_graphs = [];
  publications = [];
  candidates = [];
  approvals = [];
  lanes = [];
  snap_records = [];
  lane_heads = [];
  partitions = [];
  events = [];
  releases = [];
  promotions = [];
  secrets = [];
  event_seq = 0;
  event_floors = [];
  retention = [];
  object_repos = [];
  object_pins = [];
}

abbrev pub granting : Meta
granting = record no_rows {
  grants =
      record {
        subject = "ana";
        repo_id = "repo";
        scope_pattern = "feature/*";
        capability = "publish";
      }
      ∷ [];
  repos = "repo" ∷ [];
  scopes = ("repo", "feature/a") ∷ [];
}

abbrev pub context : AuthzContext
context = record {
  subject = "ana";
  repo_id = "repo";
  scope_id = "feature/a";
  capability = snap_sync;
}

abbrev asked : String
asked = "feature/a"

authorize-authorized_iff_example :
    (authorize granting "ana" "repo" asked snap_sync ≡ authorized context) ↔ (
      (context
        ≡ record { subject = "ana"; repo_id = "repo"; scope_id = asked; capability = snap_sync })
      × Granted granting "ana" "repo" asked (satisfying_capabilities snap_sync)
      × ((asked ≡ "*") ⊎ (scope_exists granting "repo" asked ≡ true)))
authorize-authorized_iff_example =
    authorize-authorized_iff granting "ana" "repo" asked snap_sync context

abbrev below_feature : String
below_feature = "feature" ++ "/*"

scope_pattern_matches-below_iff_example :
    (scope_pattern_matches below_feature asked ≡ true)
    ↔ ((rest : String) × (asked ≡ ("feature" ++ ("/" ++ rest))))
scope_pattern_matches-below_iff_example = scope_pattern_matches-below_iff "feature" asked
