-- ===== src/Engine/Lanes.antt =====
-- Lanes of the engine: `is_ancestor` and `check_lane_readable` of crates/converge-server/src/engine/flow.rs,
-- `resolve_writable_lane` of engine/publish.rs, and the statements on lanes and snaps of meta_sqlite.rs.
pub mod Stack
pub mod Ancestors
pub mod Access
pub mod Examples
use convergence.Prelude.{
  ℕ, zero, suc, ◌+◌, String, Bool, true, false, not, ◌&&◌, ◌||◌, Option, none, some, List, [], ◌∷◌,
  ◌++◌, any, find, length, contains, format, ◌==◌, if◌then◌else◌,
}
use convergence.Records.{LaneRecord, SnapRecord}
use convergence.Meta.{Meta}
use convergence.Authz.{AuthzContext}
use convergence.Engine.{
  Refusal, Answer, ok, refuse, check, lane_unregistered, lane_private, not_lane_member, lane_exists,
}

-- `get_lane`
unfoldable pub get_lane : Meta → String → String → Option LaneRecord
get_lane m repo lane = find (λ l. l.repo_id == repo && l.lane_id == lane) m.lanes

-- `create_lane`: `none` is the error that the lane exists.
unfoldable pub create_lane : LaneRecord → Meta → Option Meta
unfolding get_lane
create_lane lane m = elim (get_lane m lane.repo_id lane.lane_id) [
  | none ↦ some (record m { lanes = m.lanes ++ (lane ∷ []) })
  | some l ↦ none
]

-- `get_snap_record`
abbrev pub snap_row : String → String → List (String × SnapRecord) → Option SnapRecord
snap_row repo id [] = none
snap_row repo id ((r, s) ∷ rows) =
    let rest = snap_row repo id rows in if r == repo && s.id == id then some s else rest

unfoldable pub get_snap_record : Meta → String → String → Option SnapRecord
get_snap_record m repo id = snap_row repo id m.snap_records

-- `stack.extend(parents)`: the top of the stack is the head of the list.
unfoldable pub extend : List String → List String → List String
extend [] stack = stack
extend (p ∷ parents) stack = extend parents (p ∷ stack)

abbrev pub parents_of : Option SnapRecord → List String
parents_of none = []
parents_of (some s) = s.parents

-- The loop of `is_ancestor`; `none` is out of fuel.
unfoldable pub search :
    ℕ → (String → Option SnapRecord) → String → List String → List String → Option Bool
search zero record_of ancestor stack seen = none
search (suc fuel) record_of ancestor [] seen = some false
search (suc fuel) record_of ancestor (id ∷ stack) seen =
    let rest =
      search fuel record_of ancestor
        (if contains seen id then stack else extend (parents_of (record_of id)) stack)
        (if contains seen id then seen else id ∷ seen) in
    if id == ancestor then some true else rest

-- The parents that the uploaded snaps name, which bounds what the loop can push
abbrev pub all_parents : List (String × SnapRecord) → ℕ
all_parents [] = 0
all_parents ((r, s) ∷ rows) = length s.parents + all_parents rows

unfoldable pub is_ancestor : Meta → String → String → String → Option Bool
unfolding search get_snap_record extend
is_ancestor m repo ancestor descendant =
    search (all_parents m.snap_records + 2) (get_snap_record m repo) ancestor (descendant ∷ []) []

abbrev pub readable : AuthzContext → LaneRecord → Bool
readable ctx lane =
    lane.visibility == "repo" || lane.owner == ctx.subject || contains lane.members ctx.subject

-- `check_lane_readable`
abbrev pub check_readable : AuthzContext → Option LaneRecord → Answer Unit
check_readable ctx none = refuse lane_unregistered
check_readable ctx (some lane) = check (readable ctx lane) lane_private

unfoldable pub check_lane_readable : AuthzContext → String → Meta → Answer Unit
check_lane_readable ctx lane m = check_readable ctx (get_lane m ctx.repo_id lane)

-- `resolve_writable_lane`: without a lane the personal one, which is created if it is missing
abbrev pub personal : AuthzContext → String
personal ctx = format ("personal/" ∷ (ctx.subject ∷ []))

abbrev pub own_lane : AuthzContext → String → LaneRecord
own_lane ctx at = record {
  lane_id = personal ctx;
  repo_id = ctx.repo_id;
  owner = ctx.subject;
  members = [];
  visibility = "private";
  created_at = at;
}

abbrev pub writable : AuthzContext → String → Option LaneRecord → Answer String
writable ctx lane_id none = refuse lane_unregistered
writable ctx lane_id (some lane) =
    if not (lane.owner == ctx.subject) && not (contains lane.members ctx.subject)
    then refuse not_lane_member
    else ok lane_id

abbrev pub created : AuthzContext → Meta → Option Meta → Answer String × Meta
created ctx m none = (refuse lane_exists, m)
created ctx m (some after) = (ok (personal ctx), after)

abbrev pub provisioned : AuthzContext → String → Option LaneRecord → Meta → Answer String × Meta
provisioned ctx at none m = created ctx m (create_lane (own_lane ctx at) m)
provisioned ctx at (some lane) m = (ok (personal ctx), m)

unfoldable pub resolve_writable_lane :
    AuthzContext → Option String → String → Meta → Answer String × Meta
unfolding create_lane
resolve_writable_lane ctx (some lane) at m = (writable ctx lane (get_lane m ctx.repo_id lane), m)
resolve_writable_lane ctx none at m = provisioned ctx at (get_lane m ctx.repo_id (personal ctx)) m
