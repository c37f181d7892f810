-- ===== src/Engine.antt =====
-- The engine of the server: crates/converge-server/src/engine.rs, engine/gates.rs and engine/flow.rs
-- over the tables of `Meta`. A method takes the context that `authorize` minted, the time that `now()`
-- returned, and the tables; it gives its answer, and the tables if it writes.
pub mod Answers
pub mod Lanes
pub mod Examples
pub mod Approve
pub mod Promote
pub mod Release
pub mod Pins
pub mod Publish
use Prim.Native.Char.{Char, code}
use Prim.Native.String.{len}
use convergence.Prelude.{
  ℕ, ◌+◌, String, Bool, true, false, not, ◌&&◌, ◌||◌, Option, none, some, List, [], ◌∷◌, map, keep,
  find, take, ltb, leb, eqb, ◌==◌, if◌then◌else◌,
}
use convergence.Gates.{GateGraph, GateNode}
use convergence.Records.{StoredCandidate, CandidateStatus, building, ready, failed}
use convergence.Meta.{Meta, get_gate_graph, list_promotions, add_approval, count_approvals}
use convergence.Authz.{Capability, approve, admin, AuthzContext, same_capability}

pub data Refusal : Type 0 where
  wrong_capability no_candidate ambiguous_candidate other_partition superpositions not_ready :
      Refusal
  no_graph unknown_target_gate not_upstream unknown_gate missing_approvals stale_candidate
        forked_base :
      Refusal
  lane_unregistered lane_private not_lane_member lane_exists : Refusal
  advanced_concurrently batch_failed no_release_gate bad_version version_exists no_release : Refusal
  unauthorized bad_request forbidden not_found conflicting internal : Refusal
  unknown_repo not_uploaded snap_mismatch unknown_base other_base kept_losing out_of_fuel : Refusal

pub data Answer (A : Type 0) : Type 0 where
  ok : A → Answer A
  refuse : Refusal → Answer A

infixl 10 ◌>>=◌
abbrev pub ◌>>=◌ : {A B : Type 0} → Answer A → (A → Answer B) → Answer B
ok a >>= f = f a
refuse r >>= f = refuse r

infixl 10 ◌>>◌
abbrev pub ◌>>◌ : {B : Type 0} → Answer Unit → Answer B → Answer B
ok a >> b = b
refuse r >> b = refuse r

-- A step that writes, and the one that goes on with its answer over the tables it leaves
infixl 10 ◌>>>◌
abbrev pub ◌>>>◌ : {A B : Type 0} → Answer A × Meta → (A → Meta → Answer B × Meta) → Answer B × Meta
(ok a, m) >>> f = f a m
(refuse r, m) >>> f = (refuse r, m)

abbrev pub check : Bool → Refusal → Answer Unit
check true r = ok tt
check false r = refuse r

abbrev pub ok_or : {A : Type 0} → Refusal → Option A → Answer A
ok_or r none = refuse r
ok_or r (some a) = ok a

-- `require`
unfoldable pub require : AuthzContext → Capability → Answer Unit
require ctx capability =
    check (same_capability ctx.capability capability || same_capability ctx.capability admin)
      wrong_capability

-- `ensure_partition`
unfoldable pub ensure_partition : AuthzContext → StoredCandidate → Answer Unit
ensure_partition ctx c =
    check (c.repo_id == ctx.repo_id && c.scope_id == ctx.scope_id) other_partition

-- `given.chars().all(|c| c.is_ascii_hexdigit())`
abbrev pub is_hexdigit : ℕ → Bool
is_hexdigit c = (leb 48 c && leb c 57) || (leb 65 c && leb c 70) || (leb 97 c && leb c 102)

unfoldable pub all_hexdigits : String → Bool
all_hexdigits String.[] = true
all_hexdigits (String.◌∷◌ c rest) = is_hexdigit (code c) && all_hexdigits rest

-- `LIKE ?1 || '%'` for a text without wildcards: SQLite's LIKE folds the case of ASCII letters.
abbrev pub lower : ℕ → ℕ
lower c = if leb 65 c && leb c 90 then c + 32 else c

unfoldable pub is_like_prefix : String → String → Bool
is_like_prefix String.[] id = true
is_like_prefix (String.◌∷◌ c given) String.[] = false
is_like_prefix (String.◌∷◌ c given) (String.◌∷◌ d id) =
    eqb (lower (code c)) (lower (code d)) && is_like_prefix given id

abbrev pub pick : String → List StoredCandidate → Answer String
pick given [] = ok given
pick given (only ∷ []) = ok only.candidate_id
pick given (first ∷ (second ∷ rest)) = refuse ambiguous_candidate

unfoldable pub resolve_candidate_prefix : Meta → String → Answer String
unfolding all_hexdigits
resolve_candidate_prefix m given =
    if leb 64 (len given) || ltb (len given) 8 || not (all_hexdigits given)
    then ok given
    else pick given (take 2 (keep (λ c. is_like_prefix given c.candidate_id) m.candidates))

abbrev pub candidate_row : Meta → String → Option StoredCandidate
candidate_row m id = find (λ c. c.candidate_id == id) m.candidates

-- `get_candidate`
unfoldable pub get_candidate : Meta → String → Answer StoredCandidate
get_candidate m given = do
  id ← resolve_candidate_prefix m given
  ok_or no_candidate (candidate_row m id)

-- The status that `promote` and `release` ask for
unfoldable pub check_promotable : CandidateStatus → Answer Unit
check_promotable (ready true) = ok tt
check_promotable (ready false) = refuse superpositions
check_promotable building = refuse not_ready
check_promotable (failed reason) = refuse not_ready

-- Where a candidate has got to: the gate that built it, and every gate that it was promoted to.
unfoldable pub reached_gates : Meta → StoredCandidate → List String
reached_gates m c = c.gate_id ∷ list_promotions m c.candidate_id

abbrev pub find_gate : GateGraph → String → Option GateNode
find_gate graph id = find (λ g. g.gate_id == id) graph.gates

-- `approve`: the candidate that the caller may approve, and then its row
unfoldable pub approvable : AuthzContext → String → Meta → Answer StoredCandidate
approvable ctx given m = do
  require ctx approve
  c ← get_candidate m given
  ensure_partition ctx c
  ok c

abbrev pub approved : AuthzContext → Meta → Answer StoredCandidate → Answer ℕ × Meta
approved ctx m (refuse r) = (refuse r, m)
approved ctx m (ok c) =
    let m' = add_approval c.candidate_id ctx.subject m in
    (ok (count_approvals m' c.candidate_id), m')

unfoldable pub approve_candidate : AuthzContext → String → Meta → Answer ℕ × Meta
unfolding approvable
approve_candidate ctx given m = approved ctx m (approvable ctx given m)
