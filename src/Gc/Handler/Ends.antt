-- ===== src/Gc/Handler/Ends.antt =====
-- A run of garbage collection ends.
use convergence.Prelude.{
  ℕ, zero, suc, ◌+◌, ◌<◌, String, ◌≡◌, ◌≢◌, refl, Bool, true, false, Option, none, some, List, [],
  ◌∷◌, ◌++◌, length, contains, leb, ltb, not, ◌||◌, take, keep, inl, inr, arith, Bool-cases,
  if◌then◌else◌,
}
use Prim.Native.String.{len}
use convergence.Records.{ObjectId, StoredCandidate, LaneRecord, LaneHead, SnapRecord}
use convergence.Objects.{Store}
use convergence.Meta.{Meta}
use convergence.Meta.Collected.{list_repos, list_lanes, get_lane_head, candidate_ids}
use convergence.Authz.{AuthzContext, admin, as_str, has_grant}
use convergence.Engine.{
  Answer, Refusal, ok, refuse, ◌>>=◌, ◌>>>◌, ok_or, pick, resolve_candidate_prefix, candidate_row,
  is_like_prefix, all_hexdigits, check, forbidden, out_of_fuel, no_candidate, get_candidate,
}
use convergence.Engine.Lanes.{snap_row, get_snap_record, all_parents}
use convergence.Engine.Lanes.Stack.{weight, weight-nil}
use convergence.Engine.Lanes.Ancestors.{record_of, next, now, next-fits}
use convergence.Gc.Sweep.{StoredObject, Limits, Swept}
use convergence.Gc.Sweep.Kept.{mark_and_sweep-Protected}
use convergence.Gc.Roots.{
  Drops, read_candidates, list_candidates, lineage, snap_root, head_roots, lane_roots, repo_roots,
  all_roots,
}
use convergence.Gc.Handler.{GcReport, planned, delete_dropped, collected, gc_report, ended, run, gc}

Ends : {A : Type 0} → Answer A → Type 0
Ends a = a ≢ refuse out_of_fuel

bind-Ends :
    {A B : Type 0} (a : Answer A) (f : A → Answer B)
    → Ends a
    → ((x : A) → Ends (f x))
    → Ends (a >>= f)
unfolding Ends
bind-Ends (ok x) f h k = k x
bind-Ends {A = A} {B = B} (refuse r) f h k = λ e. h (moved e)
  where
    moved :
        ◌≡◌ {A = Answer B} (refuse r) (refuse out_of_fuel)
        → ◌≡◌ {A = Answer A} (refuse r) (refuse out_of_fuel)
    moved e = ground arith

ok-Ends : {A : Type 0} (x : A) → Ends (ok x)
unfolding Ends
ok-Ends x e = cc

ok_or-Ends : {A : Type 0} (r : Refusal) (o : Option A) → Ends {A = A} (refuse r) → Ends (ok_or r o)
ok_or-Ends r none h = h
ok_or-Ends r (some x) h = ok-Ends x

resolve_candidate_prefix-Ends :
    (m : Meta) (given : String) → Ends (resolve_candidate_prefix m given)
unfolding resolve_candidate_prefix Ends
resolve_candidate_prefix-Ends m given =
    elim (Bool-cases (leb 64 (len given) || ltb (len given) 8 || not (all_hexdigits given))) [
      | inl e ↦ rw e (ok-Ends given)
      | inr e ↦
          rw e (picked (take 2 (keep (λ c. is_like_prefix given c.candidate_id) m.candidates)))
    ]
  where
    picked : (cs : List StoredCandidate) → Ends (pick given cs)
    picked [] = ok-Ends given
    picked (only ∷ []) = ok-Ends only.candidate_id
    picked (first ∷ (second ∷ rest)) = λ e. cc

get_candidate-Ends : (m : Meta) (id : String) → Ends (get_candidate m id)
unfolding get_candidate Ends
get_candidate-Ends m given =
    bind-Ends (resolve_candidate_prefix m given) (λ id. ok_or no_candidate (candidate_row m id))
      (resolve_candidate_prefix-Ends m given)
      (λ id. ok_or-Ends no_candidate (candidate_row m id) (λ e. cc))

read_candidates-Ends : (m : Meta) (ids : List String) → Ends (read_candidates m ids)
unfolding read_candidates
read_candidates-Ends m [] = ok-Ends []
read_candidates-Ends m (id ∷ ids) =
    let rest = read_candidates-Ends m ids in
    bind-Ends (get_candidate m id) _ (get_candidate-Ends m id)
      (λ c. bind-Ends (read_candidates m ids) _ rest (λ cs. ok-Ends (c ∷ cs)))

module _ (repo : String) (rows : List (String × SnapRecord)) where
  lineage-ends :
      (fuel : ℕ) (stack seen : List String)
      → length stack + weight rows seen < fuel
      → lineage fuel (λ id. snap_row repo id rows) stack seen ≢ none
  unfolding lineage record_of
  lineage-ends zero stack seen h = λ e. omega arith
  lineage-ends (suc fuel) [] seen h = λ e. cc
  lineage-ends (suc fuel) (id ∷ stack) seen h =
      let rest =
        lineage-ends fuel (next repo rows "" id stack seen) (now repo rows "" id seen)
          (omega (arith, next-fits repo rows "" id stack seen)) in
      joined (contains seen id)
        (lineage fuel (λ id. snap_row repo id rows) (next repo rows "" id stack seen)
          (now repo rows "" id seen))
        (snap_root (snap_row repo id rows)) rest
    where
      joined :
          (b : Bool) (o : Option (List ObjectId)) (roots : List ObjectId)
          → o ≢ none
          → (if b then o else elim o [ none ↦ none | some more ↦ some (roots ++ more) ]) ≢ none
      joined true o roots h = h
      joined false none roots h = h
      joined false (some more) roots h = λ e. cc

head_roots-Ends :
    (m : Meta) (repo : String) (head : Option LaneHead) → Ends (head_roots m repo head)
unfolding head_roots get_snap_record Ends
head_roots-Ends m repo none = ok-Ends []
head_roots-Ends m repo (some head) =
    answered
      (lineage (all_parents m.snap_records + 2) (λ id. snap_row repo id m.snap_records)
        (head.snap_id ∷ []) [])
      (lineage-ends repo m.snap_records (all_parents m.snap_records + 2) (head.snap_id ∷ []) []
        (omega (arith, weight-nil m.snap_records)))
  where
    answered : (o : Option (List ObjectId)) → o ≢ none → Ends (ok_or out_of_fuel o)
    answered none h = absurd (h refl)
    answered (some roots) h = ok-Ends roots

lane_roots-Ends :
    (m : Meta) (repo : String) (lanes : List LaneRecord) → Ends (lane_roots m repo lanes)
unfolding lane_roots
lane_roots-Ends m repo [] = ok-Ends []
lane_roots-Ends m repo (lane ∷ lanes) =
    let later = lane_roots-Ends m repo lanes in
    bind-Ends (head_roots m repo (get_lane_head m repo lane.lane_id)) _
      (head_roots-Ends m repo (get_lane_head m repo lane.lane_id))
      (λ roots. bind-Ends (lane_roots m repo lanes) _ later (λ rest. ok-Ends (roots ++ rest)))

list_candidates-Ends : (m : Meta) (repo : String) → Ends (list_candidates m repo)
unfolding list_candidates
list_candidates-Ends m repo = read_candidates-Ends m (candidate_ids m repo)

repo_roots-Ends : (drops : Drops) (m : Meta) (repo : String) → Ends (repo_roots drops m repo)
unfolding repo_roots
repo_roots-Ends drops m repo =
    bind-Ends (list_candidates m repo) _ (list_candidates-Ends m repo) (λ candidates.
      bind-Ends (lane_roots m repo (list_lanes m repo)) _
        (lane_roots-Ends m repo (list_lanes m repo)) (λ lanes. ok-Ends _))

all_roots-Ends : (drops : Drops) (m : Meta) (repos : List String) → Ends (all_roots drops m repos)
unfolding all_roots
all_roots-Ends drops m [] = ok-Ends []
all_roots-Ends drops m (repo ∷ repos) =
    let later = all_roots-Ends drops m repos in
    bind-Ends (repo_roots drops m repo) _ (repo_roots-Ends drops m repo)
      (λ roots. bind-Ends (all_roots drops m repos) _ later (λ rest. ok-Ends (roots ++ rest)))

collected-Ends :
    (limits : Limits) (store : Store) (objects : List StoredObject) (drops : Drops) (m : Meta)
    → Ends (collected limits store objects drops m)
unfolding collected Ends
collected-Ends limits store objects drops m =
    bind-Ends (all_roots drops m (list_repos m)) _ (all_roots-Ends drops m (list_repos m))
      (λ roots. (mark_and_sweep-Protected limits store roots objects m).0)

planned-Ends :
    (age : String → ℕ → Option String) (repo now : String) (m : Meta)
    → Ends (planned age repo now m)
unfolding planned
planned-Ends age repo now m =
    bind-Ends (list_candidates m repo) _ (list_candidates-Ends m repo) (λ candidates. ok-Ends _)

>>>-Ends :
    {A B : Type 0} (r : Answer A × Meta) (f : A → Meta → Answer B × Meta)
    → Ends r.0
    → ((a : A) (m : Meta) → Ends (f a m).0)
    → Ends (r >>> f).0
unfolding Ends
>>>-Ends (ok a, m) f h k = k a m
>>>-Ends (refuse r, m) f h k = bind-Ends (refuse r) (λ a. (f a m).0) h (λ a. k a m)

ended-Ends :
    (dry : Bool) (drops : Drops) (objects : List StoredObject) (left : ℕ × Meta) (a : Answer Swept)
    → Ends a
    → Ends (ended dry drops objects left a).0
ended-Ends dry drops objects (events, m) (refuse r) h =
    bind-Ends (refuse r) (λ out. ok (gc_report dry drops events out, out.objects)) h
      (λ out. ok-Ends _)
ended-Ends dry drops objects (events, m) (ok out) h = ok-Ends _

pub gc-Ends :
    (age : String → ℕ → Option String) (ctx : AuthzContext) (limits : Limits) (store : Store)
    (objects : List StoredObject) (now : String) (m : Meta)
    → (gc age ctx limits store objects now m).0 ≢ refuse out_of_fuel
unfolding gc Ends
gc-Ends age ctx limits store objects now m =
    >>>-Ends (check (has_grant m ctx.subject ctx.repo_id "*" (as_str admin)) forbidden, m)
      (λ u m0. (planned age ctx.repo_id now m0, m0) >>> finish)
      (granted (has_grant m ctx.subject ctx.repo_id "*" (as_str admin)))
      (λ u m0.
        >>>-Ends (planned age ctx.repo_id now m0, m0) finish (planned-Ends age ctx.repo_id now m0)
          (λ drops m1.
            ended-Ends limits.dry_run drops objects (delete_dropped limits.dry_run drops m1)
              (collected limits store objects drops (delete_dropped limits.dry_run drops m1).1)
              (collected-Ends limits store objects drops
                (delete_dropped limits.dry_run drops m1).1)))
  where
    finish : Drops → Meta → Answer (GcReport × List StoredObject) × Meta
    finish = λ drops m1. run limits store objects drops m1

    granted : (b : Bool) → Ends (check b forbidden)
    granted true = ok-Ends tt
    granted false = λ e. cc
