-- ===== src/Gc/Handler.antt =====
-- `gc` of crates/converge-server/src/gc.rs: retention, deletion, mark and sweep. The cutoff date of a publication's
-- age comes from the crate `time` and is a parameter.
pub mod Leaves
pub mod Spared
pub mod Ends
pub mod Keeps
use convergence.Prelude.{
  ℕ, String, Bool, true, false, not, Option, none, some, List, [], ◌∷◌, ◌++◌, map, keep, length,
  contains, if◌then◌else◌,
}
use convergence.Gates.{GateGraph, GateNode}
use convergence.Records.{ObjectId, StoredCandidate, ReleaseRecord}
use convergence.Objects.{Store}
use convergence.Retention.{
  RetentionPolicy, releases_to_drop, candidates_to_drop, publications_to_drop,
}
use convergence.Meta.{Meta, PublicationRow, get_gate_graph, list_publications_after, list_releases}
use convergence.Meta.Collected.{
  list_repos, list_scopes, list_partitions, get_retention, delete_releases_for_candidates,
  delete_candidates, delete_publications,
}
use convergence.Meta.Events.{prune_events}
use convergence.Authz.{AuthzContext, admin, as_str, has_grant}
use convergence.Engine.{Answer, ok, refuse, ◌>>=◌, ◌>>◌, ◌>>>◌, check, forbidden}
use convergence.Gc.Sweep.{StoredObject, Limits, Swept, mark_and_sweep}
use convergence.Gc.Roots.{Drops, list_candidates, all_roots}

pub record GcReport : Type 0 where
  pub dry_run : Bool
  pub dropped_releases : ℕ
  pub dropped_candidates : ℕ
  pub dropped_publications : ℕ
  pub pruned_events : ℕ
  pub reachable_objects : ℕ
  pub swept_objects : ℕ
  pub swept_bytes : ℕ
  pub expired_pins : ℕ

abbrev pub bases_of : List (Option String) → List String
bases_of [] = []
bases_of (none ∷ bases) = bases_of bases
bases_of (some base ∷ bases) = base ∷ bases_of bases

abbrev pub gates_of : Option GateGraph → List String
gates_of none = []
gates_of (some graph) = map (λ g. g.gate_id) graph.gates

-- The bases that publications to a gate name, and those of every gate of a scope
abbrev pub gate_bases : Meta → String → String → List String → List String
gate_bases m repo scope [] = []
gate_bases m repo scope (gate ∷ gates) =
    bases_of
      (map (λ row. row.publication.base_candidate_id) (list_publications_after m repo scope gate 0))
    ++ gate_bases m repo scope gates

abbrev pub scope_bases : Meta → String → List String → List String → List String
scope_bases m repo gates [] = []
scope_bases m repo gates (scope ∷ scopes) =
    gate_bases m repo scope gates ++ scope_bases m repo gates scopes

unfoldable pub protected :
    Meta → String → List ReleaseRecord → List String → List StoredCandidate → List String
unfolding list_scopes
protected m repo releases dropped candidates =
    map (λ r. r.candidate_id) (keep (λ r. not (contains dropped r.candidate_id)) releases)
    ++ (bases_of (map (λ c. c.base_candidate_id) candidates)
        ++ scope_bases m repo (gates_of (get_gate_graph m repo)) (list_scopes m repo))

abbrev pub dated : PublicationRow → ℕ × String × String
dated row = (row.seq, row.publication.publication_id, row.publication.created_at)

abbrev pub old_publications :
    (String → ℕ → Option String)
    → Meta
    → String
    → RetentionPolicy
    → String
    → List (String × (String × ℕ))
    → List String
old_publications age m repo policy now [] = []
old_publications age m repo policy now ((scope, (gate, floor)) ∷ partitions) =
    publications_to_drop age (map dated (list_publications_after m repo scope gate 0)) policy floor
      now
    ++ old_publications age m repo policy now partitions

unfoldable pub planned : (String → ℕ → Option String) → String → String → Meta → Answer Drops
unfolding list_candidates protected list_partitions get_retention
planned age repo now m = do
  candidates ← list_candidates m repo
  let policy = get_retention m repo
  let dropped = releases_to_drop (list_releases m repo) policy
  ok (record {
    repo = repo;
    releases = dropped;
    candidates =
        candidates_to_drop candidates policy
          (protected m repo (list_releases m repo) dropped candidates);
    publications = old_publications age m repo policy now (list_partitions m repo);
  })

abbrev pub pruned : Option ℕ → String → Meta → ℕ × Meta
pruned none repo m = (0, m)
pruned (some kept) repo m = prune_events repo kept m

-- The deletions, which a dry run leaves out, with the number of events that they prune
unfoldable pub delete_dropped : Bool → Drops → Meta → ℕ × Meta
unfolding delete_releases_for_candidates delete_candidates delete_publications
delete_dropped true drops m = (0, m)
delete_dropped false drops m = pruned (get_retention m drops.repo).keep_events drops.repo (
    delete_publications drops.repo drops.publications (
      delete_candidates drops.repo drops.candidates
        (delete_releases_for_candidates drops.repo drops.releases m)))

unfoldable pub collected : Limits → Store → List StoredObject → Drops → Meta → Answer Swept
unfolding all_roots mark_and_sweep list_repos
collected limits store objects drops m = do
  roots ← all_roots drops m (list_repos m)
  mark_and_sweep limits store roots objects m

unfoldable pub gc_report : Bool → Drops → ℕ → Swept → GcReport
gc_report dry drops events out = record {
  dry_run = dry;
  dropped_releases = length drops.releases;
  dropped_candidates = length drops.candidates;
  dropped_publications = length drops.publications;
  pruned_events = events;
  reachable_objects = out.reachable_objects;
  swept_objects = out.swept_objects;
  swept_bytes = out.swept_bytes;
  expired_pins = out.expired_pins;
}

-- The tables and the objects that a run leaves; the deletions stay if the sweep is refused.
abbrev pub ended :
    Bool
    → Drops
    → List StoredObject
    → ℕ × Meta
    → Answer Swept
    → Answer (GcReport × List StoredObject) × Meta
ended dry drops objects (events, m) (refuse r) = (refuse r, m)
ended dry drops objects (events, m) (ok out) =
    (ok (gc_report dry drops events out, out.objects), out.tables)

abbrev pub run :
    Limits → Store → List StoredObject → Drops → Meta → Answer (GcReport × List StoredObject) × Meta
run limits store objects drops m =
    let left = delete_dropped limits.dry_run drops m in
    ended limits.dry_run drops objects left (collected limits store objects drops left.1)

unfoldable pub gc :
    (String → ℕ → Option String)
    → AuthzContext
    → Limits
    → Store
    → List StoredObject
    → String
    → Meta
    → Answer (GcReport × List StoredObject) × Meta
unfolding planned delete_dropped collected gc_report
gc age ctx limits store objects now m =
    (check (has_grant m ctx.subject ctx.repo_id "*" (as_str admin)) forbidden, m) >>> λ u m0.
    (planned age ctx.repo_id now m0, m0) >>> λ drops m1. run limits store objects drops m1
