-- ===== src/Engine/Release.antt =====
-- `release` and `yank` of crates/converge-server/src/engine/gates.rs.
pub mod Unique
pub mod Examples
pub mod Yank
use convergence.Prelude.{
  String, Bool, true, false, ◌&&◌, Option, none, some, List, [], ◌∷◌, any, contains, map,
  if◌then◌else◌, not,
}
use convergence.Gates.{GateGraph}
use convergence.Records.{StoredCandidate, ReleaseRecord}
use convergence.Meta.{
  Meta, get_gate_graph, list_releases, add_release, set_release_yanked, add_event,
}
use convergence.Authz.{Capability, AuthzContext}
use convergence.Releases.{Semver, parse_version, refuse_version}
use convergence.Engine.{
  Refusal, Answer, ok, refuse, ◌>>=◌, ◌>>◌, check, ok_or, require, ensure_partition, get_candidate,
  check_promotable, reached_gates, no_graph, no_release_gate, bad_version, version_exists,
  no_release,
}

-- Some gate that the candidate has reached may release.
unfoldable pub may_release_from : Meta → GateGraph → StoredCandidate → Bool
may_release_from m graph c =
    any (λ g. g.may_release && contains (reached_gates m c) g.gate_id) graph.gates

abbrev pub yank_event : AuthzContext → String → String → Meta × Bool → Meta → Answer Unit × Meta
yank_event ctx version at (after, true) m =
    (ok tt, add_event ctx.repo_id "release.yanked" version at after)
yank_event ctx version at (after, false) m = (refuse no_release, m)

module _ (semver : Semver) where
  -- `filter_map(|r| parse_version(&r.version).ok())`
  abbrev pub parsed : List ReleaseRecord → List semver.Version
  parsed [] = []
  parsed (r ∷ rs) =
      let rest = parsed rs in
      elim (parse_version semver r.version) [ none ↦ rest | some v ↦ v ∷ rest ]

  -- The record that `release` adds, or why it refuses
  unfoldable pub release_record :
      AuthzContext → String → String → Option String → String → Meta → Answer ReleaseRecord
  release_record ctx given channel notes at m = do
    require ctx Capability.release
    c ← get_candidate m given
    ensure_partition ctx c
    check_promotable c.status
    graph ← ok_or no_graph (get_gate_graph m ctx.repo_id)
    check (may_release_from m graph c) no_release_gate
    version ← ok_or bad_version (parse_version semver channel)
    check (not (refuse_version semver version (parsed (list_releases m ctx.repo_id))))
        version_exists
    ok (record {
      version = semver.print version;
      yanked = false;
      yank_reason = none;
      repo_id = ctx.repo_id;
      scope_id = ctx.scope_id;
      candidate_id = c.candidate_id;
      released_by = ctx.subject;
      notes = notes;
      created_at = at;
    })

  abbrev pub released :
      AuthzContext → String → Meta → Answer ReleaseRecord → Answer ReleaseRecord × Meta
  released ctx at m (refuse r) = (refuse r, m)
  released ctx at m (ok r) = (ok r, add_event ctx.repo_id "release" r.version at (add_release r m))

  unfoldable pub release :
      AuthzContext → String → String → Option String → String → Meta → Answer ReleaseRecord × Meta
  unfolding release_record
  release ctx given channel notes at m =
      released ctx at m (release_record ctx given channel notes at m)

  abbrev pub yanked_as :
      AuthzContext → String → String → Meta → Answer semver.Version → Answer Unit × Meta
  yanked_as ctx reason at m (refuse r) = (refuse r, m)
  yanked_as ctx reason at m (ok version) =
      yank_event ctx (semver.print version) at
        (set_release_yanked ctx.repo_id (semver.print version) reason m) m

  -- The version that a `yank` names
  abbrev pub yank_version : AuthzContext → String → Answer semver.Version
  yank_version ctx given =
      require ctx Capability.release >> ok_or bad_version (parse_version semver given)

  unfoldable pub yank : AuthzContext → String → String → String → Meta → Answer Unit × Meta
  unfolding set_release_yanked
  yank ctx given reason at m = yanked_as ctx reason at m (yank_version ctx given)
