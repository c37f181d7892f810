-- ===== src/Engine/Publish/Admitted.antt =====
-- What the guards of `publish` let through.
use convergence.Prelude.{
  String, ◌≡◌, refl, sym, subst, ◌∙◌, true, ◌&&◌, ◌||◌, some, In, any, In-of_any, ◌==◌, eq_iff,
  arith,
}
use convergence.Gates.{GateGraph, GateNode}
use convergence.Records.{SnapRecord, StoredCandidate}
use convergence.Objects.{has_manifest}
use convergence.Meta.{Meta, repo_exists, get_gate_graph}
use convergence.Authz.{AuthzContext, publish, admin, same_capability}
use convergence.Engine.{
  Answer, ok, refuse, check, ok_or, require, get_candidate, resolve_candidate_prefix,
  wrong_capability, unknown_repo, no_graph, unknown_gate, not_uploaded, snap_mismatch, other_base,
}
use convergence.Engine.Answers.{bind-ok, then-ok, check-ok, ok_or-ok}
use convergence.Engine.Publish.{
  PublishInput, World, compute_snap_id, check_snap, uploaded, put_snap_record, upload_snap_record,
}
use convergence.Engine.Publish.Handler.{check_target, known_base, check_base}

-- The guards of a publication: the capability, a gate of the repo's graph, the stored root, the identity of the
-- snap, and a declared base of the same partition.
pub record Admitted (world : World) (ctx : AuthzContext) (input : PublishInput) (m : Meta)
    : Type 0 where
  pub capable :
      (same_capability ctx.capability publish || same_capability ctx.capability admin) ≡ true
  pub repo : repo_exists m ctx.repo_id ≡ true
  pub graph : GateGraph
  pub in_graph : get_gate_graph m ctx.repo_id ≡ some graph
  pub gate : GateNode
  pub at_gate : In gate graph.gates × (gate.gate_id ≡ input.gate_id)
  pub stored : has_manifest world.objects input.snap.root_manifest ≡ true
  pub identified :
      compute_snap_id world input.snap.root_manifest input.snap.parents
        input.snap.derived_from_candidate
      ≡ input.snap.id
  pub based :
      (id : String)
      → input.base_candidate_id ≡ some id
      → (base : StoredCandidate) × (get_candidate m id ≡ ok base)
        × (base.repo_id ≡ ctx.repo_id)
        × (base.scope_id ≡ ctx.scope_id)
        × (base.gate_id ≡ input.gate_id)

upload-candidates :
    (world : World) (ctx : AuthzContext) (snap : SnapRecord) (m : Meta) (id : String)
    → get_candidate (upload_snap_record world ctx snap m).1 id ≡ get_candidate m id
unfolding upload_snap_record put_snap_record get_candidate resolve_candidate_prefix
upload-candidates world ctx snap m id = known (check_snap world snap)
  where
    known : (a : Answer Unit) → get_candidate (uploaded a ctx snap m).1 id ≡ get_candidate m id
    known (refuse r) = refl
    known (ok u) = refl

sent-identified :
    (world : World) (ctx : AuthzContext) (snap : SnapRecord) (m : Meta)
    → (upload_snap_record world ctx snap m).0 ≡ ok tt
    → compute_snap_id world snap.root_manifest snap.parents snap.derived_from_candidate ≡ snap.id
unfolding upload_snap_record check_snap
sent-identified world ctx snap m h = (eq_iff _ _).0 (check-ok _ snap_mismatch (checked.0))
  where
    passed : (a : Answer Unit) → (uploaded a ctx snap m).0 ≡ ok tt → a ≡ ok tt
    passed (ok tt) k = refl
    passed (refuse r) k = cc

    checked :
        (check
            (compute_snap_id world snap.root_manifest snap.parents snap.derived_from_candidate
              == snap.id)
            snap_mismatch
          ≡ ok tt)
        × (check (has_manifest world.objects snap.root_manifest) not_uploaded ≡ ok tt)
    checked = then-ok _ _ tt (passed (check_snap world snap) h)

known_base-ok : (a : Answer StoredCandidate) (b : StoredCandidate) → known_base a ≡ ok b → a ≡ ok b
known_base-ok (ok c) b h = h
known_base-ok (refuse r) b h = cc

-- A base of the partition that a request publishes to
abbrev pub BaseHere : AuthzContext → PublishInput → Meta → String → Type 0
BaseHere ctx input m id =
    (base : StoredCandidate) × (get_candidate m id ≡ ok base)
    × (base.repo_id ≡ ctx.repo_id)
    × (base.scope_id ≡ ctx.scope_id)
    × (base.gate_id ≡ input.gate_id)

check_base-BaseHere :
    (ctx : AuthzContext) (input : PublishInput) (m : Meta) (id : String)
    → check_base ctx input (some id) m ≡ ok tt
    → BaseHere ctx input m id
unfolding check_base
check_base-BaseHere ctx input m id h =
    let (b, found, here) =
      bind-ok (known_base (get_candidate m id))
        (λ base.
          check
            (base.repo_id == ctx.repo_id
              && base.scope_id == ctx.scope_id
              && base.gate_id == input.gate_id)
            other_base)
        tt h in
    same b (known_base-ok (get_candidate m id) b found) (check-ok _ other_base here)
  where
    same :
        (b : StoredCandidate)
        → get_candidate m id ≡ ok b
        → (b.repo_id == ctx.repo_id && b.scope_id == ctx.scope_id && b.gate_id == input.gate_id)
          ≡ true
        → BaseHere ctx input m id
    same b e t = (
      b,
      e,
      ground (arith, t, eq_iff b.repo_id ctx.repo_id),
      ground (arith, t, eq_iff b.scope_id ctx.scope_id),
      ground (arith, t, eq_iff b.gate_id input.gate_id),
    )

pub guards-Admitted :
    (world : World) (ctx : AuthzContext) (input : PublishInput) (m : Meta)
    → check_target world ctx input m ≡ ok tt
    → (upload_snap_record world ctx input.snap m).0 ≡ ok tt
    → check_base ctx input input.base_candidate_id (upload_snap_record world ctx input.snap m).1
      ≡ ok tt
    → Admitted world ctx input m
unfolding check_target require
guards-Admitted world ctx input m h sent base =
    let (capable, h1) = then-ok (require ctx publish) _ tt h in
    let (repo, h2) = then-ok (check (repo_exists m ctx.repo_id) unknown_repo) _ tt h1 in
    let (graph, found, h3) = bind-ok (ok_or no_graph (get_gate_graph m ctx.repo_id)) _ tt h2 in
    let (known, stored) =
      then-ok (check (any (λ g. g.gate_id == input.gate_id) graph.gates) unknown_gate) _ tt h3 in
    let (gate, at, named) =
      In-of_any (λ (g : GateNode). g.gate_id == input.gate_id) graph.gates
        (check-ok (any (λ g. g.gate_id == input.gate_id) graph.gates) unknown_gate known) in
    record {
      capable = check-ok _ wrong_capability capable;
      repo = check-ok _ unknown_repo repo;
      graph = graph;
      in_graph = ok_or-ok no_graph (get_gate_graph m ctx.repo_id) graph found;
      gate = gate;
      at_gate = (at, (eq_iff gate.gate_id input.gate_id).0 named);
      stored = check-ok _ not_uploaded stored;
      identified = sent-identified world ctx input.snap m sent;
      based = λ id e. before id (
          check_base-BaseHere ctx input (upload_snap_record world ctx input.snap m).1 id (
            subst
              (λ o. check_base ctx input o (upload_snap_record world ctx input.snap m).1 ≡ ok tt) e
              base));
    }
  where
    before :
        (id : String)
        → BaseHere ctx input (upload_snap_record world ctx input.snap m).1 id
        → BaseHere ctx input m id
    before id (b, e, r, s, g) = (b, sym (upload-candidates world ctx input.snap m id) ∙ e, r, s, g)
