-- ===== src/Engine/Publish/Folds.antt =====
-- What a candidate is the fold of: `build_candidate`, described apart from it.
use convergence.Prelude.{
  String, ◌≡◌, refl, ap, subst, ◌⊎◌, inl, inr, Bool, not, Option, none, some, List, [], ◌∷◌, In,
  here, there, arith,
}
use convergence.Gates.{GateGraph}
use convergence.Records.{ObjectId, StoredCandidate, PartitionState, ready, failed}
use convergence.Meta.{Meta, PublicationRow, get_gate_graph}
use convergence.Authz.{AuthzContext}
use convergence.Engine.{
  Refusal, Answer, ok, refuse, ◌>>=◌, ok_or, no_graph, find_gate, get_candidate,
}
use convergence.Engine.Answers.{bind-ok, ok_or-ok}
use convergence.Engine.Publish.{MergeInput, Merged, merged, merge_failed, World}
use convergence.Engine.Publish.Build.{
  base_root, merge_inputs, strategy_of, merged_window, built, build_candidate,
}

-- The tree of a base: of none there is none, else it is that of the candidate that the tables find.
pub data BaseTree (seen : Meta) : Option String → Option ObjectId → Type 0 where
  no_base : BaseTree seen none none
  base_of :
      (id : String) (b : StoredCandidate)
      → get_candidate seen id ≡ ok b
      → BaseTree seen (some id) b.root_manifest

-- The inputs of a merge stand for the publications of a window one by one.
pub data Inputs (seen : Meta) : List PublicationRow → List MergeInput → Type 0 where
  no_inputs : Inputs seen [] []
  input_of :
      (row : PublicationRow) (base : Option ObjectId) (rows : List PublicationRow)
      (inputs : List MergeInput)
      → BaseTree seen row.publication.base_candidate_id base
      → Inputs seen rows inputs
      → Inputs seen (row ∷ rows) (
          record {
            lane = row.publication.lane_id;
            base = base;
            tree = row.publication.root_manifest;
          }
          ∷ inputs)

-- Some publication of a window names a base that the tables refuse.
pub record Baseless (seen : Meta) (window : List PublicationRow) (r : Refusal) : Type 0 where
  pub row : PublicationRow
  pub id : String
  pub at : In row window
  pub names : row.publication.base_candidate_id ≡ some id
  pub gone : get_candidate seen id ≡ refuse r

-- A candidate carries the outcome of a merge.
pub data Carries (c : StoredCandidate) : Merged → Type 0 where
  carries_tree :
      (root : ObjectId) (superposed : Bool)
      → c.root_manifest ≡ some root
      → c.status ≡ ready (not superposed)
      → Carries c (merged root superposed)
  carries_failure :
      (reason : String)
      → c.root_manifest ≡ none
      → c.status ≡ failed reason
      → Carries c (merge_failed reason)

-- A candidate is the fold of a window onto the partition's base under the gate's strategy: the merge of the
-- window's inputs, or a failure if one of them has lost its base.
pub record Fold (world : World) (repo gate : String) (base : Option String) (seen : Meta)
    (window : List PublicationRow) (c : StoredCandidate) : Type 0 where
  pub graph : GateGraph
  pub root : Option ObjectId
  pub in_graph : get_gate_graph seen repo ≡ some graph
  pub onto : BaseTree seen base root
  pub strategy : c.strategy ≡ strategy_of (find_gate graph gate)
  pub outcome :
      ((inputs : List MergeInput) × Inputs seen window inputs
        × Carries c (world.merge root inputs c.strategy))
      ⊎ ((r : Refusal) × Baseless seen window r × Carries c (merge_failed (world.error_text r)))

base_root-BaseTree :
    (seen : Meta) (base : Option String) (root : Option ObjectId)
    → base_root seen base ≡ ok root
    → BaseTree seen base root
unfolding base_root
base_root-BaseTree seen none root h = subst (BaseTree seen none) (ok_inj h) no_base
  where
    ok_inj : ok none ≡ ok root → none ≡ root
    ok_inj k = ground arith
base_root-BaseTree seen (some id) root h =
    let (b, found, last) = bind-ok (get_candidate seen id) (λ b. ok b.root_manifest) root h in
    subst (BaseTree seen (some id)) (ok_inj b last) (base_of id b found)
  where
    ok_inj : (b : StoredCandidate) → ok b.root_manifest ≡ ok root → b.root_manifest ≡ root
    ok_inj b k = ground arith

-- The base of a publication is found, or is the one that is gone.
base_root_cases :
    (seen : Meta) (base : Option String)
    → ((root : Option ObjectId) × (base_root seen base ≡ ok root))
      ⊎ ((r : Refusal) × (id : String) × (base ≡ some id)
          × (get_candidate seen id ≡ refuse r)
          × (base_root seen base ≡ refuse r))
unfolding base_root
base_root_cases seen none = inl (none, refl)
base_root_cases seen (some id) = answered (get_candidate seen id) refl
  where
    answered :
        (a : Answer StoredCandidate)
        → get_candidate seen id ≡ a
        → ((root : Option ObjectId) × ((a >>= λ b. ok b.root_manifest) ≡ ok root))
          ⊎ ((r : Refusal) × (x : String) × (some id ≡ some x)
              × (get_candidate seen x ≡ refuse r)
              × ((a >>= λ b. ok b.root_manifest) ≡ refuse r))
    answered (ok b) e = inl (b.root_manifest, refl)
    answered (refuse r) e = inr (r, id, refl, e, refl)

merge_inputs_cases :
    (seen : Meta) (window : List PublicationRow)
    → ((inputs : List MergeInput) × (merge_inputs seen window ≡ ok inputs)
        × Inputs seen window inputs)
      ⊎ ((r : Refusal) × (merge_inputs seen window ≡ refuse r) × Baseless seen window r)
unfolding merge_inputs
merge_inputs_cases seen [] = inl ([], refl, no_inputs)
merge_inputs_cases seen (row ∷ rows) =
    let later = merge_inputs_cases seen rows in
    elim (base_root_cases seen row.publication.base_candidate_id) [
      | inr (r, id, names, gone, e) ↦
          inr (r, rw e refl, record { row = row; id = id; at = here; names = names; gone = gone })
      | inl (root, e) ↦ elim later [
        | inl (inputs, read, all) ↦ inl (
          _,
          rw (e, read) refl,
          input_of row root rows inputs
              (base_root-BaseTree seen row.publication.base_candidate_id root e) all,
        )
        | inr (r, read, lost) ↦ inr (
          r,
          rw (e, read) refl,
          record {
            row = lost.row;
            id = lost.id;
            at = there lost.at;
            names = lost.names;
            gone = lost.gone;
          },
        )
      ]
    ]

Carries-built :
    (world : World) (ctx : AuthzContext) (gate : String) (p : PartitionState)
    (window : List PublicationRow) (strategy : String) (root : Option ObjectId) (at : String)
    (outcome : Merged)
    → Carries (built world ctx gate p window strategy root at outcome) outcome
unfolding built
Carries-built world ctx gate p window strategy root at (merged tree superposed) =
    carries_tree tree superposed refl refl
Carries-built world ctx gate p window strategy root at (merge_failed reason) =
    carries_failure reason refl refl

pub build_candidate-Fold :
    (world : World) (ctx : AuthzContext) (gate : String) (p : PartitionState)
    (window : List PublicationRow) (at : String) (seen : Meta) (c : StoredCandidate)
    → build_candidate world ctx gate p window at seen ≡ ok c
    → Fold world ctx.repo_id gate p.base_candidate_id seen window c
unfolding build_candidate built
build_candidate-Fold world ctx gate p window at seen c h =
    let (graph, found, h1) =
      bind-ok (ok_or no_graph (get_gate_graph seen ctx.repo_id)) with_base c h in
    let (root, based, h2) = bind-ok (base_root seen p.base_candidate_id) (finish graph) c h1 in
    subst (Fold world ctx.repo_id gate p.base_candidate_id seen window)
      (ok_inj (made graph root) h2)
      (record {
        graph = graph;
        root = root;
        in_graph = ok_or-ok no_graph (get_gate_graph seen ctx.repo_id) graph found;
        onto = base_root-BaseTree seen p.base_candidate_id root based;
        strategy = refl;
        outcome = folded graph root (merge_inputs_cases seen window);
      })
  where
    made : GateGraph → Option ObjectId → StoredCandidate
    made graph root =
        built world ctx gate p window (strategy_of (find_gate graph gate)) root at
          (merged_window world root (strategy_of (find_gate graph gate)) (merge_inputs seen window))

    finish : GateGraph → Option ObjectId → Answer StoredCandidate
    finish = λ graph root. ok (made graph root)

    with_base : GateGraph → Answer StoredCandidate
    with_base = λ graph. base_root seen p.base_candidate_id >>= finish graph

    ok_inj : (d : StoredCandidate) → ok d ≡ ok c → d ≡ c
    ok_inj d k = ground arith

    folded :
        (graph : GateGraph) (root : Option ObjectId)
        → ((inputs : List MergeInput) × (merge_inputs seen window ≡ ok inputs)
            × Inputs seen window inputs)
          ⊎ ((r : Refusal) × (merge_inputs seen window ≡ refuse r) × Baseless seen window r)
        → ((inputs : List MergeInput) × Inputs seen window inputs
            × Carries (made graph root) (world.merge root inputs (made graph root).strategy))
          ⊎ ((r : Refusal) × Baseless seen window r
              × Carries (made graph root) (merge_failed (world.error_text r)))
    folded graph root (inl (inputs, read, all)) = inl (
      inputs,
      all,
      subst (Carries (made graph root))
          (ap (merged_window world root (strategy_of (find_gate graph gate))) read)
          (Carries-built world ctx gate p window (strategy_of (find_gate graph gate)) root at (
            merged_window world root (strategy_of (find_gate graph gate))
              (merge_inputs seen window))),
    )
    folded graph root (inr (r, read, lost)) = inr (
      r,
      lost,
      subst (Carries (made graph root))
          (ap (merged_window world root (strategy_of (find_gate graph gate))) read)
          (Carries-built world ctx gate p window (strategy_of (find_gate graph gate)) root at (
            merged_window world root (strategy_of (find_gate graph gate))
              (merge_inputs seen window))),
    )
