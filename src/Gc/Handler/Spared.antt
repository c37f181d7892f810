-- ===== src/Gc/Handler/Spared.antt =====
-- The candidates that retention may not drop.
use convergence.Prelude.{
  ℕ, ◌<◌, ◌≡◌, refl, sym, ap, subst, ◌∙◌, String, inl, inr, true, false, not, ◌&&◌, Option, none,
  some, List, [], ◌∷◌, In, here, there, In-cons, In-map, map, keep, contains, contains-In, ltb,
  ◌==◌, eq_iff, eq_refl, arith, Bool-cases, Option-cases,
}
use convergence.Gates.{GateGraph, GateNode}
use convergence.Records.{StoredCandidate, ReleaseRecord}
use convergence.Retention.{RetentionPolicy, candidates_to_drop, releases_to_drop}
use convergence.Retention.Candidates.{candidates_to_drop_iff}
use convergence.Meta.{
  Meta, PublicationRow, in_partition, get_gate_graph, list_publications_after, list_releases,
}
use convergence.Meta.Collected.{list_scopes, list_partitions, get_retention, candidate_ids}
use convergence.Engine.{ok, get_candidate}
use convergence.Engine.Answers.{bind-ok}
use convergence.Gc.Roots.{Drops, list_candidates}
use convergence.Gc.Roots.Members.{
  keep_member, append_left, append_right, order_by_member, sort_member,
}
use convergence.Gc.Roots.Complete.{read_candidates_member}
use convergence.Gc.Handler.{
  bases_of, gates_of, gate_bases, scope_bases, protected, old_publications, planned,
}

-- Why a candidate of a repo must stay: a release that stays is of it, a candidate was built over it, or a
-- publication to a gate of the repo's graph in one of its scopes was written against it.
pub data Based (drops : Drops) (m : Meta) (repo id : String) : Type 0 where
  released :
      (r : ReleaseRecord)
      → In r m.releases
      → r.repo_id ≡ repo
      → r.candidate_id ≡ id
      → contains drops.releases id ≡ false
      → Based drops m repo id
  built_over :
      (row c : StoredCandidate)
      → In row m.candidates
      → row.repo_id ≡ repo
      → get_candidate m row.candidate_id ≡ ok c
      → c.base_candidate_id ≡ some id
      → Based drops m repo id
  written_against :
      (row : PublicationRow) (graph : GateGraph) (gate : GateNode)
      → In row m.publications
      → row.publication.repo_id ≡ repo
      → 0 < row.seq
      → In (repo, row.publication.scope_id) m.scopes
      → get_gate_graph m repo ≡ some graph
      → In gate graph.gates
      → gate.gate_id ≡ row.publication.target_gate_id
      → row.publication.base_candidate_id ≡ some id
      → Based drops m repo id

bases_of_member : (id : String) (os : List (Option String)) → In (some id) os → In id (bases_of os)
bases_of_member id [] m = elim m [ ]
bases_of_member id (none ∷ os) m = elim (In-cons m) [
  | inl e ↦ absurd (clash e)
  | inr later ↦ bases_of_member id os later
]
  where
    clash : some id ≡ none → ⊥
    clash e = cc
bases_of_member id (some x ∷ os) m = elim (In-cons m) [
  | inl e ↦ subst (λ y. In id (y ∷ bases_of os)) (same e) here
  | inr later ↦ there (bases_of_member id os later)
]
  where
    same : some id ≡ some x → id ≡ x
    same e = ground arith

module _ (m : Meta) (repo : String) (row : PublicationRow) (id : String) where
  abbrev Names : Type 0
  Names =
      In row m.publications
      × (row.publication.repo_id ≡ repo)
      × (0 < row.seq)
      × (row.publication.base_candidate_id ≡ some id)

  gate_bases_member :
      (gates : List String)
      → Names
      → In row.publication.target_gate_id gates
      → In id (gate_bases m repo row.publication.scope_id gates)
  unfolding list_publications_after
  gate_bases_member _ (at, own, above, names) (here {xs = xs}) = append_left id _ _ (
      bases_of_member id _ (
        subst
          (λ o. In o (
            map (λ (r : PublicationRow). r.publication.base_candidate_id)
              (list_publications_after m repo row.publication.scope_id
                row.publication.target_gate_id 0)))
          names
          (In-map (λ (r : PublicationRow). r.publication.base_candidate_id)
            (keep_member _ row m.publications at listed))))
    where
      listed :
          (in_partition repo row.publication.scope_id row.publication.target_gate_id row
            && ltb 0 row.seq)
          ≡ true
      listed = ground (
        arith,
        (eq_iff row.publication.repo_id repo).1 own,
        eq_refl row.publication.scope_id,
        eq_refl row.publication.target_gate_id,
        above,
      )
  gate_bases_member _ names (there {x = gate} {xs = xs} later) =
      append_right id _ _ (gate_bases_member xs names later)

  scope_bases_member :
      (gates scopes : List String)
      → Names
      → In row.publication.target_gate_id gates
      → In row.publication.scope_id scopes
      → In id (scope_bases m repo gates scopes)
  scope_bases_member gates _ names gate (here {xs = xs}) =
      append_left id _ _ (gate_bases_member gates names gate)
  scope_bases_member gates _ names gate (there {x = scope} {xs = xs} later) =
      append_right id _ _ (scope_bases_member gates xs names gate later)

candidates_to_drop-spares :
    (cs : List StoredCandidate) (policy : RetentionPolicy) (kept : List String) (id : String)
    → In id kept
    → contains (candidates_to_drop cs policy kept) id ≡ false
unfolding candidates_to_drop
candidates_to_drop-spares cs policy kept id at =
    elim (Option-cases policy.keep_candidates_per_gate) [
      | inl e ↦ rw e refl
      | inr (wanted, e) ↦ elim (Bool-cases (contains (candidates_to_drop cs policy kept) id)) [
        | inr free ↦ free
        | inl dropped ↦
            cc (((candidates_to_drop_iff cs policy kept wanted id e).0 dropped).0, contains-In at)
      ]
    ]

protected-Based :
    (drops : Drops) (m : Meta) (repo id : String) (cs : List StoredCandidate)
    → list_candidates m repo ≡ ok cs
    → Based drops m repo id
    → In id (protected m repo (list_releases m repo) drops.releases cs)
unfolding protected list_candidates candidate_ids list_releases list_scopes
protected-Based drops m repo id cs read (released r at own same stays) = append_left id _ _ (
    subst (λ x. In x (map (λ (y : ReleaseRecord). y.candidate_id) kept)) same
      (In-map (λ (y : ReleaseRecord). y.candidate_id)
        (keep_member (λ (y : ReleaseRecord). not (contains drops.releases y.candidate_id)) r _
          (keep_member (λ (y : ReleaseRecord). y.repo_id == repo) r m.releases at
            ((eq_iff r.repo_id repo).1 own))
          free)))
  where
    kept : List ReleaseRecord
    kept =
        keep (λ (y : ReleaseRecord). not (contains drops.releases y.candidate_id))
          (keep (λ (y : ReleaseRecord). y.repo_id == repo) m.releases)

    free : not (contains drops.releases r.candidate_id) ≡ true
    free = ap not (ap (contains drops.releases) same ∙ stays)
protected-Based drops m repo id cs read (built_over row c at own got names) =
    append_right id (map (λ (r : ReleaseRecord). r.candidate_id) _) _ (
      append_left id _ _ (
        bases_of_member id _ (
          subst (λ o. In o (map (λ (x : StoredCandidate). x.base_candidate_id) cs)) names
            (In-map (λ (x : StoredCandidate). x.base_candidate_id)
              (read_candidates_member m row.candidate_id c _ cs
                (In-map (λ (x : StoredCandidate). x.candidate_id)
                  (order_by_member (λ (x : StoredCandidate). x.created_at ∷ []) row _
                    (keep_member (λ (x : StoredCandidate). x.repo_id == repo) row m.candidates at
                      ((eq_iff row.repo_id repo).1 own))))
                got read)))))
protected-Based drops m repo id cs read
      (written_against row graph gate at own above scope found gate_at target names) =
    append_right id (map (λ (r : ReleaseRecord). r.candidate_id) _) _ (
      append_right id (bases_of (map (λ (x : StoredCandidate). x.base_candidate_id) cs)) _ (
        scope_bases_member m repo row id (gates_of (get_gate_graph m repo)) _
          (at, own, above, names) gates
          (sort_member row.publication.scope_id _ (
            In-map (λ (s : String × String). s.1)
              (keep_member (λ (s : String × String). s.0 == repo) (repo, row.publication.scope_id)
                m.scopes scope (eq_refl repo))))))
  where
    gates : In row.publication.target_gate_id (gates_of (get_gate_graph m repo))
    gates =
        subst (λ o. In row.publication.target_gate_id (gates_of o)) (sym found)
          (subst (λ x. In x (map (λ (g : GateNode). g.gate_id) graph.gates)) target
            (In-map (λ (g : GateNode). g.gate_id) gate_at))

-- What is planned for a repo drops no candidate of it that must stay.
pub planned-Based :
    (age : String → ℕ → Option String) (repo now : String) (m : Meta) (drops : Drops)
    → planned age repo now m ≡ ok drops
    → (drops.repo ≡ repo)
      × ((id : String) → Based drops m repo id → contains drops.candidates id ≡ false)
unfolding planned
planned-Based age repo now m drops h =
    let (cs, read, last) = bind-ok (list_candidates m repo) (λ cs. ok (made cs)) drops h in
    subst
      (λ (d : Drops).
        (d.repo ≡ repo) × ((id : String) → Based d m repo id → contains d.candidates id ≡ false))
      (ok_inj (made cs) last)
      (
        refl,
        λ id why.
            candidates_to_drop-spares cs (get_retention m repo)
              (protected m repo (list_releases m repo) (made cs).releases cs) id
              (protected-Based (made cs) m repo id cs read why),
      )
  where
    made : List StoredCandidate → Drops
    made = λ cs. record {
      repo = repo;
      releases = releases_to_drop (list_releases m repo) (get_retention m repo);
      candidates = candidates_to_drop cs (get_retention m repo) (
          protected m repo (list_releases m repo)
            (releases_to_drop (list_releases m repo) (get_retention m repo)) cs);
      publications =
          old_publications age m repo (get_retention m repo) now (list_partitions m repo);
    }

    ok_inj : (d : Drops) → ok d ≡ ok drops → d ≡ drops
    ok_inj d k = ground arith
