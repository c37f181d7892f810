-- ===== src/Engine/Publish/Guarded.antt =====
-- How an attempt of `publish` ends.
use convergence.Prelude.{
  String, ◌≡◌, refl, sym, ap, ◌∙◌, inl, inr, Bool, true, false, Option, none, some, length, eqb,
  if◌then◌else◌, arith, Bool-cases, Option-cases,
}
use convergence.Records.{StoredCandidate}
use convergence.Meta.{Meta, add_publication, put_candidate, add_event}
use convergence.Meta.Batch.{
  apply_op, apply_ops, apply_batch, state_eq, committed, batch_conflict, batch_error, BatchResult,
}
use convergence.Authz.{AuthzContext}
use convergence.Engine.{Answer, ok, refuse, batch_failed}
use convergence.Engine.Publish.{PublishInput, World}
use convergence.Engine.Publish.Handler.{
  publication_of, partition_of, open_window, publish_ops, tried_candidate, tried_ops, Outcome, won,
  lost, gave_up, outcome_of, try_commit, attempt,
}

-- The tables after the batch of an attempt, when the publication's row is added
abbrev pub committed_tables : AuthzContext → StoredCandidate → String → Meta → Meta
committed_tables ctx c at m =
    add_event ctx.repo_id "candidate" c.candidate_id at (put_candidate c m)

abbrev pub added : AuthzContext → StoredCandidate → String → Meta → Option Meta → Meta × BatchResult
added ctx c at m none = (m, batch_error)
added ctx c at m (some m') = (committed_tables ctx c at m', committed)

module _ (world : World) (ctx : AuthzContext) (input : PublishInput) (lane at : String)
    (seen m : Meta) where
  abbrev pub same_state : Bool
  same_state = state_eq (partition_of ctx input m) (partition_of ctx input seen)

  abbrev pub same_count : Bool
  same_count =
      eqb (length (open_window ctx input (partition_of ctx input seen).window_floor m))
        (length (open_window ctx input (partition_of ctx input seen).window_floor seen))

  ops-guarded :
      (c : StoredCandidate)
      → apply_batch (tried_ops world ctx input lane at seen c) m ≡ (
          if same_state
          then (if same_count
              then added ctx c at m (add_publication (publication_of world ctx input lane at) m)
              else (m, batch_conflict))
          else (m, batch_conflict))
  unfolding apply_batch apply_ops apply_op tried_ops publish_ops
  ops-guarded c = by_row (add_publication (publication_of world ctx input lane at) m) refl
    where
      by_row :
          (o : Option Meta)
          → add_publication (publication_of world ctx input lane at) m ≡ o
          → apply_batch (tried_ops world ctx input lane at seen c) m ≡ (
              if same_state
              then (if same_count
                  then added ctx c at m (add_publication (publication_of world ctx input lane at) m)
                  else (m, batch_conflict))
              else (m, batch_conflict))
      by_row none e = ground (arith, e)
      by_row (some m') e = ground (arith, e)

  -- What an attempt that commits `c` has met and done
  pub record Wins (c : StoredCandidate) (after : Meta) : Type 0 where
    pub tried : tried_candidate world ctx input lane at seen ≡ ok c
    pub unmoved : same_state ≡ true
    pub counted : same_count ≡ true
    pub between : Meta
    pub row : add_publication (publication_of world ctx input lane at) m ≡ some between
    pub leaves : after ≡ committed_tables ctx c at between

  unfoldable pub committing : StoredCandidate → Outcome × Meta
  committing c = outcome_of c (apply_batch (tried_ops world ctx input lane at seen c) m)

  commit_moved : (c : StoredCandidate) → same_state ≡ false → committing c ≡ (lost, m)
  unfolding committing
  commit_moved c e = ap (outcome_of c) {y = (m, batch_conflict)} (ops-guarded c ∙ rw e refl)

  commit_miscounted :
      (c : StoredCandidate) → same_state ≡ true → same_count ≡ false → committing c ≡ (lost, m)
  unfolding committing
  commit_miscounted c e f =
      ap (outcome_of c) {y = (m, batch_conflict)} (ops-guarded c ∙ rw (e, f) refl)

  pub commit_added :
      (c : StoredCandidate) (o : Option Meta)
      → same_state ≡ true
      → same_count ≡ true
      → add_publication (publication_of world ctx input lane at) m ≡ o
      → committing c ≡ outcome_of c (added ctx c at m o)
  unfolding committing
  commit_added c o e f g = ap (outcome_of c) (ops-guarded c ∙ rw (e, f) (ap (added ctx c at m) g))

  committing-won :
      (tried c : StoredCandidate)
      → tried_candidate world ctx input lane at seen ≡ ok tried
      → (committing tried).0 ≡ won c
      → Wins c (committing tried).1
  committing-won tried c t h = elim (Bool-cases same_state) [
    | inr e ↦ absurd (lost_won (sym (ap (λ out. out.0) (commit_moved tried e)) ∙ h))
    | inl e ↦ elim (Bool-cases same_count) [
      | inr f ↦ absurd (lost_won (sym (ap (λ out. out.0) (commit_miscounted tried e f)) ∙ h))
      | inl f ↦ elim (Option-cases (add_publication (publication_of world ctx input lane at) m)) [
        | inl g ↦ absurd (gave_won (sym (ap (λ out. out.0) (commit_added tried none e f g)) ∙ h))
        | inr (m', g) ↦
            let done = commit_added tried (some m') e f g in
            let same = won_inj (sym (ap (λ out. out.0) done) ∙ h) in
            record {
              tried = t ∙ ap ok same;
              unmoved = e;
              counted = f;
              between = m';
              row = g;
              leaves = ap (λ out. out.1) done ∙ ap (λ d. committed_tables ctx d at m') same;
            }
      ]
    ]
  ]
    where
      lost_won : lost ≡ won c → ⊥
      lost_won k = cc

      gave_won : gave_up batch_failed ≡ won c → ⊥
      gave_won k = cc

      won_inj : won tried ≡ won c → tried ≡ c
      won_inj k = ground arith

  committing-lost : (c : StoredCandidate) → (committing c).0 ≡ lost → (committing c).1 ≡ m
  committing-lost c h = elim (Bool-cases same_state) [
    | inr e ↦ ap (λ out. out.1) (commit_moved c e)
    | inl e ↦ elim (Bool-cases same_count) [
      | inr f ↦ ap (λ out. out.1) (commit_miscounted c e f)
      | inl f ↦ elim (Option-cases (add_publication (publication_of world ctx input lane at) m)) [
        | inl g ↦ absurd (gave_lost (sym (ap (λ out. out.0) (commit_added c none e f g)) ∙ h))
        | inr (m', g) ↦
            absurd (won_lost (sym (ap (λ out. out.0) (commit_added c (some m') e f g)) ∙ h))
      ]
    ]
  ]
    where
      gave_lost : gave_up batch_failed ≡ lost → ⊥
      gave_lost k = cc

      won_lost : won c ≡ lost → ⊥
      won_lost k = cc

  pub attempt-won :
      (c : StoredCandidate)
      → (attempt world ctx input lane at seen m).0 ≡ won c
      → Wins c (attempt world ctx input lane at seen m).1
  unfolding attempt committing
  attempt-won c h = through (tried_candidate world ctx input lane at seen) refl h
    where
      through :
          (a : Answer StoredCandidate)
          → tried_candidate world ctx input lane at seen ≡ a
          → (try_commit world ctx input lane at seen a m).0 ≡ won c
          → Wins c (try_commit world ctx input lane at seen a m).1
      through (refuse r) t k = cc
      through (ok d) t k = committing-won d c t k

  pub attempt-lost :
      (attempt world ctx input lane at seen m).0 ≡ lost
      → (attempt world ctx input lane at seen m).1 ≡ m
  unfolding attempt committing
  attempt-lost h = through (tried_candidate world ctx input lane at seen) h
    where
      through :
          (a : Answer StoredCandidate)
          → (try_commit world ctx input lane at seen a m).0 ≡ lost
          → (try_commit world ctx input lane at seen a m).1 ≡ m
      through (refuse r) k = cc
      through (ok d) k = committing-lost d k
