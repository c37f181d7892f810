-- ===== src/Retention.antt =====
-- Which releases, candidates and publications a retention policy drops
-- (crates/converge-server/src/retention.rs). Nothing here deletes.
pub mod Releases
pub mod Examples
pub mod Candidates
use Prim.Native.Nat.{pred}
use convergence.Prelude.{
  ℕ, zero, suc, ◌-◌, String, Bool, true, false, not, ◌&&◌, Option, none, some, List, [], ◌∷◌, ◌++◌,
  map, keep, take, length, contains, lookup, insert, leb, compare, Ordering, if◌then◌else◌,
}
use convergence.Records.{ReleaseRecord, StoredCandidate, PublicationRecord}

pub record RetentionPolicy : Type 0 where
  pub keep_releases : Option ℕ
  pub keep_candidates_per_gate : Option ℕ
  pub keep_publication_days : Option ℕ
  pub keep_events : Option ℕ

-- One of the two loops of `releases_to_drop`: it stops when nothing is in excess, and returns what it
-- dropped and the excess that is left.
unfoldable pub drop_while_excess : List ReleaseRecord → ℕ → List String × ℕ
drop_while_excess [] excess = ([], excess)
drop_while_excess (r ∷ releases) zero = ([], zero)
drop_while_excess (r ∷ releases) (suc excess) =
    let (dropped, left) = drop_while_excess releases excess in (r.candidate_id ∷ dropped, left)

unfoldable pub releases_to_drop : List ReleaseRecord → RetentionPolicy → List String
unfolding drop_while_excess
releases_to_drop releases policy = elim policy.keep_releases [
  | none ↦ []
  | some wanted ↦
      let (yanked, left) =
        drop_while_excess (keep (λ r. r.yanked) releases) (length releases - wanted) in
      let (live, rest) = drop_while_excess (keep (λ r. not r.yanked) releases) left in
      yanked ++ live
]

-- `by_gate`, a `BTreeMap` from a gate to its candidates in order of creation
abbrev pub Chains : Type 0
Chains = List (String × List StoredCandidate)

abbrev pub chain_at : String → Chains → List StoredCandidate
chain_at gate chains = elim (lookup gate chains) [ none ↦ [] | some chain ↦ chain ]

-- `by_gate.entry(gate).or_default().push(candidate)`, for each candidate
unfoldable pub group : Chains → List StoredCandidate → Chains
group chains [] = chains
group chains (c ∷ candidates) =
    group (insert c.gate_id (chain_at c.gate_id chains ++ (c ∷ [])) chains) candidates

-- `chain.drain(..excess)` less the protected ones
unfoldable pub drop_from_chain : ℕ → List String → List StoredCandidate → List String
drop_from_chain wanted protected chain =
    map (λ c. c.candidate_id)
      (keep (λ c. not (contains protected c.candidate_id)) (take (length chain - wanted) chain))

unfoldable pub drop_from_chains : ℕ → List String → Chains → List String
unfolding drop_from_chain
drop_from_chains wanted protected [] = []
drop_from_chains wanted protected ((gate, chain) ∷ chains) =
    drop_from_chain wanted protected chain ++ drop_from_chains wanted protected chains

unfoldable pub candidates_to_drop :
    List StoredCandidate → RetentionPolicy → List String → List String
unfolding group drop_from_chains
candidates_to_drop candidates policy protected = elim policy.keep_candidates_per_gate [
  | none ↦ []
  | some wanted ↦ drop_from_chains wanted protected (group [] candidates)
]

-- Lexicographic order is chronological for RFC3339 texts.
abbrev pub is_before : String → String → Bool
is_before a b = elim (compare a b) [ Ordering.lt ↦ true | _ ↦ false ]

-- `cutoff_rfc3339` computes with the `time` library: it is the parameter `cutoff`.
unfoldable pub publications_to_drop :
    (String → ℕ → Option String)
    → List (ℕ × String × String)
    → RetentionPolicy
    → ℕ
    → String
    → List String
publications_to_drop cutoff publications policy window_floor now =
    elim policy.keep_publication_days [
      | none ↦ []
      | some days ↦ elim (cutoff now days) [
        | none ↦ []
        | some limit ↦
            map (λ (p : ℕ × String × String). p.1)
              (keep (λ (p : ℕ × String × String). leb p.0 window_floor && is_before p.2 limit)
                publications)
      ]
    ]
