-- ===== src/Retention/Candidates.antt =====
-- Which candidates are dropped.
use convergence.Prelude.{
  ℕ, zero, suc, ◌-◌, ◌≡◌, refl, ap, sym, ◌∙◌, ◌↔◌, inl, inr, String, Bool, true, false, not, ◌&&◌,
  none, some, List, [], ◌∷◌, ◌++◌, map, keep, take, length, arith, if◌then◌else◌, contains,
  contains-append, lookup, insert, lookup-insert, In-lookup, eq_iff, ◌==◌, In, here, there, In-cons,
  Bool-cases, Option-cases, subst,
}
use convergence.Prelude.Sorted.{IsSorted, insert-IsSorted, lookup-In}
use convergence.Records.{StoredCandidate}
use convergence.Retention.{
  RetentionPolicy, Chains, chain_at, group, drop_from_chain, drop_from_chains, candidates_to_drop,
}

-- The candidates that a gate produced, in order of creation.
abbrev pub of_gate : String → List StoredCandidate → List StoredCandidate
of_gate gate = keep (λ c. c.gate_id == gate)

chain_at-insert :
    (g k : String) (chain : List StoredCandidate) (chains : Chains)
    → chain_at k (insert g chain chains) ≡ (if g == k then chain else chain_at k chains)
chain_at-insert g k chain chains = ground (arith, lookup-insert g k chain chains)

append_assoc_one :
    (xs : List StoredCandidate) (c : StoredCandidate) (ys : List StoredCandidate)
    → (xs ++ (c ∷ [])) ++ ys ≡ xs ++ (c ∷ ys)
append_assoc_one [] c ys = refl
append_assoc_one (x ∷ xs) c ys = ap (λ rest. x ∷ rest) (append_assoc_one xs c ys)

append_nil : (xs : List StoredCandidate) → xs ++ [] ≡ xs
append_nil [] = refl
append_nil (x ∷ xs) = ap (λ rest. x ∷ rest) (append_nil xs)

-- The map holds for each gate what it produced.
chain_at-group :
    (gate : String) (chains : Chains) (cs : List StoredCandidate)
    → chain_at gate (group chains cs) ≡ chain_at gate chains ++ of_gate gate cs
unfolding group
chain_at-group gate chains [] = sym (append_nil (chain_at gate chains))
chain_at-group gate chains (c ∷ cs) =
    chain_at-group gate (insert c.gate_id (chain_at c.gate_id chains ++ (c ∷ [])) chains) cs
    ∙ (rw (chain_at-insert c.gate_id gate (chain_at c.gate_id chains ++ (c ∷ [])) chains)
        (pushed (c.gate_id == gate) refl))
  where
    pushed :
        (b : Bool)
        → (c.gate_id == gate) ≡ b
        → (if b then chain_at c.gate_id chains ++ (c ∷ []) else chain_at gate chains)
            ++ of_gate gate cs
          ≡ chain_at gate chains ++ (if b then c ∷ of_gate gate cs else of_gate gate cs)
    pushed true e =
        subst
          (λ g.
            (chain_at c.gate_id chains ++ (c ∷ [])) ++ of_gate gate cs
            ≡ chain_at g chains ++ (c ∷ of_gate gate cs))
          ((eq_iff c.gate_id gate).0 e)
          (append_assoc_one (chain_at c.gate_id chains) c (of_gate gate cs))
    pushed false e = refl

group-IsSorted :
    (chains : Chains) (cs : List StoredCandidate) → IsSorted chains → IsSorted (group chains cs)
unfolding group
group-IsSorted chains [] s = s
group-IsSorted chains (c ∷ cs) s =
    group-IsSorted (insert c.gate_id (chain_at c.gate_id chains ++ (c ∷ [])) chains) cs
      (insert-IsSorted c.gate_id _ chains s)

abbrev ids : List StoredCandidate → List String
ids = map (λ c. c.candidate_id)

contains-unprotected :
    (protected : List String) (id : String) (cs : List StoredCandidate)
    → contains (ids (keep (λ c. not (contains protected c.candidate_id)) cs)) id
      ≡ (not (contains protected id) && contains (ids cs) id)
contains-unprotected protected id [] = ground arith
contains-unprotected protected id (c ∷ cs) = elim (Bool-cases (c.candidate_id == id)) [
  | inl e ↦
      rw (ap (contains protected) ((eq_iff c.candidate_id id).0 e))
        (ground (arith, contains-unprotected protected id cs))
  | inr e ↦ ground (arith, contains-unprotected protected id cs)
]

-- The oldest candidates of a gate, beyond the newest `wanted`.
abbrev pub excess : ℕ → List StoredCandidate → List StoredCandidate
excess wanted chain = take (length chain - wanted) chain

abbrev Dropped : ℕ → String → Chains → Type 0
Dropped wanted id chains =
    (gate : String) × (chain : List StoredCandidate) × In (gate, chain) chains
    × (contains (ids (excess wanted chain)) id ≡ true)

Dropped-sound :
    (wanted : ℕ) (protected : List String) (id : String) (chains : Chains)
    → contains (drop_from_chains wanted protected chains) id ≡ true
    → (contains protected id ≡ false) × Dropped wanted id chains
unfolding drop_from_chains
Dropped-sound wanted protected id [] h = cc
Dropped-sound wanted protected id ((g, chain) ∷ chains) h =
    elim (Bool-cases (contains (drop_from_chain wanted protected chain) id)) [
      | inl e ↦
          let both : (not (contains protected id) && contains (ids (excess wanted chain)) id)
              ≡ true =
            sym (contains-unprotected protected id (excess wanted chain)) ∙ e in
          (ground (arith, both), (g, chain, here, ground (arith, both)))
      | inr e ↦
          let (free, (g', c', at, k)) = Dropped-sound wanted protected id chains (
            ground (
              arith,
              h,
              e,
              contains-append (drop_from_chain wanted protected chain)
                  (drop_from_chains wanted protected chains) id,
            )) in
          (free, (g', c', there at, k))
    ]

Dropped-complete :
    (wanted : ℕ) (protected : List String) (id : String) {chains : Chains} (gate : String)
    (chain : List StoredCandidate)
    → contains protected id ≡ false
    → In (gate, chain) chains
    → contains (ids (excess wanted chain)) id ≡ true
    → contains (drop_from_chains wanted protected chains) id ≡ true
unfolding drop_from_chains
Dropped-complete wanted protected id {chains = []} gate chain free at k = elim at [ ]
Dropped-complete wanted protected id {chains = ((g, chain') ∷ chains)} gate chain free at k =
    rw
      (contains-append (drop_from_chain wanted protected chain')
        (drop_from_chains wanted protected chains) id)
      (elim (In-cons at) [
        | inl e ↦
            let same : chain ≡ chain' = ap (λ (p : String × List StoredCandidate). p.1) e in
            ground (arith, contains-unprotected protected id (excess wanted chain'), free, k, same)
        | inr at' ↦ ground (arith, Dropped-complete wanted protected id gate chain free at' k)
      ])

chain_at-some :
    (g : String) (chain : List StoredCandidate) (m : Chains)
    → lookup g m ≡ some chain
    → chain_at g m ≡ chain
chain_at-some g chain m e = ground arith

chain_at-none : (g : String) (m : Chains) → lookup g m ≡ none → chain_at g m ≡ []
chain_at-none g m e = ground arith

excess-nil : (n : ℕ) (id : String) → contains (ids (take n [])) id ≡ false
excess-nil zero id = refl
excess-nil (suc n) id = refl

-- With a limit of `wanted` candidates per gate, an id is dropped exactly when it is not protected and
-- is among the oldest that some gate has beyond its newest `wanted`.
pub candidates_to_drop_iff :
    (cs : List StoredCandidate) (policy : RetentionPolicy) (protected : List String) (wanted : ℕ)
    (id : String)
    → policy.keep_candidates_per_gate ≡ some wanted
    → (contains (candidates_to_drop cs policy protected) id ≡ true) ↔ (
        (contains protected id ≡ false)
        × ((gate : String) × (contains
                (map (λ c. c.candidate_id) (excess wanted (of_gate gate cs)))
                id
              ≡ true)))
unfolding candidates_to_drop
candidates_to_drop_iff cs policy protected wanted id h = rw h (
  λ d.
      let (free, (g, chain, at, k)) = Dropped-sound wanted protected id (group [] cs) d in
      (free, (g, subst (λ c. contains (ids (excess wanted c)) id ≡ true) (chain_of g chain at) k)),
  λ (free, (g, k)). elim (Option-cases (lookup g (group [] cs))) [
    | inl e ↦ cc (
      k,
      ap (λ c. contains (ids (excess wanted c)) id)
          (sym (chain_at-group g [] cs) ∙ chain_at-none g (group [] cs) e),
      excess-nil (0 - wanted) id,
    )
    | inr (chain, e) ↦
        Dropped-complete wanted protected id g chain free (In-lookup g chain (group [] cs) e) (
          subst (λ c. contains (ids (excess wanted c)) id ≡ true)
            (sym (chain_of g chain (In-lookup g chain (group [] cs) e))) k)
  ],
)
  where
    chain_of :
        (g : String) (chain : List StoredCandidate)
        → In (g, chain) (group [] cs)
        → chain ≡ of_gate g cs
    chain_of g chain at =
        sym (
          chain_at-some g chain (group [] cs)
            (lookup-In g chain (group [] cs) (group-IsSorted [] cs tt) at))
        ∙ chain_at-group g [] cs
