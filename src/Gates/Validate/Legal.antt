-- ===== src/Gates/Validate/Legal.antt =====
-- A graph has no fault exactly when it is legal.
use convergence.Prelude.{
  is_nil-nil, is_nil, String, ◌≡◌, ◌≢◌, refl, sym, subst, ◌∙◌, ◌↔◌, inl, inr, true, none, List, [],
  ◌∷◌, ◌++◌, contains, arith, In, All, All-In, All-of_In, append-nil_inv, append-nil_of, Bool-cases,
}
use convergence.Gates.{GateNode, GateGraph, GraphFault, empty}
use convergence.Gates.Reachable.{entries, reachable_from_entries}
use convergence.Gates.Reachable.Exact.{Reaches, reachable_from_entries_iff}
use convergence.Gates.Cycle.{edges_of, find_cycle}
use convergence.Gates.Cycle.Links.{Grounded}
use convergence.Gates.Cycle.Exact.{find_cycle-none_iff}
use convergence.Gates.Validate.{
  check_nodes, check_upstreams, check_cycle, unreachable, check_releases, validate,
}
use convergence.Gates.Validate.Nodes.{
  ids, Distinct, IsNamed, HasKnownUpstreams, contains-check_nodes, check_nodes-nil,
  check_nodes-nil_of, check_upstreams-nil,
}

-- What the rest of the system relies on: publications have an entry, promotion's walk along upstreams
-- ends, and every gate that may release can be reached.
pub record IsLegal (graph : GateGraph) : Type 0 where
  pub nonempty : graph.gates ≢ []
  pub named : All IsNamed graph.gates
  pub distinct : Distinct (ids graph.gates)
  pub known : All (HasKnownUpstreams (ids graph.gates)) graph.gates
  pub ends : (g : GateNode) → In g graph.gates → Grounded (edges_of graph.gates) g.gate_id
  pub entry : entries graph.gates ≢ []
  pub released :
      (g : GateNode) → In g graph.gates → g.may_release ≡ true → Reaches graph.gates g.gate_id

unreachable-nil :
    (reachable : List String) (gates : List GateNode)
    → (unreachable reachable gates ≡ [])
      ↔ All (λ g. g.may_release ≡ true → contains reachable g.gate_id ≡ true) gates
unfolding unreachable
unreachable-nil reachable [] = ((λ h. tt), (λ h. refl))
unreachable-nil reachable (g ∷ gates) = (
  λ h. ((λ r. ground (arith, r, h)), (unreachable-nil reachable gates).0 (append-nil_inv _ _ h).1),
  λ (h, rest). ground (arith, h, (unreachable-nil reachable gates).1 rest),
)

check_cycle-nil : (graph : GateGraph) → (check_cycle graph [] ≡ []) ↔ (find_cycle graph ≡ none)
unfolding check_cycle
check_cycle-nil graph = ground arith

check_releases-nil :
    (graph : GateGraph)
    → (check_releases graph [] ≡ [])
      ↔ ((entries graph.gates ≢ []) × (unreachable (reachable_from_entries graph) graph.gates ≡ []))
unfolding check_releases
check_releases-nil graph = (
  λ h. ((λ e. ground (arith, h, e)), ground (arith, h)),
  λ (e, u). elim (Bool-cases (is_nil (entries graph.gates))) [
    | inl n ↦ absurd (e (is_nil-nil _ n))
    | inr n ↦ rw n u
  ],
)

HasKnownUpstreams-cong :
    (known seen : List String)
    → ((a : String) → contains known a ≡ contains seen a)
    → (g : GateNode) → HasKnownUpstreams known g
    → HasKnownUpstreams seen g
HasKnownUpstreams-cong known seen same g h =
    All-of_In _ g.upstreams (λ u m. ((All-In _ h m).0, sym (same u) ∙ (All-In _ h m).1))

-- A stage that reads the faults before it and pushes more.
staged-nil :
    (xs : List GraphFault) (stage : List GraphFault → List GraphFault)
    → (xs ++ stage xs ≡ []) ↔ ((xs ≡ []) × (stage [] ≡ []))
staged-nil xs stage = (
  λ h. let (e, f) = append-nil_inv xs (stage xs) h in (e, subst (λ ys. stage ys ≡ []) e f),
  λ (e, f). append-nil_of xs (stage xs) e (subst (λ ys. stage ys ≡ []) (sym e) f),
)

validate-nonempty :
    (graph : GateGraph)
    → graph.gates ≢ []
    → let nodes = (check_nodes graph.gates []).0 in
      let edges = nodes ++ check_upstreams (check_nodes graph.gates []).1 graph.gates in
      let cycles = edges ++ check_cycle graph edges in
      validate graph ≡ cycles ++ check_releases graph cycles
unfolding validate
validate-nonempty graph h = elim (Bool-cases (is_nil graph.gates)) [
  | inl e ↦ absurd (h (is_nil-nil graph.gates e))
  | inr e ↦ rw e
]

validate-empty : (graph : GateGraph) → graph.gates ≡ [] → validate graph ≡ empty ∷ []
unfolding validate
validate-empty graph h = rw h

-- The four stages.
abbrev Passes : GateGraph → Type 0
Passes graph =
    ((check_nodes graph.gates []).0 ≡ [])
    × (check_upstreams (check_nodes graph.gates []).1 graph.gates ≡ [])
    × (check_cycle graph [] ≡ [])
    × (check_releases graph [] ≡ [])

validate-Passes : (graph : GateGraph) → graph.gates ≢ [] → (validate graph ≡ []) ↔ Passes graph
validate-Passes graph h = rw (validate-nonempty graph h) (
  λ v.
      let (c, r) = (staged-nil _ (check_releases graph)).0 v in
      let (e, k) = (staged-nil _ (check_cycle graph)).0 c in
      let (n, u) = append-nil_inv (check_nodes graph.gates []).0 _ e in (n, u, k, r),
  λ (n, u, k, r).
      (staged-nil _ (check_releases graph)).1
        ((staged-nil _ (check_cycle graph)).1 (append-nil_of _ _ n u, k), r),
)

seen_known :
    (gates : List GateNode)
    → All IsNamed gates
    → (a : String) → contains (check_nodes gates []).1 a ≡ contains (ids gates) a
seen_known gates n a = contains-check_nodes gates [] a n

Passes-IsLegal : (graph : GateGraph) → graph.gates ≢ [] → Passes graph → IsLegal graph
Passes-IsLegal graph ne (n, u, k, r) =
    let (named, apart, distinct) = check_nodes-nil graph.gates [] n in
    let known = (check_upstreams-nil _ graph.gates).0 u in
    let (e, un) = (check_releases-nil graph).0 r in
    record {
      nonempty = ne;
      named = named;
      distinct = distinct;
      known =
          All-of_In _ graph.gates
            (λ g m. HasKnownUpstreams-cong _ _ (seen_known graph.gates named) g (All-In _ known m));
      ends = (find_cycle-none_iff graph).0 ((check_cycle-nil graph).0 k);
      entry = e;
      released = λ g m may.
          (reachable_from_entries_iff graph g.gate_id).0
            (All-In _ ((unreachable-nil _ graph.gates).0 un) m may);
    }

IsLegal-Passes : (graph : GateGraph) → IsLegal graph → Passes graph
IsLegal-Passes graph l = (
  check_nodes-nil_of graph.gates [] l.named (λ a h. cc) l.distinct,
  (check_upstreams-nil _ graph.gates).1 (
      All-of_In _ graph.gates (λ g m.
        HasKnownUpstreams-cong _ _ (λ a. sym (seen_known graph.gates l.named a)) g
          (All-In _ l.known m))),
  (check_cycle-nil graph).1 ((find_cycle-none_iff graph).1 l.ends),
  (check_releases-nil graph).1 (
    l.entry,
    (unreachable-nil _ graph.gates).1 (
        All-of_In _ graph.gates
          (λ g m may. (reachable_from_entries_iff graph g.gate_id).1 (l.released g m may))),
  ),
)

-- `validate` returns no fault exactly when the graph is legal: it has a gate, the ids are not blank
-- and distinct, the strategies are implemented, every upstream is another gate of the graph, every
-- walk along upstreams ends, some gate is an entry, and every release gate can be reached from one.
pub validate-nil_iff : (graph : GateGraph) → (validate graph ≡ []) ↔ IsLegal graph
validate-nil_iff graph = (
  λ v. Passes-IsLegal graph (nonempty v) ((validate-Passes graph (nonempty v)).0 v),
  λ l. (validate-Passes graph l.nonempty).1 (IsLegal-Passes graph l),
)
  where
    nonempty : validate graph ≡ [] → graph.gates ≢ []
    nonempty v e = cc (validate-empty graph e)
