-- ===== src/Gates/Cycle/Exact.antt =====
-- `find_cycle` names a real cycle, and it names one whenever some walk along upstreams has no end.
use convergence.Prelude.{
  ℕ, suc, ◌≤◌, ◌<◌, String, ◌≡◌, refl, sym, subst, ◌↔◌, inl, inr, true, false, Option, none, some,
  ◌∷◌, List, [], map, arith, contains, contains-append, contains-In, length, eq_iff, In, In-cons,
  In-map, ap, here, there, lookup, lookup-collect, contains-sort, sort, Option-cases,
}
use convergence.Gates.{GateNode, GateGraph}
use convergence.Gates.Cycle.{
  Mark, grey, black, Marks, Edges, successors, gate_pairs, edges_of, names, Walked, found, finished,
  exhausted, walk, from_roots, cycle_of, walk_graph, find_cycle,
}
use convergence.Gates.Cycle.Links.{Linked, IsCycle, Grounded, grounded, Grounded-not-IsCycle}
use convergence.Gates.Cycle.White.{white, white-le}
use convergence.Gates.Cycle.Walks.{IsSane, Ensures, Covers, AllGrounded, Ensures-cons, walk-Ensures}

module _ (edges : Edges) (universe : List String) where
  marked-Grounded :
      (marks : Marks) (n : String) (m : Mark)
      → IsSane edges universe marks []
      → lookup n marks ≡ some m
      → Grounded edges n
  marked-Grounded marks n grey s e = cc (s.grey_on_path n e)
  marked-Grounded marks n black s e = s.black_grounded n e

  module _ (visit : String → Marks → Walked) (n : String) (rest : List String) (marks : Marks) where
    from_roots-found :
        (c : List String)
        → lookup n marks ≡ none
        → visit n marks ≡ found c
        → from_roots visit (n ∷ rest) marks ≡ found c
    unfolding from_roots
    from_roots-found c e v = ground arith

    from_roots-finished :
        (after : Marks)
        → lookup n marks ≡ none
        → visit n marks ≡ finished after
        → from_roots visit (n ∷ rest) marks ≡ from_roots visit rest after
    unfolding from_roots
    from_roots-finished after e v = ground arith

    from_roots-marked :
        (m : Mark)
        → lookup n marks ≡ some m
        → from_roots visit (n ∷ rest) marks ≡ from_roots visit rest marks
    unfolding from_roots
    from_roots-marked m e = ground arith

  module _ (fuel : ℕ) (cov : Covers edges universe) (n : String) (roots : List String)
      (marks : Marks) where
    abbrev Rest : Type 0
    Rest =
        (m : Marks)
        → IsSane edges universe m []
        → white universe m < fuel
        → Ensures edges universe [] (AllGrounded edges universe roots) m
            (from_roots (walk fuel edges []) roots m)

    root_after-Ensures :
        Rest
        → white universe marks < fuel
        → lookup n marks ≡ none
        → (w : Walked) → walk fuel edges [] n marks ≡ w
        → Ensures edges universe [] (Grounded edges n) marks w
        → Ensures edges universe []
            (AllGrounded edges universe (n ∷ roots))
            marks
            (from_roots (walk fuel edges []) (n ∷ roots) marks)
    root_after-Ensures on room e (found c) v h =
        rw (from_roots-found (walk fuel edges []) n roots marks c e v) h
    root_after-Ensures on room e (finished after) v (g, sane, grew) =
        rw (from_roots-finished (walk fuel edges []) n roots marks after e v) (
          Ensures-cons edges universe [] n roots marks after _ grew g
            (on after sane (omega (arith, white-le universe marks after grew))))
    root_after-Ensures on room e exhausted v h = absurd h

    root-Ensures :
        Rest
        → contains universe n ≡ true
        → IsSane edges universe marks []
        → white universe marks < fuel
        → (o : Option Mark) → lookup n marks ≡ o
        → Ensures edges universe []
            (AllGrounded edges universe (n ∷ roots))
            marks
            (from_roots (walk fuel edges []) (n ∷ roots) marks)
    root-Ensures on u sane room none e =
        root_after-Ensures on room e (walk fuel edges [] n marks) refl
          (walk-Ensures edges universe fuel [] n marks cov u tt e sane room)
    root-Ensures on u sane room (some m) e =
        rw (from_roots-marked (walk fuel edges []) n roots marks m e) (
          Ensures-cons edges universe [] n roots marks marks _ (λ a h. h)
            (marked-Grounded marks n m sane e) (on marks sane room))

  from_roots-Ensures :
      (fuel : ℕ) (roots : List String) (marks : Marks)
      → Covers edges universe
      → ((n : String) → contains roots n ≡ true → contains universe n ≡ true)
      → IsSane edges universe marks []
      → white universe marks < fuel
      → Ensures edges universe []
          (AllGrounded edges universe roots)
          marks
          (from_roots (walk fuel edges []) roots marks)
  from_roots-Ensures fuel [] marks cov sub sane room =
      unfold from_roots in ((λ n h. cc), sane, (λ n h. h))
  from_roots-Ensures fuel (n ∷ roots) marks cov sub sane room =
      root-Ensures fuel cov n roots marks
        (λ m s r. from_roots-Ensures fuel roots m cov (λ a h. sub a (ground arith)) s r)
        (sub n (ground (arith, eq_iff n n))) sane room (lookup n marks) refl

names_pairs :
    (gates : List GateNode) (g : String) (ups : List String) (n : String)
    → In (g, ups) (gate_pairs gates)
    → contains ups n ≡ true
    → contains (names gates) n ≡ true
names_pairs [] g ups n m h = elim m [ ]
names_pairs (x ∷ gates) g ups n m h = elim (In-cons m) [
  | inl e ↦
      let same : ups ≡ x.upstreams = ap (λ (p : String × List String). p.1) e in
      ground (arith, contains-append x.upstreams (names gates) n, ap (λ us. contains us n) same)
  | inr m' ↦
      ground (arith, contains-append x.upstreams (names gates) n, names_pairs gates g ups n m' h)
]

names-Covers : (gates : List GateNode) → Covers (edges_of gates) (names gates)
names-Covers gates g n h = elim (Option-cases (lookup g (edges_of gates))) [
  | inl e ↦ ground arith
  | inr (ups, e) ↦
      names_pairs gates g ups n (lookup-collect g ups (gate_pairs gates) e) (ground arith)
]

names-roots :
    (gates : List GateNode) (n : String)
    → contains (map (λ g. g.gate_id) gates) n ≡ true
    → contains (names gates) n ≡ true
names-roots [] n h = cc
names-roots (g ∷ gates) n h =
    ground (arith, names-roots gates n, contains-append g.upstreams (names gates) n)

white-le-length : (xs : List String) (marks : Marks) → white xs marks ≤ length xs
white-le-length [] marks = omega arith
white-le-length (x ∷ xs) marks = ground (arith, white-le-length xs marks)

walk_graph-Ensures :
    (graph : GateGraph)
    → Ensures
        (edges_of graph.gates)
        (names graph.gates)
        []
        (AllGrounded
          (edges_of graph.gates)
          (names graph.gates)
          (sort (map (λ g. g.gate_id) graph.gates)))
        []
        (walk_graph graph)
unfolding walk_graph
walk_graph-Ensures graph =
    from_roots-Ensures (edges_of graph.gates) (names graph.gates) (suc (length (names graph.gates)))
      (sort (map (λ g. g.gate_id) graph.gates)) [] (names-Covers graph.gates)
      (λ n h. names-roots graph.gates n (rw contains-sort at h))
      (record { black_grounded = λ n h. cc; grey_on_path = λ n h. cc })
      (omega (arith, white-le-length (names graph.gates) []))

Ensures-some :
    (edges : Edges) (universe : List String) (Done : Type 0) (marks : Marks) (w : Walked)
    (c : List String)
    → Ensures edges universe [] Done marks w
    → cycle_of w ≡ some c
    → IsCycle edges c
Ensures-some edges universe Done marks (found d) c h e =
    let same : d ≡ c = cc in subst (IsCycle edges) same h
Ensures-some edges universe Done marks (finished m) c h e = cc
Ensures-some edges universe Done marks exhausted c h e = cc

Ensures-none :
    (edges : Edges) (universe : List String) (Done : Type 0) (marks : Marks) (w : Walked)
    → Ensures edges universe [] Done marks w
    → cycle_of w ≡ none
    → Done
Ensures-none edges universe Done marks (found d) h e = cc
Ensures-none edges universe Done marks (finished m) h e = h.0
Ensures-none edges universe Done marks exhausted h e = absurd h

-- What `find_cycle` returns is a closed walk along the upstreams of the graph: each gate lists the
-- next as an upstream, and the last is the first.
pub find_cycle_sound :
    (graph : GateGraph) (c : List String)
    → find_cycle graph ≡ some c
    → IsCycle (edges_of graph.gates) c
unfolding find_cycle
find_cycle_sound graph c h = Ensures-some _ _ _ [] (walk_graph graph) c (walk_graph-Ensures graph) h

no_successor :
    (edges : Edges) (n m : String) → lookup n edges ≡ none → contains (successors edges n) m ≡ false
no_successor edges n m e = ground arith

gate_of_pair :
    (gates : List GateNode) (n : String) (ups : List String)
    → In (n, ups) (gate_pairs gates)
    → (g : GateNode) × In g gates × (g.gate_id ≡ n)
gate_of_pair [] n ups m = elim m [ ]
gate_of_pair (x ∷ gates) n ups m = elim (In-cons m) [
  | inl e ↦ (x, here, sym (ap (λ (p : String × List String). p.0) e))
  | inr m' ↦ let (g, at, e) = gate_of_pair gates n ups m' in (g, there at, e)
]

-- A name that no gate has leads nowhere.
all_Grounded :
    (gates : List GateNode)
    → ((g : GateNode) → In g gates → Grounded (edges_of gates) g.gate_id)
    → (n : String) → Grounded (edges_of gates) n
all_Grounded gates h n = elim (Option-cases (lookup n (edges_of gates))) [
  | inl e ↦ grounded (λ m edge. cc (no_successor (edges_of gates) n m e, edge))
  | inr (ups, e) ↦
      let (g, at, same) = gate_of_pair gates n ups (lookup-collect n ups (gate_pairs gates) e) in
      subst (Grounded (edges_of gates)) same (h g at)
]

IsCycle-not-Grounded :
    (edges : Edges) (c : List String) → IsCycle edges c → ¬ ((n : String) → Grounded edges n)
IsCycle-not-Grounded edges c (n, body, e, l) all =
    Grounded-not-IsCycle edges n body (subst (Linked edges) e l) (all n)

-- `find_cycle` finds nothing exactly when from every gate every walk ends along the map that it collects, which
-- has for each id the upstreams of the last gate with that id: of the other gates with the id none are
-- followed.
pub find_cycle-none_iff :
    (graph : GateGraph)
    → (find_cycle graph ≡ none)
      ↔ ((g : GateNode) → In g graph.gates → Grounded (edges_of graph.gates) g.gate_id)
unfolding find_cycle
find_cycle-none_iff graph = (
  λ e g m.
      Ensures-none _ _ _ [] (walk_graph graph) (walk_graph-Ensures graph) e g.gate_id
        (rw contains-sort (contains-In (In-map (λ (x : GateNode). x.gate_id) m))),
  λ h. elim (Option-cases (find_cycle graph)) [
    | inl e ↦ e
    | inr (c, e) ↦
        absurd (IsCycle-not-Grounded _ c (find_cycle_sound graph c e) (all_Grounded graph.gates h))
  ],
)
