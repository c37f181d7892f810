-- ===== src/Gates/Validate/Nodes.antt =====
-- What the two loops of `validate` find nothing wrong with.
use convergence.Prelude.{
  String, ◌≡◌, refl, ap, subst, ◌↔◌, inl, inr, true, false, ◌||◌, List, [], ◌∷◌, contains, is_blank,
  ◌==◌, arith, All, map, eq_iff, append-nil_inv, append-nil_of, Bool-cases,
}
use convergence.Gates.{GateNode, strategies}
use convergence.Gates.Validate.{node_faults, check_nodes, upstream_faults, check_upstreams}

abbrev pub ids : List GateNode → List String
ids = map (λ g. g.gate_id)

-- No id stands twice.
abbrev pub Distinct : List String → Type 0
Distinct [] = Unit
Distinct (x ∷ xs) = (contains xs x ≡ false) × Distinct xs

-- A gate with a name, and with a strategy that is implemented.
abbrev pub IsNamed : GateNode → Type 0
IsNamed g = (is_blank g.gate_id ≡ false) × (contains strategies g.strategy ≡ true)

-- A gate whose upstreams are other gates of the graph.
abbrev pub HasKnownUpstreams : List String → GateNode → Type 0
HasKnownUpstreams known g =
    All (λ u. ((u == g.gate_id) ≡ false) × (contains known u ≡ true)) g.upstreams

node_faults-nil :
    (seen : List String) (g : GateNode)
    → node_faults seen g ≡ []
    → IsNamed g × (contains seen g.gate_id ≡ false)
unfolding node_faults
node_faults-nil seen g h = ground arith

node_faults-nil_of :
    (seen : List String) (g : GateNode)
    → IsNamed g
    → contains seen g.gate_id ≡ false
    → node_faults seen g ≡ []
unfolding node_faults
node_faults-nil_of seen g n f = ground arith

-- `seen` at the end of the loop holds what it held, and the id of every gate with a name.
pub contains-check_nodes :
    (gates : List GateNode) (seen : List String) (a : String)
    → All IsNamed gates
    → contains (check_nodes gates seen).1 a ≡ (contains seen a || contains (ids gates) a)
unfolding check_nodes
contains-check_nodes [] seen a n = ground arith
contains-check_nodes (g ∷ gates) seen a n =
    rw n.0.0 (ground (arith, contains-check_nodes gates (g.gate_id ∷ seen) a n.1))

abbrev NoneIn : List String → List String → Type 0
NoneIn seen xs = (a : String) → contains seen a ≡ true → contains xs a ≡ false

pub check_nodes-nil :
    (gates : List GateNode) (seen : List String)
    → (check_nodes gates seen).0 ≡ []
    → All IsNamed gates × NoneIn seen (ids gates) × Distinct (ids gates)
unfolding check_nodes
check_nodes-nil [] seen h = (tt, (λ a k. refl), tt)
check_nodes-nil (g ∷ gates) seen h =
    let (here, later) = append-nil_inv (node_faults seen g) _ h in
    let (named, fresh) = node_faults-nil seen g here in
    let (n, apart, distinct) = check_nodes-nil gates (g.gate_id ∷ seen) (rw named.0 at later) in
    (
      (named, n),
      λ a k. ground (
        arith,
        apart a,
        eq_iff g.gate_id a,
        k,
        fresh,
        ap (contains seen) {x = g.gate_id} {y = a},
      ),
      (apart g.gate_id (ground (arith, eq_iff g.gate_id g.gate_id)), distinct),
    )

pub check_nodes-nil_of :
    (gates : List GateNode) (seen : List String)
    → All IsNamed gates
    → NoneIn seen (ids gates)
    → Distinct (ids gates)
    → (check_nodes gates seen).0 ≡ []
unfolding check_nodes
check_nodes-nil_of [] seen n apart d = refl
check_nodes-nil_of (g ∷ gates) seen n apart d =
    append-nil_of (node_faults seen g) _
      (node_faults-nil_of seen g n.0 (ground (arith, apart g.gate_id, eq_iff g.gate_id g.gate_id)))
      (rw n.0.0 (
        check_nodes-nil_of gates (g.gate_id ∷ seen) n.1
          (λ a k. elim (Bool-cases (g.gate_id == a)) [
            | inl e ↦ subst (λ z. contains (ids gates) z ≡ false) ((eq_iff g.gate_id a).0 e) d.0
            | inr e ↦ ground (arith, apart a)
          ])
          d.1))

upstream_faults-nil :
    (seen : List String) (gate : String) (ups : List String)
    → (upstream_faults seen gate ups ≡ [])
      ↔ All (λ u. ((u == gate) ≡ false) × (contains seen u ≡ true)) ups
unfolding upstream_faults
upstream_faults-nil seen gate [] = ((λ h. tt), (λ h. refl))
upstream_faults-nil seen gate (u ∷ ups) = ground (arith, upstream_faults-nil seen gate ups)

-- The second loop finds nothing exactly when every upstream is another gate that `seen` holds.
pub check_upstreams-nil :
    (seen : List String) (gates : List GateNode)
    → (check_upstreams seen gates ≡ []) ↔ All (HasKnownUpstreams seen) gates
unfolding check_upstreams
check_upstreams-nil seen [] = ((λ h. tt), (λ h. refl))
check_upstreams-nil seen (g ∷ gates) = (
  λ h.
      let (here, later) = append-nil_inv (upstream_faults seen g.gate_id g.upstreams) _ h in
      (
        (upstream_faults-nil seen g.gate_id g.upstreams).0 here,
        (check_upstreams-nil seen gates).0 later,
      ),
  λ h.
      append-nil_of (upstream_faults seen g.gate_id g.upstreams) _
        ((upstream_faults-nil seen g.gate_id g.upstreams).1 h.0)
        ((check_upstreams-nil seen gates).1 h.1),
)
