-- ===== src/Gates/Reachable/Exact.antt =====
-- `reachable_from_entries` is exactly what publications can reach.
use convergence.Prelude.{
  is_nil-nil, is_nil, ℕ, zero, suc, ◌≤◌, ◌<◌, String, ◌≡◌, refl, ◌↔◌, inl, inr, Bool, true, false,
  ◌∷◌, List, [], map, arith, contains, any, In-of_any, length, eq_iff, All, All-In, In, here, there,
  Bool-cases, ||-true, ◌==◌, contains-In, if◌then◌else◌,
}
use convergence.Gates.{GateNode, GateGraph}
use convergence.Gates.Reachable.{entries, grows, round, settle, reachable_from_entries}

-- A gate that a publication can arrive at: an entry gate, or one with an upstream that is one.
pub data Reaches (gates : List GateNode) : String → Type 0 where
  entry :
      {id : String} (g : GateNode)
      → In g gates
      → g.gate_id ≡ id
      → g.upstreams ≡ []
      → Reaches gates id
  onward :
      {id : String} (g : GateNode) (u : String)
      → In g gates
      → g.gate_id ≡ id
      → contains g.upstreams u ≡ true
      → Reaches gates u
      → Reaches gates id

round-nil : (r : List String) (b : Bool) → round [] r b ≡ (r, b)
unfolding round
round-nil r b = refl

round-true :
    (gs : List GateNode) (g : GateNode) (r : List String) (b : Bool)
    → grows r g ≡ true
    → round (g ∷ gs) r b ≡ round gs (g.gate_id ∷ r) true
unfolding round
round-true gs g r b e = rw e

round-false :
    (gs : List GateNode) (g : GateNode) (r : List String) (b : Bool)
    → grows r g ≡ false
    → round (g ∷ gs) r b ≡ round gs r b
unfolding round
round-false gs g r b e = rw e

keeps_if :
    (b : Bool) (x : String) (r : List String) (a : String)
    → contains r a ≡ true
    → contains (if b then x ∷ r else r) a ≡ true
keeps_if b x r a h = ground arith

-- What a round holds already it keeps.
round-keeps :
    (gs : List GateNode) (r : List String) (b : Bool) (a : String)
    → contains r a ≡ true
    → contains (round gs r b).0 a ≡ true
unfolding round
round-keeps [] r b a h = h
round-keeps (g ∷ gs) r b a h = round-keeps gs _ _ a (keeps_if (grows r g) g.gate_id r a h)

-- A growing flag stays.
round-grew : (gs : List GateNode) (r : List String) → (round gs r true).1 ≡ true
unfolding round
round-grew [] r = refl
round-grew (g ∷ gs) r = ground (arith, round-grew gs r, round-grew gs (g.gate_id ∷ r))

-- A round that did not grow changed nothing, and no gate was left to add.
round-stable :
    (gs : List GateNode) (r : List String)
    → (round gs r false).1 ≡ false
    → ((round gs r false).0 ≡ r) × All (λ g. grows r g ≡ false) gs
round-stable [] r h = (unfold round in refl, tt)
round-stable (g ∷ gs) r h = elim (Bool-cases (grows r g)) [
  | inl e ↦ cc (round-true gs g r false e, round-grew gs (g.gate_id ∷ r))
  | inr e ↦
      let (same, stuck) = round-stable gs r (rw (round-false gs g r false e) at h) in
      (rw (round-false gs g r false e) same, (e, stuck))
]

-- How many gates are not reached.
abbrev missing : List GateNode → List String → ℕ
missing [] r = 0
missing (g ∷ gs) r = let rest = missing gs r in if contains r g.gate_id then rest else suc rest

missing-le :
    (gs : List GateNode) (r s : List String)
    → ((a : String) → contains r a ≡ true → contains s a ≡ true)
    → missing gs s ≤ missing gs r
missing-le [] r s h = omega arith
missing-le (g ∷ gs) r s h = ground (arith, missing-le gs r s h, h g.gate_id)

missing-cons :
    (gs : List GateNode) (g : GateNode) (r : List String)
    → In g gs
    → contains r g.gate_id ≡ false
    → missing gs (g.gate_id ∷ r) < missing gs r
missing-cons [] g r m h = elim m [ ]
missing-cons (g ∷ gs) g' r here h =
    ground (
      arith,
      eq_iff g.gate_id g.gate_id,
      missing-le gs r (g.gate_id ∷ r) (λ a k. ground (arith, k)),
    )
missing-cons (x ∷ gs) g r (there m) h =
    ground (arith, missing-cons gs g r m h, eq_iff g.gate_id x.gate_id)

grows-new : (r : List String) (g : GateNode) → grows r g ≡ true → contains r g.gate_id ≡ false
unfolding grows
grows-new r g e = ground arith

grows-upstream :
    (r : List String) (g : GateNode) → grows r g ≡ true → any (contains r) g.upstreams ≡ true
unfolding grows
grows-upstream r g e = ground arith

not_grows :
    (r : List String) (g : GateNode)
    → grows r g ≡ false
    → any (contains r) g.upstreams ≡ true
    → contains r g.gate_id ≡ true
unfolding grows
not_grows r g e h = ground arith

any-contains :
    (r ups : List String) (u : String)
    → contains ups u ≡ true
    → contains r u ≡ true
    → any (contains r) ups ≡ true
any-contains r [] u h k = cc
any-contains r (x ∷ ups) u h k = ground (arith, any-contains r ups u, eq_iff x u)

missing-le-length : (gs : List GateNode) (r : List String) → missing gs r ≤ length gs
missing-le-length [] r = omega arith
missing-le-length (g ∷ gs) r = ground (arith, missing-le-length gs r)

-- A round that grew reached a gate of `gates` that was not reached before.
round-shrinks :
    (gates gs : List GateNode) (r : List String)
    → ((g : GateNode) → In g gs → In g gates)
    → (round gs r false).1 ≡ true
    → missing gates (round gs r false).0 < missing gates r
round-shrinks gates [] r sub h = cc (round-nil r false)
round-shrinks gates (g ∷ gs) r sub h = elim (Bool-cases (grows r g)) [
  | inl e ↦ rw (round-true gs g r false e) (
      omega (
        arith,
        missing-cons gates g r (sub g here) (grows-new r g e),
        missing-le gates (g.gate_id ∷ r) (round gs (g.gate_id ∷ r) true).0 (round-keeps gs _ _),
      ))
  | inr e ↦
      rw (round-false gs g r false e)
        (round-shrinks gates gs r (λ x m. sub x (there m)) (rw (round-false gs g r false e) at h))
]

settle-keeps :
    (fuel : ℕ) (gates : List GateNode) (r : List String) (a : String)
    → contains r a ≡ true
    → contains (settle fuel gates r) a ≡ true
unfolding settle
settle-keeps zero gates r a h = h
settle-keeps (suc fuel) gates r a h =
    ground (arith, round-keeps gates r false a h, settle-keeps fuel gates (round gates r false).0 a)

-- With the fuel given, the loop ends by its test: no gate is left to add.
settle-closed :
    (fuel : ℕ) (gates : List GateNode) (r : List String)
    → missing gates r < fuel
    → All (λ g. grows (settle fuel gates r) g ≡ false) gates
unfolding settle
settle-closed zero gates r h = absurd (omega arith)
settle-closed (suc fuel) gates r h = elim (Bool-cases (round gates r false).1) [
  | inl e ↦ rw e (
      settle-closed fuel gates (round gates r false).0
        (omega (arith, round-shrinks gates gates r (λ g m. m) e)))
  | inr e ↦ let (same, stuck) = round-stable gates r e in rw (e, same) stuck
]

module _ (gates : List GateNode) where
  abbrev Sound : List String → Type 0
  Sound r = (a : String) → contains r a ≡ true → Reaches gates a

  Sound-cons :
      (g : GateNode) (r : List String)
      → In g gates
      → Sound r
      → grows r g ≡ true
      → Sound (g.gate_id ∷ r)
  Sound-cons g r m s e a h = elim (Bool-cases (contains r a)) [
    | inl old ↦ s a old
    | inr new ↦
        let (u, up, reached) = In-of_any (contains r) g.upstreams (grows-upstream r g e) in
        onward g u m (ground (arith, h, new, eq_iff g.gate_id a)) (contains-In up) (s u reached)
  ]

  round-Sound :
      (gs : List GateNode) (r : List String) (b : Bool)
      → ((g : GateNode) → In g gs → In g gates)
      → Sound r
      → Sound (round gs r b).0
  round-Sound [] r b sub s = unfold round in s
  round-Sound (g ∷ gs) r b sub s = elim (Bool-cases (grows r g)) [
    | inl e ↦ rw (round-true gs g r b e) (
        round-Sound gs (g.gate_id ∷ r) true (λ x m. sub x (there m))
          (Sound-cons g r (sub g here) s e))
    | inr e ↦ rw (round-false gs g r b e) (round-Sound gs r b (λ x m. sub x (there m)) s)
  ]

  settle-Sound : (fuel : ℕ) (r : List String) → Sound r → Sound (settle fuel gates r)
  unfolding settle
  settle-Sound zero r s = s
  settle-Sound (suc fuel) r s = elim (Bool-cases (round gates r false).1) [
    | inl e ↦
        rw e (settle-Sound fuel (round gates r false).0 (round-Sound gates r false (λ g m. m) s))
    | inr e ↦ rw e (round-Sound gates r false (λ g m. m) s)
  ]

abbrev ids : List GateNode → List String
ids = map (λ g. g.gate_id)

entries_sound :
    (gates : List GateNode) (a : String)
    → contains (ids (entries gates)) a ≡ true
    → (g : GateNode) × In g gates × (g.gate_id ≡ a) × (g.upstreams ≡ [])
entries_sound [] a h = cc
entries_sound (g ∷ gates) a h = elim (Bool-cases (is_nil g.upstreams)) [
  | inl e ↦ elim (||-true (g.gate_id == a) (contains (ids (entries gates)) a) (rw e at h)) [
    | inl q ↦ (g, here, (eq_iff g.gate_id a).0 q, is_nil-nil g.upstreams e)
    | inr q ↦ let (x, m, e', n) = entries_sound gates a q in (x, there m, e', n)
  ]
  | inr e ↦ let (x, m, e', n) = entries_sound gates a (rw e at h) in (x, there m, e', n)
]

entries_complete :
    (g : GateNode) {gates : List GateNode}
    → In g gates
    → g.upstreams ≡ []
    → contains (ids (entries gates)) g.gate_id ≡ true
entries_complete g here e = rw e (ground (arith, eq_iff g.gate_id g.gate_id))
entries_complete g (there {x = x} m) e = ground (arith, entries_complete g m e)

Reaches-reached :
    (gates : List GateNode) (r : List String)
    → ((a : String) → contains (ids (entries gates)) a ≡ true → contains r a ≡ true)
    → All (λ g. grows r g ≡ false) gates
    → {id : String} → Reaches gates id
    → contains r id ≡ true
Reaches-reached gates r start closed (entry g m e n) =
    rw (← e) (start g.gate_id (entries_complete g m n))
Reaches-reached gates r start closed (onward g u m e up from) = rw (← e) (
    not_grows r g (All-In _ closed m)
      (any-contains r g.upstreams u up (Reaches-reached gates r start closed from)))

-- What the loop ends with holds exactly the gates that a publication can arrive at.
pub reachable_from_entries_iff :
    (graph : GateGraph) (id : String)
    → (contains (reachable_from_entries graph) id ≡ true) ↔ Reaches graph.gates id
unfolding reachable_from_entries
reachable_from_entries_iff graph id = (
  settle-Sound graph.gates (suc (length graph.gates)) (ids (entries graph.gates))
      (λ a h. let (g, m, e, n) = entries_sound graph.gates a h in entry g m e n) id,
  Reaches-reached graph.gates _
      (settle-keeps (suc (length graph.gates)) graph.gates (ids (entries graph.gates)))
      (settle-closed (suc (length graph.gates)) graph.gates (ids (entries graph.gates))
        (omega (arith, missing-le-length graph.gates (ids (entries graph.gates))))),
)
