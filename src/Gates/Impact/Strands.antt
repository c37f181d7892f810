-- ===== src/Gates/Impact/Strands.antt =====
-- When a change of the graph would strand work.
use convergence.Prelude.{
  if◌then◌else◌, String, ◌↔◌, ◌⊎◌, inl, inr, true, false, Option, none, some, In, here, there,
  In-of_any, any-In, In-contains, contains-In, contains-append, all, keys, lookup, sym, subst, ◌==◌,
  eq_iff, eq_refl, Bool-cases, ◌≡◌, refl, ◌∙◌, Bool, not, ◌&&◌, ◌||◌, List, [], ◌∷◌, ◌++◌, contains,
  any, keep, arith,
}
use convergence.Gates.{GateGraph, GateNode}
use convergence.Gates.Impact.{
  GateOccupancy, is_vacant, strands_work, impact_of, place, sort_occupancy, reparented_ids,
  reparented_in, gate_map, has_key, same_set,
}

module _ (p : GateOccupancy → Bool) where
  any-place : (o : GateOccupancy) (os : List GateOccupancy) → any p (place o os) ≡ (p o || any p os)
  unfolding place
  any-place o [] = refl
  any-place o (x ∷ os) = ground (arith, any-place o os)

  any-sort_occupancy : (os : List GateOccupancy) → any p (sort_occupancy os) ≡ any p os
  unfolding sort_occupancy
  any-sort_occupancy [] = refl
  any-sort_occupancy (x ∷ os) =
      ground (arith, any-place x (sort_occupancy os), any-sort_occupancy os)

  any-keep :
      (q : GateOccupancy → Bool) (os : List GateOccupancy)
      → any p (keep q os) ≡ any (λ o. q o && p o) os
  any-keep q [] = refl
  any-keep q (x ∷ os) = ground (arith, any-keep q os)

-- Two lists with the same members
abbrev pub Same : List String → List String → Type 0
Same xs ys = (u : String) → In u xs ↔ In u ys

all_within :
    (xs ys : List String) → (all (contains ys) xs ≡ true) ↔ ((u : String) → In u xs → In u ys)
all_within xs ys = (λ h u m. into u xs m h, back xs)
  where
    into : (u : String) (xs : List String) → In u xs → all (contains ys) xs ≡ true → In u ys
    into u _ (here {xs = xs}) h = In-contains ys u (ground arith)
    into u _ (there {x = x} {xs = xs} m) h = into u xs m (ground arith)

    back : (xs : List String) → ((u : String) → In u xs → In u ys) → all (contains ys) xs ≡ true
    back [] h = refl
    back (x ∷ xs) h = ground (arith, contains-In (h x here), back xs (λ u m. h u (there m)))

same_set_iff : (xs ys : List String) → (same_set xs ys ≡ true) ↔ Same xs ys
same_set_iff xs ys = (
  λ h u. ((all_within xs ys).0 (ground arith) u, (all_within ys xs).0 (ground arith) u),
  λ same.
      ground
        (arith, (all_within xs ys).1 (λ u. (same u).0), (all_within ys xs).1 (λ u. (same u).1)),
)

-- A gate of the old graph is gone from the new one, or the new one gives it other upstreams. Of gates with one id
-- the last counts.
pub Disturbed : GateGraph → GateGraph → String → Type 0
Disturbed before after id =
    (a : GateNode) × In (id, a) (gate_map before)
    × ((lookup id (gate_map after) ≡ none)
        ⊎ ((b : GateNode) × (lookup id (gate_map after) ≡ some b)
            × (¬ (Same a.upstreams b.upstreams))))

module _ (new : List (String × GateNode)) where
  abbrev Moves : String → GateNode → Type 0
  Moves id a =
      (lookup id new ≡ none)
      ⊎ ((b : GateNode) × (lookup id new ≡ some b) × (¬ (Same a.upstreams b.upstreams)))

  -- What `impact_of` takes as gone, and as re-parented
  abbrev gone_ids : List (String × GateNode) → List String
  gone_ids old = keep (λ k. not (has_key new k)) (keys old)

  gone_row :
      (old : List (String × GateNode)) (id : String)
      → contains (gone_ids old) id ≡ true
      → (a : GateNode) × In (id, a) old × (lookup id new ≡ none)
  gone_row [] id h = cc
  gone_row ((k, a) ∷ old) id h = split (gone_row old id) (lookup k new) refl h
    where
      split :
          (contains (gone_ids old) id ≡ true
            → (b : GateNode) × In (id, b) old × (lookup id new ≡ none))
          → (o : Option GateNode) → lookup k new ≡ o
          → contains
              (if not (elim o [ none ↦ false | some g ↦ true ])
                then k ∷ gone_ids old
                else gone_ids old)
              id
            ≡ true
          → (b : GateNode) × In (id, b) ((k, a) ∷ old) × (lookup id new ≡ none)
      split rest (some c) e t = let (b, at, l) = rest t in (b, there at, l)
      split rest none e t = elim (Bool-cases (k == id)) [
        | inl same ↦ (
          a,
          subst (λ x. In (x, a) ((k, a) ∷ old)) ((eq_iff k id).0 same) here,
          subst (λ x. lookup x new ≡ none) ((eq_iff k id).0 same) e,
        )
        | inr other ↦ let (b, at, l) = rest (ground (arith, other)) in (b, there at, l)
      ]

  row_gone :
      (id : String) (a : GateNode) (old : List (String × GateNode))
      → In (id, a) old
      → lookup id new ≡ none
      → contains (gone_ids old) id ≡ true
  row_gone id a _ (here {xs = xs}) e = placed (lookup id new) e
    where
      placed :
          (o : Option GateNode)
          → o ≡ none
          → contains
              (if not (elim o [ none ↦ false | some g ↦ true ])
                then id ∷ gone_ids xs
                else gone_ids xs)
              id
            ≡ true
      placed none q = ground (arith, eq_refl id)
      placed (some g) q = cc
  row_gone id a _ (there {x = x} {xs = xs} at) e = kept (lookup x.0 new) (row_gone id a xs at e)
    where
      kept :
          (o : Option GateNode)
          → contains (gone_ids xs) id ≡ true
          → contains
              (if not (elim o [ none ↦ false | some g ↦ true ])
                then x.0 ∷ gone_ids xs
                else gone_ids xs)
              id
            ≡ true
      kept none q = ground (arith, q)
      kept (some g) q = q

  -- The old gates that have other upstreams in the new graph
  abbrev moved_ids : List (String × GateNode) → List String
  moved_ids old = reparented_ids (reparented_in new old)

  moved_row :
      (old : List (String × GateNode)) (id : String)
      → contains (moved_ids old) id ≡ true
      → (a : GateNode) × In (id, a) old
        × ((b : GateNode) × (lookup id new ≡ some b) × (same_set a.upstreams b.upstreams ≡ false))
  unfolding reparented_in
  moved_row [] id h = cc
  moved_row ((k, a) ∷ old) id h = split (moved_row old id) (lookup k new) refl h
    where
      Found : List (String × GateNode) → Type 0
      Found = λ rows.
          (c : GateNode) × In (id, c) rows
          × ((b : GateNode) × (lookup id new ≡ some b) × (same_set c.upstreams b.upstreams ≡ false))

      decided :
          (contains (moved_ids old) id ≡ true → Found old)
          → (b : GateNode) → lookup k new ≡ some b
          → (s : Bool) → same_set a.upstreams b.upstreams ≡ s
          → contains
              (reparented_ids (
                if s
                then reparented_in new old
                else (k, a.upstreams, b.upstreams) ∷ reparented_in new old))
              id
            ≡ true
          → Found ((k, a) ∷ old)
      decided rest b e true s t = let (c, at, l) = rest t in (c, there at, l)
      decided rest b e false s t = elim (Bool-cases (k == id)) [
        | inl same ↦ (
          a,
          subst (λ x. In (x, a) ((k, a) ∷ old)) ((eq_iff k id).0 same) here,
          (b, subst (λ x. lookup x new ≡ some b) ((eq_iff k id).0 same) e, s),
        )
        | inr other ↦ let (c, at, l) = rest (ground (arith, other)) in (c, there at, l)
      ]

      split :
          (contains (moved_ids old) id ≡ true → Found old)
          → (o : Option GateNode) → lookup k new ≡ o
          → contains
              (reparented_ids (elim o [
                | none ↦ reparented_in new old
                | some b ↦
                    if same_set a.upstreams b.upstreams
                    then reparented_in new old
                    else (k, a.upstreams, b.upstreams) ∷ reparented_in new old
              ]))
              id
            ≡ true
          → Found ((k, a) ∷ old)
      split rest none e t = let (c, at, l) = rest t in (c, there at, l)
      split rest (some b) e t = decided rest b e (same_set a.upstreams b.upstreams) refl t

  row_moved :
      (id : String) (a b : GateNode) (old : List (String × GateNode))
      → In (id, a) old
      → lookup id new ≡ some b
      → same_set a.upstreams b.upstreams ≡ false
      → contains (moved_ids old) id ≡ true
  unfolding reparented_in
  row_moved id a b _ (here {xs = xs}) e differs =
      subst
        (λ o.
          contains
            (reparented_ids (elim o [
              | none ↦ reparented_in new xs
              | some c ↦
                  if same_set a.upstreams c.upstreams
                  then reparented_in new xs
                  else (id, a.upstreams, c.upstreams) ∷ reparented_in new xs
            ]))
            id
          ≡ true)
        (sym e) (placed (same_set a.upstreams b.upstreams) differs)
    where
      placed :
          (s : Bool)
          → s ≡ false
          → contains
              (reparented_ids (
                if s
                then reparented_in new xs
                else (id, a.upstreams, b.upstreams) ∷ reparented_in new xs))
              id
            ≡ true
      placed true q = cc
      placed false q = ground (arith, eq_refl id)
  row_moved id a b _ (there {x = x} {xs = xs} at) e differs =
      kept (lookup x.0 new) (row_moved id a b xs at e differs)
    where
      decided :
          (d : GateNode) (s : Bool)
          → contains (moved_ids xs) id ≡ true
          → contains
              (reparented_ids (
                if s
                then reparented_in new xs
                else (x.0, x.1.upstreams, d.upstreams) ∷ reparented_in new xs))
              id
            ≡ true
      decided d true q = q
      decided d false q = ground (arith, q)

      kept :
          (o : Option GateNode)
          → contains (moved_ids xs) id ≡ true
          → contains
              (reparented_ids (elim o [
                | none ↦ reparented_in new xs
                | some d ↦
                    if same_set x.1.upstreams d.upstreams
                    then reparented_in new xs
                    else (x.0, x.1.upstreams, d.upstreams) ∷ reparented_in new xs
              ]))
              id
            ≡ true
      kept none q = q
      kept (some d) q = decided d (same_set x.1.upstreams d.upstreams) q

Disturbed-iff :
    (before after : GateGraph) (id : String)
    → (contains
          (gone_ids (gate_map after) (gate_map before)
            ++ moved_ids (gate_map after) (gate_map before))
          id
        ≡ true)
      ↔ Disturbed before after id
unfolding Disturbed
Disturbed-iff before after id = (into, back)
  where
    old : List (String × GateNode)
    old = gate_map before

    new : List (String × GateNode)
    new = gate_map after

    differ :
        (a b : GateNode)
        → same_set a.upstreams b.upstreams ≡ false
        → ¬ (Same a.upstreams b.upstreams)
    differ a b e same = cc ((same_set_iff a.upstreams b.upstreams).1 same, e)

    into :
        contains
            (gone_ids (gate_map after) (gate_map before)
              ++ moved_ids (gate_map after) (gate_map before))
            id
          ≡ true
        → Disturbed before after id
    into h = elim (Bool-cases (contains (gone_ids (gate_map after) (gate_map before)) id)) [
      | inl e ↦ let (a, at, l) = gone_row (gate_map after) (gate_map before) id e in (a, at, inl l)
      | inr e ↦
          let (a, at, (b, l, d)) = moved_row (gate_map after) (gate_map before) id (other e) in
          (a, at, inr (b, l, differ a b d))
    ]
      where
        other :
            contains (gone_ids (gate_map after) (gate_map before)) id ≡ false
            → contains (moved_ids (gate_map after) (gate_map before)) id ≡ true
        other e = ground (
          arith,
          e,
          h,
          contains-append (gone_ids (gate_map after) (gate_map before))
              (moved_ids (gate_map after) (gate_map before)) id,
        )

    back :
        Disturbed before after id
        → contains
            (gone_ids (gate_map after) (gate_map before)
              ++ moved_ids (gate_map after) (gate_map before))
            id
          ≡ true
    back (a, at, inl l) = ground (
      arith,
      row_gone (gate_map after) id a (gate_map before) at l,
      contains-append (gone_ids (gate_map after) (gate_map before))
          (moved_ids (gate_map after) (gate_map before)) id,
    )
    back (a, at, inr (b, l, d)) = ground (
      arith,
      row_moved (gate_map after) id a b (gate_map before) at l (unlike a b d),
      contains-append (gone_ids (gate_map after) (gate_map before))
          (moved_ids (gate_map after) (gate_map before)) id,
    )
      where
        unlike :
            (a b : GateNode)
            → ¬ (Same a.upstreams b.upstreams)
            → same_set a.upstreams b.upstreams ≡ false
        unlike a b d = elim (Bool-cases (same_set a.upstreams b.upstreams)) [
          | inl e ↦ absurd (d ((same_set_iff a.upstreams b.upstreams).0 e))
          | inr e ↦ e
        ]

-- A change strands work exactly when there is a gate of the old graph that is not vacant and that the new graph
-- has no longer or gives other upstreams: the rows of all other gates, however full, do not count. Of gates
-- with one id the last of a graph counts.
pub strands_work_iff :
    (before after : GateGraph) (occupancy : List GateOccupancy)
    → (strands_work (impact_of before after occupancy) ≡ true) ↔ (
        (o : GateOccupancy) × In o occupancy
        × (is_vacant o ≡ false)
        × Disturbed before after o.gate_id)
unfolding strands_work impact_of
strands_work_iff before after occupancy = (into, back)
  where
    test : GateOccupancy → Bool
    test = λ o.
        contains
          (gone_ids (gate_map after) (gate_map before)
            ++ moved_ids (gate_map after) (gate_map before))
          o.gate_id
        && not (is_vacant o)

    counted : strands_work (impact_of before after occupancy) ≡ any test occupancy
    counted =
        any-sort_occupancy (λ o. not (is_vacant o)) _
        ∙ any-keep (λ o. not (is_vacant o)) _ occupancy

    into :
        strands_work (impact_of before after occupancy) ≡ true
        → (o : GateOccupancy) × In o occupancy
          × (is_vacant o ≡ false)
          × Disturbed before after o.gate_id
    into h =
        let (o, at, t) = In-of_any test occupancy (sym counted ∙ h) in
        (o, at, full o t, (Disturbed-iff before after o.gate_id).0 (ground (arith, t)))
      where
        full : (o : GateOccupancy) → test o ≡ true → is_vacant o ≡ false
        full o t = ground (arith, t)

    back :
        (o : GateOccupancy) × In o occupancy
          × (is_vacant o ≡ false)
          × Disturbed before after o.gate_id
        → strands_work (impact_of before after occupancy) ≡ true
    back (o, at, full, why) =
        counted
        ∙ any-In test at (ground (arith, full, (Disturbed-iff before after o.gate_id).1 why))
