-- ===== src/Engine/Lanes/Ancestors.antt =====
-- `is_ancestor` finds exactly the snaps from which the head descends, and it ends.
use convergence.Prelude.{
  ℕ, zero, suc, ◌+◌, ◌≤◌, ◌<◌, String, ◌≡◌, ◌≢◌, refl, ◌∙◌, sym, subst, ◌⊎◌, inl, inr, true, false,
  Option, none, some, List, [], ◌∷◌, length, contains, In, here, there, In-cons, In-contains, ◌==◌,
  eq_iff, if◌then◌else◌, arith, Bool-cases, Option-cases,
}
use convergence.Records.{SnapRecord}
use convergence.Meta.{Meta}
use convergence.Engine.Lanes.{
  snap_row, get_snap_record, extend, parents_of, search, all_parents, is_ancestor,
}
use convergence.Engine.Lanes.Stack.{
  length-extend, extend-In, In-extend_stack, In-extend, weight, weight-new, weight-nil,
}

-- `descendant` descends from a snap: it is the snap, or a snap it descends from names it as a parent.
pub data Descends (record_of : String → Option SnapRecord) (descendant : String)
    : String → Type 0 where
  itself : Descends record_of descendant descendant
  parent :
      {x p : String}
      → Descends record_of descendant x
      → In p (parents_of (record_of x))
      → Descends record_of descendant p

-- Enough fuel is more than the stack and what it can grow by.
module _ (repo : String) (rows : List (String × SnapRecord)) (ancestor : String) where
  unfoldable pub record_of : String → Option SnapRecord
  record_of = λ id. snap_row repo id rows

  -- The stack and the seen snaps after one turn for `id`
  abbrev pub next : String → List String → List String → List String
  next id stack seen = if contains seen id then stack else extend (parents_of (record_of id)) stack

  abbrev pub now : String → List String → List String
  now id seen = if contains seen id then seen else id ∷ seen

  search-step :
      (fuel : ℕ) (id : String) (stack seen : List String)
      → id == ancestor ≡ false
      → search (suc fuel) record_of ancestor (id ∷ stack) seen
        ≡ search fuel record_of ancestor (next id stack seen) (now id seen)
  unfolding search
  search-step fuel id stack seen h = rw h

  search-hit :
      (fuel : ℕ) (id : String) (stack seen : List String)
      → id == ancestor ≡ true
      → search (suc fuel) record_of ancestor (id ∷ stack) seen ≡ some true
  unfolding search
  search-hit fuel id stack seen h = rw h

  next-In :
      (id : String) (stack seen : List String) (x : String)
      → In x (next id stack seen)
      → In x (parents_of (record_of id)) ⊎ In x stack
  next-In id stack seen x m = elim (Bool-cases (contains seen id)) [
    | inl e ↦ inr (subst (In x) (rw e) m)
    | inr e ↦ extend-In (parents_of (record_of id)) stack x (subst (In x) (rw e) m)
  ]

  In-next :
      (id : String) (stack seen : List String) (x : String) → In x stack → In x (next id stack seen)
  In-next id stack seen x m = elim (Bool-cases (contains seen id)) [
    | inl e ↦ rw e m
    | inr e ↦ rw e (In-extend_stack _ stack x m)
  ]

  In-now : (id : String) (seen : List String) (x : String) → In x seen → In x (now id seen)
  In-now id seen x m = elim (Bool-cases (contains seen id)) [
    | inl e ↦ rw e m
    | inr e ↦ rw e (there m)
  ]

  In-now_own : (id : String) (seen : List String) → In id (now id seen)
  In-now_own id seen = elim (Bool-cases (contains seen id)) [
    | inl e ↦ rw e (In-contains seen id e)
    | inr e ↦ rw e here
  ]

  -- The snaps of the stack descend from the head; so does what the loop finds.
  search_sound :
      (fuel : ℕ) (head : String) (stack seen : List String)
      → ((x : String) → In x stack → Descends record_of head x)
      → search fuel record_of ancestor stack seen ≡ some true
      → Descends record_of head ancestor
  unfolding search
  search_sound zero head stack seen all h = cc
  search_sound (suc fuel) head [] seen all h = cc
  search_sound (suc fuel) head (id ∷ stack) seen all h =
      let rest = search_sound fuel head (next id stack seen) (now id seen) in
      elim (Bool-cases (id == ancestor)) [
        | inl e ↦ subst (Descends record_of head) ((eq_iff id ancestor).0 e) (all id here)
        | inr e ↦
            rest
              (λ x m. elim (next-In id stack seen x m) [
                | inl p ↦ parent (all id here) p
                | inr p ↦ all x (there p)
              ])
              (sym (search-step fuel id stack seen e) ∙ h)
      ]

  -- Every snap that was seen is not the ancestor, and its parents are seen or wait on the stack.
  Closed : List String → List String → Type 0
  Closed stack seen =
      (x : String)
      → In x seen
      → (x ≢ ancestor) × ((p : String) → In p (parents_of (record_of x)) → In p seen ⊎ In p stack)

  Closed-excludes :
      (head : String) (seen : List String)
      → Closed [] seen
      → In head seen
      → (x : String) → Descends record_of head x
      → In x seen
  unfolding Closed
  Closed-excludes head seen closed at _ itself = at
  Closed-excludes head seen closed at p (parent {x = x} d m) =
      elim ((closed x (Closed-excludes head seen closed at x d)).1 p m) [
        | inl e ↦ e
        | inr e ↦ elim e [ ]
      ]

  -- What stood on the stack has been seen or still stands there.
  moved :
      (id : String) (stack seen : List String) (p : String)
      → In p seen ⊎ In p (id ∷ stack)
      → In p (now id seen) ⊎ In p (next id stack seen)
  moved id stack seen p (inl m) = inl (In-now id seen p m)
  moved id stack seen p (inr m) = elim (In-cons m) [
    | inl e ↦ inl (subst (λ y. In y (now id seen)) (sym e) (In-now_own id seen))
    | inr later ↦ inr (In-next id stack seen p later)
  ]

  Closed-next :
      (id : String) (stack seen : List String)
      → id ≢ ancestor
      → Closed (id ∷ stack) seen
      → Closed (next id stack seen) (now id seen)
  unfolding Closed
  Closed-next id stack seen differs closed x m = elim (Bool-cases (contains seen id)) [
    | inl e ↦ old (subst (In x) (rw e) m)
    | inr e ↦ elim (In-cons (subst (In x) (new e) m)) [
      | inl own ↦ (
        λ same. differs (sym own ∙ same),
        λ p at. inr (
            subst (In p) (sym (pushed e))
              (In-extend _ stack p (subst (λ y. In p (parents_of (record_of y))) own at))),
      )
      | inr later ↦ old later
    ]
  ]
    where
      old :
          In x seen
          → (x ≢ ancestor)
            × ((p : String)
                → In p (parents_of (record_of x))
                → In p (now id seen) ⊎ In p (next id stack seen))
      old at = ((closed x at).0, λ p q. moved id stack seen p ((closed x at).1 p q))

      new : contains seen id ≡ false → now id seen ≡ id ∷ seen
      new e = rw e

      pushed :
          contains seen id ≡ false → next id stack seen ≡ extend (parents_of (record_of id)) stack
      pushed e = rw e

  search_complete :
      (fuel : ℕ) (head : String) (stack seen : List String)
      → Closed stack seen
      → In head seen ⊎ In head stack
      → search fuel record_of ancestor stack seen ≡ some false
      → ¬ (Descends record_of head ancestor)
  unfolding search Closed
  search_complete zero head stack seen closed at h d = cc
  search_complete (suc fuel) head [] seen closed (inr at) h d = elim at [ ]
  search_complete (suc fuel) head [] seen closed (inl at) h d =
      (closed ancestor (Closed-excludes head seen closed at ancestor d)).0 refl
  search_complete (suc fuel) head (id ∷ stack) seen closed at h d =
      let rest = search_complete fuel head (next id stack seen) (now id seen) in
      elim (Bool-cases (id == ancestor)) [
        | inl e ↦ true-false (sym (search-hit fuel id stack seen e) ∙ h)
        | inr e ↦
            rest (Closed-next id stack seen (λ same. equal-not e same) closed)
              (moved id stack seen head at) (sym (search-step fuel id stack seen e) ∙ h) d
      ]
    where
      true-false : some true ≡ some false → ⊥
      true-false p = cc

      equal-not : id == ancestor ≡ false → id ≢ ancestor
      equal-not e same = cc ((eq_iff id ancestor).1 same)

  pub next-fits :
      (id : String) (stack seen : List String)
      → length (next id stack seen) + weight rows (now id seen) ≤ length stack + weight rows seen
  unfolding extend weight record_of
  next-fits id stack seen = elim (Bool-cases (contains seen id)) [
    | inl e ↦ rw e (omega arith)
    | inr e ↦ rw e (
        omega
          (arith, length-extend (parents_of (record_of id)) stack, weight-new repo id rows seen e))
  ]

  search-ends :
      (fuel : ℕ) (stack seen : List String)
      → length stack + weight rows seen < fuel
      → search fuel record_of ancestor stack seen ≢ none
  unfolding search
  search-ends zero stack seen h e = omega arith
  search-ends (suc fuel) [] seen h e = cc
  search-ends (suc fuel) (id ∷ stack) seen h e =
      let rest = search-ends fuel (next id stack seen) (now id seen) in
      elim (Bool-cases (id == ancestor)) [
        | inl hit ↦ some-none (sym (search-hit fuel id stack seen hit) ∙ e)
        | inr miss ↦
            rest (omega (arith, next-fits id stack seen))
              (sym (search-step fuel id stack seen miss) ∙ e)
      ]
    where
      some-none : some true ≡ none → ⊥
      some-none p = cc

-- `is_ancestor` ends for every graph of snaps, one with cycles too, and answers true exactly when the
-- descendant descends from the ancestor along the parents that the uploaded snaps of the repo name.
pub is_ancestor-Descends :
    (m : Meta) (repo ancestor descendant : String)
    → ((is_ancestor m repo ancestor descendant ≡ some true)
        × Descends (get_snap_record m repo) descendant ancestor)
      ⊎ ((is_ancestor m repo ancestor descendant ≡ some false)
          × (¬ (Descends (get_snap_record m repo) descendant ancestor)))
unfolding is_ancestor get_snap_record record_of Closed
is_ancestor-Descends m repo ancestor descendant =
    elim (Option-cases (is_ancestor m repo ancestor descendant)) [
      | inl e ↦ absurd (
          search-ends repo rows ancestor (all_parents rows + 2) (descendant ∷ []) []
            (omega (arith, weight-nil rows)) e)
      | inr (true, e) ↦ inl (
        e,
        search_sound repo rows ancestor (all_parents rows + 2) descendant (descendant ∷ []) [] alone
            e,
      )
      | inr (false, e) ↦ inr (
        e,
        search_complete repo rows ancestor (all_parents rows + 2) descendant (descendant ∷ []) []
            (λ x at. elim at [ ]) (inr here) e,
      )
    ]
  where
    rows : List (String × SnapRecord)
    rows = m.snap_records

    alone :
        (x : String) → In x (descendant ∷ []) → Descends (λ id. snap_row repo id rows) descendant x
    alone x at = elim (In-cons at) [
      | inl e ↦ subst (Descends (λ id. snap_row repo id rows) descendant) (sym e) itself
      | inr none_left ↦ elim none_left [ ]
    ]
