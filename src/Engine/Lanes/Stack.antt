-- ===== src/Engine/Lanes/Stack.antt =====
-- The stack of `is_ancestor`, and a measure of what the loop can still push.
use convergence.Prelude.{
  ℕ, ◌+◌, ◌≤◌, String, ◌≡◌, refl, ◌∙◌, sym, ap, subst, ◌⊎◌, inl, inr, true, false, ◌&&◌, List, [],
  ◌∷◌, length, contains, In, here, there, In-cons, ◌==◌, eq_iff, if◌then◌else◌, arith, Bool-cases,
}
use convergence.Records.{SnapRecord}
use convergence.Engine.Lanes.{snap_row, extend, parents_of, all_parents}

pub length-extend :
    (parents stack : List String) → length (extend parents stack) ≡ length parents + length stack
unfolding extend
length-extend [] stack = omega arith
length-extend (p ∷ parents) stack = length-extend parents (p ∷ stack) ∙ omega arith

pub extend-In :
    (parents stack : List String) (x : String)
    → In x (extend parents stack)
    → In x parents ⊎ In x stack
unfolding extend
extend-In [] stack x m = inr m
extend-In (p ∷ parents) stack x m = elim (extend-In parents (p ∷ stack) x m) [
  | inl at ↦ inl (there at)
  | inr at ↦ elim (In-cons at) [
    | inl e ↦ inl (subst (λ y. In y (p ∷ parents)) (sym e) here)
    | inr later ↦ inr later
  ]
]

pub In-extend_stack :
    (parents stack : List String) (x : String) → In x stack → In x (extend parents stack)
unfolding extend
In-extend_stack [] stack x m = m
In-extend_stack (p ∷ parents) stack x m = In-extend_stack parents (p ∷ stack) x (there m)

pub In-extend :
    (parents stack : List String) (x : String) → In x parents → In x (extend parents stack)
unfolding extend
In-extend [] stack x m = elim m [ ]
In-extend (p ∷ parents) stack _ here = In-extend_stack parents (p ∷ stack) p here
In-extend (p ∷ parents) stack x (there m) = In-extend parents (p ∷ stack) x m

-- The parents of the snaps that the loop has not seen
unfoldable pub weight : List (String × SnapRecord) → List String → ℕ
weight [] seen = 0
weight ((r, s) ∷ rows) seen =
    let rest = weight rows seen in if contains seen s.id then rest else length s.parents + rest

pub weight-cons :
    (rows : List (String × SnapRecord)) (id : String) (seen : List String)
    → weight rows (id ∷ seen) ≤ weight rows seen
unfolding weight
weight-cons [] id seen = omega arith
weight-cons ((r, s) ∷ rows) id seen = ground (arith, weight-cons rows id seen)

pub weight-new :
    (repo id : String) (rows : List (String × SnapRecord)) (seen : List String)
    → contains seen id ≡ false
    → length (parents_of (snap_row repo id rows)) + weight rows (id ∷ seen) ≤ weight rows seen
unfolding weight
weight-new repo id [] seen h = omega arith
weight-new repo id ((r, s) ∷ rows) seen h =
    let rest = weight-new repo id rows seen h in
    let less = weight-cons rows id seen in
    elim (Bool-cases (r == repo && s.id == id)) [
      | inl own ↦ let same = is_own own in rw (own, same, is_named own) (omega (arith, less))
      | inr other ↦ rw other (ground (arith, rest))
    ]
  where
    is_id : (r == repo && s.id == id) ≡ true → s.id ≡ id
    is_id own = ground (arith, eq_iff s.id id)

    is_own : (r == repo && s.id == id) ≡ true → contains seen s.id ≡ false
    is_own own = ap (contains seen) (is_id own) ∙ h

    is_named : (r == repo && s.id == id) ≡ true → id == s.id ≡ true
    is_named own = (eq_iff id s.id).1 (sym (is_id own))

pub weight-nil : (rows : List (String × SnapRecord)) → weight rows [] ≡ all_parents rows
unfolding weight
weight-nil [] = refl
weight-nil ((r, s) ∷ rows) = ap (λ n. length s.parents + n) (weight-nil rows)
