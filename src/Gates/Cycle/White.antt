-- ===== src/Gates/Cycle/White.antt =====
-- The names that a walk has not met yet: their number bounds how deep it can go.
use convergence.Prelude.{
  ℕ, suc, ◌≤◌, ◌<◌, String, ◌≡◌, sym, subst, inl, inr, Bool, true, false, none, some, ◌∷◌, List, [],
  arith, contains, eq_iff, lookup, insert, lookup-insert, ◌==◌, Bool-cases, if◌then◌else◌,
}
use convergence.Gates.Cycle.{Mark, Marks}

abbrev pub is_marked : Marks → String → Bool
is_marked marks n = elim (lookup n marks) [ none ↦ false | some mark ↦ true ]

-- How many of the names are still white.
abbrev pub white : List String → Marks → ℕ
white [] marks = 0
white (x ∷ xs) marks = let rest = white xs marks in if is_marked marks x then rest else suc rest

pub white-le :
    (xs : List String) (marks after : Marks)
    → ((n : String) → is_marked marks n ≡ true → is_marked after n ≡ true)
    → white xs after ≤ white xs marks
white-le [] marks after h = omega arith
white-le (x ∷ xs) marks after h = elim (Bool-cases (is_marked marks x)) [
  | inl e ↦ rw (e, h x e) (white-le xs marks after h)
  | inr e ↦ elim (Bool-cases (is_marked after x)) [
    | inl f ↦ rw (e, f) (omega (arith, white-le xs marks after h))
    | inr f ↦ rw (e, f) (omega (arith, white-le xs marks after h))
  ]
]

pub is_marked-insert :
    (marks : Marks) (g : String) (m : Mark) (n : String)
    → is_marked marks n ≡ true
    → is_marked (insert g m marks) n ≡ true
is_marked-insert marks g m n h = ground (arith, lookup-insert g n m marks)

is_marked-insert_self :
    (marks : Marks) (g : String) (m : Mark) → is_marked (insert g m marks) g ≡ true
is_marked-insert_self marks g m = ground (arith, lookup-insert g g m marks, eq_iff g g)

unmarked : (marks : Marks) (g : String) → lookup g marks ≡ none → is_marked marks g ≡ false
unmarked marks g e = ground arith

pub white-insert :
    (xs : List String) (marks : Marks) (g : String) (m : Mark)
    → contains xs g ≡ true
    → lookup g marks ≡ none
    → white xs (insert g m marks) < white xs marks
white-insert [] marks g m h e = cc
white-insert (x ∷ xs) marks g m h e = elim (Bool-cases (x == g)) [
  | inl q ↦
      let at : x ≡ g = (eq_iff x g).0 q in
      rw
        (
          subst (λ z. is_marked (insert g m marks) z ≡ true) (sym at)
              (is_marked-insert_self marks g m),
          subst (λ z. is_marked marks z ≡ false) (sym at) (unmarked marks g e),
        )
        (omega (arith, white-le xs marks (insert g m marks) (is_marked-insert marks g m)))
  | inr q ↦
      ground (arith, white-insert xs marks g m, lookup-insert g x m marks, eq_iff x g, eq_iff g x)
]
