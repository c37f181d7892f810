-- ===== src/Meta/Accounts/Ordered.antt =====
-- A query with an order answers with the rows that it selects, and no others.
use convergence.Prelude.{
  String, ◌≡◌, refl, subst, sym, ◌⊎◌, inl, inr, Bool, true, false, List, [], ◌∷◌, In, here, there,
  In-cons, keep, map, Bool-cases,
}
use convergence.Meta.Accounts.{columns_before, place_row, order_by}

module _ {A : Type 0} (columns : A → List String) where
  In-place_row : (a x : A) (xs : List A) → In x (place_row columns a xs) → (x ≡ a) ⊎ In x xs
  In-place_row a x [] m = In-cons m
  In-place_row a x (y ∷ xs) m = elim (Bool-cases (columns_before (columns a) (columns y))) [
    | inl e ↦ In-cons (subst (In x) (rw e refl) m)
    | inr e ↦ elim (In-cons (subst (In x) (later e) m)) [
      | inl same ↦ inr (subst (λ z. In z (y ∷ xs)) (sym same) here)
      | inr rest ↦ elim (In-place_row a x xs rest) [
        | inl same ↦ inl same
        | inr old ↦ inr (there old)
      ]
    ]
  ]
    where
      later :
          columns_before (columns a) (columns y) ≡ false
          → place_row columns a (y ∷ xs) ≡ y ∷ place_row columns a xs
      later e = rw e refl

  pub In-order_by : (x : A) (xs : List A) → In x (order_by columns xs) → In x xs
  In-order_by x [] m = elim m [ ]
  In-order_by x (y ∷ xs) m = elim (In-place_row y x (order_by columns xs) m) [
    | inl same ↦ subst (λ z. In z (y ∷ xs)) (sym same) here
    | inr rest ↦ there (In-order_by x xs rest)
  ]

pub In-keep :
    {A : Type 0} (p : A → Bool) (x : A) (xs : List A) → In x (keep p xs) → In x xs × (p x ≡ true)
In-keep p x [] m = elim m [ ]
In-keep p x (y ∷ xs) m = elim (Bool-cases (p y)) [
  | inl e ↦ elim (In-cons (subst (In x) (rw e refl) m)) [
    | inl same ↦ subst (λ z. In z (y ∷ xs) × (p z ≡ true)) (sym same) (here, e)
    | inr rest ↦ let (at, q) = In-keep p x xs rest in (there at, q)
  ]
  | inr e ↦ let (at, q) = In-keep p x xs (subst (In x) (rw e refl) m) in (there at, q)
]

pub In-map_inv :
    {A B : Type 0} (f : A → B) (y : B) (xs : List A)
    → In y (map f xs)
    → (x : A) × In x xs × (f x ≡ y)
In-map_inv f y [] m = elim m [ ]
In-map_inv f y (x ∷ xs) m = elim (In-cons m) [
  | inl same ↦ (x, here, sym same)
  | inr rest ↦ let (z, at, e) = In-map_inv f y xs rest in (z, there at, e)
]
