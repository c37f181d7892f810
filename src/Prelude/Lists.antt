-- ===== src/Prelude/Lists.antt =====
-- Lists over the native numbers, and lists of texts used as sets.
use Prim.Native.Nat.{ℕ, zero, suc, ◌+◌}
use Prim.Native.String.{String}
use mathlib.Core.Path.{◌≡◌, refl, subst}
use mathlib.Core.Logic.{◌⊎◌, inl, inr}
use mathlib.Core.Bool.{Bool, true, false, ◌||◌, ◌&&◌}
use mathlib.Core.Option.{Option, none, some}
use mathlib.Core.List.{List, [], ◌∷◌, ◌++◌, map}
use native.Mathlib.Omega.{arith}
use text.Mathlib.Text.{◌==◌}
use text.Mathlib.TextEquality.{eq_iff}
use convergence.Prelude.Tests.{if◌then◌else◌, Bool-cases}

module _ {ℓ} {A : Type ℓ} where
  abbrev pub length : List A → ℕ
  length [] = 0
  length (x ∷ xs) = suc (length xs)

  abbrev pub is_nil : List A → Bool
  is_nil [] = true
  is_nil (x ∷ xs) = false

  pub is_nil-nil : (xs : List A) → is_nil xs ≡ true → xs ≡ []
  is_nil-nil [] h = refl
  is_nil-nil (x ∷ xs) h = cc

  abbrev pub any : (A → Bool) → List A → Bool
  any p [] = false
  any p (x ∷ xs) = p x || any p xs

  abbrev pub all : (A → Bool) → List A → Bool
  all p [] = true
  all p (x ∷ xs) = p x && all p xs

  abbrev pub keep : (A → Bool) → List A → List A
  keep p [] = []
  keep p (x ∷ xs) = let rest = keep p xs in if p x then x ∷ rest else rest

  abbrev pub find : (A → Bool) → List A → Option A
  find p [] = none
  find p (x ∷ xs) = let rest = find p xs in if p x then some x else rest

  -- The first `n` items, and what stands behind them.
  abbrev pub take : ℕ → List A → List A
  take zero xs = []
  take (suc n) [] = []
  take (suc n) (x ∷ xs) = x ∷ take n xs

  abbrev pub drop : ℕ → List A → List A
  drop zero xs = xs
  drop (suc n) [] = []
  drop (suc n) (x ∷ xs) = drop n xs

  -- Every item has the property.
  abbrev pub All {κ} : (A → Type κ) → List A → Type κ
  All P [] = Unit
  All P (x ∷ xs) = P x × All P xs

  -- An item of the list, with the place where it stands.
  pub data In (a : A) : List A → Type ℓ where
    here : {xs : List A} → In a (a ∷ xs)
    there : {x : A} {xs : List A} → In a xs → In a (x ∷ xs)

  pub length-append : (xs ys : List A) → length (xs ++ ys) ≡ length xs + length ys
  length-append [] ys = omega arith
  length-append (x ∷ xs) ys = omega (arith, length-append xs ys)

  pub In-cons : {a x : A} {xs : List A} → In a (x ∷ xs) → (a ≡ x) ⊎ In a xs
  In-cons here = inl refl
  In-cons (there m) = inr m

  pub All-In {κ} : (P : A → Type κ) {a : A} {xs : List A} → All P xs → In a xs → P a
  All-In P h here = h.0
  All-In P h (there m) = All-In P h.1 m

  pub All-of_In {κ} : (P : A → Type κ) (xs : List A) → ((a : A) → In a xs → P a) → All P xs
  All-of_In P [] h = tt
  All-of_In P (x ∷ xs) h = (h x here, All-of_In P xs (λ a m. h a (there m)))

  pub append-nil_inv : (xs ys : List A) → xs ++ ys ≡ [] → (xs ≡ []) × (ys ≡ [])
  append-nil_inv [] ys h = (refl, h)
  append-nil_inv (x ∷ xs) ys h = cc

  pub append-nil_of : (xs ys : List A) → xs ≡ [] → ys ≡ [] → xs ++ ys ≡ []
  append-nil_of [] ys h k = k
  append-nil_of (x ∷ xs) ys h k = cc

  pub any-In : (p : A → Bool) {a : A} {xs : List A} → In a xs → p a ≡ true → any p xs ≡ true
  any-In p (here {xs = xs}) h = ground arith
  any-In p (there {x = x} m) h = ground (arith, any-In p m h)

  In-of_found :
      (p : A → Bool) (x a : A) (xs : List A)
      → (find p xs ≡ some a → In a xs × (p a ≡ true))
      → find p (x ∷ xs) ≡ some a
      → (b : Bool) → p x ≡ b
      → In a (x ∷ xs) × (p a ≡ true)
  In-of_found p x a xs rest h true e = subst (λ y. In y (x ∷ xs) × (p y ≡ true)) same (here, e)
    where
      same : x ≡ a
      same = ground arith
  In-of_found p x a xs rest h false e = let (m, q) = rest (ground arith) in (there m, q)

  pub In-of_find :
      (p : A → Bool) (xs : List A) (a : A) → find p xs ≡ some a → In a xs × (p a ≡ true)
  In-of_find p [] a h = cc
  In-of_find p (x ∷ xs) a h = In-of_found p x a xs (In-of_find p xs a) h (p x) refl

  pub In-of_any : (p : A → Bool) (xs : List A) → any p xs ≡ true → (a : A) × In a xs × (p a ≡ true)
  In-of_any p [] h = cc
  In-of_any p (x ∷ xs) h = elim (Bool-cases (p x)) [
    | inl e ↦ (x, here, e)
    | inr e ↦ let (a, m, q) = In-of_any p xs (ground arith) in (a, there m, q)
  ]

pub In-map {ℓ κ} :
    {A : Type ℓ} {B : Type κ} (f : A → B) {a : A} {xs : List A} → In a xs → In (f a) (map f xs)
In-map f here = here
In-map f (there m) = there (In-map f m)

-- `xs.contains(a)`: membership in a list of texts, or in a set held as one.
abbrev pub contains : List String → String → Bool
contains [] a = false
contains (x ∷ xs) a = x == a || contains xs a

pub contains-In : {a : String} {xs : List String} → In a xs → contains xs a ≡ true
contains-In {a} here = ground (arith, eq_iff a a)
contains-In (there m) = ground (arith, contains-In m)

pub In-contains : (xs : List String) (a : String) → contains xs a ≡ true → In a xs
In-contains [] a h = cc
In-contains (x ∷ xs) a h = elim (Bool-cases (x == a)) [
  | inl e ↦ subst (λ y. In y (x ∷ xs)) ((eq_iff x a).0 e) here
  | inr e ↦ there (In-contains xs a (ground arith))
]

pub contains-append :
    (xs ys : List String) (a : String) → contains (xs ++ ys) a ≡ (contains xs a || contains ys a)
contains-append [] ys a = refl
contains-append (x ∷ xs) ys a = ground (arith, contains-append xs ys a)
