-- ===== src/Prelude/Dict.antt =====
-- `BTreeMap<String, V>` as a list of pairs in the order of the keys, and `sort` on texts. The order
-- is the byte order of Rust's `str`.
use Prim.Native.Nat.{Ordering}
use Prim.Native.String.{String, compare}
use mathlib.Core.Path.{◌≡◌, refl, ap, ◌∙◌, subst}
use mathlib.Core.Logic.{◌⊎◌, inl, inr}
use mathlib.Core.Bool.{◌||◌}
use mathlib.Core.Option.{Option, none, some}
use mathlib.Core.List.{List, [], ◌∷◌}
use native.Mathlib.Omega.{arith}
use text.Mathlib.Text.{◌==◌}
use text.Mathlib.TextEquality.{eq_iff}
use convergence.Prelude.Tests.{if◌then◌else◌, Bool-cases}
use convergence.Prelude.Lists.{In, here, there, contains}

module _ {ℓ} {V : Type ℓ} where
  abbrev pub lookup : String → List (String × V) → Option V
  lookup k [] = none
  lookup k ((j, v) ∷ m) = let rest = lookup k m in if j == k then some v else rest

  -- `map.insert(k, v)`: a key that is there already gets the new value.
  abbrev pub insert : String → V → List (String × V) → List (String × V)
  insert k v [] = (k, v) ∷ []
  insert k v ((j, w) ∷ m) =
      let rest = insert k v m in
      elim (compare k j) [
        | Ordering.lt ↦ (k, v) ∷ (j, w) ∷ m
        | Ordering.eq ↦ (k, v) ∷ m
        | Ordering.gt ↦ (j, w) ∷ rest
      ]

  -- `iter().collect()`: of two pairs with one key the later one stays.
  abbrev pub collect_onto : List (String × V) → List (String × V) → List (String × V)
  collect_onto m [] = m
  collect_onto m ((k, v) ∷ rest) = collect_onto (insert k v m) rest

  abbrev pub collect : List (String × V) → List (String × V)
  collect pairs = collect_onto [] pairs

  abbrev pub keys : List (String × V) → List String
  keys [] = []
  keys ((k, v) ∷ m) = k ∷ keys m

  pub lookup-insert :
      (written asked : String) (v : V) (dict : List (String × V))
      → lookup asked (insert written v dict)
        ≡ (if written == asked then some v else lookup asked dict)
  lookup-insert written asked v [] = refl
  lookup-insert written asked v ((key, w) ∷ dict) =
      let rest = lookup-insert written asked v dict in
      ground (arith, eq_iff key written, eq_iff key asked, eq_iff written asked, rest)

module _ {ℓ} {V : Type ℓ} where
  lookup-collect_onto :
      (k : String) (v : V) (m pairs : List (String × V))
      → lookup k (collect_onto m pairs) ≡ some v
      → (lookup k m ≡ some v) ⊎ In (k, v) pairs
  lookup-collect_onto k v m [] h = inl h
  lookup-collect_onto k v m ((j, w) ∷ pairs) h =
      elim (lookup-collect_onto k v (insert j w m) pairs h) [
        | inl old ↦ elim (Bool-cases (j == k)) [
          | inl e ↦
              let same : ◌≡◌ {A = String × V} (j, w) (k, v) =
                ground (arith, eq_iff j k, lookup-insert j k w m) in
              inr (subst (λ p. In p ((j, w) ∷ pairs)) same here)
          | inr e ↦ inl (ground (arith, lookup-insert j k w m))
        ]
        | inr late ↦ inr (there late)
      ]

  -- What `lookup` finds is a pair of the dictionary.
  pub In-lookup : (k : String) (v : V) (m : List (String × V)) → lookup k m ≡ some v → In (k, v) m
  In-lookup k v [] h = cc
  In-lookup k v ((j, w) ∷ m) h = elim (Bool-cases (j == k)) [
    | inl e ↦
        let same : ◌≡◌ {A = String × V} (j, w) (k, v) = ground (arith, eq_iff j k) in
        subst (λ p. In p ((j, w) ∷ m)) same here
    | inr e ↦ there (In-lookup k v m (ground arith))
  ]

  -- What a collected map holds was among the pairs.
  pub lookup-collect :
      (k : String) (v : V) (pairs : List (String × V))
      → lookup k (collect pairs) ≡ some v
      → In (k, v) pairs
  lookup-collect k v pairs h = elim (lookup-collect_onto k v [] pairs h) [ inl e ↦ cc | inr m ↦ m ]

-- `sort_unstable` and `sort` on a vector of texts.
abbrev pub insert_sorted : String → List String → List String
insert_sorted a [] = a ∷ []
insert_sorted a (x ∷ xs) =
    let rest = insert_sorted a xs in elim (compare a x) [ Ordering.gt ↦ x ∷ rest | _ ↦ a ∷ x ∷ xs ]

abbrev pub sort : List String → List String
sort [] = []
sort (x ∷ xs) = insert_sorted x (sort xs)

contains-insert_sorted :
    (a : String) (xs : List String) (b : String)
    → contains (insert_sorted a xs) b ≡ (a == b || contains xs b)
contains-insert_sorted a [] b = refl
contains-insert_sorted a (x ∷ xs) b = ground (arith, contains-insert_sorted a xs b)

pub contains-sort : (xs : List String) (b : String) → contains (sort xs) b ≡ contains xs b
contains-sort [] b = refl
contains-sort (x ∷ xs) b =
    contains-insert_sorted x (sort xs) b ∙ ap (λ t. x == b || t) (contains-sort xs b)
