-- ===== src/Prelude/Sorted.antt =====
-- The byte order of texts is a strict total order, and `insert` keeps the keys of a dictionary
-- sorted; so a pair of a sorted dictionary is what `lookup` finds.
use Prim.Native.Nat.{ℕ, Ordering, compare as compare_ℕ}
use Prim.Native.Char.{code}
use Prim.Native.String.{String, compare, then as chain}
use Prim.Native.String.compare
use mathlib.Core.Path.{◌≡◌, refl, sym, ap, ◌∙◌, subst}
use mathlib.Core.Logic.{◌⊎◌, inl, inr}
use mathlib.Core.Bool.{false}
use mathlib.Core.Option.{some}
use mathlib.Core.List.{List, [], ◌∷◌}
use native.Mathlib.Omega.{arith}
use text.Mathlib.Text.{◌==◌}
use text.Mathlib.TextEquality.{eq_iff, path_by_compare}
use convergence.Prelude.Lists.{In, In-cons}
use convergence.Prelude.Dict.{lookup, insert, collect_onto, collect}

abbrev pub Before : String → String → Type 0
Before s t = compare s t ≡ Ordering.lt

gt_not_lt : Ordering.gt ≡ Ordering.lt → ⊥
gt_not_lt h = cc

eq_not_gt : Ordering.eq ≡ Ordering.gt → ⊥
eq_not_gt h = cc

lt_not_gt : Ordering.lt ≡ Ordering.gt → ⊥
lt_not_gt h = cc

pub Ordering-cases : (o : Ordering) → (o ≡ Ordering.lt) ⊎ ((o ≡ Ordering.eq) ⊎ (o ≡ Ordering.gt))
Ordering-cases Ordering.lt = inl refl
Ordering-cases Ordering.eq = inr (inl refl)
Ordering-cases Ordering.gt = inr (inr refl)

chain_lt :
    (a b c : ℕ) (o p q : Ordering)
    → (o ≡ Ordering.lt → p ≡ Ordering.lt → q ≡ Ordering.lt)
    → chain (compare_ℕ a b) o ≡ Ordering.lt
    → chain (compare_ℕ b c) p ≡ Ordering.lt
    → chain (compare_ℕ a c) q ≡ Ordering.lt
chain_lt a b c o p q r h k = ground (arith, h, k, r)

pub Before-trans : (s t u : String) → Before s t → Before t u → Before s u
Before-trans String.[] String.[] u h k = k
Before-trans String.[] (String.◌∷◌ d t) String.[] h k =
    absurd (gt_not_lt (sym (compare.cons-nil d t) ∙ k))
Before-trans String.[] (String.◌∷◌ d t) (String.◌∷◌ e u) h k = compare.nil-cons e u
Before-trans (String.◌∷◌ c s) String.[] u h k = absurd (gt_not_lt (sym (compare.cons-nil c s) ∙ h))
Before-trans (String.◌∷◌ c s) (String.◌∷◌ d t) String.[] h k =
    absurd (gt_not_lt (sym (compare.cons-nil d t) ∙ k))
Before-trans (String.◌∷◌ c s) (String.◌∷◌ d t) (String.◌∷◌ e u) h k =
    compare.cons-cons c e s u
    ∙ chain_lt (code c) (code d) (code e) (compare s t) (compare t u) (compare s u)
        (Before-trans s t u) (sym (compare.cons-cons c d s t) ∙ h)
        (sym (compare.cons-cons d e t u) ∙ k)

-- What does not come before and is not equal comes after.
chain_gt :
    (a b : ℕ) (o p : Ordering)
    → (o ≡ Ordering.gt → p ≡ Ordering.lt)
    → chain (compare_ℕ a b) o ≡ Ordering.gt
    → chain (compare_ℕ b a) p ≡ Ordering.lt
chain_gt a b o p r h = ground (arith, h, r)

pub Before-of_gt : (s t : String) → compare s t ≡ Ordering.gt → Before t s
Before-of_gt String.[] String.[] h = absurd (eq_not_gt h)
Before-of_gt String.[] (String.◌∷◌ d t) h = absurd (lt_not_gt (sym (compare.nil-cons d t) ∙ h))
Before-of_gt (String.◌∷◌ c s) String.[] h = compare.nil-cons c s
Before-of_gt (String.◌∷◌ c s) (String.◌∷◌ d t) h =
    compare.cons-cons d c t s
    ∙ chain_gt (code c) (code d) (compare s t) (compare t s) (Before-of_gt s t)
        (sym (compare.cons-cons c d s t) ∙ h)

pub ne_of_Before : (s t : String) → Before s t → (s == t) ≡ false
ne_of_Before s t h = ground (arith, h)

module _ {ℓ} {V : Type ℓ} where
  -- Every key of the dictionary comes after `k`.
  abbrev pub Above : String → List (String × V) → Type 0
  Above k [] = Unit
  Above k ((j, v) ∷ m) = Before k j × Above k m

  abbrev pub IsSorted : List (String × V) → Type 0
  IsSorted [] = Unit
  IsSorted ((k, v) ∷ m) = Above k m × IsSorted m

  Above-trans : (k j : String) (m : List (String × V)) → Before k j → Above j m → Above k m
  Above-trans k j [] h a = tt
  Above-trans k j ((i, v) ∷ m) h a = (Before-trans k j i h a.0, Above-trans k j m h a.1)

  module _ (k j : String) (v w : V) (m : List (String × V)) where
    insert-lt : compare k j ≡ Ordering.lt → insert k v ((j, w) ∷ m) ≡ (k, v) ∷ (j, w) ∷ m
    insert-lt e = ground arith

    insert-eq : compare k j ≡ Ordering.eq → insert k v ((j, w) ∷ m) ≡ (k, v) ∷ m
    insert-eq e = ground arith

    insert-gt : compare k j ≡ Ordering.gt → insert k v ((j, w) ∷ m) ≡ (j, w) ∷ insert k v m
    insert-gt e = ground arith

  Above-insert :
      (i k : String) (v : V) (m : List (String × V))
      → Before i k
      → Above i m
      → Above i (insert k v m)
  Above-insert i k v [] h a = (h, tt)
  Above-insert i k v ((j, w) ∷ m) h a = elim (Ordering-cases (compare k j)) [
    | inl e ↦ rw (insert-lt k j v w m e) (h, a)
    | inr (inl e) ↦ rw (insert-eq k j v w m e) (h, a.1)
    | inr (inr e) ↦ rw (insert-gt k j v w m e) (a.0, Above-insert i k v m h a.1)
  ]

  pub insert-IsSorted :
      (k : String) (v : V) (m : List (String × V)) → IsSorted m → IsSorted (insert k v m)
  insert-IsSorted k v [] s = (tt, tt)
  insert-IsSorted k v ((j, w) ∷ m) s = elim (Ordering-cases (compare k j)) [
    | inl e ↦ rw (insert-lt k j v w m e) ((e, Above-trans k j m e s.0), (s.0, s.1))
    | inr (inl e) ↦
        rw (insert-eq k j v w m e) (subst (λ z. Above z m) (sym (path_by_compare k j e)) s.0, s.1)
    | inr (inr e) ↦
        rw (insert-gt k j v w m e)
          (Above-insert j k v m (Before-of_gt k j e) s.0, insert-IsSorted k v m s.1)
  ]

  collect_onto-IsSorted :
      (m pairs : List (String × V)) → IsSorted m → IsSorted (collect_onto m pairs)
  collect_onto-IsSorted m [] s = s
  collect_onto-IsSorted m ((k, v) ∷ pairs) s =
      collect_onto-IsSorted (insert k v m) pairs (insert-IsSorted k v m s)

  pub collect-IsSorted : (pairs : List (String × V)) → IsSorted (collect pairs)
  collect-IsSorted pairs = collect_onto-IsSorted [] pairs tt

  Above-In : (k j : String) (v : V) (m : List (String × V)) → Above k m → In (j, v) m → Before k j
  Above-In k j v [] a at = elim at [ ]
  Above-In k j v ((i, w) ∷ m) a at = elim (In-cons at) [
    | inl e ↦ rw (ap (λ (p : String × V). p.0) e) a.0
    | inr at' ↦ Above-In k j v m a.1 at'
  ]

  Above-ne :
      (k j : String) (v : V) {m : List (String × V)} → Above k m → In (j, v) m → (k == j) ≡ false
  Above-ne k j v {m} a at = ne_of_Before k j (Above-In k j v m a at)

  -- A pair of a sorted dictionary is what `lookup` finds under its key.
  pub lookup-In :
      (k : String) (v : V) (m : List (String × V)) → IsSorted m → In (k, v) m → lookup k m ≡ some v
  lookup-In k v [] s at = elim at [ ]
  lookup-In k v ((j, w) ∷ m) s at = elim (In-cons at) [
    | inl e ↦ ground (arith, e, eq_iff j k)
    | inr at' ↦ rw (Above-ne j k v s.0 at') (lookup-In k v m s.1 at')
  ]
