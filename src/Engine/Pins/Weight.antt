-- ===== src/Engine/Pins/Weight.antt =====
-- What the loop of `unpin_tree` can still push.
use convergence.Prelude.{
  ℕ, ◌+◌, ◌≤◌, ◌≡◌, refl, ◌∙◌, sym, ap, true, false, List, [], ◌∷◌, contains, lookup, ◌==◌, eq_iff,
  if◌then◌else◌, arith, Bool-cases, inl, inr,
}
use convergence.Records.{ObjectId}
use convergence.Objects.{Read, read_at, Manifest}
use convergence.Engine.Pins.{read_dirs, all_dirs}

-- The directories that the manifests which were not seen name
unfoldable pub weight : List (ObjectId × Read Manifest) → List ObjectId → ℕ
weight [] seen = 0
weight ((id, r) ∷ rows) seen =
    let rest = weight rows seen in if contains seen id then rest else read_dirs r + rest

pub weight-nil : (rows : List (ObjectId × Read Manifest)) → weight rows [] ≡ all_dirs rows
unfolding weight
weight-nil [] = refl
weight-nil ((id, r) ∷ rows) = ap (λ n. read_dirs r + n) (weight-nil rows)

weight-cons :
    (rows : List (ObjectId × Read Manifest)) (id : ObjectId) (seen : List ObjectId)
    → weight rows (id ∷ seen) ≤ weight rows seen
unfolding weight
weight-cons [] id seen = omega arith
weight-cons ((key, r) ∷ rows) id seen = ground (arith, weight-cons rows id seen)

pub weight-new :
    (rows : List (ObjectId × Read Manifest)) (id : ObjectId) (seen : List ObjectId)
    → contains seen id ≡ false
    → read_dirs (read_at (lookup id rows)) + weight rows (id ∷ seen) ≤ weight rows seen
unfolding weight
weight-new [] id seen h = omega arith
weight-new ((key, r) ∷ rows) id seen h =
    let rest = weight-new rows id seen h in
    let less = weight-cons rows id seen in
    elim (Bool-cases (key == id)) [
      | inl own ↦ rw (own, is_named own, is_new own) (omega (arith, less))
      | inr other ↦ rw other (ground (arith, rest))
    ]
  where
    is_new : key == id ≡ true → contains seen key ≡ false
    is_new own = ap (contains seen) ((eq_iff key id).0 own) ∙ h

    is_named : key == id ≡ true → id == key ≡ true
    is_named own = (eq_iff id key).1 (sym ((eq_iff key id).0 own))
