-- ===== src/Gc/Roots/Members.antt =====
-- Membership in what the queries of garbage collection return.
use convergence.Prelude.{
  ℕ, String, ◌≡◌, sym, subst, ◌∙◌, ◌⊎◌, inl, inr, Bool, true, List, [], ◌∷◌, ◌++◌, In, here, there,
  In-cons, keep, any, sort, contains-In, In-contains, contains-sort, In-of_any, eqb→eq, ◌==◌,
  eq_iff, arith, Bool-cases,
}
use convergence.Meta.{Meta, PublicationRow, get_partition_state}
use convergence.Meta.Accounts.{columns_before, place_row, order_by}
use convergence.Meta.Collected.{same_partition, add_partition, partitions_of}

module _ {A : Type 0} where
  pub keep_member : (p : A → Bool) (x : A) (xs : List A) → In x xs → p x ≡ true → In x (keep p xs)
  keep_member p x _ (here {xs = xs}) h = rw h here
  keep_member p x _ (there {x = y} {xs = xs} m) h =
      let rest = keep_member p x xs m h in
      elim (Bool-cases (p y)) [ inl e ↦ rw e (there rest) | inr e ↦ rw e rest ]

  pub append_left : (x : A) (xs ys : List A) → In x xs → In x (xs ++ ys)
  append_left x _ ys (here {xs = xs}) = here
  append_left x _ ys (there {x = y} {xs = xs} m) = there (append_left x xs ys m)

  pub append_right : (x : A) (xs ys : List A) → In x ys → In x (xs ++ ys)
  append_right x [] ys m = m
  append_right x (y ∷ xs) ys m = there (append_right x xs ys m)

  place_row_own : (columns : A → List String) (a : A) (xs : List A) → In a (place_row columns a xs)
  place_row_own columns a [] = here
  place_row_own columns a (x ∷ xs) =
      let rest = place_row_own columns a xs in
      elim (Bool-cases (columns_before (columns a) (columns x))) [
        | inl e ↦ rw e here
        | inr e ↦ rw e (there rest)
      ]

  place_row_member :
      (columns : A → List String) (a x : A) (xs : List A) → In x xs → In x (place_row columns a xs)
  place_row_member columns a x [] m = elim m [ ]
  place_row_member columns a x (y ∷ xs) m =
      let rest = place_row_member columns a x xs in
      elim (Bool-cases (columns_before (columns a) (columns y))) [
        | inl e ↦ rw e (there m)
        | inr e ↦ rw e (behind rest (In-cons m))
      ]
    where
      behind :
          (In x xs → In x (place_row columns a xs))
          → (x ≡ y) ⊎ In x xs
          → In x (y ∷ place_row columns a xs)
      behind rest (inl same) = subst (λ z. In x (z ∷ place_row columns a xs)) same here
      behind rest (inr later) = there (rest later)

  pub order_by_member :
      (columns : A → List String) (x : A) (xs : List A) → In x xs → In x (order_by columns xs)
  order_by_member columns x _ (here {xs = xs}) = place_row_own columns x (order_by columns xs)
  order_by_member columns x _ (there {x = y} {xs = xs} m) =
      place_row_member columns y x (order_by columns xs) (order_by_member columns x xs m)

pub sort_member : (x : String) (xs : List String) → In x xs → In x (sort xs)
sort_member x xs m = In-contains (sort xs) x (contains-sort xs x ∙ contains-In m)

abbrev pub Partition : Type 0
Partition = String × (String × ℕ)

add_partition_own : (p : Partition) (ps : List Partition) → In p (add_partition p ps)
add_partition_own p ps = elim (Bool-cases (any (same_partition p) ps)) [
  | inl e ↦ rw e (found e)
  | inr e ↦ rw e here
]
  where
    same : (q : Partition) → same_partition p q ≡ true → q ≡ p
    same (scope, (gate, floor)) h = λ i. (scopes i, (gates i, floors i))
      where
        scopes : scope ≡ p.0
        scopes = ground (arith, eq_iff p.0 scope)

        gates : gate ≡ p.1.0
        gates = ground (arith, eq_iff p.1.0 gate)

        floors : floor ≡ p.1.1
        floors = sym (eqb→eq p.1.1 floor (ground arith))

    found : any (same_partition p) ps ≡ true → In p ps
    found e =
        let (q, at, h) = In-of_any (same_partition p) ps e in subst (λ x. In x ps) (same q h) at

add_partition_member : (p q : Partition) (ps : List Partition) → In q ps → In q (add_partition p ps)
add_partition_member p q ps m = elim (Bool-cases (any (same_partition p) ps)) [
  | inl e ↦ rw e m
  | inr e ↦ rw e (there m)
]

pub partitions_member :
    (m : Meta) (repo : String) (row : PublicationRow) (rows : List PublicationRow)
    → In row rows
    → row.publication.repo_id ≡ repo
    → (floor : ℕ) × In
        (row.publication.scope_id, (row.publication.target_gate_id, floor))
        (partitions_of m repo rows)
partitions_member m repo row _ (here {xs = xs}) own = (
  (get_partition_state m repo row.publication.scope_id row.publication.target_gate_id).window_floor,
  rw ((eq_iff row.publication.repo_id repo).1 own) (add_partition_own _ (partitions_of m repo xs)),
)
partitions_member m repo row _ (there {x = y} {xs = xs} at) own =
    let (floor, rest) = partitions_member m repo row xs at own in
    elim (Bool-cases (y.publication.repo_id == repo)) [
      | inl e ↦ (floor, rw e (add_partition_member _ _ _ rest))
      | inr e ↦ (floor, rw e rest)
    ]
