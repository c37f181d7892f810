-- ===== src/Meta/Partitions.antt =====
-- The rows of partitions and promotions after a write.
use convergence.Prelude.{
  String, ◌≡◌, refl, ◌∙◌, ap, sym, inl, inr, true, false, ◌&&◌, List, [], ◌∷◌, ◌++◌, find, ◌==◌,
  if◌then◌else◌, arith, eq_iff, eq_refl, Bool-cases,
}
use convergence.Records.{PartitionState}
use convergence.Meta.{
  Meta, PartitionRow, Promotion, is_partition, state_of, get_partition_state, upsert_partition,
  set_partition_state, record_promotion, list_promotions, promoted_to,
}

is_partition-own :
    (r s g : String) (state : PartitionState)
    → is_partition r s g (record { repo_id = r; scope_id = s; gate_id = g; state = state }) ≡ true
is_partition-own r s g state = ground (arith, eq_refl r, eq_refl s, eq_refl g)

upsert_partition-same :
    (r s g : String) (state : PartitionState) (rows : List PartitionRow)
    → state_of (find (is_partition r s g) (upsert_partition r s g state rows)) ≡ state
upsert_partition-same r s g state [] = ground (arith, is_partition-own r s g state)
upsert_partition-same r s g state (row ∷ rows) =
    ground (arith, upsert_partition-same r s g state rows)

-- A row that answers for one partition answers for another only if they are the same.
other_partition :
    (r s g r' s' g' : String) (row : PartitionRow)
    → (r == r' && s == s' && g == g') ≡ false
    → is_partition r s g row ≡ true
    → is_partition r' s' g' row ≡ false
other_partition r s g r' s' g' row h k =
    (λ i. (own.0 i == r') && (own.1 i == s') && (own.2 i == g')) ∙ h
  where
    own : (row.repo_id ≡ r) × (row.scope_id ≡ s) × (row.gate_id ≡ g)
    own = ground (arith, eq_iff row.repo_id r, eq_iff row.scope_id s, eq_iff row.gate_id g)

pub get-set_partition_state :
    (r s g : String) (state : PartitionState) (m : Meta)
    → get_partition_state (set_partition_state r s g state m) r s g ≡ state
unfolding get_partition_state set_partition_state
get-set_partition_state r s g state m = upsert_partition-same r s g state m.partitions

upsert_partition-other :
    (r s g r' s' g' : String) (state : PartitionState) (rows : List PartitionRow)
    → (r == r' && s == s' && g == g') ≡ false
    → find (is_partition r' s' g') (upsert_partition r s g state rows)
      ≡ find (is_partition r' s' g') rows
upsert_partition-other r s g r' s' g' state [] h = ground arith
upsert_partition-other r s g r' s' g' state (row ∷ rows) h = ground (
  arith,
  other_partition r s g r' s' g' row h,
  upsert_partition-other r s g r' s' g' state rows h,
)

pub get-set_partition_state_other :
    (r s g r' s' g' : String) (state : PartitionState) (m : Meta)
    → (r == r' && s == s' && g == g') ≡ false
    → get_partition_state (set_partition_state r s g state m) r' s' g'
      ≡ get_partition_state m r' s' g'
unfolding get_partition_state set_partition_state
get-set_partition_state_other r s g r' s' g' state m h =
    ap state_of (upsert_partition-other r s g r' s' g' state m.partitions h)

promoted_to-append :
    (id from to at : String) (rows : List Promotion)
    → promoted_to id (
        rows
        ++ (record { candidate_id = id; from_gate = from; to_gate = to; promoted_at = at } ∷ []))
      ≡ promoted_to id rows ++ (to ∷ [])
promoted_to-append id from to at [] = ground (arith, eq_refl id)
promoted_to-append id from to at (p ∷ rows) = ground (arith, promoted_to-append id from to at rows)

pub list-record_promotion :
    (id from to at : String) (m : Meta)
    → list_promotions (record_promotion id from to at m) id ≡ list_promotions m id ++ (to ∷ [])
unfolding list_promotions record_promotion
list-record_promotion id from to at m = promoted_to-append id from to at m.promotions

-- The other tables do not hold states.
pub get-record_promotion :
    (id from to at : String) (m : Meta) (r s g : String)
    → get_partition_state (record_promotion id from to at m) r s g ≡ get_partition_state m r s g
unfolding get_partition_state record_promotion
get-record_promotion id from to at m r s g = refl

pub get-set_partition_state_eq :
    (r s g r' s' g' : String) (state : PartitionState) (m : Meta)
    → get_partition_state (set_partition_state r s g state m) r' s' g'
      ≡ (if r == r' && s == s' && g == g' then state else get_partition_state m r' s' g')
get-set_partition_state_eq r s g r' s' g' state m =
    elim (Bool-cases (r == r' && s == s' && g == g')) [
      | inl own ↦
          let (er, es, eg) = same own in
          (λ i.
            get_partition_state (set_partition_state r s g state m) (sym er i) (sym es i)
              (sym eg i))
          ∙ (get-set_partition_state r s g state m ∙ sym (rw own))
      | inr other ↦ get-set_partition_state_other r s g r' s' g' state m other ∙ sym (rw other)
    ]
  where
    same : (r == r' && s == s' && g == g') ≡ true → (r ≡ r') × (s ≡ s') × (g ≡ g')
    same own = ground (arith, eq_iff r r', eq_iff s s', eq_iff g g')
