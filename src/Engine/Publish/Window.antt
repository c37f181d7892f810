-- ===== src/Engine/Publish/Window.antt =====
-- The `seq` that a publication gets, and the open window that it joins.
use convergence.Prelude.{
  ℕ, ◌<◌, String, ◌≡◌, refl, sym, ap, ◌∙◌, Bool, true, ◌&&◌, List, [], ◌∷◌, ◌++◌, keep, All, ltb,
  max, eq_refl, arith, Bool-cases, inl, inr, length, length-append,
}
use convergence.Meta.{
  Meta, PublicationRow, in_partition, max_seq, next_seq, get_partition_state,
  list_publications_after,
}
use convergence.Engine.Publish.Build.{last_seq}
use convergence.Engine.Publish.Handler.{expected_seq}

-- The rows stand in the order of their `seq`, and no two share one.
unfoldable pub Ascending : List PublicationRow → Type 0
Ascending [] = Unit
Ascending (row ∷ rows) = All (λ later. row.seq < later.seq) rows × Ascending rows

-- The publications of a partition are in order.
unfoldable pub IsOrdered : String → String → String → Meta → Type 0
IsOrdered repo scope gate m = Ascending (keep (in_partition repo scope gate) m.publications)

abbrev top : List PublicationRow → ℕ
top [] = 0
top (row ∷ rows) = max row.seq (top rows)

max_seq-top :
    (repo scope gate : String) (rows : List PublicationRow)
    → max_seq repo scope gate rows ≡ top (keep (in_partition repo scope gate) rows)
max_seq-top repo scope gate [] = refl
max_seq-top repo scope gate (row ∷ rows) = ground (arith, max_seq-top repo scope gate rows)

top-last : (rows : List PublicationRow) → Ascending rows → top rows ≡ last_seq rows
unfolding Ascending
top-last [] h = refl
top-last (row ∷ []) h = omega arith
top-last (row ∷ (next ∷ rows)) ((lt, above), later) =
    omega (arith, top-last (next ∷ rows) later, lt)

abbrev is_open : ℕ → PublicationRow → Bool
is_open floor row = ltb floor row.seq

top-open :
    (floor : ℕ) (rows : List PublicationRow)
    → max (top rows) floor ≡ max (top (keep (is_open floor) rows)) floor
top-open floor [] = refl
top-open floor (row ∷ rows) = ground (arith, top-open floor rows)

keep-open :
    (repo scope gate : String) (floor : ℕ) (rows : List PublicationRow)
    → keep (λ row. in_partition repo scope gate row && ltb floor row.seq) rows
      ≡ keep (is_open floor) (keep (in_partition repo scope gate) rows)
keep-open repo scope gate floor [] = refl
keep-open repo scope gate floor (row ∷ rows) = ground (arith, keep-open repo scope gate floor rows)

All-keep :
    (P : PublicationRow → Type 0) (p : PublicationRow → Bool) (rows : List PublicationRow)
    → All P rows
    → All P (keep p rows)
All-keep P p [] h = tt
All-keep P p (row ∷ rows) (now, later) =
    let rest = All-keep P p rows later in
    elim (Bool-cases (p row)) [ inl e ↦ rw e (now, rest) | inr e ↦ rw e rest ]

Ascending-keep :
    (p : PublicationRow → Bool) (rows : List PublicationRow)
    → Ascending rows
    → Ascending (keep p rows)
unfolding Ascending
Ascending-keep p [] h = tt
Ascending-keep p (row ∷ rows) (now, later) =
    let rest = Ascending-keep p rows later in
    let above = All-keep (λ x. row.seq < x.seq) p rows now in
    elim (Bool-cases (p row)) [ inl e ↦ rw e (above, rest) | inr e ↦ rw e rest ]

-- The `seq` that the store assigns is the one that `publish` computed from the open window.
pub next_seq-expected_seq :
    (repo scope gate : String) (m : Meta)
    → IsOrdered repo scope gate m
    → let floor = (get_partition_state m repo scope gate).window_floor in
      next_seq m repo scope gate
      ≡ expected_seq (list_publications_after m repo scope gate floor) floor
unfolding IsOrdered next_seq expected_seq list_publications_after
next_seq-expected_seq repo scope gate m order =
    omega (arith, max_seq-top repo scope gate m.publications, top-open floor own, last_open)
  where
    floor : ℕ
    floor = (get_partition_state m repo scope gate).window_floor

    own : List PublicationRow
    own = keep (in_partition repo scope gate) m.publications

    last_open :
        last_seq
          (keep (λ row. in_partition repo scope gate row && ltb floor row.seq) m.publications)
        ≡ top (keep (is_open floor) own)
    last_open =
        ap last_seq (keep-open repo scope gate floor m.publications)
        ∙ sym (top-last (keep (is_open floor) own) (Ascending-keep (is_open floor) own order))

keep-append_one :
    (p : PublicationRow → Bool) (rows : List PublicationRow) (row : PublicationRow)
    → p row ≡ true
    → keep p (rows ++ (row ∷ [])) ≡ keep p rows ++ (row ∷ [])
keep-append_one p [] row h = ground (arith, h)
keep-append_one p (x ∷ rows) row h = ground (arith, keep-append_one p rows row h)

-- A row of the partition that is above the floor joins the open window as its last.
pub list_publications-append :
    (m : Meta) (floor : ℕ) (row : PublicationRow)
    → floor < row.seq
    → let p = row.publication in
      list_publications_after
        (record m { publications = m.publications ++ (row ∷ []) })
        p.repo_id
        p.scope_id
        p.target_gate_id
        floor
      ≡ list_publications_after m p.repo_id p.scope_id p.target_gate_id floor ++ (row ∷ [])
unfolding list_publications_after
list_publications-append m floor row lt =
    keep-append_one
      (λ x.
        in_partition row.publication.repo_id row.publication.scope_id row.publication.target_gate_id
          x
        && ltb floor x.seq)
      m.publications row
      (ground (
        arith,
        lt,
        eq_refl row.publication.repo_id,
        eq_refl row.publication.scope_id,
        eq_refl row.publication.target_gate_id,
      ))

-- Of a list that another only extends, the same length means the same list.
pub extended_same :
    (rows extra longer : List PublicationRow)
    → longer ≡ rows ++ extra
    → length longer ≡ length rows
    → longer ≡ rows
extended_same rows extra longer e same =
    e ∙ without extra (omega (arith, ap length e, same, length-append rows extra))
  where
    append_nil : (xs : List PublicationRow) → xs ++ [] ≡ xs
    append_nil [] = refl
    append_nil (x ∷ xs) = ap (λ ys. x ∷ ys) (append_nil xs)

    without : (more : List PublicationRow) → length more ≡ 0 → rows ++ more ≡ rows
    without [] h = append_nil rows
    without (x ∷ more) h = absurd (omega (arith, h))
