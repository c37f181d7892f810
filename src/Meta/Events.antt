-- ===== src/Meta/Events.antt =====
-- The event log of crates/converge-server/src/meta_sqlite.rs: `list_events`, `prune_events`,
-- `event_floor`. Events are inserted with a growing `seq`, which is the order of the queries.
pub mod Cursor
pub mod Kept
pub mod Examples
use convergence.Prelude.{
  ℕ, zero, suc, ◌+◌, ◌-◌, String, Bool, true, false, not, ◌&&◌, Option, none, some, List, [], ◌∷◌,
  keep, take, length, ltb, leb, max, ◌==◌, if◌then◌else◌,
}
use convergence.Records.{EventRecord}
use convergence.Meta.{Meta}

-- `WHERE repo_id = ?1 AND seq > ?2`
abbrev pub is_after : String → ℕ → EventRecord → Bool
is_after repo since e = e.repo_id == repo && ltb since e.seq

unfoldable pub list_events : Meta → String → ℕ → List EventRecord
list_events m repo since = take 1000 (keep (is_after repo since) m.events)

abbrev pub of_repo : String → EventRecord → Bool
of_repo repo e = e.repo_id == repo

-- `ORDER BY seq DESC LIMIT 1 OFFSET keep` over rows in ascending order: the row that has exactly
-- `keep` rows after it
unfoldable pub cut_seq : ℕ → List EventRecord → Option ℕ
cut_seq kept [] = none
cut_seq kept (e ∷ events) =
    let later = cut_seq kept events in
    elim later [
      | some seq ↦ some seq
      | none ↦ if leb kept (length events) then some e.seq else none
    ]

abbrev pub floor_row : String → List (String × ℕ) → ℕ
floor_row repo [] = 0
floor_row repo ((r, floor) ∷ rows) =
    let rest = floor_row repo rows in if r == repo then floor else rest

unfoldable pub event_floor : Meta → String → ℕ
event_floor m repo = floor_row repo m.event_floors

-- `INSERT … ON CONFLICT(repo_id) DO UPDATE SET floor = MAX(floor, excluded.floor)`
unfoldable pub raise_floor : String → ℕ → List (String × ℕ) → List (String × ℕ)
raise_floor repo cut [] = (repo, cut) ∷ []
raise_floor repo cut ((r, floor) ∷ rows) =
    let rest = raise_floor repo cut rows in
    if r == repo then (r, max floor cut) ∷ rows else (r, floor) ∷ rest

abbrev pub survives : String → ℕ → EventRecord → Bool
survives repo cut e = not (e.repo_id == repo && leb e.seq cut)

abbrev pub pruned_at : String → Option ℕ → Meta → ℕ × Meta
pruned_at repo none m = (0, m)
pruned_at repo (some cut) m = (
  length m.events - length (keep (survives repo cut) m.events),
  record m {
    events = keep (survives repo cut) m.events;
    event_floors = raise_floor repo cut m.event_floors;
  },
)

-- The answer is how many rows the DELETE removed.
unfoldable pub prune_events : String → ℕ → Meta → ℕ × Meta
unfolding cut_seq raise_floor
prune_events repo kept m = pruned_at repo (cut_seq kept (keep (of_repo repo) m.events)) m
