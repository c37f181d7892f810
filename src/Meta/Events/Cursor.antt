-- ===== src/Meta/Events/Cursor.antt =====
-- What a client that polls with a cursor sees of the log around a pruning.
use convergence.Prelude.{
  ℕ, ◌≤◌, String, ◌≡◌, refl, Option, none, some, List, [], ◌∷◌, keep, take, max, ◌==◌, eq_iff,
  if◌then◌else◌, arith, ap,
}
use convergence.Records.{EventRecord}
use convergence.Meta.{Meta}
use convergence.Meta.Events.{
  is_after, list_events, cut_seq, of_repo, floor_row, event_floor, raise_floor, survives, pruned_at,
  prune_events,
}

pub floor_row-raise :
    (repo asked : String) (cut : ℕ) (rows : List (String × ℕ))
    → floor_row asked (raise_floor repo cut rows)
      ≡ (if repo == asked then max (floor_row repo rows) cut else floor_row asked rows)
unfolding raise_floor
floor_row-raise repo asked cut [] = ground (arith, eq_iff repo asked)
floor_row-raise repo asked cut ((r, floor) ∷ rows) =
    ground
      (arith, eq_iff r repo, eq_iff r asked, eq_iff repo asked, floor_row-raise repo asked cut rows)

keep-survives :
    (repo asked : String) (cut since : ℕ) (events : List EventRecord)
    → (repo ≡ asked → cut ≤ since)
    → keep (is_after asked since) (keep (survives repo cut) events)
      ≡ keep (is_after asked since) events
keep-survives repo asked cut since [] h = refl
keep-survives repo asked cut since (e ∷ events) h = ground (
  arith,
  eq_iff e.repo_id repo,
  eq_iff e.repo_id asked,
  keep-survives repo asked cut since events h,
)

-- Pruning the events of one repo never lowers a floor, and every cursor that is not behind the floor
-- it leaves reads the same page as before: no event is lost that the floor does not report.
pub prune_events-no_gap :
    (m : Meta) (repo asked : String) (kept since : ℕ)
    → let m' = (prune_events repo kept m).1 in
      (event_floor m asked ≤ event_floor m' asked)
      × (event_floor m' asked ≤ since → list_events m' asked since ≡ list_events m asked since)
unfolding prune_events event_floor list_events
prune_events-no_gap m repo asked kept since = pruned (cut_seq kept (keep (of_repo repo) m.events))
  where
    pruned :
        (cut : Option ℕ)
        → (floor_row asked m.event_floors ≤ floor_row asked (pruned_at repo cut m).1.event_floors)
          × (floor_row asked (pruned_at repo cut m).1.event_floors ≤ since
              → take 1000 (keep (is_after asked since) (pruned_at repo cut m).1.events)
                ≡ take 1000 (keep (is_after asked since) m.events))
    pruned none = (omega arith, λ h. refl)
    pruned (some cut) = (
      ground (arith, eq_iff repo asked, floor_row-raise repo asked cut m.event_floors),
      λ h. ap (take 1000) (
          keep-survives repo asked cut since m.events (λ same.
            ground (arith, eq_iff repo asked, floor_row-raise repo asked cut m.event_floors))),
    )
