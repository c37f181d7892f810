-- ===== src/Meta/Events/Kept.antt =====
-- The order of the event log, and what a pruning keeps of it.
use convergence.Prelude.{
  ℕ, suc, ◌-◌, ◌≤◌, ◌<◌, String, ◌≡◌, ◌≢◌, refl, ◌∙◌, sym, true, Bool, Option, none, some, List, [],
  ◌∷◌, keep, drop, length, leb, All, arith, Bool-cases, Option-cases, eq_iff, inl, inr, subst,
}
use convergence.Records.{EventRecord}
use convergence.Meta.{Meta}
use convergence.Meta.Events.{cut_seq, of_repo, survives, pruned_at, prune_events}

-- The rows stand in the order of their `seq`, and no two share one.
unfoldable pub Ascending : List EventRecord → Type 0
Ascending [] = Unit
Ascending (e ∷ events) = All (λ later. e.seq < later.seq) events × Ascending events

-- The log is in order, and the next `seq` is above all of it.
unfoldable pub IsOrdered : Meta → Type 0
IsOrdered m = Ascending m.events × All (λ e. e.seq ≤ m.event_seq) m.events

All-keep :
    (P : EventRecord → Type 0) (p : EventRecord → Bool) (events : List EventRecord)
    → All P events
    → All P (keep p events)
All-keep P p [] h = tt
All-keep P p (x ∷ events) (now, later) =
    let rest = All-keep P p events later in
    elim (Bool-cases (p x)) [ inl e ↦ rw e (now, rest) | inr e ↦ rw e rest ]

Ascending-keep :
    (p : EventRecord → Bool) (events : List EventRecord)
    → Ascending events
    → Ascending (keep p events)
unfolding Ascending
Ascending-keep p [] h = tt
Ascending-keep p (x ∷ events) (now, later) =
    let rest = Ascending-keep p events later in
    let above = All-keep (λ y. x.seq < y.seq) p events now in
    elim (Bool-cases (p x)) [ inl e ↦ rw e (above, rest) | inr e ↦ rw e rest ]

-- What a pruning of a repo's own events at a cut leaves of them
abbrev left : String → Option ℕ → List EventRecord → List EventRecord
left repo none events = events
left repo (some cut) events = keep (survives repo cut) events

cut_seq-above :
    (kept low cut : ℕ) (events : List EventRecord)
    → All (λ x. low < x.seq) events
    → cut_seq kept events ≡ some cut
    → low < cut
unfolding cut_seq
cut_seq-above kept low cut [] h e = cc
cut_seq-above kept low cut (x ∷ events) (now, later) e =
    let rest = cut_seq-above kept low cut events later in
    elim (Option-cases (cut_seq kept events)) [
      | inl gone ↦ ground (arith, gone, e, now)
      | inr (seq, found) ↦ ground (arith, found, e, rest)
    ]

cut_seq-none_iff :
    (kept : ℕ) (events : List EventRecord)
    → (cut_seq kept events ≡ none → length events ≤ kept)
      × (length events ≤ kept → cut_seq kept events ≡ none)
unfolding cut_seq
cut_seq-none_iff kept [] = (λ e. omega arith, λ h. refl)
cut_seq-none_iff kept (x ∷ events) =
    let (fits, missing) = cut_seq-none_iff kept events in
    elim (Option-cases (cut_seq kept events)) [
      | inl gone ↦ (λ e. ground (arith, gone, e, fits gone), λ h. ground (arith, gone, h))
      | inr (seq, found) ↦ (λ e. ground (arith, found, e), λ h. ground (arith, found, missing))
    ]

keep-all :
    (p : EventRecord → Bool) (events : List EventRecord)
    → All (λ e. p e ≡ true) events
    → keep p events ≡ events
keep-all p [] h = refl
keep-all p (e ∷ events) (now, later) = ground (arith, now, keep-all p events later)

above-survive :
    (repo : String) (cut : ℕ) (events : List EventRecord)
    → All (λ e. cut < e.seq) events
    → All (λ e. survives repo cut e ≡ true) events
above-survive repo cut [] h = tt
above-survive repo cut (e ∷ events) (now, later) =
    (ground (arith, now), above-survive repo cut events later)

drop-fitting : (n kept : ℕ) (events : List EventRecord) → n ≤ kept → drop (n - kept) events ≡ events
drop-fitting n kept events h = subst (λ k. drop k events ≡ events) zero_left refl
  where
    zero_left : 0 ≡ n - kept
    zero_left = omega (arith, h)

drop-older :
    (n kept : ℕ) (e : EventRecord) (events : List EventRecord)
    → kept ≤ n
    → drop (n - kept) events ≡ drop (suc n - kept) (e ∷ events)
drop-older n kept e events h =
    subst (λ k. drop (n - kept) events ≡ drop k (e ∷ events)) one_more refl
  where
    one_more : suc (n - kept) ≡ suc n - kept
    one_more = omega (arith, h)

left-first :
    (repo : String) (e : EventRecord) (seq : ℕ) (events : List EventRecord)
    → of_repo repo e ≡ true
    → e.seq ≤ seq
    → left repo (some seq) (e ∷ events) ≡ left repo (some seq) events
left-first repo e seq events mine le = ground (arith, mine, le)

-- On the repo's own rows in order, the cut leaves the last `kept`.
left-drop :
    (repo : String) (kept : ℕ) (events : List EventRecord)
    → All (λ e. of_repo repo e ≡ true) events
    → Ascending events
    → left repo (cut_seq kept events) events ≡ drop (length events - kept) events
unfolding cut_seq Ascending
left-drop repo kept [] own h = sym (drop-fitting 0 kept [] (omega arith))
left-drop repo kept (e ∷ events) (mine, own) (above, later) =
    let rest = left-drop repo kept events own later in
    elim (Option-cases (cut_seq kept events)) [
      | inr (seq, found) ↦
          let low : e.seq < seq = cut_seq-above kept e.seq seq events above found in
          rw found (
            left-first repo e seq events mine (omega (arith, low))
            ∙ subst (λ o. left repo o events ≡ drop (length events - kept) events) found rest
            ∙ drop-older (length events) kept e events (many seq found))
      | inl gone ↦ elim (Bool-cases (leb kept (length events))) [
        | inl e1 ↦
            rw (gone, e1)
              (left-first repo e e.seq events mine (omega arith)
                ∙ keep-all (survives repo e.seq) events (above-survive repo e.seq events above)
                ∙ sym (
                    drop-fitting (length events) kept events
                      ((cut_seq-none_iff kept events).0 gone))
                ∙ drop-older (length events) kept e events (ground (arith, e1)))
        | inr e0 ↦
            rw (gone, e0)
              (sym (drop-fitting (suc (length events)) kept (e ∷ events) (ground (arith, e0))))
      ]
    ]
  where
    many : (seq : ℕ) → cut_seq kept events ≡ some seq → kept ≤ length events
    many seq found = ground (arith, found, (cut_seq-none_iff kept events).1)

keep-own :
    (repo : String) (events : List EventRecord)
    → All (λ e. of_repo repo e ≡ true) (keep (of_repo repo) events)
keep-own repo [] = tt
keep-own repo (e ∷ events) =
    let rest = keep-own repo events in
    elim (Bool-cases (of_repo repo e)) [ inl h ↦ rw h (h, rest) | inr h ↦ rw h rest ]

own-survives :
    (repo : String) (cut : ℕ) (events : List EventRecord)
    → keep (of_repo repo) (keep (survives repo cut) events)
      ≡ keep (survives repo cut) (keep (of_repo repo) events)
own-survives repo cut [] = refl
own-survives repo cut (e ∷ events) = ground (arith, own-survives repo cut events)

other-survives :
    (repo other : String) (cut : ℕ) (events : List EventRecord)
    → repo ≢ other
    → keep (of_repo other) (keep (survives repo cut) events) ≡ keep (of_repo other) events
other-survives repo other cut [] h = refl
other-survives repo other cut (e ∷ events) h = ground (
  arith,
  h,
  eq_iff e.repo_id repo,
  eq_iff e.repo_id other,
  other-survives repo other cut events h,
)

-- Pruning an ordered log to `kept` events leaves of the repo's events the latest `kept`, all of them if
-- there are fewer, and leaves every other repo's events as they were.
pub prune_events-latest :
    (m : Meta) (repo other : String) (kept : ℕ)
    → IsOrdered m
    → repo ≢ other
    → let own = keep (of_repo repo) m.events in
      let after = (prune_events repo kept m).1.events in
      (keep (of_repo repo) after ≡ drop (length own - kept) own)
      × (keep (of_repo other) after ≡ keep (of_repo other) m.events)
unfolding IsOrdered prune_events
prune_events-latest m repo other kept (order, below) differs = (
  own_left (cut_seq kept own)
      ∙ left-drop repo kept own (keep-own repo m.events)
          (Ascending-keep (of_repo repo) m.events order),
  other_left (cut_seq kept own),
)
  where
    own : List EventRecord
    own = keep (of_repo repo) m.events

    own_left :
        (cut : Option ℕ) → keep (of_repo repo) (pruned_at repo cut m).1.events ≡ left repo cut own
    own_left none = refl
    own_left (some cut) = own-survives repo cut m.events

    other_left :
        (cut : Option ℕ)
        → keep (of_repo other) (pruned_at repo cut m).1.events ≡ keep (of_repo other) m.events
    other_left none = refl
    other_left (some cut) = other-survives repo other cut m.events differs
