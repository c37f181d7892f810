-- ===== src/Gc/Handler/Leaves.antt =====
-- What the deletions of garbage collection leave.
use convergence.Prelude.{
  ℕ, String, ◌≡◌, refl, sym, ap, subst, ◌∙◌, Bool, true, false, not, ◌&&◌, Option, none, some, List,
  [], ◌∷◌, In, keep, contains, eq_iff, ◌==◌, arith,
}
use convergence.Records.{EventRecord, StoredCandidate, ReleaseRecord}
use convergence.Meta.{Meta, PublicationRow}
use convergence.Meta.Events.{cut_seq, of_repo, pruned_at, prune_events}
use convergence.Meta.Collected.{
  get_retention, delete_releases_for_candidates, delete_candidates, delete_publications,
}
use convergence.Gc.Roots.{Drops}
use convergence.Gc.Roots.Complete.{Stays}
use convergence.Gc.Roots.Members.{keep_member}
use convergence.Gc.Handler.{pruned, delete_dropped}

-- The rows that retention does not drop are there still, and the lanes, their snaps, the repos and the pins are as
-- they were.
pub record Leaves (drops : Drops) (m left : Meta) : Type 0 where
  pub candidates :
      (c : StoredCandidate)
      → In c m.candidates
      → Stays drops c.repo_id drops.candidates c.candidate_id
      → In c left.candidates
  pub publications :
      (row : PublicationRow)
      → In row m.publications
      → Stays drops row.publication.repo_id drops.publications row.publication.publication_id
      → In row left.publications
  pub releases :
      (r : ReleaseRecord)
      → In r m.releases
      → Stays drops r.repo_id drops.releases r.candidate_id
      → In r left.releases
  pub lanes : left.lanes ≡ m.lanes
  pub lane_heads : left.lane_heads ≡ m.lane_heads
  pub snap_records : left.snap_records ≡ m.snap_records
  pub repos : left.repos ≡ m.repos
  pub object_pins : left.object_pins ≡ m.object_pins

-- A row is deleted under a list of ids.
abbrev gone : String → List String → String → String → Bool
gone repo ids r id = r == repo && contains ids id

spared :
    (repo : String) (id : String) (ids : List String) (r x : String)
    → gone repo (id ∷ ids) r x ≡ false
    → (not (r == repo && x == id) ≡ true) × (gone repo ids r x ≡ false)
spared repo id ids r x h = ground (arith, h, eq_iff id x, eq_iff x id)

candidates_left :
    (repo : String) (ids : List String) (m : Meta) (c : StoredCandidate)
    → In c m.candidates
    → gone repo ids c.repo_id c.candidate_id ≡ false
    → In c (delete_candidates repo ids m).candidates
unfolding delete_candidates
candidates_left repo [] m c at h = at
candidates_left repo (id ∷ ids) m c at h =
    let (now, later) = spared repo id ids c.repo_id c.candidate_id h in
    candidates_left repo ids _ c
      (keep_member (λ (x : StoredCandidate). not (x.repo_id == repo && x.candidate_id == id)) c
        m.candidates at now)
      later

publications_left :
    (repo : String) (ids : List String) (m : Meta) (row : PublicationRow)
    → In row m.publications
    → gone repo ids row.publication.repo_id row.publication.publication_id ≡ false
    → In row (delete_publications repo ids m).publications
unfolding delete_publications
publications_left repo [] m row at h = at
publications_left repo (id ∷ ids) m row at h =
    let (now, later) =
      spared repo id ids row.publication.repo_id row.publication.publication_id h in
    publications_left repo ids _ row
      (keep_member
        (λ (x : PublicationRow).
          not (x.publication.repo_id == repo && x.publication.publication_id == id))
        row m.publications at now)
      later

delete_candidates_rest :
    (repo : String) (ids : List String) (m : Meta)
    → (candidates : List StoredCandidate) × (approvals : List (String × String))
      × (delete_candidates repo ids m ≡ record m { candidates = candidates; approvals = approvals })
unfolding delete_candidates
delete_candidates_rest repo [] m = (m.candidates, m.approvals, refl)
delete_candidates_rest repo (id ∷ ids) m = delete_candidates_rest repo ids (record m {
  candidates = keep (λ c. not (c.repo_id == repo && c.candidate_id == id)) m.candidates;
  approvals = keep (λ (a : String × String). not (a.0 == id)) m.approvals;
})

delete_publications_rest :
    (repo : String) (ids : List String) (m : Meta)
    → (publications : List PublicationRow) × (delete_publications repo ids m
        ≡ record m { publications = publications })
unfolding delete_publications
delete_publications_rest repo [] m = (m.publications, refl)
delete_publications_rest repo (id ∷ ids) m = delete_publications_rest repo ids (record m {
  publications =
      keep (λ row. not (row.publication.repo_id == repo && row.publication.publication_id == id))
        m.publications;
})

pruned_rest :
    (kept : Option ℕ) (repo : String) (m : Meta)
    → (events : List EventRecord) × (floors : List (String × ℕ)) × ((pruned kept repo m).1
        ≡ record m { events = events; event_floors = floors })
unfolding prune_events
pruned_rest none repo m = (m.events, m.event_floors, refl)
pruned_rest (some n) repo m = cut (cut_seq n (keep (of_repo repo) m.events))
  where
    cut :
        (at : Option ℕ)
        → (events : List EventRecord) × (floors : List (String × ℕ)) × ((pruned_at repo at m).1
            ≡ record m { events = events; event_floors = floors })
    cut none = (m.events, m.event_floors, refl)
    cut (some seq) = (_, _, refl)

pub delete_dropped-Leaves :
    (dry : Bool) (drops : Drops) (m : Meta) → Leaves drops m (delete_dropped dry drops m).1
unfolding delete_dropped delete_releases_for_candidates
delete_dropped-Leaves true drops m = record {
  candidates = λ c at h. at;
  publications = λ row at h. at;
  releases = λ r at h. at;
  lanes = refl;
  lane_heads = refl;
  snap_records = refl;
  repos = refl;
  object_pins = refl;
}
delete_dropped-Leaves false drops m =
    let released = delete_releases_for_candidates drops.repo drops.releases m in
    let built = delete_candidates drops.repo drops.candidates released in
    let (cs, approvals, same_c) = delete_candidates_rest drops.repo drops.candidates released in
    let (ps, same_p) = delete_publications_rest drops.repo drops.publications built in
    let (events, floors, same_e) =
      pruned_rest (get_retention m drops.repo).keep_events drops.repo
        (delete_publications drops.repo drops.publications built) in
    record {
      candidates = λ c at h.
          subst (In c) (sym (ap (λ x. x.candidates) same_e ∙ ap (λ x. x.candidates) same_p))
            (candidates_left drops.repo drops.candidates released c at h);
      publications = λ row at h. subst (In row) (sym (ap (λ x. x.publications) same_e)) (
          publications_left drops.repo drops.publications built row
            (subst (In row) (sym (ap (λ x. x.publications) same_c)) at) h);
      releases = λ r at h.
          subst (In r)
            (sym (
              ap (λ x. x.releases) same_e
              ∙ ap (λ x. x.releases) same_p
              ∙ ap (λ x. x.releases) same_c))
            (keep_member
              (λ (x : ReleaseRecord).
                not (x.repo_id == drops.repo && contains drops.releases x.candidate_id))
              r m.releases at (ground (arith, h)));
      lanes = ap (λ x. x.lanes) same_e ∙ ap (λ x. x.lanes) same_p ∙ ap (λ x. x.lanes) same_c;
      lane_heads =
          ap (λ x. x.lane_heads) same_e
          ∙ ap (λ x. x.lane_heads) same_p
          ∙ ap (λ x. x.lane_heads) same_c;
      snap_records =
          ap (λ x. x.snap_records) same_e
          ∙ ap (λ x. x.snap_records) same_p
          ∙ ap (λ x. x.snap_records) same_c;
      repos = ap (λ x. x.repos) same_e ∙ ap (λ x. x.repos) same_p ∙ ap (λ x. x.repos) same_c;
      object_pins =
          ap (λ x. x.object_pins) same_e
          ∙ ap (λ x. x.object_pins) same_p
          ∙ ap (λ x. x.object_pins) same_c;
    }
