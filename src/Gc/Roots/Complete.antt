-- ===== src/Gc/Roots/Complete.antt =====
-- The roots that `gc` collects are all the roots that the tables have.
use convergence.Prelude.{
  ℕ, ◌<◌, ◌+◌, String, ◌≡◌, refl, sym, ap, subst, ◌∙◌, inl, inr, true, false, ◌&&◌, some, List, [],
  ◌∷◌, ◌++◌, In, here, there, In-map, contains, ltb, ◌==◌, eq_iff, eq_refl, arith, Bool-cases,
}
use convergence.Records.{ObjectId, StoredCandidate, LaneRecord, LaneHead, ReleaseRecord, SnapRecord}
use convergence.Meta.{Meta, PublicationRow, in_partition, list_publications_after, list_releases}
use convergence.Meta.Collected.{
  list_repos, list_lanes, get_lane_head, candidate_ids, list_partitions,
}
use convergence.Engine.{Answer, ok, refuse, ◌>>=◌, get_candidate, out_of_fuel}
use convergence.Engine.Answers.{ok_or-ok}
use convergence.Engine.Lanes.{get_snap_record, all_parents}
use convergence.Engine.Lanes.Ancestors.{Descends}
use convergence.Gc.Roots.{
  Drops, read_candidates, list_candidates, root_of, skips, candidate_roots, row_roots,
  publication_roots, lineage, head_roots, lane_roots, found_root, release_roots, repo_roots,
  all_roots,
}
use convergence.Gc.Roots.Members.{
  keep_member, append_left, append_right, order_by_member, sort_member, Partition,
  partitions_member,
}
use convergence.Gc.Roots.Lineage.{lineage_complete}

-- What retention does not drop from a repo
abbrev pub Stays : Drops → String → List String → String → Type 0
Stays drops repo ids id = (repo == drops.repo && contains ids id) ≡ false

-- Why a tree of a repo is live
pub data Rooted (drops : Drops) (m : Meta) (repo : String) : ObjectId → Type 0 where
  of_candidate :
      {root : ObjectId} (row c : StoredCandidate)
      → In row m.candidates
      → row.repo_id ≡ repo
      → get_candidate m row.candidate_id ≡ ok c
      → Stays drops repo drops.candidates c.candidate_id
      → c.root_manifest ≡ some root
      → Rooted drops m repo root
  of_publication :
      (row : PublicationRow)
      → In row m.publications
      → row.publication.repo_id ≡ repo
      → 0 < row.seq
      → Stays drops repo drops.publications row.publication.publication_id
      → Rooted drops m repo row.publication.root_manifest
  of_lane :
      (lane : LaneRecord) (head : LaneHead) (id : String) (s : SnapRecord)
      → In lane m.lanes
      → lane.repo_id ≡ repo
      → get_lane_head m repo lane.lane_id ≡ some head
      → Descends (get_snap_record m repo) head.snap_id id
      → get_snap_record m repo id ≡ some s
      → Rooted drops m repo s.root_manifest
  of_release :
      {root : ObjectId} (r : ReleaseRecord) (c : StoredCandidate)
      → In r m.releases
      → r.repo_id ≡ repo
      → Stays drops repo drops.releases r.candidate_id
      → get_candidate m r.candidate_id ≡ ok c
      → c.root_manifest ≡ some root
      → Rooted drops m repo root

-- Two reads whose answers are put together
both-ok :
    {A B C : Type 0} (a : Answer A) (b : Answer B) (f : A → B → C) (c : C)
    → (a >>= λ x. b >>= λ y. ok (f x y)) ≡ ok c
    → (x : A) × (y : B) × (a ≡ ok x) × (b ≡ ok y) × (f x y ≡ c)
both-ok {C = C} (ok x) (ok y) f c h = (x, y, refl, refl, same h)
  where
    same : ◌≡◌ {A = Answer C} (ok (f x y)) (ok c) → f x y ≡ c
    same k = ground arith
both-ok (ok x) (refuse r) f c h = cc
both-ok (refuse r) b f c h = cc

pub read_candidates_member :
    (m : Meta) (id : String) (c : StoredCandidate) (ids : List String) (cs : List StoredCandidate)
    → In id ids
    → get_candidate m id ≡ ok c
    → read_candidates m ids ≡ ok cs
    → In c cs
unfolding read_candidates
read_candidates_member m id c _ cs (here {xs = xs}) e h =
    let (d, rest, got, read, joined) =
      both-ok (get_candidate m id) (read_candidates m xs) (λ x ys. x ∷ ys) cs h in
    subst (In c) joined (subst (λ x. In c (x ∷ rest)) (ok_inj (sym e ∙ got)) here)
  where
    ok_inj : {d : StoredCandidate} → ok c ≡ ok d → c ≡ d
    ok_inj k = ground arith
read_candidates_member m id c _ cs (there {x = y} {xs = xs} at) e h =
    let (d, rest, got, read, joined) =
      both-ok (get_candidate m y) (read_candidates m xs) (λ x ys. x ∷ ys) cs h in
    subst (In c) joined (there (read_candidates_member m id c xs rest at e read))

module _ (drops : Drops) (repo : String) where
  candidate_member :
      (c : StoredCandidate) (root : ObjectId) (cs : List StoredCandidate)
      → In c cs
      → Stays drops repo drops.candidates c.candidate_id
      → c.root_manifest ≡ some root
      → In root (candidate_roots drops repo cs)
  candidate_member c root _ (here {xs = xs}) stays e = rw (stays, e) here
  candidate_member c root _ (there {x = y} {xs = xs} at) stays e =
      let rest = candidate_member c root xs at stays e in
      elim (Bool-cases (skips drops repo drops.candidates y.candidate_id)) [
        | inl s ↦ rw s rest
        | inr s ↦ rw s (append_right root (root_of y.root_manifest) _ rest)
      ]

  row_member :
      (row : PublicationRow) (rows : List PublicationRow)
      → In row rows
      → Stays drops repo drops.publications row.publication.publication_id
      → In row.publication.root_manifest (row_roots drops repo rows)
  row_member row _ (here {xs = xs}) stays = rw stays here
  row_member row _ (there {x = y} {xs = xs} at) stays =
      let rest = row_member row xs at stays in
      elim (Bool-cases (skips drops repo drops.publications y.publication.publication_id)) [
        | inl s ↦ rw s rest
        | inr s ↦ rw s (there rest)
      ]

  publication_member :
      (m : Meta) (row : PublicationRow) (floor : ℕ) (ps : List Partition)
      → In (row.publication.scope_id, (row.publication.target_gate_id, floor)) ps
      → In row m.publications
      → row.publication.repo_id ≡ repo
      → 0 < row.seq
      → Stays drops repo drops.publications row.publication.publication_id
      → In row.publication.root_manifest (publication_roots drops m repo ps)
  unfolding list_publications_after
  publication_member m row floor _ (here {xs = xs}) at own above stays =
      append_left row.publication.root_manifest _ _
        (row_member row _ (keep_member _ row m.publications at listed) stays)
    where
      listed :
          (in_partition repo row.publication.scope_id row.publication.target_gate_id row
            && ltb 0 row.seq)
          ≡ true
      listed = ground (
        arith,
        (eq_iff row.publication.repo_id repo).1 own,
        eq_refl row.publication.scope_id,
        eq_refl row.publication.target_gate_id,
        above,
      )
  publication_member m row floor _ (there {x = p} {xs = xs} later) at own above stays =
      append_right row.publication.root_manifest
        (row_roots drops repo (list_publications_after m repo p.0 p.1.0 0)) _
        (publication_member m row floor xs later at own above stays)

  release_member :
      (m : Meta) (r : ReleaseRecord) (c : StoredCandidate) (root : ObjectId)
      (rs : List ReleaseRecord)
      → In r rs
      → Stays drops repo drops.releases r.candidate_id
      → get_candidate m r.candidate_id ≡ ok c
      → c.root_manifest ≡ some root
      → In root (release_roots drops m repo rs)
  release_member m r c root _ (here {xs = xs}) stays got e = rw (stays, got, e) here
  release_member m r c root _ (there {x = y} {xs = xs} at) stays got e =
      let rest = release_member m r c root xs at stays got e in
      elim (Bool-cases (skips drops repo drops.releases y.candidate_id)) [
        | inl s ↦ rw s rest
        | inr s ↦ rw s (append_right root (found_root (get_candidate m y.candidate_id)) _ rest)
      ]

lane_member :
    (m : Meta) (repo : String) (lane : LaneRecord) (head : LaneHead) (id : String) (s : SnapRecord)
    (lanes : List LaneRecord) (roots : List ObjectId)
    → In lane lanes
    → get_lane_head m repo lane.lane_id ≡ some head
    → Descends (get_snap_record m repo) head.snap_id id
    → get_snap_record m repo id ≡ some s
    → lane_roots m repo lanes ≡ ok roots
    → In s.root_manifest roots
unfolding lane_roots head_roots
lane_member m repo lane head id s _ roots (here {xs = xs}) found d e h =
    let (own, rest, got, read, joined) =
      both-ok (head_roots m repo (get_lane_head m repo lane.lane_id)) (lane_roots m repo xs)
        (λ x y. x ++ y) roots h in
    let walk =
      ok_or-ok out_of_fuel
        (lineage (all_parents m.snap_records + 2) (get_snap_record m repo) (head.snap_id ∷ []) [])
        own (sym (ap (head_roots m repo) found) ∙ got) in
    subst (In s.root_manifest) joined (
      append_left s.root_manifest own rest (
        lineage_complete (get_snap_record m repo) (all_parents m.snap_records + 2) head.snap_id own
          walk id d s e))
lane_member m repo lane head id s _ roots (there {x = y} {xs = xs} at) found d e h =
    let (own, rest, got, read, joined) =
      both-ok (head_roots m repo (get_lane_head m repo y.lane_id)) (lane_roots m repo xs)
        (λ x y. x ++ y) roots h in
    subst (In s.root_manifest) joined (
      append_right s.root_manifest own rest
        (lane_member m repo lane head id s xs rest at found d e read))

-- A repo's list of roots has every tree that is live in the repo.
repo_roots-Rooted :
    (drops : Drops) (m : Meta) (repo : String) (root : ObjectId) (roots : List ObjectId)
    → Rooted drops m repo root
    → repo_roots drops m repo ≡ ok roots
    → In root roots
unfolding repo_roots list_candidates list_lanes list_partitions list_releases candidate_ids
repo_roots-Rooted drops m repo root roots why h =
    let (cs, lanes, read, walked, joined) =
      both-ok (list_candidates m repo) (lane_roots m repo (list_lanes m repo)) together roots h in
    subst (In root) joined (placed root cs lanes read walked why)
  where
    together : List StoredCandidate → List ObjectId → List ObjectId
    together = λ cs lanes.
        candidate_roots drops repo cs
        ++ (publication_roots drops m repo (list_partitions m repo)
            ++ (lanes ++ release_roots drops m repo (list_releases m repo)))

    placed :
        (root : ObjectId) (cs : List StoredCandidate) (lanes : List ObjectId)
        → list_candidates m repo ≡ ok cs
        → lane_roots m repo (list_lanes m repo) ≡ ok lanes
        → Rooted drops m repo root
        → In root (together cs lanes)
    placed root cs lanes read walked (of_candidate row c at own got stays e) =
        append_left root (candidate_roots drops repo cs) _ (
          candidate_member drops repo c root cs
            (read_candidates_member m row.candidate_id c _ cs
              (In-map (λ (x : StoredCandidate). x.candidate_id)
                (order_by_member (λ (x : StoredCandidate). x.created_at ∷ []) row _
                  (keep_member (λ (x : StoredCandidate). x.repo_id == repo) row m.candidates at
                    ((eq_iff row.repo_id repo).1 own))))
              got read)
            stays e)
    placed _ cs lanes read walked (of_publication row at own above stays) =
        let (floor, listed) = partitions_member m repo row m.publications at own in
        append_right row.publication.root_manifest (candidate_roots drops repo cs) _ (
          append_left row.publication.root_manifest _ _ (
            publication_member drops repo m row floor (list_partitions m repo) listed at own above
              stays))
    placed _ cs lanes read walked (of_lane lane head id s at own found d e) =
        append_right s.root_manifest (candidate_roots drops repo cs) _ (
          append_right s.root_manifest (publication_roots drops m repo (list_partitions m repo)) _ (
            append_left s.root_manifest lanes _ (
              lane_member m repo lane head id s (list_lanes m repo) lanes
                (order_by_member (λ (x : LaneRecord). x.lane_id ∷ []) lane _
                  (keep_member (λ (x : LaneRecord). x.repo_id == repo) lane m.lanes at
                    ((eq_iff lane.repo_id repo).1 own)))
                found d e walked)))
    placed root cs lanes read walked (of_release r c at own stays got e) =
        append_right root (candidate_roots drops repo cs) _ (
          append_right root (publication_roots drops m repo (list_partitions m repo)) _ (
            append_right root lanes _ (
              release_member drops repo m r c root (list_releases m repo)
                (keep_member (λ (x : ReleaseRecord). x.repo_id == repo) r m.releases at
                  ((eq_iff r.repo_id repo).1 own))
                stays got e)))

repos_roots-Rooted :
    (drops : Drops) (m : Meta) (repo : String) (root : ObjectId) (repos : List String)
    (roots : List ObjectId)
    → In repo repos
    → Rooted drops m repo root
    → all_roots drops m repos ≡ ok roots
    → In root roots
unfolding all_roots
repos_roots-Rooted drops m repo root _ roots (here {xs = xs}) why h =
    let (own, rest, got, read, joined) =
      both-ok (repo_roots drops m repo) (all_roots drops m xs) (λ x y. x ++ y) roots h in
    subst (In root) joined
      (append_left root own rest (repo_roots-Rooted drops m repo root own why got))
repos_roots-Rooted drops m repo root _ roots (there {x = y} {xs = xs} at) why h =
    let (own, rest, got, read, joined) =
      both-ok (repo_roots drops m y) (all_roots drops m xs) (λ x y. x ++ y) roots h in
    subst (In root) joined
      (append_right root own rest (repos_roots-Rooted drops m repo root xs rest at why read))

pub all_roots-Rooted :
    (drops : Drops) (m : Meta) (repo : String) (root : ObjectId) (roots : List ObjectId)
    → In repo m.repos
    → Rooted drops m repo root
    → all_roots drops m (list_repos m) ≡ ok roots
    → In root roots
unfolding list_repos
all_roots-Rooted drops m repo root roots at why h =
    repos_roots-Rooted drops m repo root (list_repos m) roots (sort_member repo m.repos at) why h
