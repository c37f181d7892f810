-- ===== src/Engine/Release/Unique.antt =====
-- Versions are unique in a repo, and what a release and a yank leave behind.
use convergence.Prelude.{
  String, ◌≡◌, refl, ◌∙◌, sym, ap, subst, ◌⊎◌, inl, inr, Bool, true, false, not, ◌&&◌, ◌||◌, Option,
  none, some, List, [], ◌∷◌, ◌++◌, any, find, keep, ◌==◌, eq_iff, eq_refl, arith, Bool-cases,
  Option-cases,
}
use convergence.Gates.{GateGraph}
use convergence.Records.{StoredCandidate, ReleaseRecord, ready}
use convergence.Meta.{Meta, get_release, list_releases, add_release, add_event, get_gate_graph}
use convergence.Authz.{AuthzContext}
use convergence.Releases.{Semver, parse_version, refuse_version}
use convergence.Engine.{
  Answer, ok, refuse, get_candidate, no_graph, no_release_gate, bad_version, version_exists,
}
use convergence.Engine.Answers.{bind-ok, then-ok, check-ok, ok_or-ok, check_promotable-ok}
use convergence.Engine.Release.{may_release_from, parsed, release_record, released, release}

-- What `semver` documents of its texts and of `==`
pub record Prints (semver : Semver) : Type 0 where
  pub parse_print : (v : semver.Version) → parse_version semver (semver.print v) ≡ some v
  pub same_refl : (v : semver.Version) → semver.same v v ≡ true

module _ (semver : Semver) where
  -- What a release that passed has shown of the tables
  pub record Released (ctx : AuthzContext) (given channel : String) (m : Meta) (r : ReleaseRecord)
      : Type 0 where
    pub candidate : StoredCandidate
    pub found : get_candidate m given ≡ ok candidate
    pub is_named : r.candidate_id ≡ candidate.candidate_id
    pub is_promotable : candidate.status ≡ ready true
    pub own_repo : r.repo_id ≡ ctx.repo_id
    pub graph : GateGraph
    pub is_graph : get_gate_graph m ctx.repo_id ≡ some graph
    pub may_release : may_release_from m graph candidate ≡ true
    pub version : semver.Version
    pub is_version : parse_version semver channel ≡ some version
    pub is_printed : r.version ≡ semver.print version
    pub is_new : refuse_version semver version (parsed semver (list_releases m ctx.repo_id)) ≡ false

  release_record-Released :
      (ctx : AuthzContext) (given channel : String) (notes : Option String) (at : String) (m : Meta)
      (r : ReleaseRecord)
      → release_record semver ctx given channel notes at m ≡ ok r
      → Released ctx given channel m r
  unfolding release_record
  release_record-Released ctx given channel notes at m r h =
      let (allowed, h1) = then-ok _ _ r h in
      let (c, found, h2) = bind-ok _ _ r h1 in
      let (covered, h3) = then-ok _ _ r h2 in
      let (is_ready, h4) = then-ok _ _ r h3 in
      let (graph, has_graph, h5) = bind-ok _ _ r h4 in
      let (may, h6) = then-ok _ _ r h5 in
      let (version, is_version, h7) = bind-ok _ _ r h6 in
      let (is_new, h8) = then-ok _ _ r h7 in
      record {
        candidate = c;
        found = found;
        is_named = ap (λ a. candidate_of a) (sym h8);
        is_promotable = check_promotable-ok c.status is_ready;
        own_repo = ap (λ a. repo_of a) (sym h8);
        graph = graph;
        is_graph = ok_or-ok no_graph (get_gate_graph m ctx.repo_id) graph has_graph;
        may_release = check-ok (may_release_from m graph c) no_release_gate may;
        version = version;
        is_version = ok_or-ok bad_version (parse_version semver channel) version is_version;
        is_printed = ap (λ a. version_of a) (sym h8);
        is_new =
            not-true (refuse_version semver version (parsed semver (list_releases m ctx.repo_id))) (
              check-ok
                (not (refuse_version semver version (parsed semver (list_releases m ctx.repo_id))))
                version_exists is_new);
      }
    where
      candidate_of : Answer ReleaseRecord → String
      candidate_of (ok x) = x.candidate_id
      candidate_of (refuse why) = r.candidate_id

      repo_of : Answer ReleaseRecord → String
      repo_of (ok x) = x.repo_id
      repo_of (refuse why) = r.repo_id

      version_of : Answer ReleaseRecord → String
      version_of (ok x) = x.version
      version_of (refuse why) = r.version

      not-true : (b : Bool) → not b ≡ true → b ≡ false
      not-true b e = ground arith

  parsed-cons :
      (r : ReleaseRecord) (rs : List ReleaseRecord) (v : semver.Version)
      → parse_version semver r.version ≡ some v
      → parsed semver (r ∷ rs) ≡ v ∷ parsed semver rs
  parsed-cons r rs v h = rw (h, parsed)

  parsed-skip :
      (r : ReleaseRecord) (rs : List ReleaseRecord)
      → parse_version semver r.version ≡ none
      → parsed semver (r ∷ rs) ≡ parsed semver rs
  parsed-skip r rs h = rw (h, parsed)

  refuse-listed :
      Prints semver
      → (version : semver.Version) (rs : List ReleaseRecord)
      → any (λ r. r.version == semver.print version) rs ≡ true
      → refuse_version semver version (parsed semver rs) ≡ true
  unfolding refuse_version
  refuse-listed p version [] h = cc
  refuse-listed p version (r ∷ rs) h =
      let rest = refuse-listed p version rs in
      elim (Bool-cases (r.version == semver.print version)) [
        | inl e ↦
            rw
              (parsed-cons r rs version (
                ap (parse_version semver) ((eq_iff r.version (semver.print version)).0 e)
                ∙ p.parse_print version))
              (rw (p.same_refl version))
        | inr e ↦ elim (Option-cases (parse_version semver r.version)) [
          | inl skipped ↦ rw (parsed-skip r rs skipped) (rest (later e))
          | inr (v, q) ↦ rw (parsed-cons r rs v q) (behind (semver.same v version) (rest (later e)))
        ]
      ]
    where
      later :
          r.version == semver.print version ≡ false
          → any (λ r. r.version == semver.print version) rs ≡ true
      later e = ground arith

      behind : (b : Bool) {c : Bool} → c ≡ true → (b || c) ≡ true
      behind b h = ground arith

  find-none :
      (repo version : String) (rs : List ReleaseRecord)
      → any (λ r. r.version == version) (keep (λ r. r.repo_id == repo) rs) ≡ false
      → find (λ r. r.repo_id == repo && r.version == version) rs ≡ none
  find-none repo version [] h = refl
  find-none repo version (r ∷ rs) h = ground (arith, find-none repo version rs)

  -- A new record is found under its version.
  find-append :
      (repo version : String) (rs : List ReleaseRecord) (r : ReleaseRecord)
      → find (λ r. r.repo_id == repo && r.version == version) rs ≡ none
      → (r.repo_id == repo && r.version == version) ≡ true
      → find (λ r. r.repo_id == repo && r.version == version) (rs ++ (r ∷ [])) ≡ some r
  find-append repo version [] r h e = rw e
  find-append repo version (x ∷ rs) r h e = ground (arith, find-append repo version rs r)

  released-ok :
      (ctx : AuthzContext) (at : String) (m : Meta) (a : Answer ReleaseRecord) (r : ReleaseRecord)
      → (released semver ctx at m a).0 ≡ ok r
      → a ≡ ok r
  released-ok ctx at m (ok x) r h = h
  released-ok ctx at m (refuse why) r h = cc

  true-false : true ≡ false → ⊥
  true-false h = cc

  Released-absent :
      Prints semver
      → (ctx : AuthzContext) (given channel : String) (m : Meta) (r : ReleaseRecord)
      → Released ctx given channel m r
      → get_release m ctx.repo_id r.version ≡ none
  unfolding get_release list_releases
  Released-absent p ctx given channel m r facts =
      subst
        (λ version. find (λ x. x.repo_id == ctx.repo_id && x.version == version) m.releases ≡ none)
        (sym facts.is_printed)
        (find-none ctx.repo_id (semver.print facts.version) m.releases
          (unlisted (Bool-cases listed)))
    where
      listed : Bool
      listed =
          any (λ x. x.version == semver.print facts.version)
            (keep (λ x. x.repo_id == ctx.repo_id) m.releases)

      unlisted : (listed ≡ true) ⊎ (listed ≡ false) → listed ≡ false
      unlisted (inr e) = e
      unlisted (inl e) =
          absurd (true-false (sym (refuse-listed p facts.version _ e) ∙ facts.is_new))

  -- If semver reads back what it prints, then when `release` answers with a record, a promotable candidate
  -- has reached a gate that may release, the version is the one that was asked for, no release of the repo
  -- had it before, and the record is looked up under it in the tables that are left.
  pub release-Released :
      Prints semver
      → (ctx : AuthzContext) (given channel : String) (notes : Option String) (at : String)
        (m : Meta) (r : ReleaseRecord)
      → (release semver ctx given channel notes at m).0 ≡ ok r
      → Released ctx given channel m r
        × (get_release m ctx.repo_id r.version ≡ none)
        × (get_release (release semver ctx given channel notes at m).1 ctx.repo_id r.version
            ≡ some r)
  unfolding release get_release list_releases add_release add_event
  release-Released p ctx given channel notes at m r h =
      let planned = released-ok ctx at m (release_record semver ctx given channel notes at m) r h in
      let facts = release_record-Released ctx given channel notes at m r planned in
      let absent = Released-absent p ctx given channel m r facts in
      (
        facts,
        absent,
        ap (λ a. get_release (released semver ctx at m a).1 ctx.repo_id r.version) planned
            ∙ find-append ctx.repo_id r.version m.releases r absent (own facts.own_repo),
      )
    where
      own : r.repo_id ≡ ctx.repo_id → (r.repo_id == ctx.repo_id && r.version == r.version) ≡ true
      own e = ground (arith, eq_iff r.repo_id ctx.repo_id, eq_refl r.version)
