-- ===== src/Engine/Release/Yank.antt =====
-- What a yank marks: `set_release_yanked` of meta_sqlite.rs under `yank` of engine/gates.rs.
use convergence.Prelude.{
  String, ◌≡◌, refl, ◌∙◌, sym, ap, subst, Bool, true, false, ◌&&◌, none, some, List, [], ◌∷◌, find,
  map, In-of_find, ◌==◌, eq_iff, if◌then◌else◌, arith, Bool-cases, Option-cases, inl, inr,
}
use convergence.Records.{ReleaseRecord}
use convergence.Meta.{Meta, get_release, set_release_yanked, add_event}
use convergence.Authz.{AuthzContext, Capability}
use convergence.Releases.{Semver, parse_version}
use convergence.Engine.{Answer, ok, refuse, require, ok_or, bad_version}
use convergence.Engine.Answers.{then-ok, ok_or-ok}
use convergence.Engine.Release.{yank, yanked_as, yank_event, yank_version}

abbrev pub is_release : String → String → ReleaseRecord → Bool
is_release repo version r = r.repo_id == repo && r.version == version

abbrev pub marked : ReleaseRecord → String → ReleaseRecord
marked r reason = record r { yanked = true; yank_reason = some reason }

module _ (p : ReleaseRecord → Bool) (new : ReleaseRecord) where
  mark : ReleaseRecord → ReleaseRecord
  mark = λ row. if p row then new else row

  find-mark :
      (rows : List ReleaseRecord) (r : ReleaseRecord)
      → p new ≡ true
      → find p rows ≡ some r
      → find p (map mark rows) ≡ some new
  unfolding mark
  find-mark [] r h e = cc
  find-mark (row ∷ rows) r h e =
      let rest = find-mark rows r h in
      elim (Bool-cases (p row)) [
        | inl t ↦ rw t (rw h)
        | inr t ↦ rw t (rw t (rest (sym (rw t) ∙ e)))
      ]

  find-mark_other :
      (q : ReleaseRecord → Bool)
      → ((row : ReleaseRecord) → p row ≡ true → q row ≡ false)
      → q new ≡ false
      → (rows : List ReleaseRecord) → find q (map mark rows) ≡ find q rows
  unfolding mark
  find-mark_other q apart h [] = refl
  find-mark_other q apart h (row ∷ rows) =
      let rest = find-mark_other q apart h rows in
      elim (Bool-cases (p row)) [
        | inl t ↦ rw t (rw (h, apart row t) rest)
        | inr t ↦ rw t (ap (λ o. if q row then some row else o) rest)
      ]

other_release :
    (repo version repo' version' : String) (row : ReleaseRecord)
    → (repo == repo' && version == version') ≡ false
    → is_release repo version row ≡ true
    → is_release repo' version' row ≡ false
other_release repo version repo' version' row h k =
    (λ i. (own.0 i == repo') && (own.1 i == version')) ∙ h
  where
    own : (row.repo_id ≡ repo) × (row.version ≡ version)
    own = ground (arith, eq_iff row.repo_id repo, eq_iff row.version version)

yank_event-ok :
    (ctx : AuthzContext) (version at : String) (out : Meta × Bool) (m : Meta)
    → (yank_event ctx version at out m).0 ≡ ok tt
    → (out.1 ≡ true)
      × ((yank_event ctx version at out m).1
          ≡ add_event ctx.repo_id "release.yanked" version at out.0)
yank_event-ok ctx version at (after, true) m h = (refl, refl)
yank_event-ok ctx version at (after, false) m h = cc

true-false : true ≡ false → ⊥
true-false h = cc

set_release_yanked-found :
    (repo version reason : String) (m : Meta)
    → (set_release_yanked repo version reason m).1 ≡ true
    → (r : ReleaseRecord) × (get_release m repo version ≡ some r)
      × ((set_release_yanked repo version reason m).0 ≡ record m {
        releases = map (mark (is_release repo version) (marked r reason)) m.releases;
      })
unfolding set_release_yanked mark
set_release_yanked-found repo version reason m h =
    elim (Option-cases (get_release m repo version)) [
      | inl missing ↦ absurd (missed missing)
      | inr (r, e) ↦ (r, e, rw (e, set_release_yanked))
    ]
  where
    missed : get_release m repo version ≡ none → ⊥
    missed e = true-false (sym h ∙ rw (e, set_release_yanked))

-- What a marked table answers
module _ (repo version reason : String) (m : Meta) (r : ReleaseRecord)
    (is_there : get_release m repo version ≡ some r) where
  after : Meta
  after = record m { releases = map (mark (is_release repo version) (marked r reason)) m.releases }

  own_marked : is_release repo version (marked r reason) ≡ true
  unfolding get_release
  own_marked = (In-of_find (is_release repo version) m.releases r is_there).1

  get-after : get_release after repo version ≡ some (marked r reason)
  unfolding after get_release
  get-after = find-mark (is_release repo version) (marked r reason) m.releases r own_marked is_there

  get-after_other :
      (repo' version' : String)
      → (repo == repo' && version == version') ≡ false
      → get_release after repo' version' ≡ get_release m repo' version'
  unfolding after get_release
  get-after_other repo' version' h =
      find-mark_other (is_release repo version) (marked r reason) (is_release repo' version')
        (λ row. other_release repo version repo' version' row h)
        (other_release repo version repo' version' (marked r reason) h own_marked) m.releases

  get-event :
      (repo' kind subject at repo'' version'' : String)
      → get_release (add_event repo' kind subject at after) repo'' version''
        ≡ get_release after repo'' version''
  unfolding add_event get_release
  get-event repo' kind subject at repo'' version'' = refl

module _ (semver : Semver) where
  yanked_as-ok :
      (ctx : AuthzContext) (reason at : String) (m : Meta) (a : Answer semver.Version)
      → (yanked_as semver ctx reason at m a).0 ≡ ok tt
      → (v : semver.Version) × (a ≡ ok v)
  yanked_as-ok ctx reason at m (ok v) h = (v, refl)
  yanked_as-ok ctx reason at m (refuse why) h = cc

  -- What a yank of `version` with `reason` does to the releases of `m`
  pub Marks : String → semver.Version → String → Meta → Meta → Type 0
  Marks repo version reason m m' =
      (r : ReleaseRecord) × (get_release m repo (semver.print version) ≡ some r)
      × (get_release m' repo (semver.print version) ≡ some (marked r reason))
      × ((repo' version' : String)
          → (repo == repo' && semver.print version == version') ≡ false
          → get_release m' repo' version' ≡ get_release m repo' version')

  event-Marks :
      (ctx : AuthzContext) (version : semver.Version) (reason at : String) (m : Meta)
      → let out = set_release_yanked ctx.repo_id (semver.print version) reason m in
        (yank_event ctx (semver.print version) at out m).0 ≡ ok tt
        → Marks ctx.repo_id version reason m (yank_event ctx (semver.print version) at out m).1
  unfolding Marks after
  event-Marks ctx version reason at m h =
      let (done, e) =
        yank_event-ok ctx text at (set_release_yanked ctx.repo_id text reason m) m h in
      let (r, is_there, marks) = set_release_yanked-found ctx.repo_id text reason m done in
      subst (Marks ctx.repo_id version reason m)
        (sym (e ∙ ap (add_event ctx.repo_id "release.yanked" text at) marks))
        (
          r,
          is_there,
          get-event ctx.repo_id text reason m r is_there ctx.repo_id "release.yanked" text at
                ctx.repo_id text
              ∙ get-after ctx.repo_id text reason m r is_there,
          λ repo' version' h.
              get-event ctx.repo_id text reason m r is_there ctx.repo_id "release.yanked" text at
                repo' version'
              ∙ get-after_other ctx.repo_id text reason m r is_there repo' version' h,
        )
    where
      text : String
      text = semver.print version

  -- When `yank` answers ok, the release of the version that it names existed, it is the same record but
  -- yanked with the reason, and every release of another version or repo is as before.
  pub yank-Marks :
      (ctx : AuthzContext) (given reason at : String) (m : Meta)
      → (yank semver ctx given reason at m).0 ≡ ok tt
      → (version : semver.Version) × (parse_version semver given ≡ some version)
        × Marks ctx.repo_id version reason m (yank semver ctx given reason at m).1
  unfolding yank
  yank-Marks ctx given reason at m h =
      let (version, e) = yanked_as-ok ctx reason at m (yank_version semver ctx given) h in
      let (allowed, named) =
        then-ok (require ctx Capability.release) (ok_or bad_version (parse_version semver given))
          version e in
      let same = ap (yanked_as semver ctx reason at m) e in
      (
        version,
        ok_or-ok bad_version (parse_version semver given) version named,
        subst (λ out. Marks ctx.repo_id version reason m out.1) (sym same)
            (event-Marks ctx version reason at m (ap (λ out. out.0) (sym same) ∙ h)),
      )
