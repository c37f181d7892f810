-- ===== src/Releases/Latest.antt =====
-- Which version a request picks.
use convergence.Prelude.{
  String, ◌≡◌, refl, ◌∙◌, sym, subst, ◌⊎◌, inl, inr, Bool, true, false, not, ◌&&◌, Option, none,
  some, some-injective, List, [], ◌∷◌, keep, map, In, here, there, In-cons, In-of_find, ◌==◌,
  if◌then◌else◌, arith, Bool-cases, Option-cases,
}
use convergence.Releases.{
  Semver, parse_version, greatest, latest, resolve, resolve_named, resolve_range, Resolved,
  resolved, resolved_or, no_releases, no_such_release, nothing_matches,
}

-- The total order of `semver::Version`
pub record Order (semver : Semver) : Type 0 where
  pub below_trans :
      (u v w : semver.Version)
      → semver.below u v ≡ true
      → semver.below v w ≡ true
      → semver.below u w ≡ true
  pub below_total : (v w : semver.Version) → semver.below v w ≡ false → semver.below w v ≡ true
  pub below_refl : (v : semver.Version) → semver.below v v ≡ true

module _ (semver : Semver) where
  -- The greatest of a list that is not empty, by the greatest of its rest
  join : semver.Version → Option semver.Version → semver.Version
  join v none = v
  join v (some w) = if semver.below v w then w else v

  greatest-cons :
      (v : semver.Version) (vs : List semver.Version)
      → greatest semver (v ∷ vs) ≡ some (join v (greatest semver vs))
  unfolding join
  greatest-cons v vs = ground arith

  join-In :
      (v : semver.Version) (vs : List semver.Version) (o : Option semver.Version)
      → ((w : semver.Version) → o ≡ some w → In w vs)
      → In (join v o) (v ∷ vs)
  unfolding join
  join-In v vs none rest = here
  join-In v vs (some w) rest = elim (Bool-cases (semver.below v w)) [
    | inl e ↦ rw e (there (rest w refl))
    | inr e ↦ rw e here
  ]

  greatest-In :
      (vs : List semver.Version) (g : semver.Version) → greatest semver vs ≡ some g → In g vs
  greatest-In [] g h = cc
  greatest-In (v ∷ vs) g h =
      subst (λ x. In x (v ∷ vs)) (some-injective _ _ (sym (greatest-cons v vs) ∙ h))
        (join-In v vs (greatest semver vs) (greatest-In vs))

  join-above :
      Order semver
      → (v : semver.Version) (o : Option semver.Version)
      → (semver.below v (join v o) ≡ true)
        × ((w : semver.Version) → o ≡ some w → semver.below w (join v o) ≡ true)
  unfolding join
  join-above o v none = (o.below_refl v, λ w e. cc)
  join-above o v (some u) = elim (Bool-cases (semver.below v u)) [
    | inl e ↦ rw e (
      e,
      λ w same. subst (λ x. semver.below x u ≡ true) (some-injective _ _ same) (o.below_refl u),
    )
    | inr e ↦ rw e (
      o.below_refl v,
      λ w same.
          subst (λ x. semver.below x v ≡ true) (some-injective _ _ same) (o.below_total v u e),
    )
  ]

  greatest-none :
      (vs : List semver.Version) (w : semver.Version) → greatest semver vs ≡ none → In w vs → ⊥
  greatest-none [] w h at = elim at [ ]
  greatest-none (v ∷ vs) w h at = cc (greatest-cons v vs)

  greatest-above :
      Order semver
      → (vs : List semver.Version) (g w : semver.Version) → greatest semver vs ≡ some g
      → In w vs
      → semver.below w g ≡ true
  greatest-above o [] g w h at = cc
  greatest-above o (v ∷ vs) g w h at =
      let above = join-above o v (greatest semver vs) in
      let rest = greatest-above o vs in
      subst (λ x. semver.below w x ≡ true) (some-injective _ _ (sym (greatest-cons v vs) ∙ h))
        (elim (In-cons at) [
          | inl own ↦
              subst (λ x. semver.below x (join v (greatest semver vs)) ≡ true) (sym own) above.0
          | inr later ↦ elim (Option-cases (greatest semver vs)) [
            | inl empty ↦ absurd (greatest-none vs w empty later)
            | inr (u, e) ↦
                o.below_trans w u (join v (greatest semver vs)) (rest u w e later) (above.1 u e)
          ]
        ])

  versions : List (semver.Version × Bool) → List semver.Version
  versions = map (λ (r : semver.Version × Bool). r.0)

  kept-In :
      (q : (semver.Version × Bool) → Bool) (releases : List (semver.Version × Bool))
      (v : semver.Version)
      → In v (versions (keep q releases))
      → (y : Bool) × In (v, y) releases × (q (v, y) ≡ true)
  unfolding versions
  kept-In q [] v at = elim at [ ]
  kept-In q ((w, y) ∷ releases) v at =
      let rest = kept-In q releases v in
      elim (Bool-cases (q (w, y))) [
        | inl e ↦ elim (In-cons (subst (In v) (taken e) at)) [
          | inl own ↦ (
            y,
            subst (λ x. In (x, y) ((w, y) ∷ releases)) (sym own) here,
            subst (λ x. q (x, y) ≡ true) (sym own) e,
          )
          | inr later ↦ let (z, m, t) = rest later in (z, there m, t)
        ]
        | inr e ↦ let (z, m, t) = rest (subst (In v) (left e) at) in (z, there m, t)
      ]
    where
      taken :
          q (w, y) ≡ true → versions (keep q ((w, y) ∷ releases)) ≡ w ∷ versions (keep q releases)
      taken e = rw e

      left : q (w, y) ≡ false → versions (keep q ((w, y) ∷ releases)) ≡ versions (keep q releases)
      left e = rw e

  In-kept :
      (q : (semver.Version × Bool) → Bool) (r : semver.Version × Bool)
      (releases : List (semver.Version × Bool))
      → In r releases
      → q r ≡ true
      → In r.0 (versions (keep q releases))
  unfolding versions
  In-kept q r _ (here {xs = xs}) e = rw e here
  In-kept q r _ (there {x = x} {xs = xs} at) e =
      let rest = In-kept q r xs at e in
      elim (Bool-cases (q x)) [ inl t ↦ rw t (there rest) | inr t ↦ rw t rest ]

  -- A version that is picked among releases that are neither yanked nor prereleases
  picked-final :
      (q : (semver.Version × Bool) → Bool)
      → ((v : semver.Version) (y : Bool)
          → q (v, y) ≡ true
          → (y ≡ false) × (semver.is_final v ≡ true))
      → (releases : List (semver.Version × Bool)) (v : semver.Version)
      → greatest semver (versions (keep q releases)) ≡ some v
      → In (v, false) releases × (semver.is_final v ≡ true)
  picked-final q only releases v h =
      let (y, at, t) = kept-In q releases v (greatest-In (versions (keep q releases)) v h) in
      let (current, final) = only v y t in (subst (λ z. In (v, z) releases) current at, final)

  eligible-only :
      (v : semver.Version) (y : Bool)
      → (not y && semver.is_final v) ≡ true
      → (y ≡ false) × (semver.is_final v ≡ true)
  eligible-only v y h = ground arith

  matching-only :
      (matches : semver.Version → Bool) (v : semver.Version) (y : Bool)
      → (not y && semver.is_final v && matches v) ≡ true
      → (y ≡ false) × (semver.is_final v ≡ true)
  matching-only matches v y h = ground arith

  resolved_or-some :
      (missing : Resolved semver) (o : Option semver.Version) (v : semver.Version)
      → (missing ≡ resolved v → ⊥)
      → resolved_or semver missing o ≡ resolved v
      → o ≡ some v
  resolved_or-some missing none v differs h = absurd (differs h)
  resolved_or-some missing (some u) v differs h = ground arith

  -- Under the order laws of versions, when some release is neither yanked nor a prerelease, `latest` gives
  -- the version of such a release, and no version of such a release is above it.
  pub latest-greatest :
      Order semver
      → (releases : List (semver.Version × Bool)) (w : semver.Version) → In (w, false) releases
      → semver.is_final w ≡ true
      → (v : semver.Version) × (latest semver releases ≡ some v)
        × In (v, false) releases
        × (semver.is_final v ≡ true)
        × (semver.below w v ≡ true)
  unfolding latest versions
  latest-greatest o releases w at final =
      elim (Option-cases (greatest semver (versions (keep eligible releases)))) [
        | inl empty ↦ absurd (greatest-none _ w empty listed)
        | inr (v, e) ↦
            let (own, stable) = picked-final eligible eligible-only releases v e in
            (v, e, own, stable, greatest-above o _ v w e listed)
      ]
    where
      eligible : semver.Version × Bool → Bool
      eligible = λ r. not r.1 && semver.is_final r.0

      listed : In w (versions (keep eligible releases))
      listed = In-kept eligible (w, false) releases at (rw final)

  -- What `resolve` promises of the version that it gives
  pub Picks : String → List (semver.Version × Bool) → semver.Version → Type 0
  Picks request releases v =
      (In (v, false) releases × (semver.is_final v ≡ true))
      ⊎ ((y : Bool) × (exact : semver.Version) × In (v, y) releases
          × (parse_version semver request ≡ some exact)
          × (semver.same v exact ≡ true))

  resolve_range-Picks :
      (request : String) (releases : List (semver.Version × Bool)) (v : semver.Version)
      (range : Option (semver.Version → Bool))
      → resolve_range semver releases range ≡ resolved v
      → Picks request releases v
  unfolding Picks versions
  resolve_range-Picks request releases v none h = cc
  resolve_range-Picks request releases v (some matches) h = inl (
      picked-final _ (matching-only matches) releases v
        (resolved_or-some nothing_matches _ v (λ e. cc) h))

  named :
      (releases : List (semver.Version × Bool)) (v : semver.Version)
      → In v (versions releases)
      → (y : Bool) × In (v, y) releases
  unfolding versions
  named [] v at = elim at [ ]
  named ((w, y) ∷ releases) v at =
      let rest = named releases v in
      elim (In-cons at) [
        | inl own ↦ (y, subst (λ x. In (x, y) ((w, y) ∷ releases)) (sym own) here)
        | inr later ↦ let (z, m) = rest later in (z, there m)
      ]

  resolve_named-Picks :
      (request : String) (releases : List (semver.Version × Bool)) (v : semver.Version)
      (given : Option semver.Version)
      → parse_version semver request ≡ given
      → resolve_named semver request releases given ≡ resolved v
      → Picks request releases v
  unfolding Picks versions
  resolve_named-Picks request releases v none p h = resolve_range-Picks request releases v _ h
  resolve_named-Picks request releases v (some exact) p h =
      let (at, same) =
        In-of_find _ (versions releases) v (resolved_or-some no_such_release _ v (λ e. cc) h) in
      let (y, m) = named releases v at in inr (y, exact, m, p, same)

  -- The version that `resolve` gives is of a release that exists; unless the request names that version
  -- exactly, the release is not yanked and the version no prerelease.
  pub resolve-Picks :
      (request : String) (releases : List (semver.Version × Bool)) (v : semver.Version)
      → resolve semver request releases ≡ resolved v
      → Picks request releases v
  unfolding resolve latest Picks versions
  resolve-Picks request releases v h = elim (Bool-cases (request == "latest")) [
    | inl e ↦ inl (
        picked-final _ eligible-only releases v
          (resolved_or-some no_releases _ v (λ q. cc) (asked e)))
    | inr e ↦ resolve_named-Picks request releases v (parse_version semver request) refl (other e)
  ]
    where
      asked :
          request == "latest" ≡ true
          → resolved_or semver no_releases (latest semver releases) ≡ resolved v
      asked e = sym (rw e) ∙ h

      other :
          request == "latest" ≡ false
          → resolve_named semver request releases (parse_version semver request) ≡ resolved v
      other e = sym (rw e) ∙ h
