-- ===== src/Releases.antt =====
-- The rules of release versions: crates/converge-model/src/releases.rs, over the crate `semver`, which is
-- a parameter. Which version a request picks is in `Latest`.
pub mod Latest
pub mod Examples
use Prim.Native.Char.{Char, code}
use convergence.Prelude.{
  ℕ, String, Bool, true, false, not, ◌&&◌, Option, none, some, List, [], ◌∷◌, any, keep, find, map,
  eqb, ◌==◌, if◌then◌else◌,
}

-- What the code calls of `semver`: `Version::parse`, `to_string`, `==`, `<=`, `pre.is_empty()`,
-- `Version::new`, and `VersionReq::parse` with `matches`.
pub record Semver : Type 1 where
  pub Version : Type 0
  pub parse : String → Option Version
  pub print : Version → String
  pub same : Version → Version → Bool
  pub below : Version → Version → Bool
  pub is_final : Version → Bool
  pub parse_range : String → Option (Version → Bool)

-- `given.strip_prefix('v').unwrap_or(given)`
unfoldable pub bare : String → String
bare String.[] = String.[]
bare (String.◌∷◌ c rest) = if eqb (code c) 118 then rest else String.◌∷◌ c rest

module _ (semver : Semver) where
  -- `parse_version`
  unfoldable pub parse_version : String → Option semver.Version
  unfolding bare
  parse_version given = semver.parse (bare given)

  -- `refuse_version`: true is a refusal.
  unfoldable pub refuse_version : semver.Version → List semver.Version → Bool
  refuse_version proposed existing = any (λ v. semver.same v proposed) existing

  -- `Iterator::max`: of equal greatest ones the last
  abbrev pub greatest : List semver.Version → Option semver.Version
  greatest [] = none
  greatest (v ∷ vs) = elim (greatest vs) [
    | none ↦ some v
    | some w ↦ if semver.below v w then some w else some v
  ]

  -- `latest`
  unfoldable pub latest : List (semver.Version × Bool) → Option semver.Version
  latest releases = greatest (
      map (λ (r : semver.Version × Bool). r.0)
        (keep (λ (r : semver.Version × Bool). not r.1 && semver.is_final r.0) releases))

  pub data Resolved : Type 0 where
    resolved : semver.Version → Resolved
    no_releases no_such_release nothing_matches bad_request : Resolved

  abbrev pub resolved_or : Resolved → Option semver.Version → Resolved
  resolved_or none_found none = none_found
  resolved_or none_found (some v) = resolved v

  abbrev pub resolve_range :
      List (semver.Version × Bool) → Option (semver.Version → Bool) → Resolved
  resolve_range releases none = bad_request
  resolve_range releases (some matches) = resolved_or nothing_matches (
      greatest (
        map (λ (r : semver.Version × Bool). r.0)
          (keep (λ (r : semver.Version × Bool). not r.1 && semver.is_final r.0 && matches r.0)
            releases)))

  abbrev pub resolve_named :
      String → List (semver.Version × Bool) → Option semver.Version → Resolved
  resolve_named request releases none = resolve_range releases (semver.parse_range request)
  resolve_named request releases (some exact) =
      resolved_or no_such_release
        (find (λ v. semver.same v exact) (map (λ (r : semver.Version × Bool). r.0) releases))

  -- `resolve`
  unfoldable pub resolve : String → List (semver.Version × Bool) → Resolved
  unfolding latest parse_version
  resolve request releases =
      if request == "latest"
      then resolved_or no_releases (latest releases)
      else resolve_named request releases (parse_version request)
