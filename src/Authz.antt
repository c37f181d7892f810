-- ===== src/Authz.antt =====
-- The authorization decision: crates/converge-server/src/authz.rs, `scope_pattern_matches` of
-- storage.rs, and `has_grant` of meta_sqlite.rs. Who may do what is in `Decision`.
pub mod Decision
pub mod Patterns
pub mod Examples
pub mod Tests
use Prim.Native.Char.{Char, code}
use convergence.Prelude.{
  String, Bool, true, false, not, ◌&&◌, ◌||◌, Option, none, some, List, [], ◌∷◌, map, any, keep,
  eqb, ◌==◌, if◌then◌else◌,
}
use convergence.Meta.{Meta, Grant, scope_exists}

-- `text.strip_prefix(prefix)` and `text.strip_suffix(suffix)`
unfoldable pub strip_prefix : String → String → Option String
strip_prefix text String.[] = some text
strip_prefix String.[] (String.◌∷◌ c prefix) = none
strip_prefix (String.◌∷◌ d text) (String.◌∷◌ c prefix) =
    let rest = strip_prefix text prefix in if eqb (code d) (code c) then rest else none

abbrev pub behind : Char → Option String → Option String
behind c none = none
behind c (some rest) = some (String.◌∷◌ c rest)

unfoldable pub strip_suffix : String → String → Option String
strip_suffix String.[] suffix = if String.[] == suffix then some String.[] else none
strip_suffix (String.◌∷◌ c text) suffix =
    let rest = strip_suffix text suffix in
    if String.◌∷◌ c text == suffix then some String.[] else behind c rest

abbrev pub starts_below : Option String → Bool
starts_below none = false
starts_below (some rest) = elim (strip_prefix rest "/") [ none ↦ false | some r ↦ true ]

abbrev pub matches_below : String → String → Option String → Bool
matches_below pattern scope none = pattern == scope
matches_below pattern scope (some prefix) = starts_below (strip_prefix scope prefix)

unfoldable pub scope_pattern_matches : String → String → Bool
unfolding strip_suffix
scope_pattern_matches pattern scope =
    if pattern == "*" then true else matches_below pattern scope (strip_suffix pattern "/*")

pub data Capability : Type 0 where
  read snap_sync publish resolve approve promote release secret admin : Capability

unfoldable pub as_str : Capability → String
as_str read = "read"
as_str snap_sync = "snap-sync"
as_str publish = "publish"
as_str resolve = "resolve"
as_str approve = "approve"
as_str promote = "promote"
as_str release = "release"
as_str secret = "secret"
as_str admin = "admin"

-- The derived `PartialEq` of `Capability`
unfoldable pub same_capability : Capability → Capability → Bool
unfolding as_str
same_capability a b = as_str a == as_str b

pub record AuthzContext : Type 0 where
  pub subject : String
  pub repo_id : String
  pub scope_id : String
  pub capability : Capability

unfoldable pub satisfying_capabilities : Capability → List Capability
satisfying_capabilities snap_sync = snap_sync ∷ (admin ∷ (publish ∷ []))
satisfying_capabilities c = c ∷ (admin ∷ [])

abbrev pub carries : String → String → String → Grant → Bool
carries subject repo capability g =
    g.subject == subject && g.repo_id == repo && g.capability == capability

-- `has_grant`: the patterns of the rows that the query returns, one after the other.
unfoldable pub has_grant : Meta → String → String → String → String → Bool
has_grant m subject repo scope capability =
    any (λ g. scope_pattern_matches g.scope_pattern scope)
      (keep (carries subject repo capability) m.grants)

pub data Authorized : Type 0 where
  authorized : AuthzContext → Authorized
  denied : Authorized
  unknown_scope : Authorized

abbrev pub granted_by : Meta → String → String → String → List Capability → Bool
granted_by m subject repo scope [] = false
granted_by m subject repo scope (c ∷ cs) =
    let later = granted_by m subject repo scope cs in
    if has_grant m subject repo scope (as_str c) then true else later

unfoldable pub authorize : Meta → String → String → String → Capability → Authorized
unfolding satisfying_capabilities has_grant
authorize m subject repo scope capability =
    if not (granted_by m subject repo scope (satisfying_capabilities capability))
    then denied
    else if not (scope == "*") && not (scope_exists m repo scope)
    then unknown_scope
    else authorized
        (record { subject = subject; repo_id = repo; scope_id = scope; capability = capability })
