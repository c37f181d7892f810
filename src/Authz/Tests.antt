-- ===== src/Authz/Tests.antt =====
-- Which scopes a pattern covers, and who is authorized, at concrete texts.
use convergence.Prelude.{◌≡◌, refl, true, false}
use convergence.Meta.{scope_exists}
use convergence.Authz.{
  scope_pattern_matches, strip_prefix, strip_suffix, snap_sync, release, authorize, authorized,
  denied, unknown_scope, has_grant, satisfying_capabilities, as_str,
}
use convergence.Authz.Examples.{granting, context}

covers_below : scope_pattern_matches "feature/*" "feature/a/b" ≡ true
unfolding scope_pattern_matches strip_prefix strip_suffix
covers_below = refl

not_the_scope_itself : scope_pattern_matches "feature/*" "feature" ≡ false
unfolding scope_pattern_matches strip_prefix strip_suffix
not_the_scope_itself = refl

not_another_name : scope_pattern_matches "feature/*" "features/a" ≡ false
unfolding scope_pattern_matches strip_prefix strip_suffix
not_another_name = refl

everything : scope_pattern_matches "*" "main" ≡ true
unfolding scope_pattern_matches
everything = refl

publish_stands_for_sync : authorize granting "ana" "repo" "feature/a" snap_sync ≡ authorized context
unfolding authorize satisfying_capabilities has_grant as_str scope_pattern_matches strip_prefix
    strip_suffix scope_exists
publish_stands_for_sync = refl

not_for_a_release : authorize granting "ana" "repo" "feature/a" release ≡ denied
unfolding authorize satisfying_capabilities has_grant as_str
not_for_a_release = refl

unregistered : authorize granting "ana" "repo" "feature/b" snap_sync ≡ unknown_scope
unfolding authorize satisfying_capabilities has_grant as_str scope_pattern_matches strip_prefix
    strip_suffix scope_exists
unregistered = refl
