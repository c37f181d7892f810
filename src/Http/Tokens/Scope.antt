-- ===== src/Http/Tokens/Scope.antt =====
-- A token that is issued carries no more than its issuer.
use convergence.Prelude.{String, ◌≡◌, refl, true, In-of_find, find, ◌==◌, eq_iff}
use convergence.Meta.{Meta}
use convergence.Authz.{
  Capability, read, snap_sync, publish, resolve, approve, promote, release, secret, admin, as_str,
  satisfying_capabilities,
}
use convergence.Authz.Decision.{Granted}
use convergence.Engine.{ok, bad_request}
use convergence.Engine.Answers.{ok_or-ok}
use convergence.Http.{Caller, permits}
use convergence.Http.Tokens.{all_capabilities, parse_capability}

-- The name of every capability is parsed as the capability, and only its own name is.
pub parse_capability-as_str :
    (c : Capability) (name : String)
    → (parse_capability (as_str c) ≡ ok c) × (parse_capability name ≡ ok c → as_str c ≡ name)
unfolding parse_capability as_str
parse_capability-as_str c name = (known c, λ h. named h)
  where
    known : (d : Capability) → parse_capability (as_str d) ≡ ok d
    known read = refl
    known snap_sync = refl
    known publish = refl
    known resolve = refl
    known approve = refl
    known promote = refl
    known release = refl
    known secret = refl
    known admin = refl

    named : parse_capability name ≡ ok c → as_str c ≡ name
    named h =
        let found = ok_or-ok bad_request (find (λ d. as_str d == name) all_capabilities) c h in
        (eq_iff (as_str c) name).0 (In-of_find (λ d. as_str d == name) all_capabilities c found).1

-- The names that the loop collects are those of capabilities that the caller's token permits and the
-- caller's grants authorize.
Backed : Caller → String → Meta → String → Type 0
Backed c repo m name =
    (capability : Capability) × (as_str capability ≡ name)
    × (permits c capability ≡ true)
    × Granted m c.subject repo "*" (satisfying_capabilities capability)
