-- ===== src/Engine/Approve.antt =====
-- An approval that is given twice.
use convergence.Prelude.{ℕ, ◌+◌, String, ◌≡◌, Bool, ◌&&◌, any, ◌==◌, if◌then◌else◌}
use convergence.Records.{StoredCandidate}
use convergence.Meta.{Meta, count_approvals}
use convergence.Authz.{AuthzContext}

gave : String → String → (String × String) → Bool
gave id who = λ (a : String × String). a.0 == id && a.1 == who

-- What an approval of `c` gives: one approval more, or none if the subject had approved `c` before
pub Approves : AuthzContext → StoredCandidate → Meta → ℕ → Type 0
Approves ctx c m n = n ≡ (
    if any (gave c.candidate_id ctx.subject) m.approvals
    then count_approvals m c.candidate_id
    else count_approvals m c.candidate_id + 1)
