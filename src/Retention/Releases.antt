-- ===== src/Retention/Releases.antt =====
-- Which releases are dropped: as many as are in excess, the withdrawn ones first.
use convergence.Prelude.{
  ℕ, zero, suc, ◌+◌, ◌-◌, ◌≤◌, ◌≡◌, refl, ap, ◌∙◌, String, not, some, List, [], ◌∷◌, ◌++◌, map,
  keep, take, length, length-append, arith,
}
use convergence.Records.{ReleaseRecord}
use convergence.Retention.{RetentionPolicy, drop_while_excess, releases_to_drop}

candidates : List ReleaseRecord → List String
candidates = map (λ r. r.candidate_id)

drop_while_excess-eq :
    (rs : List ReleaseRecord) (n : ℕ)
    → drop_while_excess rs n ≡ (candidates (take n rs), n - length rs)
unfolding drop_while_excess candidates
drop_while_excess-eq [] zero = refl
drop_while_excess-eq [] (suc n) = ground arith
drop_while_excess-eq (r ∷ rs) zero = ground arith
drop_while_excess-eq (r ∷ rs) (suc n) = ground (arith, drop_while_excess-eq rs n)

zero-sub : (n : ℕ) → 0 - n ≡ 0
zero-sub n = omega arith

sub-zero : (n : ℕ) → n - 0 ≡ n
sub-zero n = omega arith

suc-sub : (n m : ℕ) → suc n - suc m ≡ n - m
suc-sub n m = omega arith

take-append :
    (n : ℕ) (xs ys : List ReleaseRecord) → take n (xs ++ ys) ≡ take n xs ++ take (n - length xs) ys
take-append zero xs ys = rw (zero-sub (length xs))
take-append (suc n) [] ys = rw (sub-zero (suc n))
take-append (suc n) (x ∷ xs) ys =
    rw (suc-sub n (length xs)) (ap (λ rest. x ∷ rest) (take-append n xs ys))

map-append_candidates :
    (xs ys : List ReleaseRecord) → candidates (xs ++ ys) ≡ candidates xs ++ candidates ys
unfolding candidates
map-append_candidates [] ys = refl
map-append_candidates (x ∷ xs) ys = ap (λ rest. x.candidate_id ∷ rest) (map-append_candidates xs ys)

-- The order in which releases go: the yanked ones, then the live ones, each from the oldest.
abbrev pub drop_order : List ReleaseRecord → List ReleaseRecord
drop_order rs = keep (λ r. r.yanked) rs ++ keep (λ r. not r.yanked) rs

length-drop_order : (rs : List ReleaseRecord) → length (drop_order rs) ≡ length rs
length-drop_order rs = length-append (keep (λ r. r.yanked) rs) _ ∙ parts rs
  where
    parts :
        (rs : List ReleaseRecord)
        → length (keep (λ r. r.yanked) rs) + length (keep (λ r. not r.yanked) rs) ≡ length rs
    parts [] = omega arith
    parts (r ∷ rs) = ground (arith, parts rs)

length-take :
    (n : ℕ) (rs : List ReleaseRecord) → n ≤ length rs → length (candidates (take n rs)) ≡ n
unfolding candidates
length-take zero rs h = refl
length-take (suc n) [] h = absurd (omega arith)
length-take (suc n) (r ∷ rs) h = ap suc (length-take n rs (omega arith))

with_limit :
    (rs : List ReleaseRecord) (policy : RetentionPolicy) (wanted : ℕ)
    → policy.keep_releases ≡ some wanted
    → releases_to_drop rs policy ≡ candidates (take (length rs - wanted) (drop_order rs))
unfolding releases_to_drop
with_limit rs policy wanted h = rw h (
    rw (drop_while_excess-eq (keep (λ r. r.yanked) rs) (length rs - wanted)) (
      rw
        (drop_while_excess-eq (keep (λ r. not r.yanked) rs)
          (length rs - wanted - length (keep (λ r. r.yanked) rs)))
        (rw (
          take-append (length rs - wanted) (keep (λ r. r.yanked) rs) (keep (λ r. not r.yanked) rs),
          map-append_candidates,
        ))))

-- With a limit of `wanted` releases the answer names the candidates of as many releases as are in excess, one
-- for each, from the front of the order in which releases go: the yanked ones first, then the live ones,
-- each from the oldest. A candidate that it names may have a release behind that front too.
pub releases_to_drop-eq :
    (rs : List ReleaseRecord) (policy : RetentionPolicy) (wanted : ℕ)
    → policy.keep_releases ≡ some wanted
    → (releases_to_drop rs policy
        ≡ map (λ r. r.candidate_id) (take (length rs - wanted) (drop_order rs)))
      × (length (releases_to_drop rs policy) ≡ length rs - wanted)
unfolding candidates
releases_to_drop-eq rs policy wanted h = (
  with_limit rs policy wanted h,
  ap length (with_limit rs policy wanted h)
      ∙ length-take (length rs - wanted) (drop_order rs) (omega (arith, length-drop_order rs)),
)
