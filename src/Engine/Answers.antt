-- ===== src/Engine/Answers.antt =====
-- What an answer `ok` says of the steps before it.
use convergence.Prelude.{◌≡◌, refl, Bool, true, false, Option, none, some, arith, ap}
use convergence.Records.{CandidateStatus, building, ready, failed}
use convergence.Meta.{Meta}
use convergence.Engine.{
  Refusal, Answer, ok, refuse, ◌>>=◌, ◌>>◌, ◌>>>◌, check, ok_or, check_promotable,
}

pub bind-ok :
    {A B : Type 0} (a : Answer A) (f : A → Answer B) (b : B)
    → (a >>= f) ≡ ok b
    → (x : A) × (a ≡ ok x) × (f x ≡ ok b)
bind-ok (ok x) f b h = (x, refl, h)
bind-ok (refuse r) f b h = cc

pub then-ok :
    {B : Type 0} (a : Answer Unit) (b : Answer B) (y : B)
    → (a >> b) ≡ ok y
    → (a ≡ ok tt) × (b ≡ ok y)
then-ok (ok tt) b y h = (refl, h)
then-ok (refuse r) b y h = cc

pub check-ok : (b : Bool) (r : Refusal) → check b r ≡ ok tt → b ≡ true
check-ok true r h = refl
check-ok false r h = cc

pub ok_or-ok : {A : Type 0} (r : Refusal) (o : Option A) (a : A) → ok_or r o ≡ ok a → o ≡ some a
ok_or-ok r none a h = cc
ok_or-ok r (some x) a h = ground arith

pub check_promotable-ok : (s : CandidateStatus) → check_promotable s ≡ ok tt → s ≡ ready true
unfolding check_promotable
check_promotable-ok building h = cc
check_promotable-ok (ready true) h = refl
check_promotable-ok (ready false) h = cc
check_promotable-ok (failed reason) h = cc

pub >>>-ok :
    {A B : Type 0} (r : Answer A × Meta) (f : A → Meta → Answer B × Meta) (b : B)
    → (r >>> f).0 ≡ ok b
    → (a : A) × (r.0 ≡ ok a) × ((f a r.1).0 ≡ ok b)
>>>-ok (ok a, m) f b h = (a, refl, h)
>>>-ok (refuse r, m) f b h = cc

pub >>>-after :
    {A B : Type 0} (r : Answer A × Meta) (f : A → Meta → Answer B × Meta) (a : A)
    → r.0 ≡ ok a
    → (r >>> f) ≡ f a r.1
>>>-after (ok b, m) f a h = ap (λ x. f x m) (ok_inj h)
  where
    ok_inj : ok b ≡ ok a → b ≡ a
    ok_inj k = ground arith
>>>-after (refuse r, m) f a h = cc
