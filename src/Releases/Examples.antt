-- ===== src/Releases/Examples.antt =====
-- Versions that are numbers written in decimal digits, where those from 100 on are prereleases, and the
-- theorems at them.
use Prim.Native.Char.{code}
use convergence.Prelude.{
  ℕ, ◌+◌, ◌-◌, ◌*◌, String, ◌≡◌, refl, Bool, true, false, ◌&&◌, Option, none, some, List, [], ◌∷◌,
  In, here, leb, ltb, eqb, decimal, if◌then◌else◌, arith,
}
use convergence.Releases.{Semver, bare, latest, resolve, resolved}
use convergence.Releases.Latest.{Order, latest-greatest, Picks, resolve-Picks}

abbrev pub read_number : ℕ → String → Option ℕ
read_number n String.[] = some n
read_number n (String.◌∷◌ c rest) =
    let more = read_number (n * 10 + (code c - 48)) rest in
    if leb 48 (code c) && leb (code c) 57 then more else none

abbrev pub numbered : Semver
numbered = record {
  Version = ℕ;
  parse = read_number 0;
  print = decimal;
  same = eqb;
  below = leb;
  is_final = λ v. ltb v 100;
  parse_range = λ text. none;
}

numbered-Order : Order numbered
numbered-Order = record {
  below_trans = λ u v w h k. ground arith;
  below_total = λ v w h. ground arith;
  below_refl = λ v. ground arith;
}

abbrev listed : List (ℕ × Bool)
listed = (3, false) ∷ ((7, false) ∷ ((9, true) ∷ ((120, false) ∷ [])))

latest-greatest_example :
    (v : ℕ) × (latest numbered listed ≡ some v)
    × In (v, false) listed
    × (ltb v 100 ≡ true)
    × (leb 3 v ≡ true)
latest-greatest_example = latest-greatest numbered numbered-Order listed 3 here refl

asked_exactly : resolve numbered "9" listed ≡ resolved 9
unfolding resolve bare
asked_exactly = refl

resolve-Picks_example : Picks numbered "9" listed 9
resolve-Picks_example = resolve-Picks numbered "9" listed 9 asked_exactly
