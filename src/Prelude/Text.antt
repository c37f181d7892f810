-- ===== src/Prelude/Text.antt =====
-- Texts as `format!`, `join` and `trim` build and read them.
use Prim.Native.Nat.{ℕ, zero, suc, ◌/◌, ◌%◌}
use Prim.Native.Char.{code}
use Prim.Native.String.{String, ◌++◌}
use mathlib.Core.Bool.{Bool, true, ◌&&◌, ◌||◌}
use mathlib.Core.List.{List, [], ◌∷◌}
use convergence.Prelude.Tests.{leb, ltb, eqb, if◌then◌else◌}

-- `format!`: the pieces one behind the other.
abbrev pub format : List String → String
format [] = ""
format (piece ∷ []) = piece
format (piece ∷ rest) = piece ++ format rest

-- `pieces.join(between)`
abbrev pub join : String → List String → String
join between [] = ""
join between (piece ∷ []) = piece
join between (piece ∷ rest) = piece ++ (between ++ join between rest)

-- Unicode's White_Space, as `str::trim` reads it.
abbrev pub is_whitespace : ℕ → Bool
is_whitespace c =
    (leb 9 c && leb c 13)
    || eqb c 32
    || eqb c 0x85
    || eqb c 0xa0
    || eqb c 0x1680
    || (leb 0x2000 c && leb c 0x200a)
    || eqb c 0x2028
    || eqb c 0x2029
    || eqb c 0x202f
    || eqb c 0x205f
    || eqb c 0x3000

-- `text.trim().is_empty()`
unfoldable pub is_blank : String → Bool
is_blank String.[] = true
is_blank (String.◌∷◌ c rest) = is_whitespace (code c) && is_blank rest

-- Decimal digits, as `{n}` prints them. Fuel `n + 1` is more than the digits of `n`.
abbrev pub digit : ℕ → String
digit n =
    if eqb n 0
    then "0"
    else if eqb n 1
    then "1"
    else if eqb n 2
    then "2"
    else if eqb n 3
    then "3"
    else if eqb n 4
    then "4"
    else if eqb n 5
    then "5"
    else if eqb n 6
    then "6"
    else if eqb n 7
    then "7"
    else if eqb n 8
    then "8"
    else "9"

decimal_within : ℕ → ℕ → String
decimal_within zero n = ""
decimal_within (suc fuel) n =
    let front = decimal_within fuel (n / 10) in
    if ltb n 10 then digit n else front ++ digit (n % 10)

unfoldable pub decimal : ℕ → String
unfolding decimal_within
decimal n = decimal_within (suc n) n

-- `text.chars().take(n).collect()`
unfoldable pub take_chars : ℕ → String → String
take_chars zero text = ""
take_chars (suc n) String.[] = ""
take_chars (suc n) (String.◌∷◌ c rest) = String.◌∷◌ c (take_chars n rest)

-- `{:<width}`: blanks behind, up to the width in characters.
unfoldable pub pad_right : ℕ → String → String
pad_right zero text = text
pad_right (suc n) String.[] = " " ++ pad_right n String.[]
pad_right (suc n) (String.◌∷◌ c rest) = String.◌∷◌ c (pad_right n rest)
