-- ===== src/Authz/Patterns.antt =====
-- What a pattern that ends in `/*` covers.
use Prim.Native.Char.{Char, code}
use Prim.Native.String.{◌++◌}
use Prim.Native.String.append
use text.Mathlib.TextEquality.{Char-path, eq_iff}
use convergence.Prelude.{
  ℕ, suc, ◌+◌, String, ◌≡◌, refl, ◌∙◌, sym, ap, ◌↔◌, inl, inr, true, false, Option, none, some,
  ◌==◌, arith, Bool-cases, Option-cases,
}
use convergence.Authz.{
  strip_prefix, strip_suffix, scope_pattern_matches, behind, matches_below, starts_below,
}

cons-path :
    {c d : Char} {s t : String} → code c ≡ code d → s ≡ t → (String.◌∷◌ c s) ≡ String.◌∷◌ d t
cons-path {c} {d} e h i = String.◌∷◌ (Char-path c d e i) (h i)

strip_prefix-here :
    (c d : Char) (text prefix rest : String)
    → strip_prefix (String.◌∷◌ d text) (String.◌∷◌ c prefix) ≡ some rest
    → (code d ≡ code c) × (strip_prefix text prefix ≡ some rest)
unfolding strip_prefix
strip_prefix-here c d text prefix rest h = ground arith

strip_prefix_sound :
    (text prefix rest : String) → strip_prefix text prefix ≡ some rest → text ≡ (prefix ++ rest)
unfolding strip_prefix
strip_prefix_sound text String.[] rest h = (ground arith) ∙ sym (append.nil rest)
strip_prefix_sound String.[] (String.◌∷◌ c prefix) rest h = ground arith
strip_prefix_sound (String.◌∷◌ d text) (String.◌∷◌ c prefix) rest h =
    let (same, later) = strip_prefix-here c d text prefix rest h in
    cons-path same (strip_prefix_sound text prefix rest later) ∙ sym (append.cons c prefix rest)

strip_prefix-append : (prefix rest : String) → strip_prefix (prefix ++ rest) prefix ≡ some rest
unfolding strip_prefix
strip_prefix-append String.[] rest = ap some (append.nil rest)
strip_prefix-append (String.◌∷◌ c prefix) rest =
    ap (λ t. strip_prefix t (String.◌∷◌ c prefix)) (append.cons c prefix rest)
    ∙ step (strip_prefix-append prefix rest)
  where
    step :
        strip_prefix (prefix ++ rest) prefix ≡ some rest
        → strip_prefix (String.◌∷◌ c (prefix ++ rest)) (String.◌∷◌ c prefix) ≡ some rest
    step h = ground arith

abbrev chars : String → ℕ
chars String.[] = 0
chars (String.◌∷◌ c text) = suc (chars text)

chars-append : (s t : String) → chars (s ++ t) ≡ chars s + chars t
chars-append String.[] t = ap chars (append.nil t) ∙ omega arith
chars-append (String.◌∷◌ c s) t =
    ap chars (append.cons c s t) ∙ (ap suc (chars-append s t) ∙ omega arith)

-- A text with one character more than `/*` in front is not `/*`.
longer : (c : Char) (prefix : String) → (String.◌∷◌ c (prefix ++ "/*") == "/*") ≡ false
longer c prefix = elim (Bool-cases (String.◌∷◌ c (prefix ++ "/*") == "/*")) [
  | inl e ↦ absurd (too_long (ap chars ((eq_iff (String.◌∷◌ c (prefix ++ "/*")) "/*").0 e)))
  | inr e ↦ e
]
  where
    too_long : suc (chars (prefix ++ "/*")) ≡ 2 → ⊥
    too_long h = omega (arith, chars-append prefix "/*")

strip_suffix-append : (prefix : String) → strip_suffix (prefix ++ "/*") "/*" ≡ some prefix
unfolding strip_suffix
strip_suffix-append String.[] = ap (λ t. strip_suffix t "/*") (append.nil "/*")
strip_suffix-append (String.◌∷◌ c prefix) =
    ap (λ t. strip_suffix t "/*") (append.cons c prefix "/*")
    ∙ rw (longer c prefix) (ap (behind c) (strip_suffix-append prefix))

-- A pattern that ends in `/*` is not `*`.
not_star : (prefix : String) → ((prefix ++ "/*") == "*") ≡ false
not_star prefix = elim (Bool-cases ((prefix ++ "/*") == "*")) [
  | inl e ↦ absurd (too_long (ap chars ((eq_iff (prefix ++ "/*") "*").0 e)))
  | inr e ↦ e
]
  where
    too_long : chars (prefix ++ "/*") ≡ 1 → ⊥
    too_long h = omega (arith, chars-append prefix "/*")

below_step :
    (prefix scope : String)
    → scope_pattern_matches (prefix ++ "/*") scope ≡ starts_below (strip_prefix scope prefix)
unfolding scope_pattern_matches
below_step prefix scope =
    rw (not_star prefix) (ap (matches_below (prefix ++ "/*") scope) (strip_suffix-append prefix))

starts_below_sound :
    (scope prefix : String) (o : Option String)
    → strip_prefix scope prefix ≡ o
    → starts_below o ≡ true
    → (rest : String) × (scope ≡ (prefix ++ ("/" ++ rest)))
starts_below_sound scope prefix none e h = cc
starts_below_sound scope prefix (some text) e h = elim (Option-cases (strip_prefix text "/")) [
  | inl missing ↦ absurd (no_slash missing)
  | inr (rest, q) ↦ (
    rest,
    strip_prefix_sound scope prefix text e
        ∙ ap (λ t. prefix ++ t) (strip_prefix_sound text "/" rest q),
  )
]
  where
    no_slash : strip_prefix text "/" ≡ none → ⊥
    no_slash missing = ground arith

-- A pattern `prefix/*` covers exactly the scopes `prefix/rest`: those below the prefix, at any depth, and
-- neither the prefix itself nor a scope that only begins with the same letters.
pub scope_pattern_matches-below_iff :
    (prefix scope : String)
    → (scope_pattern_matches (prefix ++ "/*") scope ≡ true)
      ↔ ((rest : String) × (scope ≡ (prefix ++ ("/" ++ rest))))
scope_pattern_matches-below_iff prefix scope = (
  λ h.
      starts_below_sound scope prefix (strip_prefix scope prefix) refl
        (sym (below_step prefix scope) ∙ h),
  λ (rest, e).
      below_step prefix scope
      ∙ (ap (λ t. starts_below (strip_prefix t prefix)) e
          ∙ (ap starts_below (strip_prefix-append prefix ("/" ++ rest)) ∙ slash rest)),
)
  where
    slash : (rest : String) → starts_below (some ("/" ++ rest)) ≡ true
    slash rest = rw (strip_prefix-append "/" rest, starts_below)
