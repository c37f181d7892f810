-- ===== src/Http/Secrets/Names.antt =====
-- The grammar of secret names.
use Prim.Native.Char.{code}
use convergence.Prelude.{
  ℕ, ◌≤◌, String, ◌≡◌, refl, ap, subst, ◌↔◌, ◌⊎◌, inl, inr, true, false, ◌||◌, List, [], ◌∷◌,
  length, All, ltb, ◌==◌, eq_iff, arith, Bool-cases,
}
use convergence.Engine.{ok, refuse, bad_request}
use convergence.Http.Secrets.{
  is_name_char, all_name_chars, byte_width, byte_len, validate_secret_name,
}

-- The Unicode scalars of a text
unfoldable pub codes : String → List ℕ
codes String.[] = []
codes (String.◌∷◌ c rest) = code c ∷ codes rest

-- A digit, a letter of either case, a dash, an underscore or a dot
pub NameChar : ℕ → Type 0
NameChar c =
    ((48 ≤ c) × (c ≤ 57))
    ⊎ (((65 ≤ c) × (c ≤ 90)) ⊎ (((97 ≤ c) × (c ≤ 122)) ⊎ ((c ≡ 45) ⊎ ((c ≡ 95) ⊎ (c ≡ 46)))))

is_name_char_iff : (c : ℕ) → (is_name_char c ≡ true) ↔ NameChar c
unfolding NameChar
is_name_char_iff c = ground arith

all_name_chars_iff : (text : String) → (all_name_chars text ≡ true) ↔ All NameChar (codes text)
unfolding all_name_chars codes
all_name_chars_iff String.[] = (λ h. tt, λ h. refl)
all_name_chars_iff (String.◌∷◌ c rest) =
    ground (arith, is_name_char_iff (code c), all_name_chars_iff rest)

byte_width-NameChar : (c : ℕ) → is_name_char c ≡ true → byte_width c ≡ 1
byte_width-NameChar c h = ground arith

byte_len-codes : (text : String) → all_name_chars text ≡ true → byte_len text ≡ length (codes text)
unfolding all_name_chars byte_len codes
byte_len-codes String.[] h = refl
byte_len-codes (String.◌∷◌ c rest) h =
    ground (arith, byte_width-NameChar (code c), byte_len-codes rest)

blank_iff : (name : String) → (name == "" ≡ false) ↔ (1 ≤ length (codes name))
unfolding codes
blank_iff String.[] = (λ h. absurd (clash h), λ h. absurd (omega (arith, h)))
  where
    clash : true ≡ false → ⊥
    clash e = cc
blank_iff (String.◌∷◌ c rest) = (
  λ h. omega arith,
  λ h. elim (Bool-cases (String.◌∷◌ c rest == "")) [
    | inl e ↦ absurd (nonempty (ap codes ((eq_iff (String.◌∷◌ c rest) "").0 e)))
    | inr e ↦ e
  ],
)
  where
    nonempty : code c ∷ codes rest ≡ [] → ⊥
    nonempty e = cc

accepted :
    (name : String)
    → validate_secret_name name ≡ ok tt
    → (name == "" ≡ false) × (byte_len name ≤ 128) × (all_name_chars name ≡ true)
unfolding validate_secret_name
accepted name h = elim (Bool-cases (name == "" || ltb 128 (byte_len name))) [
  | inl e ↦ absurd (refused (rw e refl) h)
  | inr e ↦ elim (Bool-cases (all_name_chars name)) [
    | inl chars ↦ (ground (arith, e), ground (arith, e), chars)
    | inr chars ↦ absurd (refused (rw (e, chars) refl) h)
  ]
]
  where
    refused : validate_secret_name name ≡ refuse bad_request → validate_secret_name name ≡ ok tt → ⊥
    refused a b = cc

-- A secret's name is accepted exactly when it has between 1 and 128 characters, each a digit, an ASCII
-- letter, a dash, an underscore or a dot.
pub validate_secret_name_iff :
    (name : String)
    → (validate_secret_name name ≡ ok tt)
      ↔ ((1 ≤ length (codes name)) × (length (codes name) ≤ 128) × All NameChar (codes name))
unfolding validate_secret_name
validate_secret_name_iff name = (
  λ h.
      let (named, short, chars) = accepted name h in
      (
        (blank_iff name).0 named,
        subst (λ n. n ≤ 128) (byte_len-codes name chars) short,
        (all_name_chars_iff name).0 chars,
      ),
  λ w.
      let chars = (all_name_chars_iff name).1 w.2 in
      let named = (blank_iff name).1 w.0 in
      let short : ltb 128 (byte_len name) ≡ false =
        ground (arith, byte_len-codes name chars, w.1) in
      rw (named, short, chars) refl,
)
