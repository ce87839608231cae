-- ===== src/Sweep/Literal.antt =====
-- A text that is escaped for a query cannot leave its literal.
use invoicing_platform.Prelude.{
  ℕ, ◌≡◌, refl, sym, ap, Bool, true, false, Bool-cases, inl, inr, Option, none, some, [], ◌∷◌, ◌++◌,
  ◌==◌, ==_iff, if◌then◌else◌, arith,
}
use invoicing_platform.Money.{Text}
use invoicing_platform.Sweep.Query.{escape_backslashes, escape_quotes, escape_qbo_string}

abbrev push {ℓ} : {A : Type ℓ} → ℕ → Option (Text × A) → Option (Text × A)
push c none = none
push c (some (s, rest)) = some (c ∷ s, rest)

-- How QBO reads what follows an opening quote: a quote ends the literal, and after a backslash a
-- character stands for itself. The result is the value and what follows; none is a literal without an end.
abbrev pub read_literal : Text → Bool → Option (Text × Text)
read_literal [] escaped = none
read_literal (c ∷ s) escaped =
    let rest = read_literal s in
    if escaped
    then push c (rest false)
    else if c == 39
    then some ([], s)
    else if c == b'\\'
    then rest true
    else push c (rest false)

quote_is_no_backslash : (c : ℕ) → (c == 39) ≡ true → (c == b'\\') ≡ false
quote_is_no_backslash c h = ground arith

read-escaped :
    (s after : Text)
    → read_literal (escape_quotes (escape_backslashes s) ++ (39 ∷ after)) false ≡ some (s, after)
read-escaped [] after = refl
read-escaped (c ∷ s) after = elim (Bool-cases (c == b'\\')) [
  | inl b ↦
      rw (b, read-escaped s after) (ap (λ x. some (x ∷ s, after)) (sym ((==_iff c b'\\').0 b)))
  | inr b ↦ elim (Bool-cases (c == 39)) [
    | inl k ↦
        rw (b, k, read-escaped s after) (ap (λ x. some (x ∷ s, after)) (sym ((==_iff c 39).0 k)))
    | inr k ↦ rw (b, k, b, k, read-escaped s after) refl
  ]
]

-- What QBO reads from an escaped text between quotes is the text itself, and the literal ends where the
-- closing quote stands, whatever quotes and backslashes the text has and whatever follows.
pub escape_qbo_string-reads :
    (s after : Text) → read_literal (escape_qbo_string s ++ (39 ∷ after)) false ≡ some (s, after)
unfolding escape_qbo_string
escape_qbo_string-reads s after = read-escaped s after
