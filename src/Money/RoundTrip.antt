-- ===== src/Money/RoundTrip.antt =====
-- `toCents` reads back what `formatCents` writes.
use invoicing_platform.Prelude.{
  ℕ, ◌+◌, ◌*◌, ◌/◌, ◌%◌, ◌<◌, ◌≡◌, ◌≢◌, refl, ◌∙◌, ap, true, false, some, [], ◌∷◌, ◌++◌, arith,
  ◌==◌, All,
}
use invoicing_platform.Prelude.Int.{ℤ, pos, negsuc, neg, int_laws}
use invoicing_platform.Money.Decimal.{
  Text, AllDigits, is_digit, show, value_from, value-show, show-AllDigits, show-ne-nil,
}
use invoicing_platform.Money.{
  text, is_space, trim, trim_start, trim_end, split_digits, fraction, magnitude, signed, to_cents,
  format_abs, format_cents,
}

abbrev NoSpaces : Text → Type 0
NoSpaces = All (λ c. is_space c ≡ false)

trim_start-NoSpaces : (s : Text) → NoSpaces s → trim_start s ≡ s
unfolding trim_start
trim_start-NoSpaces [] h = refl
trim_start-NoSpaces (c ∷ s) h = ground arith

trim_end-NoSpaces : (s : Text) → NoSpaces s → trim_end s ≡ s
unfolding trim_end
trim_end-NoSpaces [] h = refl
trim_end-NoSpaces (c ∷ []) h = ground arith
trim_end-NoSpaces (c ∷ d ∷ s) h = rw (trim_end-NoSpaces (d ∷ s) h.1)

trim-NoSpaces : (s : Text) → NoSpaces s → trim s ≡ s
unfolding trim
trim-NoSpaces s h = rw (trim_start-NoSpaces s h) (trim_end-NoSpaces s h)

digit-not-space : (c : ℕ) → is_digit c ≡ true → is_space c ≡ false
unfolding is_digit is_space
digit-not-space c h = ground arith

NoSpaces-digits : (s r : Text) → AllDigits s → NoSpaces r → NoSpaces (s ++ r)
NoSpaces-digits [] r h k = k
NoSpaces-digits (c ∷ s) r h k = (digit-not-space c h.0, NoSpaces-digits s r h.1 k)

split_digits-append : (s r : Text) → AllDigits s → split_digits (s ++ (b'.' ∷ r)) ≡ (s, b'.' ∷ r)
unfolding split_digits
split_digits-append [] r h = unfold is_digit in refl
split_digits-append (c ∷ s) r h = rw (h.0, split_digits-append s r h.1)

is_digit-add : (d : ℕ) → d < 10 → is_digit (b'0' + d) ≡ true
unfolding is_digit
is_digit-add d h = ground arith

fraction_two :
    (d e : ℕ) → d < 10 → e < 10 → fraction (b'.' ∷ (b'0' + d) ∷ (b'0' + e) ∷ []) ≡ some (d * 10 + e)
unfolding fraction
fraction_two d e h k = rw (is_digit-add d h, is_digit-add e k) (ap some (omega arith))

magnitude_lem :
    (s r : Text) (f : ℕ)
    → s ≢ []
    → fraction r ≡ some f
    → magnitude (s, r) ≡ some (value_from 0 s * 100 + f)
unfolding magnitude
magnitude_lem [] r f h e = absurd (h refl)
magnitude_lem (c ∷ s) r f h e = rw (e, magnitude)

magnitude-format : (m : ℕ) → magnitude (split_digits (format_abs m)) ≡ some m
unfolding format_abs
magnitude-format m =
    rw
      (
        split_digits-append (show (m / 100)) _ (show-AllDigits (m / 100)),
        magnitude_lem (show (m / 100)) _ (m % 100 / 10 * 10 + m % 100 % 10) (show-ne-nil (m / 100))
            (fraction_two (m % 100 / 10) (m % 100 % 10) (omega arith) (omega arith)),
        value-show (m / 100),
      )
      (ap some (omega arith))

format_abs-NoSpaces : (m : ℕ) → NoSpaces (format_abs m)
unfolding format_abs
format_abs-NoSpaces m = NoSpaces-digits (show (m / 100)) _ (show-AllDigits (m / 100)) (
  unfold is_space in refl,
  (
    digit-not-space _ (is_digit-add (m % 100 / 10) (omega arith)),
    (digit-not-space _ (is_digit-add (m % 100 % 10) (omega arith)), tt),
  ),
)

digit-not-minus : (c : ℕ) → is_digit c ≡ true → (c == b'-') ≡ false
unfolding is_digit
digit-not-minus c h = ground arith

signed_digits :
    (s r : Text) (m : ℕ)
    → AllDigits s
    → s ≢ []
    → magnitude (split_digits (s ++ r)) ≡ some m
    → signed (s ++ r) ≡ some (pos m)
unfolding signed
signed_digits [] r m h k e = absurd (k refl)
signed_digits (c ∷ s) r m h k e = rw (digit-not-minus c h.0, e)

signed-format_abs : (m : ℕ) → signed (format_abs m) ≡ some (pos m)
unfolding format_abs
signed-format_abs m =
    signed_digits (show (m / 100)) (b'.' ∷ (b'0' + m % 100 / 10) ∷ (b'0' + m % 100 % 10) ∷ []) m
      (show-AllDigits (m / 100)) (show-ne-nil (m / 100)) (magnitude-format m)

signed-minus : (m : ℕ) → signed (b'-' ∷ format_abs m) ≡ some (neg (pos m))
unfolding signed
signed-minus m = rw (magnitude-format m)

-- `toCents(formatCents(c))` is `c`, for every whole number of cents, of either sign.
pub to_cents-format_cents : (c : ℤ) → to_cents (text (format_cents c)) ≡ some c
unfolding to_cents format_cents
to_cents-format_cents (pos m) =
    rw (trim-NoSpaces (format_abs m) (format_abs-NoSpaces m)) (signed-format_abs m)
to_cents-format_cents (negsuc m) =
    rw
      (trim-NoSpaces (b'-' ∷ format_abs (m + 1))
        (unfold is_space in refl, format_abs-NoSpaces (m + 1)))
      (signed-minus (m + 1) ∙ ap some (omega int_laws))
