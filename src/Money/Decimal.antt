-- ===== src/Money/Decimal.antt =====
-- Decimal digits: what `String(n)` prints for a whole number and what `Number(s)` reads.
use invoicing_platform.Prelude.{
  ℕ, zero, suc, ◌+◌, ◌-◌, ◌*◌, ◌/◌, ◌%◌, ◌<◌, ◌≡◌, ◌≢◌, refl, Bool, true, ◌&&◌, List, [], ◌∷◌, ◌++◌,
  arith, ltb, leb, if◌then◌else◌, All,
}

abbrev pub Text : Type 0
Text = List ℕ

unfoldable pub is_digit : ℕ → Bool
is_digit c = leb b'0' c && leb c b'9'

-- `Number(s)` for a string of digits, from the digits read so far.
abbrev pub value_from : ℕ → Text → ℕ
value_from acc [] = acc
value_from acc (c ∷ s) = value_from (acc * 10 + (c - b'0')) s

digits_of : ℕ → ℕ → Text
digits_of zero n = []
digits_of (suc f) n =
    let front = digits_of f (n / 10) in
    if ltb n 10 then (b'0' + n) ∷ [] else front ++ ((b'0' + n % 10) ∷ [])

-- `String(n)`. A number has fewer digits than its successor has units, so the fuel is enough.
unfoldable pub show : ℕ → Text
unfolding digits_of
show n = digits_of (suc n) n

pub value_from-append :
    (acc : ℕ) (s : Text) (c : ℕ)
    → value_from acc (s ++ (c ∷ [])) ≡ value_from acc s * 10 + (c - b'0')
value_from-append acc [] c = refl
value_from-append acc (d ∷ s) c = value_from-append (acc * 10 + (d - b'0')) s c

value-digits_of : (f n : ℕ) → n < f → value_from 0 (digits_of f n) ≡ n
unfolding digits_of
value-digits_of zero n h = elim h [ ]
value-digits_of (suc f) n h =
    ground (
      arith,
      value-digits_of f (n / 10),
      value_from-append 0 (digits_of f (n / 10)) (b'0' + n % 10),
    )

-- Reading what was printed gives the number.
pub value-show : (n : ℕ) → value_from 0 (show n) ≡ n
unfolding show
value-show n = value-digits_of (suc n) n (omega arith)

abbrev pub AllDigits : Text → Type 0
AllDigits = All (λ c. is_digit c ≡ true)

AllDigits-append : (s : Text) (c : ℕ) → AllDigits s → is_digit c ≡ true → AllDigits (s ++ (c ∷ []))
AllDigits-append [] c h d = (d, tt)
AllDigits-append (x ∷ s) c h d = (h.0, AllDigits-append s c h.1 d)

is_digit-add : (d : ℕ) → d < 10 → is_digit (b'0' + d) ≡ true
unfolding is_digit
is_digit-add d h = ground arith

digits_of-AllDigits : (f n : ℕ) → AllDigits (digits_of f n)
unfolding digits_of
digits_of-AllDigits zero n = tt
digits_of-AllDigits (suc f) n = ground (
  arith,
  is_digit-add n,
  is_digit-add (n % 10),
  AllDigits-append (digits_of f (n / 10)) (b'0' + n % 10),
  digits_of-AllDigits f (n / 10),
)

pub show-AllDigits : (n : ℕ) → AllDigits (show n)
unfolding show
show-AllDigits n = digits_of-AllDigits (suc n) n

append-ne-nil : (s : Text) (c : ℕ) → s ++ (c ∷ []) ≢ []
append-ne-nil [] c e = cc
append-ne-nil (d ∷ s) c e = cc

-- A whole number never prints as the empty text.
pub show-ne-nil : (n : ℕ) → show n ≢ []
unfolding show digits_of
show-ne-nil n = ground (arith, append-ne-nil (digits_of n (n / 10)) (b'0' + n % 10))
