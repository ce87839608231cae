-- ===== src/Money.antt =====
-- apps/api/src/money.ts: exact decimal text to integer cents and back. A text is the list of its
-- code points; a JS number enters as the text that `String(value)` gives, or as not finite.
mod Decimal
pub mod RoundTrip
pub mod SameText
pub use Decimal.{Text}
use invoicing_platform.Prelude.{
  ℕ, ◌+◌, ◌*◌, ◌/◌, ◌%◌, Bool, true, false, ◌&&◌, ◌||◌, Option, none, some, List, [], ◌∷◌, ◌++◌,
  ltb, leb, ◌==◌, if◌then◌else◌,
}
use invoicing_platform.Prelude.Int.{ℤ, pos, negsuc, neg, pos_part, neg_part}
use Decimal.{is_digit, value_from, show}

-- `value: string | number`
pub data Amount : Type 0 where
  text : Text → Amount
  number : Text → Amount
  not_finite : Amount

-- `===` on texts.
abbrev pub same_text : Text → Text → Bool
same_text [] [] = true
same_text (c ∷ s) (d ∷ t) = c == d && same_text s t
same_text _ _ = false

-- White space and line ends, as `String.prototype.trim` knows them.
unfoldable pub is_space : ℕ → Bool
is_space c =
    leb 9 c && leb c 13
    || (c == 32 || c == 160 || c == 0x1680 || leb 0x2000 c && leb c 0x200a)
    || (c == 0x2028 || c == 0x2029 || c == 0x202f || c == 0x205f || c == 0x3000 || c == 0xfeff)

trim_start : Text → Text
trim_start [] = []
trim_start (c ∷ s) = let rest = trim_start s in if is_space c then rest else c ∷ s

abbrev unless_blank : ℕ → Text → Text
unless_blank c [] = if is_space c then [] else c ∷ []
unless_blank c (d ∷ s) = c ∷ d ∷ s

trim_end : Text → Text
trim_end [] = []
trim_end (c ∷ s) = unless_blank c (trim_end s)

unfoldable pub trim : Text → Text
unfolding trim_start trim_end is_space
trim s = trim_end (trim_start s)

-- `\d+`, greedily: the digits in front, and what follows them.
split_digits : Text → Text × Text
split_digits [] = ([], [])
split_digits (c ∷ s) =
    let rest = split_digits s in if is_digit c then (c ∷ rest.0, rest.1) else ([], c ∷ s)

-- `(?:\.(\d{1,2}))?$`, padded to two digits by `padEnd(2, '0')`.
fraction : Text → Option ℕ
unfolding is_digit
fraction [] = some 0
fraction (p ∷ a ∷ []) =
    if p == b'.' && is_digit a then some (value_from 0 (a ∷ b'0' ∷ [])) else none
fraction (p ∷ a ∷ b ∷ []) =
    if p == b'.' && (is_digit a && is_digit b) then some (value_from 0 (a ∷ b ∷ [])) else none
fraction _ = none

-- `(\d+)` and the fraction: `Number(whole) * 100 + Number(paddedFrac)`.
magnitude : Text × Text → Option ℕ
magnitude ([], _) = none
magnitude (c ∷ whole, rest) = elim (fraction rest) [
  | none ↦ none
  | some f ↦ some (value_from 0 (c ∷ whole) * 100 + f)
]

-- `(-?)` and the rest of the pattern.
signed : Text → Option ℤ
unfolding split_digits magnitude
signed [] = none
signed (c ∷ s) =
    if c == b'-'
    then elim (magnitude (split_digits s)) [ none ↦ none | some m ↦ some (neg (pos m)) ]
    else elim (magnitude (split_digits (c ∷ s))) [ none ↦ none | some m ↦ some (pos m) ]

-- `toCents`; `none` is the `RangeError`.
pub to_cents : Amount → Option ℤ
unfolding trim signed
to_cents (text s) = signed (trim s)
to_cents (number s) = signed (trim s)
to_cents not_finite = none

-- `Math.floor(abs / 100)`, a point, and `abs % 100` padded to two digits.
pub format_abs : ℕ → Text
unfolding show
format_abs m = show (m / 100) ++ (b'.' ∷ (b'0' + m % 100 / 10) ∷ (b'0' + m % 100 % 10) ∷ [])

-- `formatCents`, of an integer number of cents.
pub format_cents : ℤ → Text
unfolding format_abs
format_cents (pos m) = format_abs m
format_cents (negsuc m) = b'-' ∷ format_abs (m + 1)
