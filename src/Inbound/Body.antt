-- ===== src/Inbound/Body.antt =====
-- What JSON.parse makes of the body of a QBO record, how the source reads a field of it, and what JS does
-- with numbers and texts, which is a parameter. An object has each field once.
use Prim.Native.Char.{code}
use Prim.Native.String.{String}
use invoicing_platform.Prelude.{ℕ, Bool, false, Option, none, some, [], ◌∷◌, str_eq, if◌then◌else◌}
use invoicing_platform.Prelude.Int.{ℤ}
use invoicing_platform.Money.{Text, Amount, is_space}
use invoicing_platform.Database.{RowId}
use invoicing_platform.Invoices.Lines.{JsNumber}
use invoicing_platform.Sync.Ordering.{JsParsers}

-- A number is its bit pattern.
mutual
  pub data Json : Type 0 where
    null_value : Json
    boolean : Bool → Json
    number : ℕ → Json
    text_value : String → Json
    array : Elements → Json
    object : Fields → Json

  pub data Elements : Type 0 where
    end : Elements
    element : Json → Elements → Elements

  pub data Fields : Type 0 where
    close : Fields
    field : String → Json → Fields → Fields

abbrev find_field : String → Fields → Option Json
find_field key close = none
find_field key (field k v rest) = if str_eq k key then some v else find_field key rest

-- `value.key` and `'key' in value`; a value without fields has none.
abbrev pub get : String → Option Json → Option Json
get key (some (object fields)) = find_field key fields
get key _ = none

-- `typeof value === 'string' ? value : undefined`
abbrev pub as_text : Option Json → Option String
as_text (some (text_value s)) = some s
as_text _ = none

-- A text that is truthy.
abbrev pub nonempty : Option String → Option String
nonempty none = none
nonempty (some s) = if str_eq s "" then none else some s

-- `Array.isArray(value) ? value : undefined`
abbrev pub as_array : Option Json → Option Elements
as_array (some (array xs)) = some xs
as_array _ = none

abbrev pub as_number : Option Json → Option ℕ
as_number (some (number n)) = some n
as_number _ = none

-- `value && typeof value === 'object'`
abbrev pub as_object : Option Json → Option Json
as_object (some (object fields)) = some (object fields)
as_object (some (array xs)) = some (array xs)
as_object _ = none

abbrev pub is_text : String → Option String → Bool
is_text s none = false
is_text s (some t) = str_eq t s

-- A text that is not empty.
abbrev pub non_empty : Option String → Option String
non_empty none = none
non_empty (some String.[]) = none
non_empty (some (String.◌∷◌ c s)) = some (String.◌∷◌ c s)

abbrev pub codes : String → Text
codes String.[] = []
codes (String.◌∷◌ c s) = code c ∷ codes s

abbrev trim_start_string : String → String
trim_start_string String.[] = String.[]
trim_start_string (String.◌∷◌ c s) =
    let rest = trim_start_string s in if is_space (code c) then rest else String.◌∷◌ c s

abbrev keep_unless_blank : String → String → String
keep_unless_blank (String.◌∷◌ c _) String.[] =
    if is_space (code c) then String.[] else String.◌∷◌ c String.[]
keep_unless_blank (String.◌∷◌ c _) (String.◌∷◌ d s) = String.◌∷◌ c (String.◌∷◌ d s)
keep_unless_blank String.[] rest = rest

abbrev trim_end_string : String → String
trim_end_string String.[] = String.[]
trim_end_string (String.◌∷◌ c s) = keep_unless_blank (String.◌∷◌ c s) (trim_end_string s)

-- `value.trim()`
abbrev pub trim_string : String → String
trim_string s = trim_end_string (trim_start_string s)

-- What the source leaves to the JS runtime: the arithmetic of numbers, `String(n)` as an amount,
-- `Number(value)`, `String(value)`, `Math.round(cents / n)`, `a / n`, the number 1, the texts of dates, lower case, and a
-- numbering of the ids that QBO gives as texts.
pub record JsRuntime : Type 0 where
  pub numbers : JsNumber
  pub parsers : JsParsers
  pub amount : ℕ → Amount
  pub to_number : Option Json → ℕ
  pub string_of : Option Json → String
  pub is_finite : ℕ → Bool
  pub round_quotient : ℤ → ℕ → ℤ
  pub quotient : ℕ → ℕ → ℕ
  pub one : ℕ
  pub today : ℕ → String
  pub to_lower_case : Text → Text
  pub qbo_id : String → RowId
