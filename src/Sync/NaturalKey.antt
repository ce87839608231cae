-- ===== src/Sync/NaturalKey.antt =====
-- apps/api/src/qbo/natural-key.ts: which QBO record is the one that a local record already is? The proofs
-- are in Confident. An amount that `toCents` does not read makes the source throw: a result of none.
pub mod Confident
use invoicing_platform.Prelude.{
  ℕ, String, Bool, true, false, ◌&&◌, Option, none, some, List, [], ◌∷◌, map, str_eq, ◌==◌,
  if◌then◌else◌,
}
use invoicing_platform.Prelude.Int.{ℤ, eqb_ℤ}
use invoicing_platform.Money.{Amount, Text, trim, to_cents, same_text}
use invoicing_platform.Database.{RowId}

pub data MatchResult : Type 0 where
  matched : RowId → MatchResult
  unmatched : MatchResult
  ambiguous : List RowId → MatchResult

unfoldable pub to_match_result : List RowId → MatchResult
to_match_result [] = unmatched
to_match_result (id ∷ []) = matched id
to_match_result (id ∷ id' ∷ ids) = ambiguous (id ∷ id' ∷ ids)

pub record LocalContactLike : Type 0 where
  pub email : Option Text
  pub display_name : Text

pub record QboCustomerLike : Type 0 where
  pub qbo_id : RowId
  pub email : Option Text
  pub display_name : Option Text

-- `toLowerCase` is the parameter.
module _ (to_lower_case : Text → Text) where
  abbrev unless_empty : Text → Option Text
  unless_empty [] = none
  unless_empty (c ∷ s) = some (c ∷ s)

  unfoldable pub normalize : Option Text → Option Text
  normalize none = none
  normalize (some value) = unless_empty (to_lower_case (trim value))

  abbrev pub is_normalized : Text → Option Text → Bool
  is_normalized key value = elim (normalize value) [ none ↦ false | some v ↦ same_text v key ]

  abbrev ids_of : (QboCustomerLike → Bool) → List QboCustomerLike → List RowId
  ids_of p [] = []
  ids_of p (c ∷ cs) = let rest = ids_of p cs in if p c then c.qbo_id ∷ rest else rest

  abbrev by_name : List QboCustomerLike → Option Text → MatchResult
  by_name candidates none = unmatched
  by_name candidates (some name) =
      to_match_result (ids_of (λ c. is_normalized name c.display_name) candidates)

  abbrev by_email : LocalContactLike → List QboCustomerLike → Option Text → MatchResult
  by_email local candidates none = by_name candidates (normalize (some local.display_name))
  by_email local candidates (some email) =
      to_match_result (ids_of (λ c. is_normalized email c.email) candidates)

  unfoldable pub match_contact_by_natural_key :
      LocalContactLike → List QboCustomerLike → MatchResult
  match_contact_by_natural_key local candidates = by_email local candidates (normalize local.email)

-- An id that is empty or missing is none.
pub record LocalInvoiceLike : Type 0 where
  pub doc_number : Option Text
  pub total : Amount
  pub txn_date : Text
  pub customer_qbo_id : Option RowId

pub record QboInvoiceLike : Type 0 where
  pub qbo_id : RowId
  pub doc_number : Option Text
  pub total : Amount
  pub txn_date : Text
  pub customer_qbo_id : Option RowId

abbrev pub is_doc : Text → Option Text → Bool
is_doc doc none = false
is_doc doc (some d) = same_text d doc

abbrev pub is_customer : RowId → Option RowId → Bool
is_customer id none = false
is_customer id (some i) = i == id

abbrev pub same_cents : Option ℤ → ℤ → Bool → Option Bool
same_cents none cents q = none
same_cents (some c) cents q = some (eqb_ℤ c cents && q)

-- `p && toCents(c.total) === localCents && q`, where the second test may throw.
abbrev pub agrees : Bool → ℤ → Amount → Bool → Option Bool
agrees false cents total q = some false
agrees true cents total q = same_cents (to_cents total) cents q

abbrev pub keep_if : Option Bool → RowId → Option (List RowId) → Option (List RowId)
keep_if none id rest = none
keep_if (some b) id none = none
keep_if (some b) id (some ids) = some (if b then id ∷ ids else ids)

-- `candidates.filter(…)`, with the QBO ids of what it keeps.
abbrev pub filter_ids : (QboInvoiceLike → Option Bool) → List QboInvoiceLike → Option (List RowId)
filter_ids p [] = some []
filter_ids p (c ∷ cs) = keep_if (p c) c.qbo_id (filter_ids p cs)

-- The test of a candidate by document number, and by customer.
abbrev pub agrees_by_doc : LocalInvoiceLike → ℤ → Text → QboInvoiceLike → Option Bool
agrees_by_doc local cents doc c =
    agrees (is_doc doc c.doc_number) cents c.total (same_text c.txn_date local.txn_date)

abbrev pub agrees_by_customer : LocalInvoiceLike → ℤ → RowId → QboInvoiceLike → Option Bool
agrees_by_customer local cents customer c =
    agrees true cents c.total
      (same_text c.txn_date local.txn_date && is_customer customer c.customer_qbo_id)

-- What is thrown is passed on.
abbrev pub match_of : Option (List RowId) → Option MatchResult
match_of none = none
match_of (some ids) = some (to_match_result ids)

abbrev pub by_customer :
    LocalInvoiceLike → List QboInvoiceLike → ℤ → Option RowId → Option MatchResult
by_customer local candidates cents none = some unmatched
by_customer local candidates cents (some id) =
    match_of (filter_ids (agrees_by_customer local cents id) candidates)

abbrev pub by_doc : LocalInvoiceLike → List QboInvoiceLike → ℤ → Option Text → Option MatchResult
by_doc local candidates cents none = by_customer local candidates cents local.customer_qbo_id
by_doc local candidates cents (some []) = by_customer local candidates cents local.customer_qbo_id
by_doc local candidates cents (some (c ∷ s)) =
    match_of (filter_ids (agrees_by_doc local cents (c ∷ s)) candidates)

abbrev pub by_total : LocalInvoiceLike → List QboInvoiceLike → Option ℤ → Option MatchResult
by_total local candidates none = none
by_total local candidates (some cents) = by_doc local candidates cents local.doc_number

unfoldable pub match_invoice_by_natural_key :
    LocalInvoiceLike → List QboInvoiceLike → Option MatchResult
match_invoice_by_natural_key local candidates = by_total local candidates (to_cents local.total)
