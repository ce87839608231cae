-- ===== src/Inbound/Mappers.antt =====
-- apps/api/src/qbo/inbound-sync.ts: the pure mappers from the body of a QBO record.
use mathlib.Core.Option
use Prim.Native.String.{String}
use invoicing_platform.Prelude.{
  ℕ, ◌&&◌, Option, none, some, List, [], ◌∷◌, or_default, if◌then◌else◌,
}
use invoicing_platform.Prelude.Int.{ℤ, pos, leb_ℤ}
use invoicing_platform.Money.{Text, Amount, text, to_cents, format_cents}
use invoicing_platform.Database.{RowId, Result, ok, err, range_error}
use invoicing_platform.Invoices.Lines.{InvoiceLineInput}
use invoicing_platform.Sync.NaturalKey.{LocalInvoiceLike, LocalContactLike}
use invoicing_platform.Inbound.Body.{
  nonempty, Json, number, text_value, Elements, end, element, get, as_text, as_array, as_number,
  as_object, is_text, non_empty, codes, JsRuntime,
}

-- A field that QBO sent is `some`; what it sent may be null.
pub record InvoiceMetadataPatch : Type 0 where
  pub doc_number : Option (Option String)
  pub txn_date : Option String
  pub due_date : Option (Option String)
  pub memo : Option (Option String)

-- `'key' in qbo`, and the text it has, or null.
abbrev nullable_text : Option Json → Option (Option String)
nullable_text none = none
nullable_text (some v) = some (as_text (some v))

unfoldable pub qbo_invoice_to_local_patch : Json → InvoiceMetadataPatch
qbo_invoice_to_local_patch qbo = record {
  doc_number = nullable_text (get "DocNumber" (some qbo));
  txn_date = as_text (get "TxnDate" (some qbo));
  due_date = nullable_text (get "DueDate" (some qbo));
  memo = nullable_text (get "PrivateNote" (some qbo));
}

pub record PaymentMetadataPatch : Type 0 where
  pub txn_date : Option String
  pub memo : Option (Option String)

unfoldable pub qbo_payment_to_local_patch : Json → PaymentMetadataPatch
qbo_payment_to_local_patch qbo = record {
  txn_date = as_text (get "TxnDate" (some qbo));
  memo = nullable_text (get "PrivateNote" (some qbo));
}

unfoldable pub qbo_sync_token : Json → Option Text
qbo_sync_token qbo = Option.map codes (as_text (get "SyncToken" (some qbo)))

unfoldable pub qbo_last_updated : Json → Option Text
qbo_last_updated qbo =
    Option.map codes (as_text (get "LastUpdatedTime" (get "MetaData" (some qbo))))

-- What `toCents` throws is passed on.
abbrev parsed_cents : Option ℤ → Result ℤ
parsed_cents none = err range_error
parsed_cents (some c) = ok c

module _ (js : JsRuntime) where
  -- `typeof v === 'number' || typeof v === 'string' ? toCents(v) : …`
  abbrev cents_or : Result ℤ → Option Json → Result ℤ
  cents_or other (some (number n)) = parsed_cents (to_cents (js.amount n))
  cents_or other (some (text_value s)) = parsed_cents (to_cents (text (codes s)))
  cents_or other _ = other

  pub record QboInvoiceLinePatch : Type 0 where
    pub description : Option String
    pub quantity : ℕ
    pub unit_price : ℤ
    pub amount_cents : ℤ
    pub item_qbo_id : Option RowId

  -- `typeof detail.Qty === 'number' && detail.Qty > 0 ? detail.Qty : 1`
  abbrev positive_or_one : Option ℕ → ℕ
  positive_or_one none = js.one
  positive_or_one (some n) = if js.numbers.is_positive n then n else js.one

  abbrev line_patch : Json → ℕ → ℤ → Result ℤ → Result QboInvoiceLinePatch
  line_patch line quantity amount_cents (err e) = err e
  line_patch line quantity amount_cents (ok unit_price) = ok (record {
    description = as_text (get "Description" (some line));
    quantity = quantity;
    unit_price = unit_price;
    amount_cents = amount_cents;
    item_qbo_id =
        Option.map js.qbo_id
          (as_text (get "value" (get "ItemRef" (get "SalesItemLineDetail" (some line)))));
  })

  abbrev with_amount : Json → Result ℤ → Result QboInvoiceLinePatch
  with_amount line (err e) = err e
  with_amount line (ok amount_cents) =
      let detail = get "SalesItemLineDetail" (some line) in
      let quantity = positive_or_one (as_number (get "Qty" detail)) in
      line_patch line quantity amount_cents
        (cents_or (ok (js.round_quotient amount_cents quantity)) (get "UnitPrice" detail))

  -- One turn of the loop: none is `continue`.
  abbrev pub invoice_line : Option Json → Option (Result QboInvoiceLinePatch)
  invoice_line none = none
  invoice_line (some line) =
      if is_text "SalesItemLineDetail" (as_text (get "DetailType" (some line)))
      then some (with_amount line (cents_or (ok (pos 0)) (get "Amount" (some line))))
      else none

  abbrev push {ℓ} : {A : Type ℓ} → Option (Result A) → Result (List A) → Result (List A)
  push none rest = rest
  push (some (err e)) rest = err e
  push (some (ok a)) (err e) = err e
  push (some (ok a)) (ok rest) = ok (a ∷ rest)

  abbrev pub invoice_lines_from : Elements → Result (List QboInvoiceLinePatch)
  invoice_lines_from end = ok []
  invoice_lines_from (element raw rest) =
      push (invoice_line (as_object (some raw))) (invoice_lines_from rest)

  abbrev lines_of : Option Elements → Result (List QboInvoiceLinePatch)
  lines_of none = ok []
  lines_of (some raws) = invoice_lines_from raws

  -- No `Line[]` and one without sales lines come to the same for the only caller: no lines.
  unfoldable pub qbo_invoice_to_local_lines : Json → Result (List QboInvoiceLinePatch)
  qbo_invoice_to_local_lines qbo = lines_of (as_array (get "Line" (some qbo)))

  abbrev unless_finite : ℕ → ℕ → ℕ
  unless_finite n other = if js.is_finite n then n else other

  -- A line of an invoice to import: none is `continue`.
  abbrev imported_line : Option Json → Option InvoiceLineInput
  imported_line none = none
  imported_line (some line) =
      let detail = get "SalesItemLineDetail" (some line) in
      let amount = js.to_number (get "Amount" (some line)) in
      let qty = js.to_number (get "Qty" detail) in
      let quantity = if js.is_finite qty && js.numbers.is_positive qty then qty else js.one in
      if is_text "SalesItemLineDetail" (as_text (get "DetailType" (some line)))
      then (if js.is_finite amount
          then some (record {
            item_id = none;
            account_id = none;
            description = as_text (get "Description" (some line));
            quantity = quantity;
            unit_price = js.amount (
                unless_finite (js.to_number (get "UnitPrice" detail))
                  (js.quotient amount quantity));
          })
          else none)
      else none

  abbrev push_some {ℓ} : {A : Type ℓ} → Option A → List A → List A
  push_some none rest = rest
  push_some (some a) rest = a ∷ rest

  abbrev imported_lines : Option Elements → List InvoiceLineInput
  imported_lines none = []
  imported_lines (some end) = []
  imported_lines (some (element raw rest)) =
      push_some (imported_line (as_object (some raw))) (imported_lines (some rest))

  unfoldable pub map_qbo_invoice_lines : Json → List InvoiceLineInput
  map_qbo_invoice_lines qbo = imported_lines (as_array (get "Line" (some qbo)))

  pub record QboPaymentLinePatch : Type 0 where
    pub amount_cents : ℤ
    pub invoice_qbo_id : RowId

  -- The first linked transaction that is an invoice.
  abbrev find_invoice_link : Elements → Option Json
  find_invoice_link end = none
  find_invoice_link (element raw rest) =
      if is_text "Invoice" (as_text (get "TxnType" (as_object (some raw))))
      then some raw
      else find_invoice_link rest

  abbrev invoice_link : Option Elements → Option Json
  invoice_link none = none
  invoice_link (some linked) = find_invoice_link linked

  abbrev with_invoice : ℤ → Option String → Option (Result QboPaymentLinePatch)
  with_invoice amount_cents none = none
  with_invoice amount_cents (some id) =
      some (ok (record { amount_cents = amount_cents; invoice_qbo_id = js.qbo_id id }))

  abbrev payment_amount : Json → Result ℤ → Option (Result QboPaymentLinePatch)
  payment_amount line (err e) = some (err e)
  payment_amount line (ok amount_cents) =
      if leb_ℤ amount_cents (pos 0)
      then none
      else with_invoice amount_cents (
          non_empty (as_text (get "TxnId" (invoice_link (as_array (get "LinkedTxn" (some line)))))))

  abbrev pub payment_line : Option Json → Option (Result QboPaymentLinePatch)
  payment_line none = none
  payment_line (some line) = payment_amount line (cents_or (ok (pos 0)) (get "Amount" (some line)))

  abbrev pub payment_lines_from : Option Elements → Result (List QboPaymentLinePatch)
  payment_lines_from none = ok []
  payment_lines_from (some end) = ok []
  payment_lines_from (some (element raw rest)) =
      push (payment_line (as_object (some raw))) (payment_lines_from (some rest))

  unfoldable pub qbo_payment_to_local_lines : Json → Result (List QboPaymentLinePatch)
  qbo_payment_to_local_lines qbo = payment_lines_from (as_array (get "Line" (some qbo)))

  -- `typeof total === 'number' || typeof total === 'string' ? total : 0`
  abbrev total_amount : Option Json → Amount
  total_amount (some (number n)) = js.amount n
  total_amount (some (text_value s)) = text (codes s)
  total_amount _ = text (format_cents (pos 0))

  unfoldable pub qbo_invoice_to_match_target : Json → LocalInvoiceLike
  qbo_invoice_to_match_target qbo = record {
    doc_number = Option.map codes (as_text (get "DocNumber" (some qbo)));
    total = total_amount (get "TotalAmt" (some qbo));
    txn_date = codes (or_default (as_text (get "TxnDate" (some qbo))) "");
    customer_qbo_id =
        Option.map js.qbo_id (nonempty (as_text (get "value" (get "CustomerRef" (some qbo)))));
  }

unfoldable pub qbo_customer_to_match_target : Json → LocalContactLike
qbo_customer_to_match_target qbo = record {
  email = Option.map codes (as_text (get "Address" (get "PrimaryEmailAddr" (some qbo))));
  display_name = codes (or_default (as_text (get "DisplayName" (some qbo))) "");
}
