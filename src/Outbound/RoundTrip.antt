-- ===== src/Outbound/RoundTrip.antt =====
-- What the outbound builders send is what the inbound mappers read.
use Prim.Native.String.{String}
use invoicing_platform.Prelude.{
  ◌≡◌, inl, inr, Option-cases, refl, true, false, some, List, [], ◌∷◌, All, map,
}
use invoicing_platform.Prelude.Int.{ℤ, pos, leb_ℤ}
use invoicing_platform.Money.{to_cents}
use invoicing_platform.Database.{RowId, ok}
use invoicing_platform.Inbound.Body.{non_empty, as_object, JsRuntime}
use invoicing_platform.Inbound.Mappers.{
  QboInvoiceLinePatch, invoice_line, invoice_lines_from, qbo_invoice_to_local_lines,
  qbo_invoice_to_local_patch, qbo_payment_to_local_patch, QboPaymentLinePatch, payment_line,
  payment_lines_from, qbo_payment_to_local_lines,
}
use invoicing_platform.Outbound.Builders.{
  JsOutput, QboInvoiceLineSource, QboInvoiceSource, QboPaymentLinkedInvoice, build_line,
  build_lines, build_qbo_invoice, build_payment_line, build_payment_lines, build_qbo_payment,
}

module _ (js : JsRuntime) (out : JsOutput) where
  -- An amount that the number for it gives back: `toCents(Number(formatCents(c)))` is `c`.
  abbrev pub IsExact : ℤ → Type 0
  IsExact c = to_cents (js.amount (out.dollars c)) ≡ some c

  -- What is read of the line that was sent.
  abbrev pub patch_of : QboInvoiceLineSource → QboInvoiceLinePatch js
  patch_of line = record {
    description = non_empty line.description;
    quantity = line.quantity;
    unit_price = line.unit_price;
    amount_cents = line.amount;
    item_qbo_id = line.item_qbo_id;
  }

  abbrev pub payment_patch_of : QboPaymentLinkedInvoice → QboPaymentLinePatch js
  payment_patch_of inv = record { amount_cents = inv.amount_cents; invoice_qbo_id = inv.qbo_id }

  pub record IsSendable (line : QboInvoiceLineSource) : Type 0 where
    pub quantity : js.numbers.is_positive line.quantity ≡ true
    pub unit_price : IsExact line.unit_price
    pub amount : IsExact line.amount

  as_object-build_line :
      (line : QboInvoiceLineSource)
      → as_object (some (build_line out line)) ≡ some (build_line out line)
  unfolding build_line
  as_object-build_line line = refl

  as_object-build_payment_line :
      (inv : QboPaymentLinkedInvoice)
      → as_object (some (build_payment_line out inv)) ≡ some (build_payment_line out inv)
  unfolding build_payment_line
  as_object-build_payment_line inv = refl

  pub record IsApplicable (inv : QboPaymentLinkedInvoice) : Type 0 where
    pub amount : IsExact inv.amount_cents
    pub positive : leb_ℤ inv.amount_cents (pos 0) ≡ false
    pub id : non_empty (some (out.qbo_text inv.qbo_id)) ≡ some (out.qbo_text inv.qbo_id)

  module _ (ids : (id : RowId) → js.qbo_id (out.qbo_text id) ≡ id) where
    invoice_line-build_line :
        (line : QboInvoiceLineSource)
        → IsSendable line
        → invoice_line js (some (build_line out line)) ≡ some (ok (patch_of line))
    unfolding build_line
    invoice_line-build_line line s = elim (Option-cases (non_empty line.description)) [
      | inl e ↦ elim (Option-cases line.item_qbo_id) [
        | inl i ↦ rw (e, i, s.amount, s.quantity, s.unit_price) refl
        | inr (id, i) ↦ rw (e, i, s.amount, s.quantity, s.unit_price, ids id) refl
      ]
      | inr (d, e) ↦ elim (Option-cases line.item_qbo_id) [
        | inl i ↦ rw (e, i, s.amount, s.quantity, s.unit_price) refl
        | inr (id, i) ↦ rw (e, i, s.amount, s.quantity, s.unit_price, ids id) refl
      ]
    ]

    invoice_lines-build_lines :
        (lines : List QboInvoiceLineSource)
        → All IsSendable lines
        → invoice_lines_from js (build_lines out lines) ≡ ok (map patch_of lines)
    unfolding build_lines
    invoice_lines-build_lines [] s = refl
    invoice_lines-build_lines (l ∷ ls) s =
        rw (as_object-build_line l, invoice_line-build_line l s.0, invoice_lines-build_lines ls s.1)
          refl

    payment_line-build_payment_line :
        (inv : QboPaymentLinkedInvoice)
        → IsApplicable inv
        → payment_line js (some (build_payment_line out inv)) ≡ some (ok (payment_patch_of inv))
    unfolding build_payment_line
    payment_line-build_payment_line inv s = rw (s.amount, s.positive, s.id, ids inv.qbo_id) refl

    payment_lines-build_payment_lines :
        (invoices : List QboPaymentLinkedInvoice)
        → All IsApplicable invoices
        → payment_lines_from js (some (build_payment_lines out invoices))
          ≡ ok (map payment_patch_of invoices)
    unfolding build_payment_lines
    payment_lines-build_payment_lines [] s = refl
    payment_lines-build_payment_lines (l ∷ ls) s =
        rw
          (
            as_object-build_payment_line l,
            payment_line-build_payment_line l s.0,
            payment_lines-build_payment_lines ls s.1,
          )
          refl

    -- The lines of a local invoice, sent to QBO in the body of an invoice, are read back: the same
    -- quantities, prices, amounts and items, and the descriptions that are not empty; and so is the date.
    -- This holds for lines with positive quantities, where the number of an amount gives the amount back
    -- and the text of a QBO id gives the id back.
    pub invoice_lines-round_trip :
        (txn : QboInvoiceSource) (lines : List QboInvoiceLineSource) (customer : RowId)
        → All IsSendable lines
        → (qbo_invoice_to_local_lines js (build_qbo_invoice out txn lines customer)
            ≡ ok (map patch_of lines))
          × ((qbo_invoice_to_local_patch (build_qbo_invoice out txn lines customer)).txn_date
              ≡ some txn.txn_date)
    unfolding build_qbo_invoice qbo_invoice_to_local_lines qbo_invoice_to_local_patch
    invoice_lines-round_trip txn lines customer s = (invoice_lines-build_lines lines s, refl)

    -- The invoices that a payment is applied to, sent to QBO in the body of a payment, are read back with
    -- their amounts, and so is the date. This holds for positive amounts, where the number of an amount
    -- gives the amount back, and the text of a QBO id is not empty and gives the id back.
    pub payment_lines-round_trip :
        (customer : RowId) (txn_date : String) (total : ℤ) (invoices : List QboPaymentLinkedInvoice)
        → All IsApplicable invoices
        → (qbo_payment_to_local_lines js (build_qbo_payment out customer txn_date total invoices)
            ≡ ok (map payment_patch_of invoices))
          × ((qbo_payment_to_local_patch
                (build_qbo_payment out customer txn_date total invoices)).txn_date
              ≡ some txn_date)
    unfolding build_qbo_payment qbo_payment_to_local_lines qbo_payment_to_local_patch
    payment_lines-round_trip customer txn_date total invoices s =
        (payment_lines-build_payment_lines invoices s, refl)
