-- ===== src/Payments/Closing.antt =====
-- After a payment its invoice can be neither voided nor edited.
use invoicing_platform.Prelude.{◌≡◌, false, some, ◌==◌, ==_iff, arith}
use invoicing_platform.Prelude.Unique.{first-fits}
use invoicing_platform.Prelude.Int.{ℤ, pos, ◌+ℤ◌, ◌≤ℤ◌, ◌<ℤ◌, int_laws}
use invoicing_platform.Database.{RowId, TransactionRow, Database, ok, err, invalid_state}
use invoicing_platform.Payments.{
  PaymentContext, RecordPaymentInput, find_invoice, sum_applied_cents, record_payment,
}
use invoicing_platform.Payments.Status.{derive_invoice_status}
use invoicing_platform.Payments.Recording.{record_payment-settles}
use invoicing_platform.Invoices.Lines.{JsNumber}
use invoicing_platform.Invoices.{
  InvoiceContext, UpdateInvoiceInput, is_open, update_invoice, void_invoice,
}
use invoicing_platform.Invoices.Refusing.{void_refused, update_refused}
use invoicing_platform.Payments.Found.{second_of, record_payment-found}

found-id :
    (org id : RowId) (invoice : TransactionRow) (db : Database)
    → find_invoice org id db ≡ some invoice
    → invoice.id ≡ id
unfolding find_invoice
found-id org id invoice db found =
    (==_iff invoice.id id).0
      (second_of (invoice.org_id == org) (invoice.id == id) _ (first-fits _ db.transactions found))

paid-is_open : (total s : ℤ) → pos 0 <ℤ s → is_open (derive_invoice_status total s) ≡ false
unfolding derive_invoice_status
paid-is_open total s h = ground arith

grown : (a b c : ℤ) → pos 0 ≤ℤ a → pos 0 <ℤ c → b ≡ a +ℤ c → pos 0 <ℤ b
grown a b c h k e = rw e (omega (int_laws, h, k))

summary-is_open :
    (ctx : PaymentContext) (id : RowId) (input : RecordPaymentInput) (db out : Database)
    (row summary : TransactionRow)
    → pos 0 ≤ℤ sum_applied_cents ctx.org_id id db
    → record_payment ctx id input db ≡ ok ((row, summary), out)
    → is_open summary.status ≡ false
summary-is_open ctx id input db out row summary nonnegative h =
    let (invoice, cents, found, payable, parsed, positive, sum, fits, settled) =
      record_payment-settles ctx id input db out row summary h in
    let before = sum_applied_cents ctx.org_id invoice.id db in
    let applied = sum_applied_cents ctx.org_id invoice.id out in
    let start : pos 0 ≤ℤ before = rw (found-id ctx.org_id id invoice db found) nonnegative in
    rw settled.0
      (paid-is_open invoice.total applied (grown before applied cents start positive sum))

-- Once a payment of an invoice has gone through, the invoice can be neither voided nor edited: both are refused
-- as an invalid state, whatever the edit. What was applied to the invoice before is not negative.
pub record_payment-closes :
    (ctx : PaymentContext) (id : RowId) (input : RecordPaymentInput) (db out : Database)
    (row summary : TransactionRow) (js : JsNumber) (patch : UpdateInvoiceInput)
    → pos 0 ≤ℤ sum_applied_cents ctx.org_id id db
    → record_payment ctx id input db ≡ ok ((row, summary), out)
    → (void_invoice (record { org_id = ctx.org_id; user_id = ctx.user_id }) id out
        ≡ err invalid_state)
      × (update_invoice js (record { org_id = ctx.org_id; user_id = ctx.user_id }) id patch out
          ≡ err invalid_state)
unfolding find_invoice
record_payment-closes ctx id input db out row summary js patch nonnegative h =
    let (t, found, same) = record_payment-found ctx id input db out row summary h in
    let closed : is_open t.status ≡ false =
      rw same (summary-is_open ctx id input db out row summary nonnegative h) in
    let context : InvoiceContext = record { org_id = ctx.org_id; user_id = ctx.user_id } in
    (
      void_refused context id out t found closed,
      update_refused context id out t found js patch closed,
    )
