-- ===== src/Payments/Recording.antt =====
-- `recordPayment` as a whole: what a payment that goes through leaves behind.
use mathlib.Core.Path.{subst}
use invoicing_platform.Prelude.{
  ℕ, ◌≡◌, sym, ap, ◌∙◌, true, some, [], ◌∷◌, arith, select, select-append,
}
use invoicing_platform.Prelude.Int.{ℤ, pos, ◌+ℤ◌, ◌≤ℤ◌, ◌<ℤ◌, int_laws}
use invoicing_platform.Money.{to_cents}
use invoicing_platform.Database.{
  Tx, pure, ◌>>=◌, ◌>>◌, RowId, TransactionRow, PaymentApplicationRow, Database, ok, ok-inj,
  bind-eq-ok, some_or_raise-eq-ok, not_found, chart_not_seeded,
}
use invoicing_platform.Database.Statements.{insert_transaction, insert_application, write_audit_log}
use invoicing_platform.Ledger.{post_ledger}
use invoicing_platform.Accounts.{get_account_by_subtype}
use invoicing_platform.Payments.{
  PaymentContext, RecordPaymentInput, is_payable, is_applied_to, sum_amounts, sum_applied_cents,
  checked_amount, recompute_invoice, insert_payment, record_payment, find_invoice, load_invoice,
  resolve_deposit_account, payment_row, payment_postings, audit_row,
}
use invoicing_platform.Payments.Applied.{
  sum_amounts-append, IsApplied, post_ledger-Keeps, recompute_invoice-Keeps,
  resolve_deposit_account-Keeps, write_audit_log-Keeps, IsSettled, recompute_invoice-IsSettled,
  checked_amount-fits,
}

-- The payment's row of `payment_applications`.
abbrev application_row : PaymentContext → RowId → RowId → ℤ → ℕ → PaymentApplicationRow
application_row ctx payment_id invoice_id cents id = record {
  id = id;
  org_id = ctx.org_id;
  payment_txn_id = payment_id;
  invoice_txn_id = invoice_id;
  amount = cents;
}

applied_to_own :
    (ctx : PaymentContext) (payment_id invoice_id id : RowId) (cents : ℤ)
    → is_applied_to ctx.org_id invoice_id (application_row ctx payment_id invoice_id cents id)
      ≡ true
applied_to_own ctx payment_id invoice_id id cents = ground arith

insert_application-adds :
    (ctx : PaymentContext) (payment_id invoice_id : RowId) (cents : ℤ) (db out : Database)
    → insert_application (application_row ctx payment_id invoice_id cents) db ≡ ok (tt, out)
    → sum_applied_cents ctx.org_id invoice_id out
      ≡ sum_applied_cents ctx.org_id invoice_id db +ℤ cents
unfolding insert_application sum_applied_cents
insert_application-adds ctx payment_id invoice_id cents db out h =
    let row = application_row ctx payment_id invoice_id cents db.next_id in
    let p = is_applied_to ctx.org_id invoice_id in
    rw
      (
        ← ap (λ (y : Unit {0} × Database). (y.1).payment_applications) (ok-inj h),
        select-append p db.payment_applications (row ∷ []),
        sum_amounts-append (select p db.payment_applications) (select p (row ∷ [])),
        applied_to_own ctx payment_id invoice_id db.next_id cents,
      )
      (omega int_laws)

insert_transaction-same :
    (values : ℕ → ℕ → TransactionRow) (db mid : Database) (row : TransactionRow) (org id : RowId)
    → insert_transaction values db ≡ ok (row, mid)
    → sum_applied_cents org id mid ≡ sum_applied_cents org id db
unfolding insert_transaction sum_applied_cents
insert_transaction-same values db mid row org id h =
    ap
      (λ (y : TransactionRow × Database).
        sum_amounts (select (is_applied_to org id) (y.1).payment_applications))
      (sym (ok-inj h))

insert_payment-adds :
    (ctx : PaymentContext) (input : RecordPaymentInput) (invoice row : TransactionRow) (cents : ℤ)
    (deposit ar : RowId) (db out : Database)
    → insert_payment ctx input invoice cents deposit ar db ≡ ok (row, out)
    → sum_applied_cents ctx.org_id invoice.id out
      ≡ sum_applied_cents ctx.org_id invoice.id db +ℤ cents
unfolding insert_payment
insert_payment-adds ctx input invoice row cents deposit ar db out h =
    let (inserted, mid, e, h1) =
      bind-eq-ok (insert_transaction (payment_row ctx input invoice cents)) _ db h in
    let (u, mid', k, h2) =
      bind-eq-ok (insert_application (application_row ctx inserted.id invoice.id cents)) _ mid h1 in
    let s = sum_applied_cents ctx.org_id invoice.id db +ℤ cents in
    let here : IsApplied ctx.org_id invoice.id s mid' =
      rw (insert_application-adds ctx inserted.id invoice.id cents mid mid' k) (
        ap (λ z. z +ℤ cents)
          (insert_transaction-same (payment_row ctx input invoice cents) db mid inserted ctx.org_id
            invoice.id e)) in
    let (rows, mid'', l, h3) =
      bind-eq-ok (post_ledger (payment_postings ctx input invoice cents deposit ar inserted.id)) _
        mid' h2 in
    let there =
      (post_ledger-Keeps ctx.org_id invoice.id s
          (payment_postings ctx input invoice cents deposit ar inserted.id)).at
        mid' rows mid'' l here in
    subst (IsApplied ctx.org_id invoice.id s)
      (ap (λ (y : TransactionRow × Database). y.1) (ok-inj h3)) there

-- The writes of `recordPayment`, once its guards are passed and its accounts found.
abbrev settle :
    PaymentContext
    → RecordPaymentInput
    → TransactionRow
    → ℤ
    → RowId
    → RowId
    → Tx (TransactionRow × TransactionRow)
settle ctx input invoice cents deposit ar = do
  row ← insert_payment ctx input invoice cents deposit ar
  summary ← recompute_invoice ctx.org_id invoice
  write_audit_log (audit_row ctx row.id "payment")
  pure (row, summary)

settle-adds :
    (ctx : PaymentContext) (input : RecordPaymentInput) (invoice row summary : TransactionRow)
    (cents : ℤ) (deposit ar : RowId) (db out : Database)
    → settle ctx input invoice cents deposit ar db ≡ ok ((row, summary), out)
    → (sum_applied_cents ctx.org_id invoice.id out
        ≡ sum_applied_cents ctx.org_id invoice.id db +ℤ cents)
      × IsSettled invoice (sum_applied_cents ctx.org_id invoice.id out) summary
settle-adds ctx input invoice row summary cents deposit ar db out h =
    let (inserted, db3, e5, h5) =
      bind-eq-ok (insert_payment ctx input invoice cents deposit ar) _ db h in
    let (updated, db4, e6, h6) = bind-eq-ok (recompute_invoice ctx.org_id invoice) _ db3 h5 in
    let (u, db5, e7, h7) =
      bind-eq-ok (write_audit_log (audit_row ctx inserted.id "payment")) _ db4 h6 in
    let s = sum_applied_cents ctx.org_id invoice.id db +ℤ cents in
    let applied : IsApplied ctx.org_id invoice.id s db3 =
      insert_payment-adds ctx input invoice inserted cents deposit ar db db3 e5 in
    let same = ok-inj {x = ((inserted, updated), db5)} {y = ((row, summary), out)} h7 in
    let after : IsApplied ctx.org_id invoice.id s out =
      subst (IsApplied ctx.org_id invoice.id s)
        (ap (λ (y : (TransactionRow × TransactionRow) × Database). y.1) same)
        ((write_audit_log-Keeps ctx.org_id invoice.id s (audit_row ctx inserted.id "payment")).at
          db4 u db5 e7
          ((recompute_invoice-Keeps ctx.org_id invoice.id s invoice).at db3 updated db4 e6
            applied)) in
    (
      after,
      subst (IsSettled invoice (sum_applied_cents ctx.org_id invoice.id out))
          (ap (λ (y : (TransactionRow × TransactionRow) × Database). (y.0).1) same)
          (subst (λ z. IsSettled invoice z updated) (applied ∙ sym after)
            (recompute_invoice-IsSettled ctx.org_id invoice db3 db4 updated e6)),
    )

-- What a payment that goes through was given and what it leaves: the invoice it found was open or
-- partly paid, the amount is the positive one of the input, what is applied to the invoice has grown by
-- it and is not above the invoice's total, and the summary's status and balance are the ones derived
-- from that total and the new sum.
pub record_payment-settles :
    (ctx : PaymentContext) (id : RowId) (input : RecordPaymentInput) (db out : Database)
    (row summary : TransactionRow)
    → record_payment ctx id input db ≡ ok ((row, summary), out)
    → (invoice : TransactionRow) × (cents : ℤ) × (find_invoice ctx.org_id id db ≡ some invoice)
      × (is_payable invoice.status ≡ true)
      × (to_cents input.amount ≡ some cents)
      × (pos 0 <ℤ cents)
      × (sum_applied_cents ctx.org_id invoice.id out
          ≡ sum_applied_cents ctx.org_id invoice.id db +ℤ cents)
      × (sum_applied_cents ctx.org_id invoice.id out ≤ℤ invoice.total)
      × IsSettled invoice (sum_applied_cents ctx.org_id invoice.id out) summary
unfolding record_payment load_invoice
record_payment-settles ctx id input db out row summary h =
    let (invoice, e1, h1) = some_or_raise-eq-ok (find_invoice ctx.org_id id db) not_found _ db h in
    let (cents, db1, e2, h2) = bind-eq-ok (checked_amount ctx invoice input) _ db h1 in
    let (parsed, positive, fits, payable, same) =
      checked_amount-fits ctx invoice input db db1 cents e2 in
    let (ar, e3, h3) =
      some_or_raise-eq-ok (get_account_by_subtype ctx.org_id "accounts_receivable" db1)
        chart_not_seeded _ db1 h2 in
    let (deposit, db2, e4, h4) =
      bind-eq-ok (resolve_deposit_account ctx.org_id input.deposit_account_id) _ db1 h3 in
    let (adds, settled) =
      settle-adds ctx input invoice row summary cents deposit.id ar.id db2 out h4 in
    let before : sum_applied_cents ctx.org_id invoice.id db2
        ≡ sum_applied_cents ctx.org_id invoice.id db =
      (resolve_deposit_account-Keeps ctx.org_id invoice.id
          (sum_applied_cents ctx.org_id invoice.id db) input.deposit_account_id).at
        db1 deposit db2 e4 (ap (sum_applied_cents ctx.org_id invoice.id) (sym same)) in
    let after = adds ∙ ap (λ z. z +ℤ cents) before in
    (
      invoice,
      cents,
      e1,
      payable,
      parsed,
      positive,
      after,
      subst (λ z. z ≤ℤ invoice.total) (sym after) fits,
      settled,
    )
