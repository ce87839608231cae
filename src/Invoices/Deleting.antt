-- ===== src/Invoices/Deleting.antt =====
-- `deleteInvoice` on an unpaid invoice goes through, hides it, and is idempotent.
use invoicing_platform.Prelude.{
  ℕ, ◌+◌, ◌≡◌, refl, ◌&&◌, inl, inr, Bool, true, false, none, some, List, [], ◌∷◌, ◌++◌, arith,
  ◌==◌, Bool-cases, first, update, first-update, first-exists, first-update-none, if◌then◌else◌,
}
use invoicing_platform.Prelude.Unique.{first-fits}
use invoicing_platform.Prelude.Int.{pos}
use invoicing_platform.Database.{
  RowId, TransactionRow, TransactionLineRow, Database, ok, err, not_found,
}
use invoicing_platform.Database.Statements.{update_transactions, write_audit_log}
use invoicing_platform.Ledger.{entries_of}
use invoicing_platform.Ledger.Sums.{account_net}
use invoicing_platform.Ledger.ZeroOut.{IsBalancedTxn, cleared, zero_out_ledger-eq, nets-cleared}
use invoicing_platform.Invoices.Lines.{JsNumber}
use invoicing_platform.Invoices.{
  InvoiceContext, UpdateInvoiceInput, deleted, skipped, is_invoice_row, load_invoice_row,
  has_payments, deleted_row, zero_out_of, fetch_invoice_lines, audit_row, update_invoice,
  void_invoice, delete_live_invoice, delete_invoice,
}
use invoicing_platform.Payments.{RecordPaymentInput, find_invoice, load_invoice, record_payment}

abbrev is_row_of : RowId → RowId → TransactionRow → Bool
is_row_of org id t = t.org_id == org && t.id == id

is_row_of_itself :
    (org id : RowId) (t : TransactionRow)
    → is_invoice_row true org id t ≡ true
    → is_row_of org id t ≡ true
is_row_of_itself org id t h = ground arith

deleted_fits :
    (org id : RowId) (existing : TransactionRow) (now : ℕ) (t : TransactionRow)
    → is_invoice_row true org id (deleted_row existing now t) ≡ is_invoice_row true org id t
deleted_fits org id existing now t = refl

dead : (a b c : Bool) → (a && b && (c && false)) ≡ false
dead a b c = ground arith

other : (a b c : Bool) → (a && b) ≡ false → (a && b && c) ≡ false
other a b c h = ground arith

-- No row of the invoice is left that is not deleted.
deleted_hidden :
    (org id : RowId) (existing : TransactionRow) (now : ℕ) (t : TransactionRow)
    → is_invoice_row false org id (if is_row_of org id t then deleted_row existing now t else t)
      ≡ false
deleted_hidden org id existing now t = elim (Bool-cases (is_row_of org id t)) [
  | inl e ↦ rw e (dead (t.org_id == org) (t.id == id) _)
  | inr e ↦ rw e (other (t.org_id == org) (t.id == id) _ e)
]

module _ (ctx : InvoiceContext) (id : RowId) (db : Database) (existing : TransactionRow) where
  abbrev after_delete : Database
  after_delete = record (cleared (zero_out_of ctx id existing) db) {
    transactions = update (is_row_of ctx.org_id id) (deleted_row existing db.now) db.transactions;
    sync_audit_logs = db.sync_audit_logs ++ (audit_row ctx id "delete" ∷ []);
  }

  hidden : first (is_invoice_row false ctx.org_id id) after_delete.transactions ≡ none
  hidden =
      first-update-none (is_invoice_row false ctx.org_id id) (is_row_of ctx.org_id id)
        (deleted_row existing db.now) db.transactions (deleted_hidden ctx.org_id id existing db.now)

  void_hidden : void_invoice ctx id after_delete ≡ err not_found
  unfolding void_invoice load_invoice_row
  void_hidden = rw hidden

  update_hidden :
      (js : JsNumber) (patch : UpdateInvoiceInput)
      → update_invoice js ctx id patch after_delete ≡ err not_found
  unfolding update_invoice load_invoice_row
  update_hidden js patch = rw hidden

  payment_hidden :
      (user : RowId) (input : RecordPaymentInput)
      → record_payment (record { org_id = ctx.org_id; user_id = user }) id input after_delete
        ≡ err not_found
  unfolding record_payment load_invoice find_invoice
  payment_hidden user input = rw hidden

module _ (ctx : InvoiceContext) (id : RowId) (db : Database) (existing : TransactionRow)
    (found : first (is_invoice_row true ctx.org_id id) db.transactions ≡ some existing) where
  fits : is_row_of ctx.org_id id existing ≡ true
  fits =
      is_row_of_itself ctx.org_id id existing
        (first-fits (is_invoice_row true ctx.org_id id) db.transactions found)

  delete_invoice-eq :
      existing.deleted_at ≡ none
      → has_payments existing.status ≡ false
      → IsBalancedTxn ctx.org_id id db
      → (t : TransactionRow) → first (is_row_of ctx.org_id id) db.transactions ≡ some t
      → delete_invoice ctx id db
        ≡ ok (
          deleted (deleted_row existing db.now t) (fetch_invoice_lines ctx.org_id id db),
          after_delete ctx id db existing,
        )
  unfolding delete_invoice delete_live_invoice load_invoice_row update_transactions write_audit_log
      fetch_invoice_lines
  delete_invoice-eq live unpaid balanced t e =
      rw (found, live, unpaid, zero_out_ledger-eq (zero_out_of ctx id existing) db balanced, e)

  found_deleted :
      first (is_invoice_row true ctx.org_id id) (after_delete ctx id db existing).transactions
      ≡ some (deleted_row existing db.now existing)
  found_deleted = rw (
    first-update (is_invoice_row true ctx.org_id id) (is_row_of ctx.org_id id)
        (deleted_row existing db.now) db.transactions (deleted_fits ctx.org_id id existing db.now),
    found,
    fits,
  )

  delete_again :
      delete_invoice ctx id (after_delete ctx id db existing)
      ≡ ok (
        skipped (deleted_row existing db.now existing) (fetch_invoice_lines ctx.org_id id db),
        after_delete ctx id db existing,
      )
  unfolding delete_invoice load_invoice_row fetch_invoice_lines
  delete_again = rw found_deleted

-- Deleting an invoice that has no payments and whose entries balance goes through: the row it returns is
-- marked deleted, has balance zero and the next version, and every account of the invoice nets to zero.
-- From then on the invoice is not found by an edit, a void or a payment, and deleting it once more is
-- skipped and leaves the database as it is.
pub delete_invoice-hides :
    (ctx : InvoiceContext) (id : RowId) (db : Database) (existing : TransactionRow)
    → first (is_invoice_row true ctx.org_id id) db.transactions ≡ some existing
    → existing.deleted_at ≡ none
    → has_payments existing.status ≡ false
    → IsBalancedTxn ctx.org_id id db
    → (row : TransactionRow) × (lines : List TransactionLineRow) × (out : Database)
      × (delete_invoice ctx id db ≡ ok (deleted row lines, out))
      × (row.deleted_at ≡ some db.now)
      × (row.balance ≡ pos 0)
      × (row.version ≡ existing.version + 1)
      × ((a : RowId) → account_net a (entries_of ctx.org_id id out) ≡ pos 0)
      × ((js : JsNumber) (patch : UpdateInvoiceInput)
          → update_invoice js ctx id patch out ≡ err not_found)
      × (void_invoice ctx id out ≡ err not_found)
      × ((user : RowId) (input : RecordPaymentInput)
          → record_payment (record { org_id = ctx.org_id; user_id = user }) id input out
            ≡ err not_found)
      × (again : TransactionRow) × (delete_invoice ctx id out ≡ ok (skipped again lines, out))
delete_invoice-hides ctx id db existing found live unpaid balanced =
    let (t, e, _) =
      first-exists (is_row_of ctx.org_id id) (is_invoice_row true ctx.org_id id) db.transactions
        found (fits ctx id db existing found) in
    (
      deleted_row existing db.now t,
      fetch_invoice_lines ctx.org_id id db,
      after_delete ctx id db existing,
      delete_invoice-eq ctx id db existing found live unpaid balanced t e,
      refl,
      refl,
      refl,
      nets-cleared (zero_out_of ctx id existing) db,
      update_hidden ctx id db existing,
      void_hidden ctx id db existing,
      payment_hidden ctx id db existing,
      deleted_row existing db.now existing,
      delete_again ctx id db existing found,
    )
