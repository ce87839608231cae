-- ===== src/Invoices/Voiding.antt =====
-- `voidInvoice` on an open invoice goes through, once.
use invoicing_platform.Prelude.{
  ℕ, ◌+◌, ◌≡◌, refl, ap, ◌&&◌, Bool, true, false, some, List, arith, ◌==◌, first, update,
  first-update, first-exists, [], ◌∷◌, ◌++◌,
}
use invoicing_platform.Prelude.Unique.{first-fits}
use invoicing_platform.Prelude.Int.{pos}
use invoicing_platform.Database.{
  RowId, TransactionRow, TransactionLineRow, Database, opened, voided, ok, err, invalid_state,
}
use invoicing_platform.Database.Statements.{update_transactions, write_audit_log}
use invoicing_platform.Ledger.{entries_of}
use invoicing_platform.Ledger.Sums.{account_net}
use invoicing_platform.Ledger.ZeroOut.{IsBalancedTxn, cleared, zero_out_ledger-eq, nets-cleared}
use invoicing_platform.Invoices.{
  InvoiceContext, is_invoice_row, load_invoice_row, update_versioned_invoice, voided_row,
  zero_out_of, fetch_invoice_lines, audit_row, void_invoice,
}

-- The row that a versioned update of `existing` changes.
abbrev is_version_of : RowId → RowId → ℕ → TransactionRow → Bool
is_version_of org id version t = t.org_id == org && t.id == id && t.version == version

is_version_of_itself :
    (d : Bool) (org id : RowId) (existing : TransactionRow)
    → is_invoice_row d org id existing ≡ true
    → is_version_of org id existing.version existing ≡ true
is_version_of_itself d org id existing h = ground arith

version_same :
    (org id : RowId) (version : ℕ) (t : TransactionRow)
    → is_version_of org id version t ≡ true
    → t.version ≡ version
version_same org id version t h = ground arith

voided_fits :
    (org id : RowId) (now : ℕ) (t : TransactionRow)
    → is_invoice_row false org id (voided_row now t) ≡ is_invoice_row false org id t
voided_fits org id now t = refl

module _ (ctx : InvoiceContext) (id : RowId) (db : Database) (existing : TransactionRow) where
  -- The database after the invoice is voided.
  abbrev after_void : Database
  after_void = record (cleared (zero_out_of ctx id existing) db) {
    transactions =
        update (is_version_of ctx.org_id id existing.version) (voided_row db.now) db.transactions;
    sync_audit_logs = db.sync_audit_logs ++ (audit_row ctx id "void" ∷ []);
  }

module _ (ctx : InvoiceContext) (id : RowId) (db : Database) (existing : TransactionRow)
    (found : first (is_invoice_row false ctx.org_id id) db.transactions ≡ some existing) where
  changed-exists :
      (t : TransactionRow) × (first (is_version_of ctx.org_id id existing.version) db.transactions
        ≡ some t)
      × (is_version_of ctx.org_id id existing.version t ≡ true)
  changed-exists =
      first-exists (is_version_of ctx.org_id id existing.version)
        (is_invoice_row false ctx.org_id id) db.transactions found
        (is_version_of_itself false ctx.org_id id existing
          (first-fits (is_invoice_row false ctx.org_id id) db.transactions found))

  void_invoice-eq :
      existing.status ≡ opened
      → IsBalancedTxn ctx.org_id id db
      → (t : TransactionRow)
      → first (is_version_of ctx.org_id id existing.version) db.transactions ≡ some t
      → void_invoice ctx id db
        ≡ ok (
          (voided_row db.now t, fetch_invoice_lines ctx.org_id id db),
          after_void ctx id db existing,
        )
  unfolding void_invoice load_invoice_row update_versioned_invoice update_transactions
      write_audit_log fetch_invoice_lines
  void_invoice-eq is_opened balanced t e =
      rw (found, is_opened, zero_out_ledger-eq (zero_out_of ctx id existing) db balanced, e)

  found_after :
      first (is_invoice_row false ctx.org_id id) (after_void ctx id db existing).transactions
      ≡ some (voided_row db.now existing)
  found_after = rw (
    first-update (is_invoice_row false ctx.org_id id) (is_version_of ctx.org_id id existing.version)
        (voided_row db.now) db.transactions (voided_fits ctx.org_id id db.now),
    found,
    is_version_of_itself false ctx.org_id id existing
        (first-fits (is_invoice_row false ctx.org_id id) db.transactions found),
  )

  void_again : void_invoice ctx id (after_void ctx id db existing) ≡ err invalid_state
  unfolding void_invoice load_invoice_row
  void_again = rw found_after

-- Voiding an open invoice whose entries balance goes through: the row it returns is void with balance
-- zero and the next version, and every account of the invoice nets to zero. Voiding it once more is
-- refused as an invalid state.
pub void_invoice-clears :
    (ctx : InvoiceContext) (id : RowId) (db : Database) (existing : TransactionRow)
    → first (is_invoice_row false ctx.org_id id) db.transactions ≡ some existing
    → existing.status ≡ opened
    → IsBalancedTxn ctx.org_id id db
    → (row : TransactionRow) × (lines : List TransactionLineRow) × (out : Database) × (void_invoice
          ctx id db
        ≡ ok ((row, lines), out))
      × (row.status ≡ voided)
      × (row.balance ≡ pos 0)
      × (row.version ≡ existing.version + 1)
      × ((a : RowId) → account_net a (entries_of ctx.org_id id out) ≡ pos 0)
      × (void_invoice ctx id out ≡ err invalid_state)
void_invoice-clears ctx id db existing found is_opened balanced =
    let (t, e, fits) = changed-exists ctx id db existing found in
    (
      voided_row db.now t,
      fetch_invoice_lines ctx.org_id id db,
      after_void ctx id db existing,
      void_invoice-eq ctx id db existing found is_opened balanced t e,
      refl,
      refl,
      ap (λ v. v + 1) (version_same ctx.org_id id existing.version t fits),
      nets-cleared (zero_out_of ctx id existing) db,
      void_again ctx id db existing found,
    )
