-- ===== src/Database/Statements.antt =====
-- The statements that the services run on a table.
use mathlib.Core.Option
use invoicing_platform.Prelude.{
  ℕ, suc, ◌+◌, Bool, Option, List, [], ◌∷◌, ◌++◌, first, update, remove,
}
use invoicing_platform.Database.Tables.{
  ContactRow, TransactionRow, TransactionLineRow, PaymentApplicationRow, AuditLogRow,
}
use invoicing_platform.Database.Transactions.{ok, Tx, modify}

-- `insert(transactions).values(…).returning()`: `values` is given the new id and the clock.
unfoldable pub insert_transaction : (ℕ → ℕ → TransactionRow) → Tx TransactionRow
insert_transaction values db =
    let row = values db.next_id db.now in
    ok (row, record db { transactions = db.transactions ++ (row ∷ []); next_id = suc db.next_id })

-- `update(transactions).set(f).where(p).returning()`
unfoldable pub update_transactions :
    (TransactionRow → Bool) → (ℕ → TransactionRow → TransactionRow) → Tx (Option TransactionRow)
update_transactions p f db = ok (
  Option.map (f db.now) (first p db.transactions),
  record db { transactions = update p (f db.now) db.transactions },
)

unfoldable pub insert_application : (ℕ → PaymentApplicationRow) → Tx Unit
insert_application values = modify (λ db. record db {
  payment_applications = db.payment_applications ++ (values db.next_id ∷ []);
  next_id = suc db.next_id;
})

unfoldable pub delete_applications : (PaymentApplicationRow → Bool) → Tx Unit
delete_applications p =
    modify (λ db. record db { payment_applications = remove p db.payment_applications })

unfoldable pub delete_lines : (TransactionLineRow → Bool) → Tx Unit
delete_lines p = modify (λ db. record db { transaction_lines = remove p db.transaction_lines })

unfoldable pub insert_lines : (ℕ → List TransactionLineRow) → ℕ → Tx (List TransactionLineRow)
insert_lines values count db =
    let rows = values db.next_id in
    ok (
      rows,
      record db { transaction_lines = db.transaction_lines ++ rows; next_id = db.next_id + count },
    )

-- apps/api/src/audit/service.ts: `writeAuditLog`
unfoldable pub write_audit_log : AuditLogRow → Tx Unit
write_audit_log entry =
    modify (λ db. record db { sync_audit_logs = db.sync_audit_logs ++ (entry ∷ []) })

-- `insert(contacts).values(…).returning()`
unfoldable pub insert_contact : (ℕ → ContactRow) → Tx ContactRow
insert_contact values db =
    let row = values db.next_id in
    ok (row, record db { contacts = db.contacts ++ (row ∷ []); next_id = suc db.next_id })

-- `insert(paymentApplications).values(…)` of several rows.
unfoldable pub insert_applications : (ℕ → List PaymentApplicationRow) → ℕ → Tx Unit
insert_applications values count = modify (λ db. record db {
  payment_applications = db.payment_applications ++ values db.next_id;
  next_id = db.next_id + count;
})
