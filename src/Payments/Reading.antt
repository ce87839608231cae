-- ===== src/Payments/Reading.antt =====
-- apps/api/src/payments/service.ts: `getPayment` and `listPaymentsForInvoice`, which a deleted payment is
-- hidden from.
use mathlib.Core.Path.{subst}
use invoicing_platform.Prelude.{
  ℕ, ◌+◌, ◌≡◌, ap, inl, inr, Bool, Bool-cases, true, false, ◌&&◌, ◌||◌, not, Option, none, some,
  List, [], ◌∷◌, ◌==◌, arith, first, select, first-update-none, is_some, if◌then◌else◌,
}
use invoicing_platform.Database.{
  RowId, TransactionRow, PaymentApplicationRow, Database, ok, err, not_found, Tx, gets, ok-inj,
  bind-eq-ok, some_or_raise-eq-ok, failed_write, ◌>>=◌,
}
use invoicing_platform.Database.Statements.{update_transactions, write_audit_log}
use invoicing_platform.Payments.{
  PaymentContext, is_payment, is_applied_to, find_application, load_invoice, load_payment,
  void_payment, reverse_if_applied, DeletePaymentResult, deleted, delete_live_payment,
  delete_loaded, delete_payment, audit_row,
}

-- A payment that is not deleted.
abbrev pub is_live_payment : RowId → RowId → TransactionRow → Bool
is_live_payment org id t =
    t.org_id == org && t.id == id && (is_payment t.type && (false || not (is_some t.deleted_at)))

unfoldable pub get_payment : RowId → RowId → Database → Option TransactionRow
get_payment org id db = first (is_live_payment org id) db.transactions

abbrev find_live : RowId → RowId → Database → Option TransactionRow
find_live org id db =
    first (λ t. t.org_id == org && t.id == id && not (is_some t.deleted_at)) db.transactions

abbrev push_some : Option TransactionRow → List TransactionRow → List TransactionRow
push_some none rows = rows
push_some (some row) rows = row ∷ rows

abbrev payments_of : RowId → Database → List PaymentApplicationRow → List TransactionRow
payments_of org db [] = []
payments_of org db (a ∷ rest) =
    push_some (find_live org a.payment_txn_id db) (payments_of org db rest)

unfoldable pub list_payments_for_invoice : RowId → RowId → Tx (List TransactionRow)
list_payments_for_invoice org invoice_id = do
  invoice ← load_invoice org invoice_id
  gets (λ db. payments_of org db (select (is_applied_to org invoice_id) db.payment_applications))

abbrev IsHidden : RowId → RowId → Database → Type 0
IsHidden org id db = first (is_live_payment org id) db.transactions ≡ none

dead : (a b c : Bool) → (a && b && (c && false)) ≡ false
dead a b c = ground arith

other : (a b c : Bool) → (a && b) ≡ false → (a && b && c) ≡ false
other a b c h = ground arith

-- What `deletePayment` writes, and to which rows.
abbrev stamped : TransactionRow → ℕ → TransactionRow → TransactionRow
stamped row now t = record t { deleted_at = some now; version = row.version + 1; updated_at = now }

abbrev is_row_of : RowId → RowId → TransactionRow → Bool
is_row_of org id t = t.org_id == org && t.id == id

stamped_hidden :
    (org id : RowId) (row : TransactionRow) (now : ℕ) (t : TransactionRow)
    → is_live_payment org id (if is_row_of org id t then stamped row now t else t) ≡ false
stamped_hidden org id row now t = elim (Bool-cases (is_row_of org id t)) [
  | inl e ↦ rw e (dead (t.org_id == org) (t.id == id) _)
  | inr e ↦ rw e (other (t.org_id == org) (t.id == id) _ e)
]

update-IsHidden :
    (org id : RowId) (row : TransactionRow) (db out : Database) (o : Option TransactionRow)
    → update_transactions (is_row_of org id) (stamped row) db ≡ ok (o, out)
    → IsHidden org id out
unfolding update_transactions
update-IsHidden org id row db out o h =
    rw (← ap (λ (y : Option TransactionRow × Database). (y.1).transactions) (ok-inj h)) (
      first-update-none (is_live_payment org id) (is_row_of org id) (stamped row db.now)
        db.transactions (stamped_hidden org id row db.now))

audit-IsHidden :
    (ctx : PaymentContext) (org id : RowId) (db out : Database)
    → write_audit_log (audit_row ctx id "delete") db ≡ ok (tt, out)
    → IsHidden org id db
    → IsHidden org id out
unfolding write_audit_log
audit-IsHidden ctx org id db out h hidden =
    rw (← ap (λ (y : Unit {0} × Database). (y.1).transactions) (ok-inj h)) hidden

loaded-IsHidden :
    (ctx : PaymentContext) (id : RowId) (loaded : TransactionRow) (d : Option ℕ) (db out : Database)
    (row : TransactionRow) (summary : Option TransactionRow)
    → delete_loaded ctx id loaded d db ≡ ok (deleted row summary, out)
    → IsHidden ctx.org_id id out
unfolding delete_live_payment
loaded-IsHidden ctx id loaded (some n) db out row summary h = absurd (cc)
loaded-IsHidden ctx id loaded none db out row summary h =
    let (s, mid, _, h1) =
      bind-eq-ok (reverse_if_applied ctx loaded (find_application ctx.org_id id db)) _ db h in
    let (o, mid', e, h2) =
      bind-eq-ok (update_transactions (is_row_of ctx.org_id id) (stamped loaded)) _ mid h1 in
    let (r, _, h3) = some_or_raise-eq-ok o failed_write _ mid' h2 in
    let (u, last, k, h4) = bind-eq-ok (write_audit_log (audit_row ctx id "delete")) _ mid' h3 in
    subst (IsHidden ctx.org_id id) (ap (λ (y : DeletePaymentResult × Database). y.1) (ok-inj h4)) (
      audit-IsHidden ctx ctx.org_id id mid' last k
        (update-IsHidden ctx.org_id id loaded mid mid' o e))

-- Once a deletion of a payment has gone through, the payment is found no more, and a void of it fails
-- as not found.
pub delete_payment-hides :
    (ctx : PaymentContext) (id : RowId) (db out : Database) (row : TransactionRow)
    (summary : Option TransactionRow)
    → delete_payment ctx id db ≡ ok (deleted row summary, out)
    → (get_payment ctx.org_id id out ≡ none) × (void_payment ctx id out ≡ err not_found)
unfolding delete_payment load_payment get_payment void_payment
delete_payment-hides ctx id db out row summary h =
    let (loaded, mid, _, h1) = bind-eq-ok (load_payment true ctx.org_id id) _ db h in
    let hidden = loaded-IsHidden ctx id loaded loaded.deleted_at mid out row summary h1 in
    (hidden, rw hidden)
