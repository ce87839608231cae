-- ===== src/Payments/Found.antt =====
-- The invoice that is found after a payment has the status of the payment's summary.
use mathlib.Core.Path.{subst}
use invoicing_platform.Prelude.{
  ℕ, ◌≡◌, refl, sym, ap, ◌∙◌, ◌&&◌, Bool, Bool-cases, true, inl, inr, Option, none, some, List, [],
  ◌∷◌, ◌++◌, ◌==◌, ==_iff, arith, first, first-update,
}
use invoicing_platform.Prelude.Unique.{first-fits}
use invoicing_platform.Prelude.Int.{ℤ}
use invoicing_platform.Database.{
  RowId, TransactionRow, PaymentApplicationRow, AuditLogRow, Database, Tx, ok, not_found,
  chart_not_seeded, version_conflict, transaction, bind-eq-ok, ok-inj, some_or_raise-eq-ok,
  SyncEntityType, SyncLinkRow, LedgerEntryRow,
}
use invoicing_platform.Database.Keeps.{Keeps, keeps_rules}
use invoicing_platform.Database.Statements.{
  insert_transaction, insert_application, update_transactions, write_audit_log,
}
use invoicing_platform.Accounts.{get_account_by_subtype}
use invoicing_platform.Ledger.{ParsedLine, PostLedgerInput, post_ledger, insert_entries}
use invoicing_platform.Sync.Links.{bump_local_version}
use invoicing_platform.Payments.{
  PaymentContext, RecordPaymentInput, find_invoice, load_invoice, checked_amount, insert_payment,
  sum_applied_cents, recompute_invoice, recomputed, resolve_deposit_account, record_payment,
  audit_row,
}
use invoicing_platform.Payments.Applied.{checked_amount-fits, recompute_invoice-IsSettled}

first-append :
    {A : Type 0} (p : A → Bool) (xs ys : List A) {x : A}
    → first p xs ≡ some x
    → first p (xs ++ ys) ≡ some x
first-append p [] ys h = absurd (cc)
first-append p (y ∷ xs) ys h = elim (Bool-cases (p y)) [
  | inl e ↦ rw e (rw e at h)
  | inr e ↦ rw e (first-append p xs ys (rw e at h))
]

-- The steps before the recompute leave the invoice where it is found.
module _ (org id : RowId) (t : TransactionRow) where
  abbrev IsFound : Database → Type 0
  IsFound db = find_invoice org id db ≡ some t

  unchanged-Keeps :
      {A : Type 0} (m : Tx A)
      → ((db : Database) (a : A) (out : Database)
          → m db ≡ ok (a, out)
          → db.transactions ≡ out.transactions)
      → ((db : Database) (a : A) (out : Database)
          → m db ≡ ok (a, out)
          → db.processed_events ≡ out.processed_events)
      → Keeps IsFound m
  unfolding find_invoice
  unchanged-Keeps m f g = record { at = λ db a out h p. rw (← f db a out h) p; events = g }

  insert_transaction-Keeps :
      (values : ℕ → ℕ → TransactionRow) → Keeps IsFound (insert_transaction values)
  unfolding insert_transaction find_invoice
  insert_transaction-Keeps values = record {
    at = λ db a out h p.
        rw (← ap (λ (y : TransactionRow × Database). (y.1).transactions) (ok-inj h))
          (first-append _ db.transactions _ p);
    events =
        λ db a out h. ap (λ (y : TransactionRow × Database). (y.1).processed_events) (ok-inj h);
  }

  insert_application-Keeps :
      (values : ℕ → PaymentApplicationRow) → Keeps IsFound (insert_application values)
  unfolding insert_application
  insert_application-Keeps values =
      unchanged-Keeps (insert_application values)
        (λ db a out h. ap (λ (y : Unit {0} × Database). (y.1).transactions) (ok-inj h))
        (λ db a out h. ap (λ (y : Unit {0} × Database). (y.1).processed_events) (ok-inj h))

  write_audit_log-Keeps : (entry : AuditLogRow) → Keeps IsFound (write_audit_log entry)
  unfolding write_audit_log
  write_audit_log-Keeps entry =
      unchanged-Keeps (write_audit_log entry)
        (λ db a out h. ap (λ (y : Unit {0} × Database). (y.1).transactions) (ok-inj h))
        (λ db a out h. ap (λ (y : Unit {0} × Database). (y.1).processed_events) (ok-inj h))

  bump_local_version-Keeps :
      (entity : SyncEntityType) (local : RowId)
      → Keeps IsFound (bump_local_version org entity local)
  unfolding bump_local_version
  bump_local_version-Keeps entity local =
      unchanged-Keeps (bump_local_version org entity local)
        (λ db a out h. ap (λ (y : Option SyncLinkRow × Database). (y.1).transactions) (ok-inj h))
        (λ db a out h.
          ap (λ (y : Option SyncLinkRow × Database). (y.1).processed_events) (ok-inj h))

  insert_entries-Keeps :
      (input : PostLedgerInput) (ps : List ParsedLine) → Keeps IsFound (insert_entries input ps)
  unfolding insert_entries
  insert_entries-Keeps input ps =
      unchanged-Keeps (insert_entries input ps)
        (λ db a out h. ap (λ (y : List LedgerEntryRow × Database). (y.1).transactions) (ok-inj h))
        (λ db a out h.
          ap (λ (y : List LedgerEntryRow × Database). (y.1).processed_events) (ok-inj h))

  post_ledger-Keeps : (input : PostLedgerInput) → Keeps IsFound (post_ledger input)
  unfolding post_ledger
  post_ledger-Keeps input = search (keeps_rules, insert_entries-Keeps)

  resolve_deposit_account-Keeps :
      (account : Option RowId) → Keeps IsFound (resolve_deposit_account org account)
  unfolding resolve_deposit_account
  resolve_deposit_account-Keeps none = search keeps_rules
  resolve_deposit_account-Keeps (some account) = search keeps_rules depth 8

  insert_payment-Keeps :
      (ctx : PaymentContext) (input : RecordPaymentInput) (invoice : TransactionRow) (cents : ℤ)
      (deposit ar : RowId)
      → Keeps IsFound (insert_payment ctx input invoice cents deposit ar)
  unfolding insert_payment
  insert_payment-Keeps ctx input invoice cents deposit ar =
      search (keeps_rules, insert_transaction-Keeps, insert_application-Keeps, post_ledger-Keeps)
        depth 10

-- The row that a recompute is to write.
abbrev is_version_of : RowId → TransactionRow → TransactionRow → Bool
is_version_of org invoice t = t.org_id == org && t.id == invoice.id && t.version == invoice.version

first_of : (a b c : Bool) → (a && b && c) ≡ true → a ≡ true
first_of a b c h = ground arith

pub second_of : (a b c : Bool) → (a && b && c) ≡ true → b ≡ true
second_of a b c h = ground arith

found-is_version_of :
    (org id : RowId) (invoice : TransactionRow) (db : Database)
    → find_invoice org id db ≡ some invoice
    → is_version_of org invoice invoice ≡ true
unfolding find_invoice
found-is_version_of org id invoice db found =
    let in_org = first_of (invoice.org_id == org) _ _ (first-fits _ db.transactions found) in
    rw
      (
        in_org,
        (==_iff invoice.id invoice.id).1 refl,
        (==_iff invoice.version invoice.version).1 refl,
      )
      refl

update-found :
    (org id : RowId) (invoice : TransactionRow) (s : ℤ) (o : Option TransactionRow)
    (db mid : Database)
    → find_invoice org id db ≡ some invoice
    → update_transactions (is_version_of org invoice) (recomputed invoice s) db ≡ ok (o, mid)
    → find_invoice org id mid ≡ some (recomputed invoice s db.now invoice)
unfolding update_transactions find_invoice
update-found org id invoice s o db mid found h =
    rw (← ap (λ (y : Option TransactionRow × Database). (y.1).transactions) (ok-inj h)) (
      first-update _ (is_version_of org invoice) (recomputed invoice s db.now) db.transactions
        (λ t. refl)
      ∙ rw (found, found-is_version_of org id invoice db found) refl)

-- The recompute writes the row that is found.
recomputed-found :
    (org id : RowId) (invoice updated : TransactionRow) (db out : Database)
    → find_invoice org id db ≡ some invoice
    → recompute_invoice org invoice db ≡ ok (updated, out)
    → find_invoice org id out
      ≡ some (recomputed invoice (sum_applied_cents org invoice.id db) db.now invoice)
unfolding recompute_invoice
recomputed-found org id invoice updated db out found h =
    let s = sum_applied_cents org invoice.id db in
    let t = recomputed invoice s db.now invoice in
    let (o, mid, e, h1) =
      bind-eq-ok (update_transactions (is_version_of org invoice) (recomputed invoice s)) _ db h in
    let (row, k, h2) = some_or_raise-eq-ok o version_conflict _ mid h1 in
    let (l, end, b, h3) = bind-eq-ok (bump_local_version org transaction invoice.id) _ mid h2 in
    subst (IsFound org id t) (ap (λ (y : TransactionRow × Database). y.1) (ok-inj h3)) (
      (bump_local_version-Keeps org id t transaction invoice.id).at mid l end b
        (update-found org id invoice s o db mid found e))

-- The invoice that is found after a payment has the status of the summary.
pub record_payment-found :
    (ctx : PaymentContext) (id : RowId) (input : RecordPaymentInput) (db out : Database)
    (row summary : TransactionRow)
    → record_payment ctx id input db ≡ ok ((row, summary), out)
    → (t : TransactionRow) × (find_invoice ctx.org_id id out ≡ some t) × (t.status ≡ summary.status)
unfolding record_payment load_invoice
record_payment-found ctx id input db out row summary h =
    let (invoice, e1, h1) = some_or_raise-eq-ok (find_invoice ctx.org_id id db) not_found _ db h in
    let (cents, db1, e2, h2) = bind-eq-ok (checked_amount ctx invoice input) _ db h1 in
    let (parsed, positive, fits, payable, same) =
      checked_amount-fits ctx invoice input db db1 cents e2 in
    let (ar, e3, h3) =
      some_or_raise-eq-ok (get_account_by_subtype ctx.org_id "accounts_receivable" db1)
        chart_not_seeded _ db1 h2 in
    let (deposit, db2, e4, h4) =
      bind-eq-ok (resolve_deposit_account ctx.org_id input.deposit_account_id) _ db1 h3 in
    let (inserted, db3, e5, h5) =
      bind-eq-ok (insert_payment ctx input invoice cents deposit.id ar.id) _ db2 h4 in
    let (updated, db4, e6, h6) = bind-eq-ok (recompute_invoice ctx.org_id invoice) _ db3 h5 in
    let (u, db5, e7, h7) =
      bind-eq-ok (write_audit_log (audit_row ctx inserted.id "payment")) _ db4 h6 in
    let found1 : find_invoice ctx.org_id id db1 ≡ some invoice =
      subst (IsFound ctx.org_id id invoice) same e1 in
    let found2 =
      (resolve_deposit_account-Keeps ctx.org_id id invoice input.deposit_account_id).at db1 deposit
        db2 e4 found1 in
    let found3 =
      (insert_payment-Keeps ctx.org_id id invoice ctx input invoice cents deposit.id ar.id).at db2
        inserted db3 e5 found2 in
    let t = recomputed invoice (sum_applied_cents ctx.org_id invoice.id db3) db3.now invoice in
    let found4 = recomputed-found ctx.org_id id invoice updated db3 db4 found3 e6 in
    let found5 =
      (write_audit_log-Keeps ctx.org_id id t (audit_row ctx inserted.id "payment")).at db4 u db5 e7
        found4 in
    let same' = ok-inj {x = ((inserted, updated), db5)} {y = ((row, summary), out)} h7 in
    (
      t,
      subst (IsFound ctx.org_id id t)
          (ap (λ (y : (TransactionRow × TransactionRow) × Database). y.1) same') found5,
      sym (recompute_invoice-IsSettled ctx.org_id invoice db3 db4 updated e6).0
          ∙ ap (λ (y : (TransactionRow × TransactionRow) × Database). (y.0).1.status) same',
    )
