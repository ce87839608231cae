-- ===== src/Payments/Applied.antt =====
-- `recordPayment` and what is applied to the invoice: no overpayment, and the balance and status that
-- the recompute writes.
use mathlib.Core.Path.{subst}
use mathlib.Core.Option
use invoicing_platform.Prelude.{
  ℕ, ◌≡◌, refl, sym, ap, ◌∙◌, ◌&&◌, Bool, true, false, Option, none, some, List, [], ◌∷◌, ◌++◌,
  arith, ◌==◌, select, first, not,
}
use invoicing_platform.Prelude.Int.{ℤ, pos, ◌+ℤ◌, ◌-ℤ◌, ◌≤ℤ◌, ◌<ℤ◌, leb_ℤ, ltb_ℤ, int_laws}
use invoicing_platform.Money.{to_cents}
use invoicing_platform.Database.{
  RowId, TransactionRow, PaymentApplicationRow, AuditLogRow, Database, Tx, ok, bind-eq-ok, ok-inj,
  raise_if-eq-ok, some_or_raise-eq-ok, version_conflict, SyncEntityType, SyncLinkRow,
  LedgerEntryRow,
}
use invoicing_platform.Database.Keeps.{Keeps, keeps_rules}
use invoicing_platform.Database.Statements.{
  insert_transaction, update_transactions, write_audit_log,
}
use invoicing_platform.Ledger.{ParsedLine, PostLedgerInput, post_ledger, insert_entries}
use invoicing_platform.Sync.Links.{bump_local_version}
use invoicing_platform.Payments.{
  PaymentContext, RecordPaymentInput, is_payable, is_applied_to, sum_amounts, sum_applied_cents,
  checked_amount, recompute_invoice, resolve_deposit_account, recomputed,
}
use invoicing_platform.Payments.Status.{derive_invoice_status, remaining_balance}

pub sum_amounts-append :
    (xs ys : List PaymentApplicationRow) → sum_amounts (xs ++ ys) ≡ sum_amounts xs +ℤ sum_amounts ys
sum_amounts-append [] ys = omega int_laws
sum_amounts-append (x ∷ xs) ys = rw (sum_amounts-append xs ys) (omega int_laws)

-- What is applied is the sum `s`.
module _ (org invoice_id : RowId) (s : ℤ) where
  abbrev pub IsApplied : Database → Type 0
  IsApplied db = sum_applied_cents org invoice_id db ≡ s

  unchanged-Keeps :
      {A : Type 0} (m : Tx A)
      → ((db : Database) (a : A) (out : Database)
          → m db ≡ ok (a, out)
          → db.payment_applications ≡ out.payment_applications)
      → ((db : Database) (a : A) (out : Database)
          → m db ≡ ok (a, out)
          → db.processed_events ≡ out.processed_events)
      → Keeps IsApplied m
  unfolding sum_applied_cents
  unchanged-Keeps m f g = record {
    at = λ db a out h p.
        subst
          (λ (rows : List PaymentApplicationRow).
            sum_amounts (select (is_applied_to org invoice_id) rows) ≡ s)
          (f db a out h) p;
    events = g;
  }

  pub insert_transaction-Keeps :
      (values : ℕ → ℕ → TransactionRow) → Keeps IsApplied (insert_transaction values)
  unfolding insert_transaction
  insert_transaction-Keeps values =
      unchanged-Keeps (insert_transaction values)
        (λ db a out h.
          ap (λ (y : TransactionRow × Database). (y.1).payment_applications) (ok-inj h))
        (λ db a out h. ap (λ (y : TransactionRow × Database). (y.1).processed_events) (ok-inj h))

  pub update_transactions-Keeps :
      (p : TransactionRow → Bool) (f : ℕ → TransactionRow → TransactionRow)
      → Keeps IsApplied (update_transactions p f)
  unfolding update_transactions
  update_transactions-Keeps p f =
      unchanged-Keeps (update_transactions p f)
        (λ db a out h.
          ap (λ (y : Option TransactionRow × Database). (y.1).payment_applications) (ok-inj h))
        (λ db a out h.
          ap (λ (y : Option TransactionRow × Database). (y.1).processed_events) (ok-inj h))

  pub write_audit_log-Keeps : (entry : AuditLogRow) → Keeps IsApplied (write_audit_log entry)
  unfolding write_audit_log
  write_audit_log-Keeps entry =
      unchanged-Keeps (write_audit_log entry)
        (λ db a out h. ap (λ (y : Unit {0} × Database). (y.1).payment_applications) (ok-inj h))
        (λ db a out h. ap (λ (y : Unit {0} × Database). (y.1).processed_events) (ok-inj h))

  pub bump_local_version-Keeps :
      (entity : SyncEntityType) (id : RowId) → Keeps IsApplied (bump_local_version org entity id)
  unfolding bump_local_version
  bump_local_version-Keeps entity id =
      unchanged-Keeps (bump_local_version org entity id)
        (λ db a out h.
          ap (λ (y : Option SyncLinkRow × Database). (y.1).payment_applications) (ok-inj h))
        (λ db a out h.
          ap (λ (y : Option SyncLinkRow × Database). (y.1).processed_events) (ok-inj h))

  pub insert_entries-Keeps :
      (input : PostLedgerInput) (ps : List ParsedLine) → Keeps IsApplied (insert_entries input ps)
  unfolding insert_entries
  insert_entries-Keeps input ps =
      unchanged-Keeps (insert_entries input ps)
        (λ db a out h.
          ap (λ (y : List LedgerEntryRow × Database). (y.1).payment_applications) (ok-inj h))
        (λ db a out h.
          ap (λ (y : List LedgerEntryRow × Database). (y.1).processed_events) (ok-inj h))

  pub post_ledger-Keeps : (input : PostLedgerInput) → Keeps IsApplied (post_ledger input)
  unfolding post_ledger
  post_ledger-Keeps input = search (keeps_rules, insert_entries-Keeps)

  pub recompute_invoice-Keeps :
      (invoice : TransactionRow) → Keeps IsApplied (recompute_invoice org invoice)
  unfolding recompute_invoice
  recompute_invoice-Keeps invoice =
      search (keeps_rules, update_transactions-Keeps, bump_local_version-Keeps) depth 8

  pub resolve_deposit_account-Keeps :
      (id : Option RowId) → Keeps IsApplied (resolve_deposit_account org id)
  unfolding resolve_deposit_account
  resolve_deposit_account-Keeps none = search keeps_rules
  resolve_deposit_account-Keeps (some id) = search keeps_rules depth 8

map-eq-some :
    {A B : Type 0} (f : A → B) (o : Option A) {b : B}
    → Option.map f o ≡ some b
    → (a : A) × (f a ≡ b)
map-eq-some f none h = absurd (cc)
map-eq-some f (some a) h = (a, cc)

-- What the summary of an invoice says, given what is applied to it.
abbrev pub IsSettled : TransactionRow → ℤ → TransactionRow → Type 0
IsSettled invoice s summary =
    (summary.status ≡ derive_invoice_status invoice.total s)
    × (summary.balance ≡ remaining_balance invoice.total s)

recomputed-IsSettled :
    (invoice t summary : TransactionRow) (s : ℤ) (now : ℕ)
    → recomputed invoice s now t ≡ summary
    → IsSettled invoice s summary
recomputed-IsSettled invoice t summary s now h =
    (sym (ap (λ (r : TransactionRow). r.status) h), sym (ap (λ (r : TransactionRow). r.balance) h))

update_transactions-returns :
    (p : TransactionRow → Bool) (f : ℕ → TransactionRow → TransactionRow) (db mid : Database)
    (r : TransactionRow)
    → update_transactions p f db ≡ ok (some r, mid)
    → (t : TransactionRow) × (f db.now t ≡ r)
unfolding update_transactions
update_transactions-returns p f db mid r h =
    map-eq-some (f db.now) (first p db.transactions)
      (ap (λ (y : Option TransactionRow × Database). y.0) (ok-inj h))

pub recompute_invoice-IsSettled :
    (org : RowId) (invoice : TransactionRow) (db out : Database) (summary : TransactionRow)
    → recompute_invoice org invoice db ≡ ok (summary, out)
    → IsSettled invoice (sum_applied_cents org invoice.id db) summary
unfolding recompute_invoice bump_local_version
recompute_invoice-IsSettled org invoice db out summary h =
    let s = sum_applied_cents org invoice.id db in
    let p : TransactionRow → Bool =
      λ t. t.org_id == org && t.id == invoice.id && t.version == invoice.version in
    let (o, mid, e, h1) = bind-eq-ok (update_transactions p (recomputed invoice s)) _ db h in
    let (updated, k, h2) = some_or_raise-eq-ok o version_conflict _ mid h1 in
    let same : updated ≡ summary = ap (λ (y : TransactionRow × Database). y.0) (ok-inj h2) in
    let (t, l) = update_transactions-returns p (recomputed invoice s) db mid updated (rw k at e) in
    recomputed-IsSettled invoice t summary s db.now (l ∙ same)

positive_of : (a : ℤ) → leb_ℤ a (pos 0) ≡ false → pos 0 <ℤ a
positive_of a h = ground arith

fits_of : (a total s : ℤ) → ltb_ℤ (total -ℤ s) a ≡ false → s +ℤ a ≤ℤ total
fits_of a total s h = let le : a ≤ℤ (total -ℤ s) = ground arith in omega (int_laws, le)

payable_of : (b : Bool) → not b ≡ false → b ≡ true
payable_of true h = refl
payable_of false h = absurd (cc)

-- The guards let an amount through only if it is positive and fits what is left of the total.
pub checked_amount-fits :
    (ctx : PaymentContext) (invoice : TransactionRow) (input : RecordPaymentInput)
    (db out : Database) (cents : ℤ)
    → checked_amount ctx invoice input db ≡ ok (cents, out)
    → (to_cents input.amount ≡ some cents)
      × (pos 0 <ℤ cents)
      × (sum_applied_cents ctx.org_id invoice.id db +ℤ cents ≤ℤ invoice.total)
      × (is_payable invoice.status ≡ true)
      × (db ≡ out)
unfolding checked_amount
checked_amount-fits ctx invoice input db out cents h =
    let (payable, h1) = raise_if-eq-ok (not (is_payable invoice.status)) _ _ db h in
    let (amount, e, h2) = some_or_raise-eq-ok (to_cents input.amount) _ _ db h1 in
    let (positive, h3) = raise_if-eq-ok (leb_ℤ amount (pos 0)) _ _ db h2 in
    let (fits, h4) =
      raise_if-eq-ok (ltb_ℤ (invoice.total -ℤ sum_applied_cents ctx.org_id invoice.id db) amount) _
        _ db h3 in
    let same : amount ≡ cents = ap (λ (y : ℤ × Database). y.0) (ok-inj h4) in
    (
      e ∙ ap some same,
      subst (λ c. pos 0 <ℤ c) same (positive_of amount positive),
      subst (λ c. sum_applied_cents ctx.org_id invoice.id db +ℤ c ≤ℤ invoice.total) same
          (fits_of amount invoice.total (sum_applied_cents ctx.org_id invoice.id db) fits),
      payable_of (is_payable invoice.status) payable,
      ap (λ (y : ℤ × Database). y.1) (ok-inj h4),
    )
