-- ===== src/Ledger/Statements.antt =====
-- Every statement and every posting keeps the books balanced, as rules for the services.
use mathlib.Core.Path.{subst}
use invoicing_platform.Prelude.{ℕ, ◌≡◌, ap, Bool, Option, none, some, List, [], ◌∷◌}
use invoicing_platform.Database.{
  RowId, TransactionRow, TransactionLineRow, PaymentApplicationRow, AuditLogRow, SyncEntityType,
  SyncLinkRow, LedgerEntryRow, ContactRow, Database, Tx, ok,
}
use invoicing_platform.Database.{ok-inj}
use invoicing_platform.Database.Keeps.{Keeps, keeps_rules}
use invoicing_platform.Database.Statements.{
  insert_transaction, update_transactions, insert_application, delete_applications, delete_lines,
  insert_lines, write_audit_log, insert_contact, insert_applications,
}
use invoicing_platform.Ledger.{
  PostingLine, PostLedgerInput, ParsedLine, insert_entries, post_reversal, ZeroOutLedgerArgs,
  is_entry_of, post_ledger, zero_out_ledger,
}
use invoicing_platform.Prelude.{select}
use invoicing_platform.Ledger.Sums.{debits, credits}
use invoicing_platform.Ledger.Balance.{
  IsBalanced, post_ledger-IsBalanced, zero_out_ledger-IsBalanced,
}
use invoicing_platform.Sync.Links.{
  bump_local_version, MarkSyncedInput, mark_synced, mark_conflict, update_links, insert_link,
  UpsertLinkInput, check_counterpart, upsert_found, upsert_link,
}

module _ {A : Type 0} where
  -- A step that leaves the ledger alone keeps it balanced.
  pub same_ledger-Keeps :
      (m : Tx A)
      → ((db : Database) (a : A) (out : Database)
          → m db ≡ ok (a, out)
          → db.ledger_entries ≡ out.ledger_entries)
      → ((db : Database) (a : A) (out : Database)
          → m db ≡ ok (a, out)
          → db.processed_events ≡ out.processed_events)
      → Keeps IsBalanced m
  same_ledger-Keeps m f g = record {
    at = λ db a out h p.
        subst
          (λ (es : List LedgerEntryRow).
            (org txn : RowId)
            → debits (select (is_entry_of org txn) es) ≡ credits (select (is_entry_of org txn) es))
          (f db a out h) p;
    events = g;
  }

pub insert_transaction-Keeps :
    (values : ℕ → ℕ → TransactionRow) → Keeps IsBalanced (insert_transaction values)
unfolding insert_transaction
insert_transaction-Keeps values =
    same_ledger-Keeps (insert_transaction values)
      (λ db a out h. ap (λ (y : TransactionRow × Database). (y.1).ledger_entries) (ok-inj h))
      (λ db a out h. ap (λ (y : TransactionRow × Database). (y.1).processed_events) (ok-inj h))

pub update_transactions-Keeps :
    (p : TransactionRow → Bool) (f : ℕ → TransactionRow → TransactionRow)
    → Keeps IsBalanced (update_transactions p f)
unfolding update_transactions
update_transactions-Keeps p f =
    same_ledger-Keeps (update_transactions p f)
      (λ db a out h. ap (λ (y : Option TransactionRow × Database). (y.1).ledger_entries) (ok-inj h))
      (λ db a out h.
        ap (λ (y : Option TransactionRow × Database). (y.1).processed_events) (ok-inj h))

pub insert_application-Keeps :
    (values : ℕ → PaymentApplicationRow) → Keeps IsBalanced (insert_application values)
unfolding insert_application
insert_application-Keeps values =
    same_ledger-Keeps (insert_application values)
      (λ db a out h. ap (λ (y : Unit {0} × Database). (y.1).ledger_entries) (ok-inj h))
      (λ db a out h. ap (λ (y : Unit {0} × Database). (y.1).processed_events) (ok-inj h))

pub delete_applications-Keeps :
    (p : PaymentApplicationRow → Bool) → Keeps IsBalanced (delete_applications p)
unfolding delete_applications
delete_applications-Keeps p =
    same_ledger-Keeps (delete_applications p)
      (λ db a out h. ap (λ (y : Unit {0} × Database). (y.1).ledger_entries) (ok-inj h))
      (λ db a out h. ap (λ (y : Unit {0} × Database). (y.1).processed_events) (ok-inj h))

pub delete_lines-Keeps : (p : TransactionLineRow → Bool) → Keeps IsBalanced (delete_lines p)
unfolding delete_lines
delete_lines-Keeps p =
    same_ledger-Keeps (delete_lines p)
      (λ db a out h. ap (λ (y : Unit {0} × Database). (y.1).ledger_entries) (ok-inj h))
      (λ db a out h. ap (λ (y : Unit {0} × Database). (y.1).processed_events) (ok-inj h))

pub insert_lines-Keeps :
    (values : ℕ → List TransactionLineRow) (count : ℕ)
    → Keeps IsBalanced (insert_lines values count)
unfolding insert_lines
insert_lines-Keeps values count =
    same_ledger-Keeps (insert_lines values count)
      (λ db a out h.
        ap (λ (y : List TransactionLineRow × Database). (y.1).ledger_entries) (ok-inj h))
      (λ db a out h.
        ap (λ (y : List TransactionLineRow × Database). (y.1).processed_events) (ok-inj h))

pub write_audit_log-Keeps : (entry : AuditLogRow) → Keeps IsBalanced (write_audit_log entry)
unfolding write_audit_log
write_audit_log-Keeps entry =
    same_ledger-Keeps (write_audit_log entry)
      (λ db a out h. ap (λ (y : Unit {0} × Database). (y.1).ledger_entries) (ok-inj h))
      (λ db a out h. ap (λ (y : Unit {0} × Database). (y.1).processed_events) (ok-inj h))

pub bump_local_version-Keeps :
    (org : RowId) (entity : SyncEntityType) (id : RowId)
    → Keeps IsBalanced (bump_local_version org entity id)
unfolding bump_local_version
bump_local_version-Keeps org entity id =
    same_ledger-Keeps (bump_local_version org entity id)
      (λ db a out h. ap (λ (y : Option SyncLinkRow × Database). (y.1).ledger_entries) (ok-inj h))
      (λ db a out h. ap (λ (y : Option SyncLinkRow × Database). (y.1).processed_events) (ok-inj h))

pub update_links-Keeps :
    (p : SyncLinkRow → Bool) (f : SyncLinkRow → SyncLinkRow) → Keeps IsBalanced (update_links p f)
update_links-Keeps p f =
    same_ledger-Keeps (update_links p f)
      (λ db a out h. ap (λ (y : Option SyncLinkRow × Database). (y.1).ledger_entries) (ok-inj h))
      (λ db a out h. ap (λ (y : Option SyncLinkRow × Database). (y.1).processed_events) (ok-inj h))

pub insert_link-Keeps : (l : SyncLinkRow) → Keeps IsBalanced (insert_link l)
insert_link-Keeps l =
    same_ledger-Keeps (insert_link l)
      (λ db a out h. ap (λ (y : SyncLinkRow × Database). (y.1).ledger_entries) (ok-inj h))
      (λ db a out h. ap (λ (y : SyncLinkRow × Database). (y.1).processed_events) (ok-inj h))

pub mark_synced-Keeps :
    (org : RowId) (entity : SyncEntityType) (id : RowId) (input : MarkSyncedInput)
    → Keeps IsBalanced (mark_synced org entity id input)
unfolding mark_synced
mark_synced-Keeps org entity id input =
    same_ledger-Keeps (mark_synced org entity id input)
      (λ db a out h. ap (λ (y : Option SyncLinkRow × Database). (y.1).ledger_entries) (ok-inj h))
      (λ db a out h. ap (λ (y : Option SyncLinkRow × Database). (y.1).processed_events) (ok-inj h))

pub mark_conflict-Keeps :
    (org : RowId) (entity : SyncEntityType) (id : RowId)
    → Keeps IsBalanced (mark_conflict org entity id)
unfolding mark_conflict
mark_conflict-Keeps org entity id =
    same_ledger-Keeps (mark_conflict org entity id)
      (λ db a out h. ap (λ (y : Option SyncLinkRow × Database). (y.1).ledger_entries) (ok-inj h))
      (λ db a out h. ap (λ (y : Option SyncLinkRow × Database). (y.1).processed_events) (ok-inj h))

pub insert_contact-Keeps : (values : ℕ → ContactRow) → Keeps IsBalanced (insert_contact values)
unfolding insert_contact
insert_contact-Keeps values =
    same_ledger-Keeps (insert_contact values)
      (λ db a out h. ap (λ (y : ContactRow × Database). (y.1).ledger_entries) (ok-inj h))
      (λ db a out h. ap (λ (y : ContactRow × Database). (y.1).processed_events) (ok-inj h))

pub insert_applications-Keeps :
    (values : ℕ → List PaymentApplicationRow) (count : ℕ)
    → Keeps IsBalanced (insert_applications values count)
unfolding insert_applications
insert_applications-Keeps values count =
    same_ledger-Keeps (insert_applications values count)
      (λ db a out h. ap (λ (y : Unit {0} × Database). (y.1).ledger_entries) (ok-inj h))
      (λ db a out h. ap (λ (y : Unit {0} × Database). (y.1).processed_events) (ok-inj h))

check_counterpart-Keeps :
    (input : UpsertLinkInput) (l : SyncLinkRow) (o : Option RowId)
    → Keeps IsBalanced (check_counterpart input l o)
unfolding check_counterpart
check_counterpart-Keeps input l none = search keeps_rules
check_counterpart-Keeps input l (some q) = search keeps_rules

upsert_found-Keeps :
    (input : UpsertLinkInput) (o : Option SyncLinkRow) → Keeps IsBalanced (upsert_found input o)
upsert_found-Keeps input none = search (keeps_rules, insert_link-Keeps) depth 12
upsert_found-Keeps input (some l) =
    search (keeps_rules, update_links-Keeps, check_counterpart-Keeps) depth 12

pub upsert_link-Keeps : (input : UpsertLinkInput) → Keeps IsBalanced (upsert_link input)
unfolding upsert_link
upsert_link-Keeps input = search (keeps_rules, upsert_found-Keeps)

-- Every database: what is kept of it is its table of processed events.
abbrev Anything : Database → Type 0
Anything db = Unit {0}

insert_entries-events :
    (input : PostLedgerInput) (ps : List ParsedLine) → Keeps Anything (insert_entries input ps)
unfolding insert_entries
insert_entries-events input ps = record {
  at = λ db a out h p. tt;
  events =
      λ db a out h. ap (λ (y : List LedgerEntryRow × Database). (y.1).processed_events) (ok-inj h);
}

post_ledger-events : (input : PostLedgerInput) → Keeps Anything (post_ledger input)
unfolding post_ledger
post_ledger-events input = search (keeps_rules, insert_entries-events)

post_reversal-events :
    (args : ZeroOutLedgerArgs) (ls : List PostingLine) → Keeps Anything (post_reversal args ls)
post_reversal-events args [] = search keeps_rules
post_reversal-events args (l ∷ ls) = search (keeps_rules, post_ledger-events)

zero_out_ledger-events : (args : ZeroOutLedgerArgs) → Keeps Anything (zero_out_ledger args)
unfolding zero_out_ledger
zero_out_ledger-events args = search (keeps_rules, post_reversal-events)

pub post_ledger-Keeps : (input : PostLedgerInput) → Keeps IsBalanced (post_ledger input)
post_ledger-Keeps input = record {
  at = λ db rows out h p. post_ledger-IsBalanced input db out rows h p;
  events = (post_ledger-events input).events;
}

pub zero_out_ledger-Keeps : (args : ZeroOutLedgerArgs) → Keeps IsBalanced (zero_out_ledger args)
zero_out_ledger-Keeps args = record {
  at = λ db u out h p. zero_out_ledger-IsBalanced args db out h p;
  events = (zero_out_ledger-events args).events;
}

pub ruleset statement_rules = (
  insert_transaction-Keeps, update_transactions-Keeps, insert_application-Keeps,
  delete_applications-Keeps, delete_lines-Keeps, insert_lines-Keeps, write_audit_log-Keeps,
  bump_local_version-Keeps, post_ledger-Keeps, zero_out_ledger-Keeps, mark_synced-Keeps,
  upsert_link-Keeps, mark_conflict-Keeps, insert_contact-Keeps, insert_applications-Keeps,
)
