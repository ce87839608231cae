-- ===== src/Database/Tables.antt =====
-- apps/api/src/db/schema.ts. An id (a uuid, or the text that QBO gives a record) is only compared,
-- so it is a number. A `numeric(14, 2)` column is the number of cents it holds: `formatCents` writes
-- it and `toCents` reads it back (`Money.RoundTrip`). A `timestamp` is in milliseconds. A `date` is a
-- text. The `created_at` columns, `currency` and the columns that no modelled code reads are left out.
use invoicing_platform.Prelude.{ℕ, String, Option, List, Bool}
use invoicing_platform.Prelude.Int.{ℤ}

abbrev pub RowId : Type 0
RowId = ℕ

pub data AccountType : Type 0 where
  asset liability equity income expense : AccountType

pub data TransactionType : Type 0 where
  customer_invoice vendor_bill customer_credit_memo vendor_credit : TransactionType
  payment bill_payment expense_claim transfer journal_entry : TransactionType

pub data TransactionStatus : Type 0 where
  draft opened partially_paid paid voided : TransactionStatus

pub data SyncEntityType : Type 0 where
  contact account item transaction : SyncEntityType

pub data SyncState : Type 0 where
  pending synced conflict failed : SyncState

pub data SyncDirection : Type 0 where
  inbound outbound local : SyncDirection

pub data SyncOutcome : Type 0 where
  success failure skipped : SyncOutcome

-- The documents of QBO: `QboEntityType` of qbo/api-client.ts.
pub data QboEntityType : Type 0 where
  qbo_customer qbo_account qbo_item qbo_invoice qbo_payment : QboEntityType

pub record ContactRow : Type 0 where
  pub id : RowId
  pub org_id : RowId
  pub display_name : String
  pub email : Option String
  pub phone : Option String
  pub is_customer : Bool

pub record AccountRow : Type 0 where
  pub id : RowId
  pub org_id : RowId
  pub code : Option String
  pub name : String
  pub type : AccountType
  pub subtype : Option String

pub record ItemRow : Type 0 where
  pub id : RowId
  pub org_id : RowId
  pub income_account_id : Option RowId
  pub name : String
  pub is_service : Bool
  pub default_price : Option ℤ

pub record TransactionRow : Type 0 where
  pub id : RowId
  pub org_id : RowId
  pub type : TransactionType
  pub status : TransactionStatus
  pub contact_id : Option RowId
  pub doc_number : Option String
  pub txn_date : String
  pub due_date : Option String
  pub memo : Option String
  pub subtotal : ℤ
  pub total : ℤ
  pub balance : ℤ
  pub version : ℕ
  pub created_by : Option RowId
  pub deleted_at : Option ℕ
  pub updated_at : ℕ

-- `quantity` is a JS number, by its bit pattern.
pub record TransactionLineRow : Type 0 where
  pub id : RowId
  pub org_id : RowId
  pub transaction_id : RowId
  pub line_number : ℕ
  pub item_id : Option RowId
  pub account_id : RowId
  pub description : Option String
  pub quantity : ℕ
  pub unit_price : ℤ
  pub amount : ℤ

pub record LedgerEntryRow : Type 0 where
  pub id : RowId
  pub org_id : RowId
  pub transaction_id : RowId
  pub account_id : RowId
  pub contact_id : Option RowId
  pub entry_date : String
  pub debit : ℤ
  pub credit : ℤ

pub record PaymentApplicationRow : Type 0 where
  pub id : RowId
  pub org_id : RowId
  pub payment_txn_id : RowId
  pub invoice_txn_id : RowId
  pub amount : ℤ

pub record SyncLinkRow : Type 0 where
  pub id : RowId
  pub org_id : RowId
  pub entity_type : SyncEntityType
  pub local_id : RowId
  pub qbo_type : QboEntityType
  pub qbo_id : Option RowId
  pub state : SyncState
  pub local_version : Option ℕ
  pub qbo_sync_token : Option (List ℕ)
  pub last_synced_at : Option ℕ
  pub conflict_detected_at : Option ℕ
  pub retry_count : ℕ
  pub next_retry_at : Option ℕ
  pub last_error : Option String
  pub updated_at : ℕ

pub record AuditLogRow : Type 0 where
  pub org_id : RowId
  pub user_id : Option RowId
  pub entity_type : String
  pub local_id : Option RowId
  pub action : String
  pub direction : SyncDirection
  pub outcome : SyncOutcome

pub record ProcessedEventRow : Type 0 where
  pub org_id : RowId
  pub event_key : List ℕ

-- The database: its tables, the next id that `defaultRandom()` hands out, and the clock.
pub record Database : Type 0 where
  pub contacts : List ContactRow
  pub accounts : List AccountRow
  pub items : List ItemRow
  pub transactions : List TransactionRow
  pub transaction_lines : List TransactionLineRow
  pub ledger_entries : List LedgerEntryRow
  pub payment_applications : List PaymentApplicationRow
  pub sync_links : List SyncLinkRow
  pub sync_audit_logs : List AuditLogRow
  pub processed_events : List ProcessedEventRow
  pub next_id : ℕ
  pub now : ℕ
