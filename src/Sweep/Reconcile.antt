-- ===== src/Sweep/Reconcile.antt =====
-- apps/api/src/qbo/retry-sweep.ts: before a failed create is tried again, QBO is asked whether the record
-- is there already.
use mathlib.Core.Option
use Prim.Native.String.{String}
use invoicing_platform.Prelude.{ℕ, Option, none, some, List, ◌==◌, first, map}
use invoicing_platform.Money.{Text, text, format_cents}
use invoicing_platform.Database.{
  RowId, contact, transaction, synced, success, QboEntityType, qbo_customer, ContactRow,
  TransactionRow, SyncLinkRow, Result, range_error, gets, some_or_raise,
}
use invoicing_platform.Database.Statements.{write_audit_log}
use invoicing_platform.Sync.Links.{UpsertLinkInput, upsert_link}
use invoicing_platform.Sync.NaturalKey.{
  MatchResult, matched, unmatched, ambiguous, QboInvoiceLike, QboCustomerLike,
  match_contact_by_natural_key, match_invoice_by_natural_key,
}
use invoicing_platform.Inbound.Body.{nonempty, Json, null_value, JsRuntime, get, as_text, codes}
use invoicing_platform.Inbound.Candidates.{customer_qbo_id}
use invoicing_platform.Outbound.Effects.{QboClient, Eff, done, run, call, try_catch, ◌>>=◌, ◌>>◌}
use invoicing_platform.Outbound.Push.{outbound_row, token_of}
use invoicing_platform.Sweep.Query.{build_document_create_where, build_contact_create_where}

pub data Reconciled : Type 0 where
  now_linked not_there several_there : Reconciled

module _ (js : JsRuntime) (q : QboClient) where
  abbrev id_of : Json → RowId
  id_of c = js.qbo_id (js.string_of (get "Id" (some c)))

  abbrev found_token : RowId → List Json → Option Text
  found_token id cs = token_of (first (λ c. id_of c == id) cs)

  -- The candidates; none when QBO cannot be asked or the query threw.
  abbrev query_by :
      Option (QboEntityType → Text → q.Remote → Result (List Json) × q.Remote)
      → QboEntityType
      → Text
      → Eff q (Option (List Json))
  query_by none type where_text = done none
  query_by (some query) type where_text =
      try_catch (call (query type where_text) >>= (λ cs. done (some cs))) (λ e. done none)

  unfoldable pub query_candidates : QboEntityType → Text → Eff q (Option (List Json))
  query_candidates type where_text = query_by q.query_entities type where_text

  -- `String(value ?? fallback)`
  abbrev string_or : String → Option Json → Text
  string_or fallback none = codes fallback
  string_or fallback (some null_value) = codes fallback
  string_or fallback (some v) = codes (js.string_of (some v))

  abbrev document_candidate : Json → QboInvoiceLike
  document_candidate c = record {
    qbo_id = id_of c;
    doc_number = Option.map codes (as_text (get "DocNumber" (some c)));
    total = text (string_or "0" (get "TotalAmt" (some c)));
    txn_date = string_or "" (get "TxnDate" (some c));
    customer_qbo_id =
        Option.map js.qbo_id (nonempty (as_text (get "value" (get "CustomerRef" (some c)))));
  }

  abbrev reconciled_document_link :
      SyncLinkRow → TransactionRow → RowId → List Json → ℕ → UpsertLinkInput
  reconciled_document_link link txn qbo_id cs now = record {
    org_id = link.org_id;
    entity_type = transaction;
    local_id = txn.id;
    qbo_type = link.qbo_type;
    qbo_id = qbo_id;
    state = some synced;
    local_version = some (some txn.version);
    qbo_sync_token = some (found_token qbo_id cs);
    last_synced_at = some (some now);
    conflict_detected_at = some none;
    retry_count = some 0;
    next_retry_at = some none;
    last_error = some none;
  }

  abbrev link_document : SyncLinkRow → TransactionRow → List Json → MatchResult → Eff q Reconciled
  link_document link txn cs unmatched = done not_there
  link_document link txn cs (ambiguous ids) = done several_there
  link_document link txn cs (matched id) = do
    now ← run (gets (λ db. db.now))
    run (upsert_link (reconciled_document_link link txn id cs now))
    run (write_audit_log (outbound_row link.org_id none transaction txn.id "outbound_sync" success))
    done now_linked

  abbrev match_document :
      SyncLinkRow → TransactionRow → Option RowId → Option (List Json) → Eff q Reconciled
  match_document link txn customer none = done not_there
  match_document link txn customer (some cs) = do
    result ← run (
        some_or_raise
          (match_invoice_by_natural_key
            (record {
              doc_number = Option.map codes txn.doc_number;
              total = text (format_cents txn.total);
              txn_date = codes txn.txn_date;
              customer_qbo_id = customer;
            })
            (map document_candidate cs))
          range_error)
    link_document link txn cs result

  unfoldable pub reconcile_document_create : SyncLinkRow → TransactionRow → Eff q Reconciled
  reconcile_document_create link txn = do
    customer ← run (gets (customer_qbo_id link.org_id txn.contact_id))
    found ←
        query_candidates link.qbo_type
          (build_document_create_where (Option.map codes txn.doc_number) (codes txn.txn_date))
    match_document link txn customer found

  -- The address, or a field `email`.
  abbrev email_of : Option String → Option String → Option Text
  email_of (some address) other = some (codes address)
  email_of none other = Option.map codes other

  abbrev customer_candidate : Json → QboCustomerLike
  customer_candidate c = record {
    qbo_id = id_of c;
    email =
        email_of (as_text (get "Address" (get "PrimaryEmailAddr" (some c))))
          (as_text (get "email" (some c)));
    display_name = Option.map codes (as_text (get "DisplayName" (some c)));
  }

  abbrev reconciled_contact_link :
      SyncLinkRow → ContactRow → RowId → List Json → ℕ → UpsertLinkInput
  reconciled_contact_link link c qbo_id cs now = record {
    org_id = link.org_id;
    entity_type = contact;
    local_id = c.id;
    qbo_type = qbo_customer;
    qbo_id = qbo_id;
    state = some synced;
    local_version = none;
    qbo_sync_token = some (found_token qbo_id cs);
    last_synced_at = some (some now);
    conflict_detected_at = none;
    retry_count = some 0;
    next_retry_at = some none;
    last_error = some none;
  }

  abbrev link_contact : SyncLinkRow → ContactRow → List Json → MatchResult → Eff q Reconciled
  link_contact link c cs unmatched = done not_there
  link_contact link c cs (ambiguous ids) = done several_there
  link_contact link c cs (matched id) = do
    now ← run (gets (λ db. db.now))
    run (upsert_link (reconciled_contact_link link c id cs now))
    run (write_audit_log (outbound_row link.org_id none contact c.id "outbound_sync" success))
    done now_linked

  abbrev match_contact : SyncLinkRow → ContactRow → Option (List Json) → Eff q Reconciled
  match_contact link c none = done not_there
  match_contact link c (some cs) = link_contact link c cs (
      match_contact_by_natural_key js.to_lower_case
        (record { email = Option.map codes c.email; display_name = codes c.display_name })
        (map customer_candidate cs))

  unfoldable pub reconcile_contact_create : SyncLinkRow → ContactRow → Eff q Reconciled
  reconcile_contact_create link c = do
    found ←
        query_candidates qbo_customer
          (build_contact_create_where (Option.map codes c.email) (codes c.display_name))
    match_contact link c found
