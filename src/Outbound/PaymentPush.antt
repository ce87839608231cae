-- ===== src/Outbound/PaymentPush.antt =====
-- apps/api/src/qbo/outbound-sync.ts: the push of a payment, after the invoices that it is applied to.
use invoicing_platform.Prelude.{ℕ, false, Option, none, some, List, [], ◌∷◌, select}
use invoicing_platform.Database.{
  RowId, transaction, qbo_payment, TransactionRow, PaymentApplicationRow, not_found, failed_write,
  gets, some_or_raise,
}
use invoicing_platform.Sync.Links.{UpsertLinkInput, find_link_by_local}
use invoicing_platform.Inbound.Body.{JsRuntime}
use invoicing_platform.Inbound.Payment.{is_applied_from, find_local_payment}
use invoicing_platform.Outbound.Builders.{JsOutput, QboPaymentLinkedInvoice, build_qbo_payment}
use invoicing_platform.Outbound.Effects.{QboClient, Eff, done, throw, run, ◌>>=◌}
use invoicing_platform.Outbound.Push.{contact_ref, PushResult, synced_id, ensure_entity_synced}
use invoicing_platform.Outbound.Removal.{
  OutboundStatus, pushed, push_failed, push_skipped, OutboundResult, OutboundParams,
}
use invoicing_platform.Outbound.Documents.{
  pushed_link, push_unless_current, sync_document, sync_invoice_outbound,
}

-- A payment's push leaves the retry bookkeeping of its link alone.
abbrev pub pushed_payment_link :
    (js : JsRuntime) (out : JsOutput) (q : QboClient)
    → OutboundParams
    → TransactionRow
    → PushResult
    → ℕ
    → UpsertLinkInput
pushed_payment_link js out q params txn result now =
    record (pushed_link js out q params txn qbo_payment result now) {
      retry_count = none;
      next_retry_at = none;
      last_error = none;
    }

module _ (js : JsRuntime) (out : JsOutput) (q : QboClient) where
  -- `if (result.status !== 'synced' || !result.qboId) throw …`
  abbrev pushed_id : OutboundStatus → Option RowId → Eff q RowId
  pushed_id pushed (some id) = done id
  pushed_id pushed none = throw failed_write
  pushed_id push_failed id = throw failed_write
  pushed_id push_skipped id = throw failed_write

  abbrev ensure_invoice : OutboundParams → RowId → Option RowId → Eff q RowId
  ensure_invoice params invoice_id (some id) = done id
  ensure_invoice params invoice_id none = do
    result ← sync_invoice_outbound js out q (record {
      org_id = params.org_id;
      txn_id = invoice_id;
      user_id = params.user_id;
      force = false;
    })
    pushed_id result.status result.qbo_id

  unfoldable pub ensure_invoice_synced : OutboundParams → RowId → Eff q RowId
  ensure_invoice_synced params invoice_id = do
    link ← run (gets (find_link_by_local params.org_id transaction invoice_id))
    ensure_invoice params invoice_id (synced_id js out q link)

  unfoldable pub linked_invoices :
      OutboundParams → List PaymentApplicationRow → Eff q (List QboPaymentLinkedInvoice)
  linked_invoices params [] = done []
  linked_invoices params (a ∷ rest) = do
    id ← ensure_invoice_synced params a.invoice_txn_id
    others ← linked_invoices params rest
    done (record { qbo_id = id; amount_cents = a.amount } ∷ others)

  abbrev required_applications : List PaymentApplicationRow → Eff q (List PaymentApplicationRow)
  required_applications [] = throw failed_write
  required_applications (a ∷ rest) = done (a ∷ rest)

  unfoldable pub push_payment : OutboundParams → TransactionRow → Eff q OutboundResult
  push_payment params txn = do
    contact_id ← run (some_or_raise txn.contact_id failed_write)
    customer ← ensure_entity_synced js out q params.org_id contact_ref contact_id
    found ← run (gets (λ db. select (is_applied_from params.org_id txn.id) db.payment_applications))
    applications ← required_applications found
    invoices ← linked_invoices params applications
    push_unless_current js out q params txn qbo_payment (pushed_payment_link js out q params txn)
        (build_qbo_payment out customer txn.txn_date txn.total invoices)

  unfoldable pub sync_payment_outbound : OutboundParams → Eff q OutboundResult
  sync_payment_outbound params = do
    found ← run (gets (find_local_payment params.org_id params.txn_id))
    txn ← run (some_or_raise found not_found)
    sync_document js out q push_payment params qbo_payment txn
