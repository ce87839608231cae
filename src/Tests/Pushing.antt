-- ===== src/Tests/Pushing.antt =====
-- Webhook deliveries and outbound pushes on the small shop.
use Prim.Native.String.{String}
use invoicing_platform.Prelude.{
  ℕ, zero, suc, ◌≡◌, ◌⊎◌, refl, ap, false, Option, none, some, [], ◌∷◌, map,
}
use invoicing_platform.Prelude.Int.{pos, pos_part}
use invoicing_platform.Money.RoundTrip.{to_cents-format_cents}
use invoicing_platform.Database.{
  RowId, transaction, skipped, qbo_invoice, TransactionRow, Database, Error, ok, err,
}
use invoicing_platform.Ledger.Balance.{IsBalanced}
use invoicing_platform.Sync.Links.{find_link_by_local}
use invoicing_platform.Inbound.Body.{Json, object, text_value, field, close, JsRuntime}
use invoicing_platform.Inbound.Guards.{update_op, void_op, InboundResult}
use invoicing_platform.Inbound.Apply.{apply_inbound_entity}
use invoicing_platform.Inbound.Mappers.{
  qbo_invoice_to_local_lines, qbo_invoice_to_local_patch, qbo_payment_to_local_lines,
  qbo_payment_to_local_patch,
}
use invoicing_platform.Inbound.Invoice.{find_local_invoice}
use invoicing_platform.Inbound.Inert.{logged}
use invoicing_platform.Webhook.{
  Delivery, webhook_row, map_notification_to_entity_type, handle_entity, handle_all,
}
use invoicing_platform.Webhook.Once.{handle_entity-once, handle_all-IsBalanced}
use invoicing_platform.Outbound.Builders.{
  JsOutput, QboInvoiceLineSource, QboInvoiceSource, QboPaymentLinkedInvoice, build_qbo_invoice,
  build_qbo_payment,
}
use invoicing_platform.Outbound.RoundTrip.{
  patch_of, payment_patch_of, IsSendable, IsApplicable, invoice_lines-round_trip,
  payment_lines-round_trip,
}
use invoicing_platform.Outbound.Effects.{QboClient, World}
use invoicing_platform.Outbound.Removal.{push_skipped, OutboundResult, OutboundParams}
use invoicing_platform.Outbound.Guarding.{
  invoice_document, sync_outbound, skipped_world, conflict-blocks_push,
}
use invoicing_platform.Outbound.Once.{push, push-once}
use invoicing_platform.Tests.{invoice, link, shop, shop-IsBalanced}
use invoicing_platform.Tests.Inbounding.{
  runtime, body, change, shop_with, edited_invoice, edited-IsLinkedChange, edited-MeetsLocalChange,
}

abbrev delivery : Delivery
delivery = record {
  org_id = 1;
  realm_id = "R";
  entity = record { name = "Invoice"; id = "77"; operation = void_op; last_updated = none };
  refetched = none;
}

abbrev envelope : Json
envelope = object (field "Invoice" body close)

delivery-mapped : map_notification_to_entity_type "Invoice" ≡ some qbo_invoice
unfolding map_notification_to_entity_type
delivery-mapped = refl

handle_entity-once_example :
    ((e : Error) × (handle_entity runtime (record delivery { refetched = some envelope }) shop
        ≡ (err e, shop)))
    ⊎ ((out : Database) × (handle_entity runtime
            (record delivery { refetched = some envelope })
            shop
          ≡ (ok tt, out))
        × (handle_entity runtime (record delivery { refetched = some body }) out
            ≡ (ok tt, logged (webhook_row delivery "qbo.webhook.duplicate" skipped) out)))
handle_entity-once_example =
    handle_entity-once runtime delivery qbo_invoice envelope body shop delivery-mapped

handle_all-IsBalanced_example :
    IsBalanced
      (handle_all runtime
        (record delivery { refetched = some envelope }
          ∷ delivery
          ∷ record delivery { refetched = some body }
          ∷ [])
        shop).1
handle_all-IsBalanced_example =
    handle_all-IsBalanced runtime
      (record delivery { refetched = some envelope }
        ∷ delivery
        ∷ record delivery { refetched = some body }
        ∷ [])
      shop shop-IsBalanced

-- QBO ids as texts of their length.
abbrev unary : ℕ → String
unary zero = String.[]
unary (suc n) = String.◌∷◌ "i" (unary n)

abbrev string_length : String → ℕ
string_length String.[] = 0
string_length (String.◌∷◌ c s) = suc (string_length s)

unary-length : (n : ℕ) → string_length (unary n) ≡ n
unary-length zero = refl
unary-length (suc n) = ap suc (unary-length n)

abbrev unary_runtime : JsRuntime
unary_runtime = record runtime { qbo_id = string_length }

abbrev pub output : JsOutput
output = record { dollars = pos_part; qbo_text = unary; text_of = λ t. "4" }

abbrev sent_line : QboInvoiceLineSource
sent_line = record {
  description = some "work";
  quantity = 3;
  unit_price = pos 2500;
  amount = pos 7500;
  item_qbo_id = some 2;
}

abbrev sent_invoice : QboInvoiceSource
sent_invoice = record {
  doc_number = some "INV-1";
  txn_date = "2026-01-05";
  due_date = none;
  memo = none;
}

sent_line-IsSendable : IsSendable unary_runtime output sent_line
sent_line-IsSendable = record {
  quantity = refl;
  unit_price = to_cents-format_cents (pos 2500);
  amount = to_cents-format_cents (pos 7500);
}

invoice_lines-round_trip_example :
    (qbo_invoice_to_local_lines unary_runtime
        (build_qbo_invoice output sent_invoice (sent_line ∷ []) 5)
      ≡ ok (map (patch_of unary_runtime output) (sent_line ∷ [])))
    × ((qbo_invoice_to_local_patch
          (build_qbo_invoice output sent_invoice (sent_line ∷ []) 5)).txn_date
        ≡ some "2026-01-05")
invoice_lines-round_trip_example =
    invoice_lines-round_trip unary_runtime output unary-length sent_invoice (sent_line ∷ []) 5
      (sent_line-IsSendable, tt)

abbrev sent_application : QboPaymentLinkedInvoice
sent_application = record { qbo_id = 2; amount_cents = pos 7500 }

sent_application-IsApplicable : IsApplicable unary_runtime output sent_application
sent_application-IsApplicable = record {
  amount = to_cents-format_cents (pos 7500);
  positive = refl;
  id = refl;
}

payment_lines-round_trip_example :
    (qbo_payment_to_local_lines unary_runtime
        (build_qbo_payment output 5 "2026-01-06" (pos 7500) (sent_application ∷ []))
      ≡ ok (map (payment_patch_of unary_runtime output) (sent_application ∷ [])))
    × ((qbo_payment_to_local_patch
          (build_qbo_payment output 5 "2026-01-06" (pos 7500) (sent_application ∷ []))).txn_date
        ≡ some "2026-01-06")
payment_lines-round_trip_example =
    payment_lines-round_trip unary_runtime output unary-length 5 "2026-01-06" (pos 7500)
      (sent_application ∷ []) (sent_application-IsApplicable, tt)

-- A QBO that counts its calls and answers each with the same invoice.
abbrev answer : Json
answer = object (
    field "Invoice"
      (object (field "Id" (text_value "77") (field "SyncToken" (text_value "5") close))) close)

abbrev pub counting : QboClient
counting = record {
  Remote = ℕ;
  get_entity = λ type id n. (ok answer, suc n);
  create_entity = λ type b n. (ok answer, suc n);
  update_entity = λ type b n. (ok answer, suc n);
  void_entity = λ type id t n. (ok answer, suc n);
  delete_entity = λ type id t n. (ok answer, suc n);
  query_entities = none;
  message = λ e. "failed";
}

abbrev params : OutboundParams
params = record { org_id = 1; txn_id = 100; user_id = some 7; force = false }

edited-found : find_local_invoice 1 100 (shop_with edited_invoice) ≡ some edited_invoice
unfolding find_local_invoice
edited-found = refl

edited-link : find_link_by_local 1 transaction 100 (shop_with edited_invoice) ≡ some link
unfolding find_link_by_local
edited-link = refl

conflict-blocks_push_example :
    (r : InboundResult) × ((held : Database) × ((apply_inbound_entity runtime
            (change update_op)
            (shop_with edited_invoice)
          ≡ ok (r, held))
        × (sync_outbound runtime output counting invoice_document params
              (record { db = held; remote = 0 })
            ≡ (
              ok (record {
                status = push_skipped;
                qbo_id = none;
                reason = some "conflict_blocked";
              }),
              skipped_world runtime output counting params 100 (record { db = held; remote = 0 }),
            ))))
conflict-blocks_push_example =
    conflict-blocks_push runtime output counting (change update_op) link body edited_invoice
      (shop_with edited_invoice) invoice_document params 0 edited-IsLinkedChange
      edited-MeetsLocalChange edited-link refl refl edited-found

abbrev shop_world : World counting
shop_world = record { db = shop; remote = 0 }

abbrev edited : TransactionRow
edited = record invoice { version = 1 }

push-once_example :
    ((e : Error) × (w' : World counting) × (push runtime output counting invoice_document params
          edited body shop_world
        ≡ (err e, w')))
    ⊎ ((r : OutboundResult) × (w' : World counting) × (push runtime output counting invoice_document
            params edited body shop_world
          ≡ (ok r, w'))
        × ((id : Option RowId) × (push runtime output counting invoice_document params edited body
                w'
              ≡ (
                ok (record { status = push_skipped; qbo_id = id; reason = some "already_current" }),
                skipped_world runtime output counting params 100 w',
              ))))
push-once_example =
    push-once runtime output counting invoice_document params edited body body shop_world refl
