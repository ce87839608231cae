-- ===== src/Tests/Inbounding.antt =====
-- Inbound changes on the small shop.
use invoicing_platform.Prelude.{arith, ◌≡◌, inr, refl, true, false, Option, none, some, [], ◌∷◌}
use invoicing_platform.Prelude.Int.{ℤ, pos}
use invoicing_platform.Money.{Text, text, format_cents, trim}
use invoicing_platform.Database.{
  synced, transaction, qbo_invoice, voided, TransactionRow, SyncLinkRow, AuditLogRow, Database, ok,
  transact,
}
use invoicing_platform.Ledger.Balance.{IsBalanced}
use invoicing_platform.Ledger.ZeroOut.{IsBalancedTxn}
use invoicing_platform.Sync.Ordering.{parse_sync_token, parse_iso_date, is_stale_inbound_apply}
use invoicing_platform.Sync.Conflict.{is_both_sides_conflict}
use invoicing_platform.Sync.Links.{find_link_by_local, find_link_by_qbo}
use invoicing_platform.Inbound.Body.{Json, object, text_value, field, close, JsRuntime}
use invoicing_platform.Inbound.Mappers.{qbo_sync_token, qbo_last_updated}
use invoicing_platform.Inbound.Guards.{
  Operation, update_op, delete_op, void_op, updated, voided_locally, deleted_locally, in_conflict,
  ApplyInboundEntityInput, InboundResult, is_noop, is_link_stale, has_conflict, finish,
}
use invoicing_platform.Inbound.Invoice.{find_local_invoice}
use invoicing_platform.Inbound.Apply.{apply_inbound_entity}
use invoicing_platform.Inbound.Linked.{IsLinkedChange, invoice_change, IsLater}
use invoicing_platform.Inbound.Books.{apply_inbound_entity-IsBalanced}
use invoicing_platform.Inbound.Inert.{IsInert, logged, linked-IsInert}
use invoicing_platform.Inbound.Conflicts.{
  conflicted, MeetsLocalChange, change-conflicted, conflict-IsHeld,
}
use invoicing_platform.Inbound.Settled.{finish-settles}
use invoicing_platform.Inbound.Outdated.{finish-outdates}
use invoicing_platform.Inbound.Current.{IsCurrentChange}
use invoicing_platform.Inbound.Removing.{IsRemoved, linked_void-clears, linked_delete-clears}
use invoicing_platform.Tests.{invoice, link, shop, shop-IsBalanced, whole}

abbrev code_of : Text → Option ℤ
code_of [] = none
code_of (c ∷ _) = some (pos c)

abbrev pub runtime : JsRuntime
runtime = record {
  numbers = whole;
  parsers = record { number = code_of; time = λ t. none };
  amount = λ n. text (format_cents (pos n));
  to_number = λ v. 0;
  string_of = λ v. "";
  is_finite = λ n. true;
  round_quotient = λ a n. a;
  quotient = λ a n. a;
  one = 1;
  today = λ now. "2026-01-01";
  to_lower_case = λ t. t;
  qbo_id = λ s. 77;
}

-- The invoice 77 of QBO at a version that is newer than the one that the link of the shop has.
abbrev pub body : Json
body = object (field "SyncToken" (text_value "4") close)

abbrev pub change : Operation → ApplyInboundEntityInput
change operation = record {
  org_id = 1;
  entity_type = qbo_invoice;
  entity_name = "Invoice";
  entity_id = 77;
  operation = operation;
  refetched = object (field "Invoice" body close);
  bypass_conflict = false;
}

-- The shop with an invoice that may have been changed after it was made.
abbrev pub shop_with : TransactionRow → Database
shop_with t = record shop { transactions = t ∷ [] }

abbrev pub edited_invoice : TransactionRow
edited_invoice = record invoice { version = 1 }

change-IsLinkedChange :
    (o : Operation) → is_noop o ≡ false → IsLinkedChange (change o) shop link invoice body
unfolding find_link_by_qbo find_local_invoice
change-IsLinkedChange o n = invoice_change refl n refl refl refl

pub edited-IsLinkedChange :
    IsLinkedChange (change update_op) (shop_with edited_invoice) link edited_invoice body
unfolding find_link_by_qbo find_local_invoice
edited-IsLinkedChange = invoice_change refl refl refl refl refl

change-IsLater : (o p : Operation) → is_noop p ≡ false → IsLater (change o) (change p) body
change-IsLater o p n = record {
  org_id = refl;
  entity_type = refl;
  entity_id = refl;
  applies = n;
  invoice_body = λ e. refl;
  payment_body = λ e. absurd (cc);
}

change-news : is_link_stale runtime link body ≡ false
unfolding is_link_stale is_stale_inbound_apply parse_sync_token parse_iso_date qbo_sync_token
    qbo_last_updated trim
change-news = refl

change-IsCurrentChange : (o : Operation) → IsCurrentChange runtime (change o) link invoice body
unfolding is_both_sides_conflict
change-IsCurrentChange o = record {
  live = refl;
  free = inr (refl, change-news, rw change-news refl);
}

pub edited-MeetsLocalChange : MeetsLocalChange runtime (change update_op) link edited_invoice body
unfolding is_both_sides_conflict
edited-MeetsLocalChange = record {
  live = refl;
  no_bypass = refl;
  not_held = refl;
  news = change-news;
  changes = inr refl;
  dirty = rw change-news refl;
}

shop-IsBalancedTxn : IsBalancedTxn 1 100 shop
shop-IsBalancedTxn = shop-IsBalanced 1 100

apply_inbound_entity-IsBalanced_example :
    IsBalanced (transact (apply_inbound_entity runtime (change void_op)) shop).1
apply_inbound_entity-IsBalanced_example =
    apply_inbound_entity-IsBalanced runtime (change void_op) shop shop-IsBalanced

-- A change with the sync token that the link has.
abbrev old_body : Json
old_body = object (field "SyncToken" (text_value "3") close)

abbrev old_change : ApplyInboundEntityInput
old_change = record (change update_op) { refetched = object (field "Invoice" old_body close) }

old_change-stale : is_link_stale runtime link old_body ≡ true
unfolding is_link_stale is_stale_inbound_apply parse_sync_token parse_iso_date qbo_sync_token
    qbo_last_updated trim
old_change-stale = refl

old_change-IsLinkedChange : IsLinkedChange old_change shop link invoice old_body
unfolding find_link_by_qbo find_local_invoice
old_change-IsLinkedChange = invoice_change refl refl refl refl refl

linked-IsInert_example : IsInert (apply_inbound_entity runtime old_change) shop
linked-IsInert_example =
    linked-IsInert runtime old_change link old_body invoice shop old_change-IsLinkedChange
      (inr (inr (refl, inr old_change-stale)))

change-conflicted_example :
    (row : AuditLogRow) × (apply_inbound_entity runtime
        (change update_op)
        (shop_with edited_invoice)
      ≡ ok (
        record { action = in_conflict; local_id = some 100; reason = some "both_sides_changed" },
        logged row (conflicted 1 100 (shop_with edited_invoice)),
      ))
change-conflicted_example =
    change-conflicted runtime (change update_op) link body edited_invoice (shop_with edited_invoice)
      edited-IsLinkedChange edited-MeetsLocalChange

conflict-IsHeld_example :
    (r : InboundResult) × ((out : Database) × ((apply_inbound_entity runtime
            (change update_op)
            (shop_with edited_invoice)
          ≡ ok (r, out))
        × IsInert (apply_inbound_entity runtime (change delete_op)) out))
conflict-IsHeld_example =
    conflict-IsHeld runtime (change update_op) (change delete_op) link body body edited_invoice
      (shop_with edited_invoice) edited-IsLinkedChange refl edited-MeetsLocalChange
      (change-IsLater update_op delete_op refl) refl

shop-link : find_link_by_local 1 transaction 100 shop ≡ some link
unfolding find_link_by_local
shop-link = refl

body-token : parse_sync_token runtime.parsers (qbo_sync_token body) ≡ some (pos b'4')
unfolding parse_sync_token qbo_sync_token trim
body-token = refl

finish-settles_example :
    (out : Database) × ((finish runtime
          (change update_op)
          invoice
          body
          "qbo.inbound.update"
          updated
          shop
        ≡ ok (record { action = updated; local_id = some 100; reason = none }, out))
      × ((settled : SyncLinkRow) × ((find_link_by_local 1 transaction 100 out ≡ some settled)
            × ((settled.state ≡ synced)
                × ((is_link_stale runtime settled body ≡ true)
                    × ((newer : Json)
                        → has_conflict runtime settled edited_invoice newer ≡ false))))))
finish-settles_example =
    finish-settles runtime (change update_op) invoice body "qbo.inbound.update" updated link
      (pos b'4') shop shop-link body-token

linked_void-clears_example :
    (row : TransactionRow) × (out : Database) × (apply_inbound_entity runtime (change void_op) shop
      ≡ ok (record { action = voided_locally; local_id = some 100; reason = none }, out))
    × (row.status ≡ voided)
    × IsRemoved (change void_op) link invoice row out
    × IsInert (apply_inbound_entity runtime (change update_op)) out
linked_void-clears_example =
    linked_void-clears runtime (change void_op) (change update_op) link body body invoice shop
      (change-IsLinkedChange void_op refl) refl refl (change-IsCurrentChange void_op)
      shop-IsBalancedTxn (change-IsLater void_op update_op refl) refl refl refl

linked_delete-clears_example :
    (row : TransactionRow) × (out : Database) × (apply_inbound_entity runtime
        (change delete_op)
        shop
      ≡ ok (record { action = deleted_locally; local_id = some 100; reason = none }, out))
    × (row.deleted_at ≡ some 2000)
    × IsRemoved (change delete_op) link invoice row out
    × IsInert (apply_inbound_entity runtime (change update_op)) out
linked_delete-clears_example =
    linked_delete-clears runtime (change delete_op) (change update_op) link body body invoice shop
      (change-IsLinkedChange delete_op refl) refl refl (change-IsCurrentChange delete_op)
      shop-IsBalancedTxn (change-IsLater delete_op update_op refl) refl

finish-outdates_example :
    (out : Database) × ((finish runtime
          (change update_op)
          invoice
          body
          "qbo.inbound.update"
          updated
          shop
        ≡ ok (record { action = updated; local_id = some 100; reason = none }, out))
      × IsInert (apply_inbound_entity runtime (change void_op)) out)
finish-outdates_example =
    finish-outdates runtime (change update_op) (change void_op) invoice invoice body body
      "qbo.inbound.update" updated link (pos b'4') (pos b'4') shop
      (change-IsLinkedChange update_op refl) shop-link body-token
      (change-IsLater update_op void_op refl) refl body-token (omega arith)
