-- ===== src/Inbound/Books/Payment.antt =====
-- An inbound change of a linked payment keeps the books balanced.
use invoicing_platform.Prelude.{ℕ, Option, none, some, List, [], ◌∷◌}
use invoicing_platform.Database.{RowId, SyncLinkRow, TransactionRow, gets}
use invoicing_platform.Database.Keeps.{Keeps, Keeps-bind, Keeps-gets, keeps_rules}
use invoicing_platform.Ledger.Balance.{IsBalanced}
use invoicing_platform.Ledger.Statements.{statement_rules}
use invoicing_platform.Payments.Books.{recompute_invoice-Keeps}
use invoicing_platform.Inbound.Body.{Json, JsRuntime}
use invoicing_platform.Inbound.Guards.{ApplyInboundEntityInput}
use invoicing_platform.Inbound.Payment.{
  recompute_found, recompute_local_invoice_balance, recompute_all, find_local_payment,
  reverse_linked_payment, delete_linked_payment, void_linked_payment, update_linked_payment,
  payment_handlers, apply_linked_payment,
}
use invoicing_platform.Inbound.Books.Guards.{finish-Keeps, apply_found-Keeps}

recompute_found-Keeps :
    (org : RowId) (o : Option TransactionRow) → Keeps IsBalanced (recompute_found org o)
recompute_found-Keeps org none = search keeps_rules
recompute_found-Keeps org (some t) = search (keeps_rules, recompute_invoice-Keeps)

pub recompute_all-Keeps :
    (org : RowId) (ids : List RowId) → Keeps IsBalanced (recompute_all org ids)
unfolding recompute_all recompute_local_invoice_balance
recompute_all-Keeps org [] = search keeps_rules
recompute_all-Keeps org (id ∷ ids) =
    Keeps-bind (recompute_local_invoice_balance org id) _
      (search (keeps_rules, recompute_found-Keeps)) (λ u. recompute_all-Keeps org ids)

reverse_linked_payment-Keeps :
    (org : RowId) (t : TransactionRow) (mark : ℕ → TransactionRow → TransactionRow)
    → Keeps IsBalanced (reverse_linked_payment org t mark)
unfolding reverse_linked_payment
reverse_linked_payment-Keeps org t mark =
    search (keeps_rules, statement_rules, recompute_all-Keeps) depth 12

module _ (js : JsRuntime) (input : ApplyInboundEntityInput) where
  void_linked_payment-Keeps :
      (existing : TransactionRow) (qbo : Json)
      → Keeps IsBalanced (void_linked_payment js input existing qbo)
  unfolding void_linked_payment
  void_linked_payment-Keeps existing qbo =
      search (keeps_rules, reverse_linked_payment-Keeps, finish-Keeps) depth 12

  delete_linked_payment-Keeps :
      (existing : TransactionRow) (qbo : Json)
      → Keeps IsBalanced (delete_linked_payment js input existing qbo)
  unfolding delete_linked_payment
  delete_linked_payment-Keeps existing qbo =
      search (keeps_rules, reverse_linked_payment-Keeps, finish-Keeps) depth 12

  update_linked_payment-Keeps :
      (existing : TransactionRow) (qbo : Json)
      → Keeps IsBalanced (update_linked_payment js input existing qbo)
  unfolding update_linked_payment
  update_linked_payment-Keeps existing qbo =
      search (keeps_rules, statement_rules, finish-Keeps) depth 12

  pub apply_linked_payment-Keeps :
      (link : SyncLinkRow) (qbo : Json) → Keeps IsBalanced (apply_linked_payment js input link qbo)
  unfolding apply_linked_payment
  apply_linked_payment-Keeps link qbo =
      Keeps-bind (gets (find_local_payment input.org_id link.local_id)) _
        (Keeps-gets (find_local_payment input.org_id link.local_id))
        (apply_found-Keeps js input link qbo (payment_handlers js input qbo)
          (λ t. delete_linked_payment-Keeps t qbo) (λ t. void_linked_payment-Keeps t qbo)
          (λ t. update_linked_payment-Keeps t qbo))
