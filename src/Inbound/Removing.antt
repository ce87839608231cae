-- ===== src/Inbound/Removing.antt =====
-- A void and a delete of a linked invoice go through: its ledger is cleared and its row is terminal.
use Prim.Native.String.{String}
use invoicing_platform.Prelude.{
  ℕ, ◌+◌, ◌≡◌, inl, inr, refl, ap, ◌∙◌, Bool, true, false, ◌&&◌, ◌==◌, none, some, update,
  first-update, arith, [], ◌∷◌, ◌++◌,
}
use invoicing_platform.Prelude.Int.{pos}
use invoicing_platform.Prelude.Unique.{first-fits}
use invoicing_platform.Database.{
  RowId, transaction, success, QboEntityType, qbo_invoice, voided, SyncLinkRow, TransactionRow,
  Database, ok,
}
use invoicing_platform.Database.Statements.{write_audit_log, update_transactions}
use invoicing_platform.Ledger.{entries_of}
use invoicing_platform.Ledger.Sums.{account_net}
use invoicing_platform.Ledger.ZeroOut.{IsBalancedTxn, cleared, zero_out_ledger-eq, nets-cleared}
use invoicing_platform.Payments.{is_invoice, is_voided}
use invoicing_platform.Sync.Links.{
  is_local_key, is_qbo_key, synced_link, find_link_by_qbo, mark_synced,
}
use invoicing_platform.Inbound.Body.{Json, JsRuntime}
use invoicing_platform.Inbound.Mappers.{qbo_sync_token}
use invoicing_platform.Inbound.Guards.{
  ApplyInboundEntityInput, voided_locally, deleted_locally, is_delete, is_void, inbound_row, audit,
  finish,
}
use invoicing_platform.Inbound.Invoice.{
  find_local_invoice, is_row_of, zero_out_of, voided_row, deleted_row, void_local_invoice_row,
  soft_delete_local_invoice_row, void_linked_invoice, delete_linked_invoice,
}
use invoicing_platform.Inbound.Apply.{apply_inbound_entity}
use invoicing_platform.Inbound.Linked.{
  IsLinkedChange, IsLater, later-IsLinkedChange, invoice_change, payment_change, handlers_of,
}
use invoicing_platform.Inbound.Current.{
  IsCurrentChange, apply_inbound_entity-runs, operation-void, operation-delete,
}
use invoicing_platform.Inbound.Settled.{settled_link}
use invoicing_platform.Inbound.Inert.{IsInert, linked-IsInert}

module _ (js : JsRuntime) (input : ApplyInboundEntityInput) (t : TransactionRow) (qbo : Json)
    (mark : ℕ → TransactionRow → TransactionRow) (action : String) (db : Database) where
  -- The database after the ledger of `t` is cleared, its row marked, its link synced, with one audit row.
  abbrev pub removed : Database
  removed = record (cleared (zero_out_of input.org_id t) db) {
    transactions = update (is_row_of input.org_id t.id) (mark db.now) db.transactions;
    sync_links =
        update (is_local_key input.org_id transaction t.id)
          (synced_link
            (record {
              qbo_sync_token = qbo_sync_token qbo;
              local_version = some (t.version + 1);
              last_synced_at = some db.now;
            })
            db.now)
          db.sync_links;
    sync_audit_logs = db.sync_audit_logs ++ (inbound_row input (some t.id) action success ∷ []);
  }

module _ (js : JsRuntime) (input : ApplyInboundEntityInput) (t : TransactionRow) (qbo : Json)
    (db : Database) (balanced : IsBalancedTxn input.org_id t.id db) where
  void_linked_invoice-eq :
      void_linked_invoice js input t qbo db
      ≡ ok (
        record { action = voided_locally; local_id = some t.id; reason = none },
        removed js input t qbo (voided_row t) "qbo.inbound.void" db,
      )
  unfolding void_linked_invoice void_local_invoice_row update_transactions finish mark_synced audit
      write_audit_log
  void_linked_invoice-eq = rw (zero_out_ledger-eq (zero_out_of input.org_id t) db balanced) refl

  delete_linked_invoice-eq :
      delete_linked_invoice js input t qbo db
      ≡ ok (
        record { action = deleted_locally; local_id = some t.id; reason = none },
        removed js input t qbo (deleted_row t) "qbo.inbound.delete" db,
      )
  unfolding delete_linked_invoice soft_delete_local_invoice_row update_transactions finish
      mark_synced audit write_audit_log
  delete_linked_invoice-eq = rw (zero_out_ledger-eq (zero_out_of input.org_id t) db balanced) refl

module _ (js : JsRuntime) (input : ApplyInboundEntityInput) (link : SyncLinkRow) (qbo : Json)
    (t : TransactionRow) (mark : ℕ → TransactionRow → TransactionRow) (action : String)
    (db : Database) (key : is_local_key input.org_id transaction t.id link ≡ true) where
  abbrev is_local_invoice : TransactionRow → Bool
  is_local_invoice x = x.org_id == input.org_id && x.id == link.local_id && is_invoice x.type

  row_of_itself : is_local_invoice t ≡ true → is_row_of input.org_id t.id t ≡ true
  row_of_itself h = ground arith

  find-removed :
      (type : QboEntityType)
      → find_link_by_qbo input.org_id type input.entity_id db ≡ some link
      → find_link_by_qbo input.org_id type input.entity_id (removed js input t qbo mark action db)
        ≡ some (settled_link js qbo link db.now t.version)
  unfolding find_link_by_qbo synced_link
  find-removed type e =
      first-update (is_qbo_key input.org_id type input.entity_id)
        (is_local_key input.org_id transaction t.id)
        (synced_link
          (record {
            qbo_sync_token = qbo_sync_token qbo;
            local_version = some (t.version + 1);
            last_synced_at = some db.now;
          })
          db.now)
        db.sync_links (λ l. refl)
      ∙ rw (e, key) refl

  found-removed :
      ((t' : TransactionRow) → is_local_invoice (mark db.now t') ≡ is_local_invoice t')
      → find_local_invoice input.org_id link.local_id db ≡ some t
      → find_local_invoice input.org_id link.local_id (removed js input t qbo mark action db)
        ≡ some (mark db.now t)
  unfolding find_local_invoice
  found-removed keeps f =
      first-update is_local_invoice (is_row_of input.org_id t.id) (mark db.now) db.transactions
        keeps
      ∙ rw (f, row_of_itself (first-fits is_local_invoice db.transactions f)) refl

  removed-IsLinkedChange :
      (later : ApplyInboundEntityInput) (qbo' : Json)
      → ((t' : TransactionRow) → is_local_invoice (mark db.now t') ≡ is_local_invoice t')
      → input.entity_type ≡ qbo_invoice
      → IsLater input later qbo'
      → IsLinkedChange input db link t qbo
      → IsLinkedChange later
          (removed js input t qbo mark action db)
          (settled_link js qbo link db.now t.version)
          (mark db.now t)
          qbo'
  unfolding synced_link
  removed-IsLinkedChange later qbo' keeps i is_later change =
      later-IsLinkedChange input later db (removed js input t qbo mark action db) link
        (settled_link js qbo link db.now t.version) t (mark db.now t) qbo qbo' is_later change
        find-removed (λ i' e. found-removed keeps e) (λ p e. absurd (cc))

-- What a void or a delete of the invoice `t` leaves: every account of it nets to zero, its row is marked,
-- its balance is zero and its version the next.
pub record IsRemoved (input : ApplyInboundEntityInput) (link : SyncLinkRow) (t row : TransactionRow)
    (out : Database) : Type 0 where
  pub found : find_local_invoice input.org_id link.local_id out ≡ some row
  pub balance : row.balance ≡ pos 0
  pub version : row.version ≡ t.version + 1
  pub nets : (a : RowId) → account_net a (entries_of input.org_id t.id out) ≡ pos 0

module _ (js : JsRuntime) (input later : ApplyInboundEntityInput) (link : SyncLinkRow)
    (qbo qbo' : Json) (t : TransactionRow) (db : Database)
    (change : IsLinkedChange input db link t qbo)
    (is_invoice_change : input.entity_type ≡ qbo_invoice)
    (key : is_local_key input.org_id transaction t.id link ≡ true)
    (current : IsCurrentChange js input link t qbo) (balanced : IsBalancedTxn input.org_id t.id db)
    (is_later : IsLater input later qbo') where
  found_invoice : find_local_invoice input.org_id link.local_id db ≡ some t
  found_invoice = go change
    where
      go :
          IsLinkedChange input db link t qbo
          → find_local_invoice input.org_id link.local_id db ≡ some t
      go (invoice_change e n b l f) = f
      go (payment_change e n b l f) = absurd (cc)

  -- A void change of a linked invoice that no guard stops, paid or not, goes through: the local invoice is
  -- void with balance zero and the next version, every account of it nets to zero, and a later change of it that is
  -- no delete leaves everything but the audit log alone.
  pub linked_void-clears :
      is_void input.operation ≡ true
      → is_voided t.status ≡ false
      → is_delete later.operation ≡ false
      → (row : TransactionRow) × (out : Database) × (apply_inbound_entity js input db
          ≡ ok (record { action = voided_locally; local_id = some t.id; reason = none }, out))
        × (row.status ≡ voided)
        × IsRemoved input link t row out
        × IsInert (apply_inbound_entity js later) out
  linked_void-clears o v n = (
    voided_row t db.now t,
    removed js input t qbo (voided_row t) "qbo.inbound.void" db,
    apply_inbound_entity-runs js input link qbo t db current change
        ∙ operation-void js input link qbo t db current (handlers_of js input qbo input.entity_type)
            o v
        ∙ ap (λ type. (handlers_of js input qbo type).voided t db) is_invoice_change
        ∙ void_linked_invoice-eq js input t qbo db balanced,
    refl,
    record {
      found =
          found-removed js input link qbo t (voided_row t) "qbo.inbound.void" db key (λ t'. refl)
            found_invoice;
      balance = refl;
      version = refl;
      nets = nets-cleared (zero_out_of input.org_id t) db;
    },
    linked-IsInert js later (settled_link js qbo link db.now t.version) qbo' (voided_row t db.now t)
        (removed js input t qbo (voided_row t) "qbo.inbound.void" db)
        (removed-IsLinkedChange js input link qbo t (voided_row t) "qbo.inbound.void" db key later
          qbo' (λ t'. refl) is_invoice_change is_later change)
        (inr (inl (refl, n))),
  )

  -- A delete change of a linked invoice that no guard stops, paid or not, goes through: the local invoice is
  -- deleted with balance zero and the next version, every account of it nets to zero, and every later change of it
  -- leaves everything but the audit log alone.
  pub linked_delete-clears :
      is_delete input.operation ≡ true
      → (row : TransactionRow) × (out : Database) × (apply_inbound_entity js input db
          ≡ ok (record { action = deleted_locally; local_id = some t.id; reason = none }, out))
        × (row.deleted_at ≡ some db.now)
        × IsRemoved input link t row out
        × IsInert (apply_inbound_entity js later) out
  linked_delete-clears o = (
    deleted_row t db.now t,
    removed js input t qbo (deleted_row t) "qbo.inbound.delete" db,
    apply_inbound_entity-runs js input link qbo t db current change
        ∙ operation-delete js input link qbo t db current
            (handlers_of js input qbo input.entity_type) o
        ∙ ap (λ type. (handlers_of js input qbo type).deleted t db) is_invoice_change
        ∙ delete_linked_invoice-eq js input t qbo db balanced,
    refl,
    record {
      found =
          found-removed js input link qbo t (deleted_row t) "qbo.inbound.delete" db key (λ t'. refl)
            found_invoice;
      balance = refl;
      version = refl;
      nets = nets-cleared (zero_out_of input.org_id t) db;
    },
    linked-IsInert js later (settled_link js qbo link db.now t.version) qbo'
        (deleted_row t db.now t) (removed js input t qbo (deleted_row t) "qbo.inbound.delete" db)
        (removed-IsLinkedChange js input link qbo t (deleted_row t) "qbo.inbound.delete" db key
          later qbo' (λ t'. refl) is_invoice_change is_later change)
        (inl refl),
  )
