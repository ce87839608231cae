-- ===== src/Lib.antt =====
-- The server of the invoicing platform: invoices, payments and the double-entry ledger behind them,
-- and the links that keep them in step with QuickBooks Online (QBO).
--
-- Parts, and the file that models each:
-- - Money: apps/api/src/money.ts, exact decimal text to cents (`toCents`) and back (`formatCents`).
-- - Database: apps/api/src/db/schema.ts. Tables has a record for each table and `Database`, which holds
--   all of them, the next id and the clock. Transactions has `Tx`, the code inside
--   `db.transaction(async (tx) => …)`: a step on the database that returns or throws; `transact` rolls
--   back what throws. Statements has the inserts, updates and deletes of the services, Keeps the rules by
--   which a step keeps an invariant.
-- - Ledger: apps/api/src/ledger/posting.ts, `post_ledger` for `postLedger` and `zero_out_ledger` for
--   `zeroOutLedger`, on top of Money and Database.
-- - Accounts: the lookups of apps/api/src/accounts/service.ts and apps/api/src/contacts/service.ts.
-- - Invoices: apps/api/src/invoices/service.ts; Invoices.Lines has the lines and their postings. Each
--   service is one `Tx` with the source's guards in their order, and calls the ledger.
-- - Payments: apps/api/src/payments/service.ts and status.ts. Each payment recomputes its invoice and
--   calls `bump_local_version` of Sync.Links.
-- - Sync: apps/api/src/qbo. Links is sync-link-service.ts, Retry is retry.ts, Conflict is conflict.ts,
--   Ordering is ordering.ts, EventDedup is event-dedup.ts, NaturalKey is natural-key.ts.
-- - Inbound: apps/api/src/qbo/inbound-sync.ts, what `applyInboundEntity` (Inbound.Apply) does with a record
--   that was read from QBO, in one `Tx`. Body has its JSON and the JS runtime, Mappers the pure mappers,
--   Guards what every linked change passes (`apply_row`: deleted, held, stale, in conflict, void), Invoice
--   and Payment the changes of linked records, Candidates and Imports the matching and import of others,
--   PaymentImport the import of a payment. It writes with Invoices, Payments, Ledger and Sync.Links.
-- - Webhook: apps/api/src/routes/qbo-webhook.ts, the entities of a call (`handle_entity`): each event is
--   claimed with Sync.EventDedup and applied with Inbound in one transaction.
-- - Outbound: apps/api/src/qbo/outbound-sync.ts. Builders has the bodies sent to QBO. Effects has `Eff`, code
--   that calls QBO between statements that commit one by one; the QBO client, its remote state and its
--   answers are a parameter (`QboClient`). Push has `push_entity` and `ensure_entity_synced`, Removal the
--   failure of a push and the void and delete of a document, Documents the invoices, PaymentPush the
--   payments.
-- - Sweep: apps/api/src/qbo/retry-sweep.ts. Query has the conditions of the queries, Reconcile the question
--   whether a record is in QBO already, Retry the retry of a link and the sweep, with Outbound.
-- - Conflicts: of apps/api/src/routes/conflicts.ts, the operation that a resolution in favour of QBO replays,
--   read from the audit rows of the held changes.
-- - Tests: a small shop on which the operations run.
-- Prelude has the shared helpers: Boolean tests, tables as lists, signed integers, unique keys.
--
-- Amounts are integers without a bound: the source's cents are doubles, which are exact below 2^53, far
-- above what a `numeric(14, 2)` column holds. No loop needs fuel: each runs over a list. A JS number
-- that is not an amount is its bit pattern, and what JS computes of it (`Math.round`, `Number(text)`,
-- `new Date(text)`, lower case) is a parameter of the definitions that use it.
--
-- Not modelled: concurrent transactions (one runs at a time, so a lock does nothing), the
-- HTTP and OAuth calls, the routes but for the webhook and the recovery of a conflict's
-- operation, sessions, the web application.
pub mod Prelude
pub mod Accounts
pub mod Money
pub mod Conflicts
pub mod Database
pub mod Ledger
pub mod Sync
pub mod Payments
pub mod Inbound
pub mod Webhook
pub mod Outbound
pub mod Sweep
pub mod Invoices
pub mod Tests
