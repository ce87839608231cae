-- ===== src/Ledger/ZeroOut.antt =====
-- `zeroOutLedger`: it goes through on a balanced transaction, drives the net of every account to
-- zero, touches no other transaction, and posts nothing the second time.
use mathlib.Core.List.{append-nil}
use native.Mathlib.Nat.{add-zero}
use invoicing_platform.Prelude.{◌+◌, ◌≡◌, refl, ◌&&◌, List, [], ◌∷◌, ◌++◌, false, ◌==◌, length}
use invoicing_platform.Prelude.Int.{pos, int_laws, parts_of_eq}
use invoicing_platform.Database.{RowId, LedgerEntryRow, Database, ok}
use invoicing_platform.Ledger.{
  PostingLine, PostLedgerInput, ParsedLine, NetMap, ZeroOutLedgerArgs, parse_lines,
  total_debit_cents, total_credit_cents, entry_rows, insert_entries, net_by_account_from,
  reversal_lines, post_reversal, zero_out_ledger, entries_of,
}
use invoicing_platform.Ledger.Sums.{debits, credits, account_net, account_net-append}
use invoicing_platform.Ledger.Rows.{entries_of-posted, entries_of-other}
use invoicing_platform.Ledger.Post.{post_ledger-ok}
use invoicing_platform.Ledger.Nets.{
  reversal_parsed, parse-reversal_lines, net_in-net_by_account_from, net_total-net_by_account_from,
  net_total-reversal_parsed, account_net-reversal,
}
use invoicing_platform.Ledger.Distinct.{net_by_account_from-IsDistinct, reversal_lines-nil}

-- Debits and credits of a transaction are equal in sum.
abbrev pub IsBalancedTxn : RowId → RowId → Database → Type 0
IsBalancedTxn org txn db = debits (entries_of org txn db) ≡ credits (entries_of org txn db)

module _ (args : ZeroOutLedgerArgs) where
  abbrev pub posting_of : List PostingLine → PostLedgerInput
  posting_of ls = record {
    org_id = args.org_id;
    transaction_id = args.transaction_id;
    entry_date = args.entry_date;
    lines = ls;
  }

  -- The database with the lines posted to it.
  abbrev posted : List PostingLine → List ParsedLine → Database → Database
  posted ls ps db = record db {
    ledger_entries = db.ledger_entries ++ entry_rows (posting_of ls) db.next_id ps;
    next_id = db.next_id + length ps;
  }

  post_reversal-eq :
      (ls : List PostingLine) (ps : List ParsedLine) (db : Database)
      → parse_lines ls ≡ ok ps
      → total_debit_cents ps ≡ total_credit_cents ps
      → post_reversal args ls db ≡ ok (tt, posted ls ps db)
  unfolding parse_lines entry_rows insert_entries
  post_reversal-eq [] (p ∷ ps) db e same = cc
  post_reversal-eq [] [] db e same = rw (append-nil, add-zero)
  post_reversal-eq (l ∷ ls) ps db e same =
      rw (post_ledger-ok (posting_of (l ∷ ls)) db ps refl e same)

  abbrev pub nets : Database → NetMap
  nets db = net_by_account_from [] (entries_of args.org_id args.transaction_id db)

  abbrev pub reversal : Database → List PostingLine
  reversal db = reversal_lines args.contact_id (nets db)

  -- The rows that the reversal appends.
  abbrev pub reversal_rows : Database → List LedgerEntryRow
  reversal_rows db =
      entry_rows (posting_of (reversal db)) db.next_id (reversal_parsed args.contact_id (nets db))

  abbrev pub cleared : Database → Database
  cleared db = posted (reversal db) (reversal_parsed args.contact_id (nets db)) db

  pub reversal-IsBalanced :
      (db : Database)
      → IsBalancedTxn args.org_id args.transaction_id db
      → total_debit_cents (reversal_parsed args.contact_id (nets db))
        ≡ total_credit_cents (reversal_parsed args.contact_id (nets db))
  reversal-IsBalanced db h =
      let rows = entries_of args.org_id args.transaction_id db in
      omega (
        int_laws,
        parts_of_eq h,
        parts_of_eq (net_total-net_by_account_from [] rows),
        parts_of_eq (net_total-reversal_parsed args.contact_id (nets db)),
      )

  -- On a balanced transaction the reversal goes through, and appends its rows.
  pub zero_out_ledger-eq :
      (db : Database)
      → IsBalancedTxn args.org_id args.transaction_id db
      → zero_out_ledger args db ≡ ok (tt, cleared db)
  unfolding zero_out_ledger
  zero_out_ledger-eq db h =
      post_reversal-eq (reversal db) (reversal_parsed args.contact_id (nets db)) db
        (parse-reversal_lines args.contact_id (nets db)) (reversal-IsBalanced db h)

  -- After the reversal every account of the transaction nets to zero.
  pub nets-cleared :
      (db : Database) (a : RowId)
      → account_net a (entries_of args.org_id args.transaction_id (cleared db)) ≡ pos 0
  nets-cleared db a =
      let rows = entries_of args.org_id args.transaction_id db in
      let reversing = reversal_parsed args.contact_id (nets db) in
      let input = posting_of (reversal db) in
      rw
        (
          entries_of-posted input db (cleared db) db.next_id reversing refl,
          account_net-append a rows (entry_rows input db.next_id reversing),
        )
        (omega (
          int_laws,
          parts_of_eq (account_net-reversal input db.next_id args.contact_id a (nets db)),
          parts_of_eq (net_in-net_by_account_from a [] rows),
        ))

  -- With every account at net zero already there is nothing to reverse.
  reversal-nil :
      (db : Database)
      → ((a : RowId) → account_net a (entries_of args.org_id args.transaction_id db) ≡ pos 0)
      → reversal db ≡ []
  reversal-nil db h =
      let rows = entries_of args.org_id args.transaction_id db in
      reversal_lines-nil args.contact_id (nets db) (net_by_account_from-IsDistinct [] rows tt)
        (λ a. rw (net_in-net_by_account_from a [] rows, h a) (omega int_laws))

-- On a transaction whose entries balance, zeroing out goes through; it appends to the ledger, after
-- it every account of the transaction nets to zero, and the entries of every other transaction are
-- as they were.
pub zero_out_ledger-clears :
    (args : ZeroOutLedgerArgs) (db : Database)
    → IsBalancedTxn args.org_id args.transaction_id db
    → (out : Database) × (zero_out_ledger args db ≡ ok (tt, out))
      × (out.ledger_entries ≡ db.ledger_entries ++ reversal_rows args db)
      × ((a : RowId) → account_net a (entries_of args.org_id args.transaction_id out) ≡ pos 0)
      × ((org txn : RowId)
          → (args.org_id == org && args.transaction_id == txn) ≡ false
          → entries_of org txn out ≡ entries_of org txn db)
zero_out_ledger-clears args db h = (
  cleared args db,
  zero_out_ledger-eq args db h,
  refl,
  nets-cleared args db,
  entries_of-other (posting_of args (reversal args db)) db (cleared args db) db.next_id
      (reversal_parsed args.contact_id (nets args db)) refl,
)

-- Zeroing out a second time goes through and posts nothing: the database stays as the first left it.
pub zero_out_ledger-idempotent :
    (args : ZeroOutLedgerArgs) (db : Database)
    → IsBalancedTxn args.org_id args.transaction_id db
    → (out : Database) × (zero_out_ledger args db ≡ ok (tt, out))
      × (zero_out_ledger args out ≡ ok (tt, out))
unfolding zero_out_ledger
zero_out_ledger-idempotent args db h = (
  cleared args db,
  zero_out_ledger-eq args db h,
  rw (reversal-nil args (cleared args db) (nets-cleared args db)),
)
