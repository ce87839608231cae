-- ===== src/Ledger/Balance.antt =====
-- The books balance: in every transaction, debits and credits are equal in sum. Each operation of
-- the ledger keeps that.
use invoicing_platform.Prelude.{
  ℕ, ◌≡◌, refl, sym, ◌∙◌, inl, inr, ◌&&◌, List, ◌++◌, arith, ◌==◌, Bool-cases,
}
use invoicing_platform.Database.{RowId, LedgerEntryRow, Database, ok, ok-injective}
use invoicing_platform.Ledger.{
  PostLedgerInput, ParsedLine, ZeroOutLedgerArgs, total_debit_cents, total_credit_cents, entry_rows,
  entries_of, post_ledger, zero_out_ledger,
}
use invoicing_platform.Ledger.Sums.{debits-append, credits-append}
use invoicing_platform.Ledger.Post.{debits-entry_rows, credits-entry_rows, post_ledger-appends}
use invoicing_platform.Ledger.Rows.{entries_of-posted, entries_of-other}
use invoicing_platform.Ledger.ZeroOut.{
  IsBalancedTxn, zero_out_ledger-eq, reversal-IsBalanced, posting_of, nets, reversal, cleared,
}
use invoicing_platform.Ledger.Nets.{reversal_parsed}

abbrev pub IsBalanced : Database → Type 0
IsBalanced db = (org txn : RowId) → IsBalancedTxn org txn db

module _ (input : PostLedgerInput) (db out : Database) (n : ℕ) (ps : List ParsedLine)
    (appended : out.ledger_entries ≡ db.ledger_entries ++ entry_rows input n ps)
    (same : total_debit_cents ps ≡ total_credit_cents ps) where
  own-IsBalancedTxn :
      IsBalancedTxn input.org_id input.transaction_id db
      → IsBalancedTxn input.org_id input.transaction_id out
  own-IsBalancedTxn h =
      let old = entries_of input.org_id input.transaction_id db in
      rw (
        entries_of-posted input db out n ps appended,
        debits-append old (entry_rows input n ps),
        credits-append old (entry_rows input n ps),
        debits-entry_rows input n ps,
        credits-entry_rows input n ps,
        h,
        same,
      )

  pub appended-IsBalanced : IsBalanced db → IsBalanced out
  appended-IsBalanced h org txn =
      elim (Bool-cases (input.org_id == org && input.transaction_id == txn)) [
        | inl e ↦
            let org_same : input.org_id ≡ org = ground arith in
            let txn_same : input.transaction_id ≡ txn = ground arith in
            rw (← org_same, ← txn_same) (own-IsBalancedTxn (h input.org_id input.transaction_id))
        | inr e ↦ rw (entries_of-other input db out n ps appended org txn e) (h org txn)
      ]

-- A posting that goes through keeps every transaction balanced.
pub post_ledger-IsBalanced :
    (input : PostLedgerInput) (db out : Database) (rows : List LedgerEntryRow)
    → post_ledger input db ≡ ok (rows, out)
    → IsBalanced db
    → IsBalanced out
post_ledger-IsBalanced input db out rows h =
    let (ps, appended, same) = post_ledger-appends input db out rows h in
    appended-IsBalanced input db out db.next_id ps appended same

-- So does a reversal.
pub zero_out_ledger-IsBalanced :
    (args : ZeroOutLedgerArgs) (db out : Database)
    → zero_out_ledger args db ≡ ok (tt, out)
    → IsBalanced db
    → IsBalanced out
zero_out_ledger-IsBalanced args db out h balanced =
    let here = balanced args.org_id args.transaction_id in
    let same : cleared args db ≡ out = ok-injective (sym (zero_out_ledger-eq args db here) ∙ h) in
    rw (← same) (
      appended-IsBalanced (posting_of args (reversal args db)) db (cleared args db) db.next_id
        (reversal_parsed args.contact_id (nets args db)) refl (reversal-IsBalanced args db here)
        balanced)
