-- ===== src/Ledger/Rows.antt =====
-- Which transaction the rows of a posting belong to, and what each transaction then holds.
use mathlib.Core.List.{append-nil}
use invoicing_platform.Prelude.{
  ℕ, suc, ◌≡◌, refl, ◌&&◌, List, [], ◌∷◌, ◌++◌, true, false, ◌==◌, ==_iff, All, select-append,
  select-All, select-none,
}
use invoicing_platform.Database.{RowId, LedgerEntryRow, Database}
use invoicing_platform.Ledger.{PostLedgerInput, ParsedLine, entry_rows, is_entry_of, entries_of}

abbrev IsEntryOf : PostLedgerInput → LedgerEntryRow → Type 0
IsEntryOf input r = is_entry_of input.org_id input.transaction_id r ≡ true

module _ (input : PostLedgerInput) where
  entry_rows-IsEntryOf :
      (n : ℕ) (ps : List ParsedLine) → All (IsEntryOf input) (entry_rows input n ps)
  unfolding entry_rows
  entry_rows-IsEntryOf n [] = tt
  entry_rows-IsEntryOf n (p ∷ ps) = (
    rw (
      (==_iff input.org_id input.org_id).1 refl,
      (==_iff input.transaction_id input.transaction_id).1 refl,
    ),
    entry_rows-IsEntryOf (suc n) ps,
  )

  entry_rows-other :
      (org txn : RowId) (n : ℕ) (ps : List ParsedLine)
      → (input.org_id == org && input.transaction_id == txn) ≡ false
      → All (λ r. is_entry_of org txn r ≡ false) (entry_rows input n ps)
  unfolding entry_rows
  entry_rows-other org txn n [] h = tt
  entry_rows-other org txn n (p ∷ ps) h = (h, entry_rows-other org txn (suc n) ps h)

  module _ (db out : Database) (n : ℕ) (ps : List ParsedLine)
      (appended : out.ledger_entries ≡ db.ledger_entries ++ entry_rows input n ps) where
    -- The posting's own transaction has gained its rows.
    pub entries_of-posted :
        entries_of input.org_id input.transaction_id out
        ≡ entries_of input.org_id input.transaction_id db ++ entry_rows input n ps
    entries_of-posted = rw (
      appended,
      select-append (is_entry_of input.org_id input.transaction_id) db.ledger_entries
          (entry_rows input n ps),
      select-All (is_entry_of input.org_id input.transaction_id) (entry_rows input n ps)
          (entry_rows-IsEntryOf n ps),
    )

    -- Any other transaction has the entries that it had.
    pub entries_of-other :
        (org txn : RowId)
        → (input.org_id == org && input.transaction_id == txn) ≡ false
        → entries_of org txn out ≡ entries_of org txn db
    entries_of-other org txn h =
        rw
          (
            appended,
            select-append (is_entry_of org txn) db.ledger_entries (entry_rows input n ps),
            select-none (is_entry_of org txn) (entry_rows input n ps)
                (entry_rows-other org txn n ps h),
          )
          (append-nil (entries_of org txn db))
