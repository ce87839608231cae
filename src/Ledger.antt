-- ===== src/Ledger.antt =====
-- apps/api/src/ledger/posting.ts: the double-entry ledger of one transaction, which is only ever
-- appended to. The proofs are in the modules below.
pub mod Sums
pub mod Post
pub mod Nets
pub mod Distinct
pub mod ZeroOut
pub mod Rows
pub mod Balance
pub mod Statements
use invoicing_platform.Prelude.{
  ℕ, suc, ◌+◌, String, Bool, ◌&&◌, not, Option, none, some, List, [], ◌∷◌, ◌++◌, ◌==◌,
  if◌then◌else◌, length, select,
}
use invoicing_platform.Prelude.Int.{ℤ, pos, ◌+ℤ◌, ◌-ℤ◌, ltb_ℤ, eqb_ℤ, neg}
use invoicing_platform.Money.{Amount, text, to_cents, format_cents}
use invoicing_platform.Database.{
  RowId, LedgerEntryRow, Database, Error, Result, ok, err, invalid_posting, unbalanced, Tx, pure,
  gets, modify, lift, raise_if, ◌>>=◌, ◌>>◌,
}

pub record PostingLine : Type 0 where
  pub account_id : RowId
  pub contact_id : Option RowId
  pub debit : Option Amount
  pub credit : Option Amount

pub record PostLedgerInput : Type 0 where
  pub org_id : RowId
  pub transaction_id : RowId
  pub entry_date : String
  pub lines : List PostingLine

-- `{ ...line, debitCents, creditCents }`
pub record ParsedLine : Type 0 where
  pub account_id : RowId
  pub contact_id : Option RowId
  pub debit_cents : ℤ
  pub credit_cents : ℤ

-- `toCents(amount ?? 0)`; what it throws becomes an `InvalidPostingError`.
unfoldable pub posted_cents : Option Amount → Result ℤ
posted_cents none = ok (pos 0)
posted_cents (some amount) = elim (to_cents amount) [ none ↦ err invalid_posting | some c ↦ ok c ]

-- The guards of one line: no side is negative, and exactly one is set.
unfoldable pub check_sides : ParsedLine → Result ParsedLine
check_sides line =
    if ltb_ℤ line.debit_cents (pos 0)
    then err invalid_posting
    else if ltb_ℤ line.credit_cents (pos 0)
    then err invalid_posting
    else if ltb_ℤ (pos 0) line.debit_cents && ltb_ℤ (pos 0) line.credit_cents
    then err invalid_posting
    else if eqb_ℤ line.debit_cents (pos 0) && eqb_ℤ line.credit_cents (pos 0)
    then err invalid_posting
    else ok line

abbrev with_credit : PostingLine → ℤ → Result ℤ → Result ParsedLine
with_credit line debit (err e) = err e
with_credit line debit (ok credit) = check_sides (record {
  account_id = line.account_id;
  contact_id = line.contact_id;
  debit_cents = debit;
  credit_cents = credit;
})

abbrev with_debit : PostingLine → Result ℤ → Result ParsedLine
with_debit line (err e) = err e
with_debit line (ok debit) = with_credit line debit (posted_cents line.credit)

unfoldable pub parse_line : PostingLine → Result ParsedLine
unfolding check_sides posted_cents
parse_line line = with_debit line (posted_cents line.debit)

abbrev cons_result : Result ParsedLine → Result (List ParsedLine) → Result (List ParsedLine)
cons_result (err e) rest = err e
cons_result (ok p) (err e) = err e
cons_result (ok p) (ok ps) = ok (p ∷ ps)

-- `input.lines.map(…)`, which throws for the first bad line.
unfoldable pub parse_lines : List PostingLine → Result (List ParsedLine)
parse_lines [] = ok []
parse_lines (line ∷ lines) = cons_result (parse_line line) (parse_lines lines)

abbrev pub total_debit_cents : List ParsedLine → ℤ
total_debit_cents [] = pos 0
total_debit_cents (p ∷ ps) = p.debit_cents +ℤ total_debit_cents ps

abbrev pub total_credit_cents : List ParsedLine → ℤ
total_credit_cents [] = pos 0
total_credit_cents (p ∷ ps) = p.credit_cents +ℤ total_credit_cents ps

-- The rows of `insert(ledgerEntries).values(…)`, with ids from `first` on.
pub entry_rows : PostLedgerInput → ℕ → List ParsedLine → List LedgerEntryRow
entry_rows input first [] = []
entry_rows input first (p ∷ ps) =
    record {
      id = first;
      org_id = input.org_id;
      transaction_id = input.transaction_id;
      account_id = p.account_id;
      contact_id = p.contact_id;
      entry_date = input.entry_date;
      debit = p.debit_cents;
      credit = p.credit_cents;
    }
    ∷ entry_rows input (suc first) ps

unfoldable pub insert_entries : PostLedgerInput → List ParsedLine → Tx (List LedgerEntryRow)
insert_entries input ps db =
    let rows = entry_rows input db.next_id ps in
    ok (
      rows,
      record db { ledger_entries = db.ledger_entries ++ rows; next_id = db.next_id + length ps },
    )

abbrev pub is_empty {ℓ} : {A : Type ℓ} → List A → Bool
is_empty [] = Bool.true
is_empty (_ ∷ _) = Bool.false

unfoldable pub post_ledger : PostLedgerInput → Tx (List LedgerEntryRow)
unfolding insert_entries
post_ledger input = do
  raise_if (is_empty input.lines) invalid_posting
  parsed ← lift (parse_lines input.lines)
  raise_if (not (eqb_ℤ (total_debit_cents parsed) (total_credit_cents parsed)))
      (unbalanced (total_debit_cents parsed) (total_credit_cents parsed))
  insert_entries input parsed

pub record ZeroOutLedgerArgs : Type 0 where
  pub org_id : RowId
  pub transaction_id : RowId
  pub entry_date : String
  pub contact_id : Option RowId

-- `where(orgId = …, transactionId = …)`
abbrev pub is_entry_of : RowId → RowId → LedgerEntryRow → Bool
is_entry_of org txn row = row.org_id == org && row.transaction_id == txn

-- A `Map<string, number>`, in order of insertion.
abbrev pub NetMap : Type 0
NetMap = List (RowId × ℤ)

-- `map.set(k, (map.get(k) ?? 0) + n)`
unfoldable pub add_net : RowId → ℤ → NetMap → NetMap
add_net k n [] = (k, pos 0 +ℤ n) ∷ []
add_net k n ((j, v) ∷ m) = if j == k then (j, v +ℤ n) ∷ m else (j, v) ∷ add_net k n m

pub net_by_account_from : NetMap → List LedgerEntryRow → NetMap
net_by_account_from m [] = m
net_by_account_from m (row ∷ rows) =
    net_by_account_from (add_net row.account_id (row.debit -ℤ row.credit) m) rows

pub reversal_lines : Option RowId → NetMap → List PostingLine
reversal_lines contact [] = []
reversal_lines contact ((account, net) ∷ m) =
    let rest = reversal_lines contact m in
    if eqb_ℤ net (pos 0)
    then rest
    else if ltb_ℤ (pos 0) net
    then record {
      account_id = account;
      contact_id = contact;
      debit = none;
      credit = some (text (format_cents net));
    }
      ∷ rest
    else record {
      account_id = account;
      contact_id = contact;
      debit = some (text (format_cents (neg net)));
      credit = none;
    }
      ∷ rest

abbrev pub post_reversal : ZeroOutLedgerArgs → List PostingLine → Tx Unit
post_reversal args [] = pure tt
post_reversal args (l ∷ ls) =
    post_ledger (record {
      org_id = args.org_id;
      transaction_id = args.transaction_id;
      entry_date = args.entry_date;
      lines = l ∷ ls;
    })
    >> pure tt

-- The entries of one transaction, `select().from(ledgerEntries).where(…)`.
abbrev pub entries_of : RowId → RowId → Database → List LedgerEntryRow
entries_of org txn db = select (is_entry_of org txn) db.ledger_entries

unfoldable pub zero_out_ledger : ZeroOutLedgerArgs → Tx Unit
zero_out_ledger args = do
  rows ← gets (entries_of args.org_id args.transaction_id)
  post_reversal args (reversal_lines args.contact_id (net_by_account_from [] rows))
