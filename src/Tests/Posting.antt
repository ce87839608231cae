-- ===== src/Tests/Posting.antt =====
-- Amounts and the ledger on the small shop.
use invoicing_platform.Prelude.{
  ◌≡◌, refl, ◌&&◌, true, false, Option, none, some, List, [], ◌∷◌, ◌++◌, ◌==◌, All,
}
use invoicing_platform.Prelude.Int.{ℤ, pos, negsuc, ltb_ℤ, ◌+ℤ◌}
use invoicing_platform.Money.{text, to_cents, format_cents}
use invoicing_platform.Money.RoundTrip.{to_cents-format_cents}
use invoicing_platform.Database.{Database, RowId, LedgerEntryRow, Database, ok}
use invoicing_platform.Ledger.{
  insert_entries, entry_rows, PostLedgerInput, PostingLine, ParsedLine, ZeroOutLedgerArgs,
  entries_of, parse_lines, post_ledger, zero_out_ledger,
}
use invoicing_platform.Ledger.Nets.{parse_credit, parse_positive_debit}
use invoicing_platform.Ledger.Sums.{account_net, debits, credits}
use invoicing_platform.Ledger.Post.{IsOneSided, post_ledger-ok, post_ledger-balanced}
use invoicing_platform.Ledger.ZeroOut.{
  zero_out_ledger-clears, zero_out_ledger-idempotent, reversal_rows,
}
use invoicing_platform.Tests.{shop, shop-IsBalanced}

abbrev zeroing : ZeroOutLedgerArgs
zeroing = record {
  org_id = 1;
  transaction_id = 100;
  entry_date = "2026-02-03";
  contact_id = some 5;
}

zero_out_ledger-clears_example :
    (out : Database) × (zero_out_ledger zeroing shop ≡ ok (tt, out))
    × (out.ledger_entries ≡ shop.ledger_entries ++ reversal_rows zeroing shop)
    × ((a : RowId) → account_net a (entries_of 1 100 out) ≡ pos 0)
    × ((org txn : RowId)
        → (1 == org && 100 == txn) ≡ false
        → entries_of org txn out ≡ entries_of org txn shop)
zero_out_ledger-clears_example = zero_out_ledger-clears zeroing shop (shop-IsBalanced 1 100)

zero_out_ledger-idempotent_example :
    (out : Database) × (zero_out_ledger zeroing shop ≡ ok (tt, out))
    × (zero_out_ledger zeroing out ≡ ok (tt, out))
zero_out_ledger-idempotent_example = zero_out_ledger-idempotent zeroing shop (shop-IsBalanced 1 100)

to_cents-format_cents_example : to_cents (text (format_cents (negsuc 1204))) ≡ some (negsuc 1204)
to_cents-format_cents_example = to_cents-format_cents (negsuc 1204)

abbrev debit_line : Option RowId → RowId → ℤ → PostingLine
debit_line contact account c = record {
  account_id = account;
  contact_id = contact;
  debit = some (text (format_cents c));
  credit = none;
}

abbrev credit_line : Option RowId → RowId → ℤ → PostingLine
credit_line contact account c = record {
  account_id = account;
  contact_id = contact;
  debit = none;
  credit = some (text (format_cents c));
}

-- A debit of one account and a credit of another, as they are posted and as they are parsed.
abbrev pub posting : RowId → Option RowId → RowId → RowId → ℤ → ℤ → PostLedgerInput
posting id contact to from debit credit = record {
  org_id = 1;
  transaction_id = id;
  entry_date = "2026-02-02";
  lines = debit_line contact to debit ∷ credit_line contact from credit ∷ [];
}

abbrev pub parsed : Option RowId → RowId → RowId → ℤ → ℤ → List ParsedLine
parsed contact to from debit credit =
    record { account_id = to; contact_id = contact; debit_cents = debit; credit_cents = pos 0 }
    ∷ record { account_id = from; contact_id = contact; debit_cents = pos 0; credit_cents = credit }
    ∷ []

pub parsed_lines :
    (id : RowId) (contact : Option RowId) (to from : RowId) (debit credit : ℤ)
    → ltb_ℤ (pos 0) debit ≡ true
    → ltb_ℤ (pos 0) credit ≡ true
    → parse_lines (posting id contact to from debit credit).lines
      ≡ ok (parsed contact to from debit credit)
unfolding parse_lines
parsed_lines id contact to from debit credit h k =
    rw (parse_positive_debit contact to debit h, parse_credit contact from credit k)

abbrev sale : PostLedgerInput
sale = posting 101 none 12 10 (pos 700) (pos 700)

abbrev sale_rows : List LedgerEntryRow
sale_rows = entry_rows sale 400 (parsed none 12 10 (pos 700) (pos 700))

posted_sale :
    post_ledger sale shop
    ≡ ok (
      sale_rows,
      record shop { ledger_entries = shop.ledger_entries ++ sale_rows; next_id = 402 },
    )
unfolding ◌+ℤ◌ insert_entries
posted_sale =
    post_ledger-ok sale shop (parsed none 12 10 (pos 700) (pos 700)) refl
      (parsed_lines 101 none 12 10 (pos 700) (pos 700) refl refl) refl

post_ledger-balanced_example :
    (debits sale_rows ≡ credits sale_rows)
    × All IsOneSided sale_rows
    × (shop.ledger_entries ++ sale_rows ≡ shop.ledger_entries ++ sale_rows)
post_ledger-balanced_example = post_ledger-balanced sale shop _ sale_rows posted_sale
