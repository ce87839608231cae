-- ===== src/Ledger/Sums.antt =====
-- Sums over ledger entries: the whole debit and credit, and the net of one account.
use invoicing_platform.Prelude.{◌≡◌, List, [], ◌∷◌, ◌++◌, ◌==◌, if◌then◌else◌}
use invoicing_platform.Prelude.Int.{ℤ, pos, ◌+ℤ◌, ◌-ℤ◌, int_laws}
use invoicing_platform.Database.{RowId, LedgerEntryRow}

abbrev pub debits : List LedgerEntryRow → ℤ
debits [] = pos 0
debits (r ∷ rs) = r.debit +ℤ debits rs

abbrev pub credits : List LedgerEntryRow → ℤ
credits [] = pos 0
credits (r ∷ rs) = r.credit +ℤ credits rs

-- Debit less credit, over the entries of one account.
abbrev pub account_net : RowId → List LedgerEntryRow → ℤ
account_net a [] = pos 0
account_net a (r ∷ rs) =
    (if r.account_id == a then r.debit -ℤ r.credit else pos 0) +ℤ account_net a rs

pub debits-append : (xs ys : List LedgerEntryRow) → debits (xs ++ ys) ≡ debits xs +ℤ debits ys
debits-append [] ys = omega int_laws
debits-append (x ∷ xs) ys = rw (debits-append xs ys) (omega int_laws)

pub credits-append : (xs ys : List LedgerEntryRow) → credits (xs ++ ys) ≡ credits xs +ℤ credits ys
credits-append [] ys = omega int_laws
credits-append (x ∷ xs) ys = rw (credits-append xs ys) (omega int_laws)

pub account_net-append :
    (a : RowId) (xs ys : List LedgerEntryRow)
    → account_net a (xs ++ ys) ≡ account_net a xs +ℤ account_net a ys
account_net-append a [] ys = omega int_laws
account_net-append a (x ∷ xs) ys = rw (account_net-append a xs ys) (omega int_laws)
