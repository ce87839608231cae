-- ===== src/Invoices/Lines.antt =====
-- apps/api/src/invoices/service.ts: the lines of an invoice, and the postings they make.
use invoicing_platform.Prelude.{ℕ, suc, ◌+◌, Bool, not, String, Option, none, some, List, [], ◌∷◌}
use invoicing_platform.Prelude.Int.{ℤ, pos, ◌+ℤ◌, ltb_ℤ}
use invoicing_platform.Money.{Amount, text, to_cents, format_cents}
use invoicing_platform.Database.{
  RowId, AccountRow, invalid_line, chart_not_seeded, Tx, pure, raise, gets, raise_if, some_or_raise,
  ◌>>=◌, ◌>>◌,
}
use invoicing_platform.Accounts.{get_account_by_subtype, find_account}
use invoicing_platform.Ledger.{PostingLine, NetMap, add_net}

-- JS numbers by their bit patterns: `Number.isFinite(q) && q > 0`, and `Math.round(q * cents)`.
pub record JsNumber : Type 0 where
  pub is_positive : ℕ → Bool
  pub round_product : ℕ → ℤ → ℤ

pub record InvoiceLineInput : Type 0 where
  pub item_id : Option RowId
  pub account_id : Option RowId
  pub description : Option String
  pub quantity : ℕ
  pub unit_price : Amount

pub record ResolvedLine : Type 0 where
  pub line_number : ℕ
  pub item_id : Option RowId
  pub account_id : RowId
  pub description : Option String
  pub quantity : ℕ
  pub unit_price : ℤ
  pub amount_cents : ℤ

pub record InvoiceAccounts : Type 0 where
  pub ar : AccountRow
  pub sales_income : AccountRow

unfoldable pub require_invoice_accounts : RowId → Tx InvoiceAccounts
require_invoice_accounts org = do
  ar_found ← gets (get_account_by_subtype org "accounts_receivable")
  ar ← some_or_raise ar_found chart_not_seeded
  income_found ← gets (get_account_by_subtype org "sales_income")
  income ← some_or_raise income_found chart_not_seeded
  pure (record { ar = ar; sales_income = income })

unfoldable pub line_account : RowId → RowId → Option RowId → Tx RowId
line_account org default_income none = pure default_income
line_account org default_income (some id) = do
  found ← gets (find_account org id)
  account ← some_or_raise found invalid_line
  pure id

module _ (js : JsNumber) (org default_income : RowId) where
  -- One turn of the loop of `resolveLines`.
  unfoldable pub resolve_line : ℕ → InvoiceLineInput → Tx ResolvedLine
  resolve_line index line = do
    raise_if (not (js.is_positive line.quantity)) invalid_line
    unit_price_cents ← some_or_raise (to_cents line.unit_price) invalid_line
    raise_if (ltb_ℤ unit_price_cents (pos 0)) invalid_line
    account_id ← line_account org default_income line.account_id
    pure (record {
      line_number = index + 1;
      item_id = line.item_id;
      account_id = account_id;
      description = line.description;
      quantity = line.quantity;
      unit_price = unit_price_cents;
      amount_cents = js.round_product line.quantity unit_price_cents;
    })

  unfoldable pub resolve_from : ℕ → List InvoiceLineInput → Tx (List ResolvedLine)
  resolve_from index [] = pure []
  resolve_from index (line ∷ lines) = do
    resolved ← resolve_line index line
    rest ← resolve_from (suc index) lines
    pure (resolved ∷ rest)

  unfoldable pub resolve_lines : List InvoiceLineInput → Tx (List ResolvedLine)
  resolve_lines [] = raise invalid_line
  resolve_lines (line ∷ lines) = resolve_from 0 (line ∷ lines)

abbrev pub total_amount_cents : List ResolvedLine → ℤ
total_amount_cents [] = pos 0
total_amount_cents (line ∷ lines) = line.amount_cents +ℤ total_amount_cents lines

-- `incomeTotals`
unfoldable pub income_totals_from : NetMap → List ResolvedLine → NetMap
income_totals_from m [] = m
income_totals_from m (line ∷ lines) =
    income_totals_from (add_net line.account_id line.amount_cents m) lines

unfoldable pub credit_postings : Option RowId → NetMap → List PostingLine
credit_postings contact [] = []
credit_postings contact ((account, cents) ∷ m) =
    record {
      account_id = account;
      contact_id = contact;
      debit = none;
      credit = some (text (format_cents cents));
    }
    ∷ credit_postings contact m

unfoldable pub build_invoice_postings : List ResolvedLine → RowId → Option RowId → List PostingLine
build_invoice_postings lines ar_account_id contact =
    record {
      account_id = ar_account_id;
      contact_id = contact;
      debit = some (text (format_cents (total_amount_cents lines)));
      credit = none;
    }
    ∷ credit_postings contact (income_totals_from [] lines)
