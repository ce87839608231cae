-- ===== src/Payments/Status.antt =====
-- apps/api/src/payments/status.ts, and the balance that goes with a status.
use invoicing_platform.Prelude.{◌≡◌, ◌↔◌, arith, if◌then◌else◌}
use invoicing_platform.Prelude.Int.{ℤ, pos, ◌-ℤ◌, ◌≤ℤ◌, ◌<ℤ◌, leb_ℤ, min_ℤ}
use invoicing_platform.Database.{TransactionStatus, opened, partially_paid, paid}

unfoldable pub derive_invoice_status : ℤ → ℤ → TransactionStatus
derive_invoice_status total_cents paid_cents =
    if leb_ℤ paid_cents (pos 0)
    then opened
    else if leb_ℤ total_cents paid_cents
    then paid
    else partially_paid

-- `totalCents - Math.min(paidCents, totalCents)`
unfoldable pub remaining_balance : ℤ → ℤ → ℤ
unfolding min_ℤ ◌-ℤ◌
remaining_balance total_cents paid_cents = total_cents -ℤ min_ℤ paid_cents total_cents

-- Of an invoice with a positive total and payments between nothing and the total, the status says
-- what the balance says: open exactly when nothing is paid and the whole total remains, paid exactly
-- when nothing remains, partially paid exactly when the balance lies strictly between.
pub derive_invoice_status-balance :
    (total paid_cents : ℤ)
    → pos 0 <ℤ total
    → pos 0 ≤ℤ paid_cents
    → paid_cents ≤ℤ total
    → ((derive_invoice_status total paid_cents ≡ opened)
        ↔ (remaining_balance total paid_cents ≡ total))
      × ((derive_invoice_status total paid_cents ≡ paid)
          ↔ (remaining_balance total paid_cents ≡ pos 0))
      × ((derive_invoice_status total paid_cents ≡ partially_paid) ↔ (
          (pos 0 <ℤ remaining_balance total paid_cents)
          × (remaining_balance total paid_cents <ℤ total)))
unfolding derive_invoice_status remaining_balance
derive_invoice_status-balance total paid_cents h k l = ground arith

-- The balance is never negative and never above the total, whatever has been paid.
pub remaining_balance-bounds :
    (total paid_cents : ℤ)
    → pos 0 ≤ℤ paid_cents
    → pos 0 ≤ℤ total
    → (pos 0 ≤ℤ remaining_balance total paid_cents) × (remaining_balance total paid_cents ≤ℤ total)
unfolding remaining_balance
remaining_balance-bounds total paid_cents h k = ground arith
