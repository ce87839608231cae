-- ===== src/Sync/Conflict.antt =====
-- apps/api/src/qbo/conflict.ts: when an inbound change meets a local one.
use invoicing_platform.Prelude.{ℕ, Bool, false, Option, none, some, ltb, if◌then◌else◌}
use invoicing_platform.Prelude.Int.{ℤ, ltb_ℤ}

pub record LocalVersionState : Type 0 where
  pub stored_local_version : Option ℕ
  pub txn_version : ℕ

abbrev is_dirty : Option ℕ → ℕ → Bool
is_dirty none version = false
is_dirty (some stored) version = ltb stored version

unfoldable pub is_both_sides_conflict : LocalVersionState → Bool → Bool
is_both_sides_conflict l incoming_is_stale =
    if incoming_is_stale then false else is_dirty l.stored_local_version l.txn_version

unfoldable pub would_underflow_paid_amount : ℤ → ℤ → Bool
would_underflow_paid_amount total_cents paid_cents = ltb_ℤ total_cents paid_cents
