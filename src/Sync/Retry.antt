-- ===== src/Sync/Retry.antt =====
-- apps/api/src/qbo/retry.ts: the exponential backoff of a failed push.
use invoicing_platform.Prelude.{
  ℕ, zero, suc, ◌+◌, ◌-◌, ◌*◌, ◌^◌, ◌≤◌, ◌<◌, ◌≡◌, refl, ◌⊎◌, inl, inr, Option, none, some, arith,
  ltb, leb, if◌then◌else◌,
}
use Prim.Native.Nat.{min}

abbrev pub max_retry_attempts : ℕ
max_retry_attempts = 8

-- 30 s and 1 h, in milliseconds.
abbrev pub base_delay_ms : ℕ
base_delay_ms = 30_000

abbrev pub max_delay_ms : ℕ
max_delay_ms = 60 * 60 * 1000

-- What `computeBackoff` returns or throws.
pub data Backoff : Type 0 where
  delay : ℕ → Backoff
  terminal : Backoff
  out_of_range : Backoff

unfoldable pub compute_backoff : ℕ → Backoff
compute_backoff retry_count =
    if ltb retry_count 1
    then out_of_range
    else if leb max_retry_attempts retry_count
    then terminal
    else delay (min (base_delay_ms * 2 ^ (retry_count - 1)) max_delay_ms)

-- The result as a milliseconds-or-`null`, where the argument is at least 1.
abbrev pub delay_of : Backoff → Option ℕ
delay_of (delay ms) = some ms
delay_of terminal = none
delay_of out_of_range = none

-- The whole schedule: seven delays that double from 30 s to 32 min, and then none.
schedule :
    (compute_backoff 1 ≡ delay 30_000)
    × (compute_backoff 2 ≡ delay 60_000)
    × (compute_backoff 7 ≡ delay 1_920_000)
    × (compute_backoff 8 ≡ terminal)
    × (compute_backoff 0 ≡ out_of_range)
unfolding compute_backoff
schedule = (refl, refl, refl, refl, refl)

-- From the first failure on, each of the first seven is followed by a wait between 30 s and 1 h, and
-- the wait after the next failure is twice as long, cut off at 1 h; the eighth failure and every
-- later one is terminal.
pub compute_backoff-schedule :
    (n : ℕ)
    → 1 ≤ n
    → (n < max_retry_attempts)
        × ((ms : ℕ) × (compute_backoff n ≡ delay ms)
            × (base_delay_ms ≤ ms)
            × (ms ≤ max_delay_ms)
            × (n + 1 < max_retry_attempts
                → compute_backoff (n + 1) ≡ delay (min (2 * ms) max_delay_ms)))
      ⊎ (max_retry_attempts ≤ n) × (compute_backoff n ≡ terminal)
unfolding compute_backoff
compute_backoff-schedule zero h = absurd (omega arith)
compute_backoff-schedule (suc zero) h =
    inl (omega arith, (30000, refl, omega arith, omega arith, λ _. refl))
compute_backoff-schedule (suc (suc zero)) h =
    inl (omega arith, (60000, refl, omega arith, omega arith, λ _. refl))
compute_backoff-schedule (suc (suc (suc zero))) h =
    inl (omega arith, (120000, refl, omega arith, omega arith, λ _. refl))
compute_backoff-schedule (suc (suc (suc (suc zero)))) h =
    inl (omega arith, (240000, refl, omega arith, omega arith, λ _. refl))
compute_backoff-schedule (suc (suc (suc (suc (suc zero))))) h =
    inl (omega arith, (480000, refl, omega arith, omega arith, λ _. refl))
compute_backoff-schedule (suc (suc (suc (suc (suc (suc zero)))))) h =
    inl (omega arith, (960000, refl, omega arith, omega arith, λ _. refl))
compute_backoff-schedule (suc (suc (suc (suc (suc (suc (suc zero))))))) h =
    inl (omega arith, (1920000, refl, omega arith, omega arith, λ h'. absurd (omega arith)))
compute_backoff-schedule (suc (suc (suc (suc (suc (suc (suc (suc k)))))))) h =
    inr (omega arith, ground arith)
