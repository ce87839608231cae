-- ===== src/Sync/Ordering.antt =====
-- apps/api/src/qbo/ordering.ts: is an incoming change no newer than what is recorded? What JS makes of
-- a text as a number or a date is a parameter.
use invoicing_platform.Prelude.{Bool, false, Option, none, some, [], ◌∷◌}
use invoicing_platform.Prelude.Int.{ℤ, leb_ℤ}
use invoicing_platform.Money.{Text, trim}

-- `Number(text)` where it is finite, by a key that has the order of the numbers, and `new Date(text)`
-- where it is valid, in milliseconds.
pub record JsParsers : Type 0 where
  pub number : Text → Option ℤ
  pub time : Text → Option ℤ

pub record StoredSyncState : Type 0 where
  pub sync_token : Option Text
  pub last_synced_at : Option ℤ

pub record IncomingSyncState : Type 0 where
  pub sync_token : Option Text
  pub last_updated : Option Text

module _ (js : JsParsers) where
  abbrev number_of : Text → Text → Option ℤ
  number_of token [] = none
  number_of token (_ ∷ _) = js.number token

  unfoldable pub parse_sync_token : Option Text → Option ℤ
  parse_sync_token none = none
  parse_sync_token (some token) = number_of token (trim token)

  unfoldable pub parse_iso_date : Option Text → Option ℤ
  parse_iso_date none = none
  parse_iso_date (some []) = none
  parse_iso_date (some (c ∷ s)) = js.time (c ∷ s)

  -- The fallback: an unknown time on either side is not stale.
  abbrev pub is_no_later : Option ℤ → Option ℤ → Bool
  is_no_later (some incoming) (some stored) = leb_ℤ incoming stored
  is_no_later _ none = false
  is_no_later none (some _) = false

  abbrev pub is_stale_by : Option ℤ → Option ℤ → Bool → Bool
  is_stale_by (some stored) (some incoming) by_time = leb_ℤ incoming stored
  is_stale_by none _ by_time = by_time
  is_stale_by (some _) none by_time = by_time

  unfoldable pub is_stale_inbound_apply : StoredSyncState → IncomingSyncState → Bool
  is_stale_inbound_apply stored incoming =
      is_stale_by (parse_sync_token stored.sync_token) (parse_sync_token incoming.sync_token)
        (is_no_later (parse_iso_date incoming.last_updated) stored.last_synced_at)
