-- ===== src/Sync/EventDedup/Injective.antt =====
-- The key of an event determines the event.
use invoicing_platform.Prelude.{◌≡◌, ◌≢◌, refl, sym, Option, none, some, [], ◌∷◌, All}
use invoicing_platform.Money.{Text}
use invoicing_platform.Sync.EventDedup.{WebhookEventIdentity, join, with_time, build_event_key}

-- A text without a colon.
abbrev pub HasNoColon : Text → Type 0
HasNoColon s = All (λ c. c ≢ b':') s

-- The first colon splits a joined text.
join-injective :
    (a a' b b' : Text) → HasNoColon a → HasNoColon a' → join a b ≡ join a' b' → (a ≡ a') × (b ≡ b')
join-injective [] [] b b' h h' e = (refl, cc)
join-injective [] (c ∷ a') b b' h (plain, h') e = absurd (plain (cc))
join-injective (c ∷ a) [] b b' (plain, h) h' e = absurd (plain (cc))
join-injective (c ∷ a) (d ∷ a') b b' (plain, h) (plain', h') e =
    let head : c ≡ d = cc in let (same, rest) = join-injective a a' b b' h h' (cc) in (cc, rest)

join-colon : (a b : Text) (o : Text) → HasNoColon o → join a b ≢ o
join-colon [] b [] h e = cc
join-colon [] b (c ∷ o) (plain, h) e = plain (cc)
join-colon (d ∷ a) b [] h e = cc
join-colon (d ∷ a) b (c ∷ o) (plain, h) e = join-colon a b o h (cc)

-- What the key keeps of `lastUpdated`: an empty one counts as none.
abbrev pub time_of : Option Text → Text
time_of none = []
time_of (some s) = s

with_time-injective :
    (o o' : Text) (t t' : Option Text)
    → HasNoColon o
    → HasNoColon o'
    → with_time o t ≡ with_time o' t'
    → (o ≡ o') × (time_of t ≡ time_of t')
with_time-injective o o' none none h h' e = (e, refl)
with_time-injective o o' none (some []) h h' e = (e, refl)
with_time-injective o o' (some []) none h h' e = (e, refl)
with_time-injective o o' (some []) (some []) h h' e = (e, refl)
with_time-injective o o' none (some (c ∷ s)) h h' e = absurd (join-colon o' (c ∷ s) o h (sym e))
with_time-injective o o' (some []) (some (c ∷ s)) h h' e =
    absurd (join-colon o' (c ∷ s) o h (sym e))
with_time-injective o o' (some (c ∷ s)) none h h' e = absurd (join-colon o (c ∷ s) o' h' e)
with_time-injective o o' (some (c ∷ s)) (some []) h h' e = absurd (join-colon o (c ∷ s) o' h' e)
with_time-injective o o' (some (c ∷ s)) (some (d ∷ s')) h h' e =
    join-injective o o' (c ∷ s) (d ∷ s') h h' e

-- The four parts of an identity have no colon.
pub record IsPlain (e : WebhookEventIdentity) : Type 0 where
  pub realm_id : HasNoColon e.realm_id
  pub name : HasNoColon e.name
  pub id : HasNoColon e.id
  pub operation : HasNoColon e.operation

-- Two events whose realm, name, id and operation have no colon share a key only if they agree in all
-- four and in the time of the change, where an empty time is the same as none.
pub build_event_key-injective :
    (e e' : WebhookEventIdentity)
    → IsPlain e
    → IsPlain e'
    → build_event_key e ≡ build_event_key e'
    → (e.realm_id ≡ e'.realm_id)
      × (e.name ≡ e'.name)
      × (e.id ≡ e'.id)
      × (e.operation ≡ e'.operation)
      × (time_of e.last_updated ≡ time_of e'.last_updated)
unfolding build_event_key
build_event_key-injective e e' p p' h =
    let (realm, h1) = join-injective e.realm_id e'.realm_id _ _ p.realm_id p'.realm_id h in
    let (name, h2) = join-injective e.name e'.name _ _ p.name p'.name h1 in
    let (id, h3) = join-injective e.id e'.id _ _ p.id p'.id h2 in
    let (operation, time) =
      with_time-injective e.operation e'.operation e.last_updated e'.last_updated p.operation
        p'.operation h3 in
    (realm, name, id, operation, time)
