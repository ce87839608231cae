-- ===== src/Outbound/Effects.antt =====
-- Code that calls QBO between its writes: each statement commits by itself, and what throws keeps what was
-- written before. The QBO client is a parameter: a remote state and what each call makes of it.
use Prim.Native.String.{String}
use invoicing_platform.Prelude.{Option, List}
use invoicing_platform.Money.{Text}
use invoicing_platform.Database.{RowId, QboEntityType, Database, Error, Result, ok, err, Tx}
use invoicing_platform.Inbound.Body.{Json}

-- The client of qbo/api-client.ts with its access token, and the message of an error.
pub record QboClient : Type 1 where
  pub Remote : Type 0
  pub get_entity : QboEntityType → RowId → Remote → Result Json × Remote
  pub create_entity : QboEntityType → Json → Remote → Result Json × Remote
  pub update_entity : QboEntityType → Json → Remote → Result Json × Remote
  pub void_entity : QboEntityType → RowId → Text → Remote → Result Json × Remote
  pub delete_entity : QboEntityType → RowId → Text → Remote → Result Json × Remote
  pub query_entities : Option (QboEntityType → Text → Remote → Result (List Json) × Remote)
  pub message : Error → String

module _ (q : QboClient) where
  pub record World : Type 0 where
    pub db : Database
    pub remote : q.Remote

  abbrev pub Eff : Type 0 → Type 0
  Eff A = World → Result A × World

module _ {q : QboClient} {A : Type 0} where
  abbrev pub done : A → Eff q A
  done a w = (ok a, w)

  abbrev pub throw : Error → Eff q A
  throw e w = (err e, w)

  abbrev committed : World q → Result (A × Database) → Result A × World q
  committed w (ok (a, db)) = (ok a, record w { db = db })
  committed w (err e) = (err e, w)

  -- A statement on the database.
  abbrev pub run : Tx A → Eff q A
  run m w = committed w (m w.db)

  abbrev answered : World q → Result A × q.Remote → Result A × World q
  answered w (r, remote) = (r, record w { remote = remote })

  -- A call of the client.
  abbrev pub call : (q.Remote → Result A × q.Remote) → Eff q A
  call f w = answered w (f w.remote)

  abbrev caught : Result A × World q → (Error → Eff q A) → Result A × World q
  caught (ok a, w) handler = (ok a, w)
  caught (err e, w) handler = handler e w

  -- `try { … } catch (err) { … }`
  abbrev pub try_catch : Eff q A → (Error → Eff q A) → Eff q A
  try_catch m handler w = caught (m w) handler

module _ {q : QboClient} {A B : Type 0} where
  abbrev went_on : Result A × World q → (A → Eff q B) → Result B × World q
  went_on (ok a, w) f = f a w
  went_on (err e, w) f = (err e, w)

  infixl 5 ◌>>=◌
  abbrev pub ◌>>=◌ : Eff q A → (A → Eff q B) → Eff q B
  (m >>= f) w = went_on (m w) f

  infixl 5 ◌>>◌
  abbrev pub ◌>>◌ : Eff q A → Eff q B → Eff q B
  (m >> n) w = went_on (m w) (λ a. n)
