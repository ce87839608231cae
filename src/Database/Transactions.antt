-- ===== src/Database/Transactions.antt =====
-- What runs inside `db.transaction`: a step on the database that may throw, and the transaction that
-- rolls back when it does (PostgreSQL's promise, which every service relies on).
use invoicing_platform.Prelude.{◌≡◌, ◌⊎◌, inl, inr, refl, ap, Bool, true, false, Option, none, some}
use invoicing_platform.Prelude.Int.{ℤ}
use invoicing_platform.Database.Tables.{Database}

-- The error classes of the services; `failed_write` is a plain `Error`, of a write that returned
-- no row or of an inbound change where the chart is not seeded, and `range_error` the one of an amount that does not parse.
pub data Error : Type 0 where
  not_found invalid_state invalid_contact chart_not_seeded invalid_line : Error
  version_conflict invalid_posting : Error
  unbalanced : ℤ → ℤ → Error
  overpayment invalid_amount invalid_deposit_account : Error
  unmappable_entity conflicting_link failed_write range_error : Error

pub data Result {ℓ} (A : Type ℓ) : Type ℓ where
  ok : A → Result A
  err : Error → Result A

-- A step throws, or goes through with a result and a database.
pub Result-cases :
    {A : Type 0} (r : Result (A × Database))
    → ((e : Error) × (r ≡ err e)) ⊎ ((a : A) × (db : Database) × (r ≡ ok (a, db)))
Result-cases (err e) = inl (e, refl)
Result-cases (ok (a, db)) = inr (a, db, refl)

abbrev pub Tx : Type 0 → Type 0
Tx A = Database → Result (A × Database)

module _ {A : Type 0} where
  abbrev pub pure : A → Tx A
  pure a db = ok (a, db)

  abbrev pub raise : Error → Tx A
  raise e db = err e

  abbrev pub gets : (Database → A) → Tx A
  gets f db = ok (f db, db)

  abbrev pub lift : Result A → Tx A
  lift (ok a) db = ok (a, db)
  lift (err e) db = err e

  -- `if (!value) throw e`
  abbrev pub some_or_raise : Option A → Error → Tx A
  some_or_raise none e db = err e
  some_or_raise (some a) e db = ok (a, db)

abbrev pub modify : (Database → Database) → Tx Unit
modify f db = ok (tt, f db)

abbrev pub raise_if : Bool → Error → Tx Unit
raise_if true e db = err e
raise_if false e db = ok (tt, db)

module _ {A B : Type 0} where
  abbrev pub continue : Result (A × Database) → (A → Tx B) → Result (B × Database)
  continue (ok (a, db)) f = f a db
  continue (err e) f = err e

  infixl 5 ◌>>=◌ ◌>>◌
  abbrev pub ◌>>=◌ : Tx A → (A → Tx B) → Tx B
  ◌>>=◌ m f db = continue (m db) f

  abbrev pub ◌>>◌ : Tx A → Tx B → Tx B
  m >> k = m >>= λ _. k

-- `db.transaction(body)`: what the caller gets, and the database that is left.
abbrev pub commit {ℓ} : {A : Type ℓ} → Database → Result (A × Database) → Result A × Database
commit db (ok (a, db')) = (ok a, db')
commit db (err e) = (err e, db)

unfoldable pub transact : {A : Type 0} → Tx A → Database → Result A × Database
transact body db = commit db (body db)

pub ok-injective :
    {A : Type 0} {a a' : A} {db db' : Database}
    → ◌≡◌ {A = Result (A × Database)} (ok (a, db)) (ok (a', db'))
    → db ≡ db'
ok-injective h = cc

-- Reading a successful run backwards, one rule for each first step of a block.
module _ {A B : Type 0} where
  pub bind-eq-ok :
      (m : Tx A) (f : A → Tx B) (db : Database) {x : B × Database}
      → continue (m db) f ≡ ok x
      → (a : A) × (mid : Database) × (m db ≡ ok (a, mid)) × (f a mid ≡ ok x)
  bind-eq-ok m f db {x} h = go (m db) refl h
    where
      go :
          (r : Result (A × Database))
          → m db ≡ r
          → continue r f ≡ ok x
          → (a : A) × (mid : Database) × (m db ≡ ok (a, mid)) × (f a mid ≡ ok x)
      go (ok (a, mid)) e k = (a, mid, e, k)
      go (err e') e k = absurd (cc)

  pub lift-eq-ok :
      (r : Result A) (f : A → Tx B) (db : Database) {x : B × Database}
      → continue (lift r db) f ≡ ok x
      → (a : A) × (r ≡ ok a) × (f a db ≡ ok x)
  lift-eq-ok (ok a) f db h = (a, refl, h)
  lift-eq-ok (err e) f db h = absurd (cc)

  pub some_or_raise-eq-ok :
      (o : Option A) (e : Error) (f : A → Tx B) (db : Database) {x : B × Database}
      → continue (some_or_raise o e db) f ≡ ok x
      → (a : A) × (o ≡ some a) × (f a db ≡ ok x)
  some_or_raise-eq-ok none e f db h = absurd (cc)
  some_or_raise-eq-ok (some a) e f db h = (a, refl, h)

pub raise_if-eq-ok :
    {B : Type 0} (b : Bool) (e : Error) (f : Unit {0} → Tx B) (db : Database) {x : B × Database}
    → continue (raise_if b e db) f ≡ ok x
    → (b ≡ false) × (f tt db ≡ ok x)
raise_if-eq-ok true e f db h = absurd (cc)
raise_if-eq-ok false e f db h = (refl, h)

-- A guard that lets a step go on was not met.
pub raise_if-passes :
    (b : Bool) (e : Error) (db : Database) {x : Unit {0} × Database}
    → raise_if b e db ≡ ok x
    → b ≡ false
raise_if-passes true e db h = absurd (cc)
raise_if-passes false e db h = refl

pub ok-inj : {A : Type 0} {x y : A} → ok x ≡ ok y → x ≡ y
ok-inj h = cc

-- A guard changes nothing.
pub raise_if-same :
    (b : Bool) (e : Error) (db : Database) {x : Unit {0} × Database}
    → raise_if b e db ≡ ok x
    → db ≡ x.1
raise_if-same true e db h = absurd (cc)
raise_if-same false e db h = ap (λ y. y.1) (ok-inj h)

pub some_or_raise-same :
    {A : Type 0} (o : Option A) (e : Error) (db : Database) {x : A × Database}
    → some_or_raise o e db ≡ ok x
    → db ≡ x.1
some_or_raise-same none e db h = absurd (cc)
some_or_raise-same (some a) e db h = ap (λ y. y.1) (ok-inj h)
