-- ===== src/Database/Keeps.antt =====
-- Invariants of steps, one rule for each way to build a step: what succeeds keeps the invariant, and it
-- leaves the table of the processed events alone, which only the claim of an event writes.
use mathlib.Core.Path.{subst}
use invoicing_platform.Prelude.{
  ◌≡◌, refl, ap, ◌∙◌, Bool, true, false, Option, none, some, if◌then◌else◌,
}
use invoicing_platform.Database.Tables.{Database}
use invoicing_platform.Database.Transactions.{
  Error, Result, ok, err, Tx, pure, raise, gets, lift, some_or_raise, raise_if, commit, ◌>>=◌,
  transact, bind-eq-ok, ok-inj,
}

pub record Keeps {A : Type 0} (P : Database → Type 0) (m : Tx A) : Type 0 where
  pub at : (db : Database) (a : A) (out : Database) → m db ≡ ok (a, out) → P db → P out
  pub events :
      (db : Database) (a : A) (out : Database)
      → m db ≡ ok (a, out)
      → db.processed_events ≡ out.processed_events

module _ {P : Database → Type 0} where
  pub Keeps-raise_if : (b : Bool) (e : Error) → Keeps P (raise_if b e)
  Keeps-raise_if true e = record {
    at = λ db a out h p. absurd (cc);
    events = λ db a out h. absurd (cc);
  }
  Keeps-raise_if false e = record {
    at = λ db a out h p. subst P (ap (λ (y : Unit {0} × Database). y.1) (ok-inj h)) p;
    events = λ db a out h. ap (λ (y : Unit {0} × Database). (y.1).processed_events) (ok-inj h);
  }

module _ {A : Type 0} {P : Database → Type 0} where
  same-Keeps :
      (m : Tx A)
      → ((db : Database) (a : A) (out : Database) → m db ≡ ok (a, out) → db ≡ out)
      → Keeps P m
  same-Keeps m f = record {
    at = λ db a out h p. subst P (f db a out h) p;
    events = λ db a out h. ap (λ x. x.processed_events) (f db a out h);
  }

  pub Keeps-pure : (a : A) → Keeps P (pure a)
  Keeps-pure a = same-Keeps (pure a) (λ db a' out h. ap (λ (y : A × Database). y.1) (ok-inj h))

  pub Keeps-raise : (e : Error) → Keeps P (raise {A = A} e)
  Keeps-raise e = record { at = λ db a out h p. absurd (cc); events = λ db a out h. absurd (cc) }

  pub Keeps-gets : (f : Database → A) → Keeps P (gets f)
  Keeps-gets f = same-Keeps (gets f) (λ db a' out h. ap (λ (y : A × Database). y.1) (ok-inj h))

  pub Keeps-lift : (r : Result A) → Keeps P (lift r)
  Keeps-lift (ok a) =
      same-Keeps (lift (ok a)) (λ db a' out h. ap (λ (y : A × Database). y.1) (ok-inj h))
  Keeps-lift (err e) = record {
    at = λ db a out h p. absurd (cc);
    events = λ db a out h. absurd (cc);
  }

  pub Keeps-some_or_raise : (o : Option A) (e : Error) → Keeps P (some_or_raise o e)
  Keeps-some_or_raise none e = record {
    at = λ db a out h p. absurd (cc);
    events = λ db a out h. absurd (cc);
  }
  Keeps-some_or_raise (some a) e =
      same-Keeps (some_or_raise (some a) e)
        (λ db a' out h. ap (λ (y : A × Database). y.1) (ok-inj h))

  pub Keeps-if : (b : Bool) (m n : Tx A) → Keeps P m → Keeps P n → Keeps P (if b then m else n)
  Keeps-if true m n km kn = km
  Keeps-if false m n km kn = kn

module _ {A B : Type 0} {P : Database → Type 0} where
  pub Keeps-bind :
      (m : Tx A) (f : A → Tx B) → Keeps P m → ((a : A) → Keeps P (f a)) → Keeps P (m >>= f)
  Keeps-bind m f km kf = record {
    at = λ db b out h p.
        let (a, mid, first, rest) = bind-eq-ok m f db h in
        (kf a).at mid b out rest (km.at db a mid first p);
    events = λ db b out h.
        let (a, mid, first, rest) = bind-eq-ok m f db h in
        km.events db a mid first ∙ (kf a).events mid b out rest;
  }

-- A committed transaction keeps what its body keeps; one that rolls back leaves the database.
pub transact-Keeps :
    {A : Type 0} (P : Database → Type 0) (m : Tx A) (db : Database)
    → Keeps P m
    → P db
    → P (transact m db).1
unfolding transact
transact-Keeps {A} P m db k p = go (m db) refl
  where
    go : (r : Result (A × Database)) → m db ≡ r → P (commit db r).1
    go (ok (a, out)) e = k.at db a out e p
    go (err e') e = p

pub ruleset keeps_rules = (
  Keeps-pure, Keeps-raise, Keeps-gets, Keeps-lift, Keeps-some_or_raise, Keeps-raise_if, Keeps-if,
  Keeps-bind,
)
