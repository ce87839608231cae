-- ===== src/Sync/NaturalKey/Confident.antt =====
-- A match of an invoice is confident: exactly one candidate agrees.
use invoicing_platform.Prelude.{
  ◌≡◌, refl, sym, ap, ◌∙◌, ◌⊎◌, inl, inr, Bool, true, false, Option, none, some, List, [], ◌∷◌, All,
  Bool-cases, ◌&&◌, ==_iff,
}
use invoicing_platform.Prelude.Int.{ℤ, eqb_ℤ, eqb_ℤ_iff}
use invoicing_platform.Money.{Text, Amount, to_cents, same_text}
use invoicing_platform.Money.SameText.{both_true, same_text_iff}
use invoicing_platform.Database.{RowId}
use invoicing_platform.Sync.NaturalKey.{
  matched, to_match_result, LocalInvoiceLike, QboInvoiceLike, match_of, keep_if, filter_ids, agrees,
  same_cents, is_doc, is_customer, agrees_by_doc, agrees_by_customer, by_customer, by_doc, by_total,
  match_invoice_by_natural_key,
}

-- What it is to agree: the total of the candidate reads as the same cents, the dates are the same text, and
-- so is the document number, or the customer is the same.
pub record AgreesByDoc (local : LocalInvoiceLike) (cents : ℤ) (doc : Text) (c : QboInvoiceLike)
    : Type 0 where
  pub total : to_cents c.total ≡ some cents
  pub txn_date : c.txn_date ≡ local.txn_date
  pub doc_number : c.doc_number ≡ some doc

pub record AgreesByCustomer (local : LocalInvoiceLike) (cents : ℤ) (id : RowId) (c : QboInvoiceLike)
    : Type 0 where
  pub total : to_cents c.total ≡ some cents
  pub txn_date : c.txn_date ≡ local.txn_date
  pub customer : c.customer_qbo_id ≡ some id

-- Exactly one candidate agrees, and it has the QBO id `q`.
abbrev pub OnlyAgrees : (QboInvoiceLike → Type 0) → RowId → List QboInvoiceLike → Type 0
OnlyAgrees Agrees q [] = ⊥
OnlyAgrees Agrees q (c ∷ cs) =
    Agrees c × (c.qbo_id ≡ q) × All (λ d. ¬ Agrees d) cs ⊎ (¬ Agrees c) × OnlyAgrees Agrees q cs

-- What was kept tells what the test said.
keep_if-cases :
    (b : Option Bool) (id : RowId) (rest : Option (List RowId)) {ids : List RowId}
    → keep_if b id rest ≡ some ids
    → (more : List RowId) × (rest ≡ some more)
      × ((b ≡ some true) × (ids ≡ id ∷ more) ⊎ (b ≡ some false) × (ids ≡ more))
keep_if-cases none id rest h = absurd (cc)
keep_if-cases (some b) id none h = absurd (cc)
keep_if-cases (some true) id (some more) h = (more, refl, inl (refl, cc))
keep_if-cases (some false) id (some more) h = (more, refl, inr (refl, cc))

-- A test that decides the agreement.
module _ (p : QboInvoiceLike → Option Bool) (Agrees : QboInvoiceLike → Type 0)
    (yes : (c : QboInvoiceLike) → p c ≡ some true → Agrees c)
    (no : (c : QboInvoiceLike) → p c ≡ some false → ¬ Agrees c) where
  filter_ids-nil : (cs : List QboInvoiceLike) → filter_ids p cs ≡ some [] → All (λ c. ¬ Agrees c) cs
  filter_ids-nil [] h = tt
  filter_ids-nil (c ∷ cs) h =
      let (more, rest, which) = keep_if-cases (p c) c.qbo_id (filter_ids p cs) h in
      elim which [
        | inl (e, k) ↦ absurd (cc)
        | inr (e, k) ↦ (no c e, filter_ids-nil cs (rest ∙ ap some (sym k)))
      ]

  filter_ids-one :
      (cs : List QboInvoiceLike) (q : RowId)
      → filter_ids p cs ≡ some (q ∷ [])
      → OnlyAgrees Agrees q cs
  filter_ids-one [] q h = absurd (cc)
  filter_ids-one (c ∷ cs) q h =
      let (more, rest, which) = keep_if-cases (p c) c.qbo_id (filter_ids p cs) h in
      elim which [
        | inl (e, k) ↦ inl (yes c e, cc, filter_ids-nil cs (cc))
        | inr (e, k) ↦ inr (no c e, filter_ids-one cs q (rest ∙ ap some (sym k)))
      ]

matched-one : (ids : List RowId) (q : RowId) → to_match_result ids ≡ matched q → ids ≡ q ∷ []
unfolding to_match_result
matched-one [] q h = absurd (cc)
matched-one (id ∷ []) q h = cc
matched-one (id ∷ id' ∷ ids) q h = absurd (cc)

result-one :
    (ids : Option (List RowId)) (q : RowId) → match_of ids ≡ some (matched q) → ids ≡ some (q ∷ [])
result-one none q h = absurd (cc)
result-one (some ids) q h = ap some (matched-one ids q (cc))

-- What a comparison of cents with another test says.
same_cents-true :
    (o : Option ℤ) (cents : ℤ) (b : Bool)
    → same_cents o cents b ≡ some true
    → (o ≡ some cents) × (b ≡ true)
same_cents-true none cents b h = absurd (cc)
same_cents-true (some c) cents b h =
    let (e, k) = both_true (eqb_ℤ c cents) b (cc) in (ap some ((eqb_ℤ_iff c cents).0 e), k)

is_doc-eq : (doc : Text) (o : Option Text) → is_doc doc o ≡ true → o ≡ some doc
is_doc-eq doc none h = absurd (cc)
is_doc-eq doc (some d) h = ap some ((same_text_iff d doc).0 h)

is_customer-eq : (id : RowId) (o : Option RowId) → is_customer id o ≡ true → o ≡ some id
is_customer-eq id none h = absurd (cc)
is_customer-eq id (some i) h = ap some ((==_iff i id).0 h)

module _ (local : LocalInvoiceLike) (cents : ℤ) where
  passes :
      (b d : Bool) (total : Amount)
      → b ≡ true
      → d ≡ true
      → to_cents total ≡ some cents
      → agrees b cents total d ≡ some true
  passes b d total h k e = rw (h, k, e) (rw ((eqb_ℤ_iff cents cents).1 refl) refl)

  by_doc-yes :
      (doc : Text) (c : QboInvoiceLike)
      → agrees_by_doc local cents doc c ≡ some true
      → AgreesByDoc local cents doc c
  by_doc-yes doc c h = elim (Bool-cases (is_doc doc c.doc_number)) [
    | inl is_same ↦
        let (total, date) =
          same_cents-true (to_cents c.total) cents (same_text c.txn_date local.txn_date)
            (rw is_same at h) in
        record {
          total = total;
          txn_date = (same_text_iff c.txn_date local.txn_date).0 date;
          doc_number = is_doc-eq doc c.doc_number is_same;
        }
    | inr differs ↦ absurd (cc (rw differs at h))
  ]

  by_doc-no :
      (doc : Text) (c : QboInvoiceLike)
      → agrees_by_doc local cents doc c ≡ some false
      → ¬ AgreesByDoc local cents doc c
  by_doc-no doc c h a = absurd (
      cc (
        h,
        passes (is_doc doc c.doc_number) (same_text c.txn_date local.txn_date) c.total
            (rw a.doc_number ((same_text_iff doc doc).1 refl))
            ((same_text_iff c.txn_date local.txn_date).1 a.txn_date) a.total,
      ))

  by_customer-yes :
      (id : RowId) (c : QboInvoiceLike)
      → agrees_by_customer local cents id c ≡ some true
      → AgreesByCustomer local cents id c
  by_customer-yes id c h =
      let (total, rest) =
        same_cents-true (to_cents c.total) cents
          (same_text c.txn_date local.txn_date && is_customer id c.customer_qbo_id) h in
      let (date, is_same) =
        both_true (same_text c.txn_date local.txn_date) (is_customer id c.customer_qbo_id) rest in
      record {
        total = total;
        txn_date = (same_text_iff c.txn_date local.txn_date).0 date;
        customer = is_customer-eq id c.customer_qbo_id is_same;
      }

  by_customer-no :
      (id : RowId) (c : QboInvoiceLike)
      → agrees_by_customer local cents id c ≡ some false
      → ¬ AgreesByCustomer local cents id c
  by_customer-no id c h a = absurd (
      cc (
        h,
        passes true (same_text c.txn_date local.txn_date && is_customer id c.customer_qbo_id)
            c.total refl
            (rw (
              (same_text_iff c.txn_date local.txn_date).1 a.txn_date,
              a.customer,
              (==_iff id id).1 refl,
            ))
            a.total,
      ))

-- The two ways to a match.
abbrev pub IsConfident : LocalInvoiceLike → List QboInvoiceLike → ℤ → RowId → Type 0
IsConfident local candidates cents q =
    ((doc : Text) × (local.doc_number ≡ some doc)
      × OnlyAgrees (AgreesByDoc local cents doc) q candidates)
    ⊎ ((customer : RowId) × (local.customer_qbo_id ≡ some customer)
        × OnlyAgrees (AgreesByCustomer local cents customer) q candidates)

module _ (local : LocalInvoiceLike) (candidates : List QboInvoiceLike) (cents : ℤ) (q : RowId) where
  by_customer-IsConfident :
      (customer : Option RowId)
      → local.customer_qbo_id ≡ customer
      → by_customer local candidates cents customer ≡ some (matched q)
      → IsConfident local candidates cents q
  by_customer-IsConfident none e h = absurd (cc)
  by_customer-IsConfident (some id) e h = inr (
    id,
    e,
    filter_ids-one (agrees_by_customer local cents id) (AgreesByCustomer local cents id)
        (by_customer-yes local cents id) (by_customer-no local cents id) candidates q
        (result-one (filter_ids (agrees_by_customer local cents id) candidates) q h),
  )

  by_doc-IsConfident :
      (doc : Option Text)
      → local.doc_number ≡ doc
      → by_doc local candidates cents doc ≡ some (matched q)
      → IsConfident local candidates cents q
  by_doc-IsConfident none e h = by_customer-IsConfident local.customer_qbo_id refl h
  by_doc-IsConfident (some []) e h = by_customer-IsConfident local.customer_qbo_id refl h
  by_doc-IsConfident (some (c ∷ s)) e h = inl (
    c ∷ s,
    e,
    filter_ids-one (agrees_by_doc local cents (c ∷ s)) (AgreesByDoc local cents (c ∷ s))
        (by_doc-yes local cents (c ∷ s)) (by_doc-no local cents (c ∷ s)) candidates q
        (result-one (filter_ids (agrees_by_doc local cents (c ∷ s)) candidates) q h),
  )

by_total-IsConfident :
    (local : LocalInvoiceLike) (candidates : List QboInvoiceLike) (q : RowId) (total : Option ℤ)
    → to_cents local.total ≡ total
    → by_total local candidates total ≡ some (matched q)
    → (cents : ℤ) × (to_cents local.total ≡ some cents) × IsConfident local candidates cents q
by_total-IsConfident local candidates q none e h = absurd (cc)
by_total-IsConfident local candidates q (some cents) e h =
    (cents, e, by_doc-IsConfident local candidates cents q local.doc_number refl h)

-- An invoice is matched to a QBO id only if its total parses, and exactly one candidate agrees with it
-- in total, date and document number, or in total, date and customer; that candidate has the id.
pub match_invoice-IsConfident :
    (local : LocalInvoiceLike) (candidates : List QboInvoiceLike) (q : RowId)
    → match_invoice_by_natural_key local candidates ≡ some (matched q)
    → (cents : ℤ) × (to_cents local.total ≡ some cents) × IsConfident local candidates cents q
unfolding match_invoice_by_natural_key
match_invoice-IsConfident local candidates q h =
    by_total-IsConfident local candidates q (to_cents local.total) refl h
