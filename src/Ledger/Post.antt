-- ===== src/Ledger/Post.antt =====
-- `postLedger`: what is posted is balanced, one-sided and appended; what is refused changes nothing.
use invoicing_platform.Prelude.{
  ℕ, suc, ◌≡◌, refl, sym, ◌∙◌, ◌⊎◌, List, [], ◌∷◌, ◌++◌, arith, All, not, false,
}
use invoicing_platform.Prelude.Int.{ℤ, pos, ◌<ℤ◌, ltb_ℤ, eqb_ℤ, eqb_ℤ_iff}
use invoicing_platform.Database.{
  LedgerEntryRow, Database, Result, ok, err, raise_if-eq-ok, lift-eq-ok,
}
use invoicing_platform.Ledger.{
  PostingLine, PostLedgerInput, ParsedLine, posted_cents, check_sides, parse_line, parse_lines,
  total_debit_cents, total_credit_cents, entry_rows, insert_entries, post_ledger, is_empty,
  cons_result, with_debit, with_credit,
}
use invoicing_platform.Ledger.Sums.{debits, credits}

-- Exactly one side is set, and it is positive.
abbrev pub IsOneSided : LedgerEntryRow → Type 0
IsOneSided r = (pos 0 <ℤ r.debit) × (r.credit ≡ pos 0) ⊎ (r.debit ≡ pos 0) × (pos 0 <ℤ r.credit)

abbrev IsSided : ParsedLine → Type 0
IsSided p =
    (pos 0 <ℤ p.debit_cents) × (p.credit_cents ≡ pos 0)
    ⊎ (p.debit_cents ≡ pos 0) × (pos 0 <ℤ p.credit_cents)

sided : (d c : ℤ) → ltb_ℤ d (pos 0) ≡ false → ltb_ℤ c (pos 0) ≡ false → (d ≡ pos 0) ⊎ (pos 0 <ℤ d)
sided d c h k = ground arith

check_sides-IsSided : (p q : ParsedLine) → check_sides p ≡ ok q → IsSided q
unfolding check_sides
check_sides-IsSided p q h = ground arith

check_sides-same : (p q : ParsedLine) → check_sides p ≡ ok q → p ≡ q
unfolding check_sides
check_sides-same p q h = ground arith

with_credit-IsSided :
    (l : PostingLine) (d : ℤ) (r : Result ℤ) (p : ParsedLine) → with_credit l d r ≡ ok p → IsSided p
with_credit-IsSided l d (ok c) p h = check_sides-IsSided _ p h
with_credit-IsSided l d (err e) p h = cc

with_debit-IsSided :
    (l : PostingLine) (r : Result ℤ) (p : ParsedLine) → with_debit l r ≡ ok p → IsSided p
with_debit-IsSided l (ok d) p h = with_credit-IsSided l d (posted_cents l.credit) p h
with_debit-IsSided l (err e) p h = cc

parse_line-IsSided : (l : PostingLine) (p : ParsedLine) → parse_line l ≡ ok p → IsSided p
unfolding parse_line
parse_line-IsSided l p h = with_debit-IsSided l (posted_cents l.debit) p h

cons_result-eq-ok :
    (r : Result ParsedLine) (rest : Result (List ParsedLine)) (ps : List ParsedLine)
    → cons_result r rest ≡ ok ps
    → (p : ParsedLine) × (qs : List ParsedLine) × (r ≡ ok p) × (rest ≡ ok qs) × (ps ≡ p ∷ qs)
cons_result-eq-ok (err e) rest ps h = absurd (cc)
cons_result-eq-ok (ok p) (err e) ps h = absurd (cc)
cons_result-eq-ok (ok p) (ok qs) ps h = (p, qs, refl, refl, cc)

parse_lines-IsSided :
    (ls : List PostingLine) (ps : List ParsedLine) → parse_lines ls ≡ ok ps → All IsSided ps
unfolding parse_lines
parse_lines-IsSided [] [] h = tt
parse_lines-IsSided [] (p ∷ ps) h = cc
parse_lines-IsSided (l ∷ ls) ps h =
    let (p, qs, e, k, eq) = cons_result-eq-ok (parse_line l) (parse_lines ls) ps h in
    rw eq (parse_line-IsSided l p e, parse_lines-IsSided ls qs k)

module _ (input : PostLedgerInput) where
  pub debits-entry_rows :
      (n : ℕ) (ps : List ParsedLine) → debits (entry_rows input n ps) ≡ total_debit_cents ps
  unfolding entry_rows
  debits-entry_rows n [] = refl
  debits-entry_rows n (p ∷ ps) = rw (debits-entry_rows (suc n) ps)

  pub credits-entry_rows :
      (n : ℕ) (ps : List ParsedLine) → credits (entry_rows input n ps) ≡ total_credit_cents ps
  unfolding entry_rows
  credits-entry_rows n [] = refl
  credits-entry_rows n (p ∷ ps) = rw (credits-entry_rows (suc n) ps)

  entry_rows-IsOneSided :
      (n : ℕ) (ps : List ParsedLine) → All IsSided ps → All IsOneSided (entry_rows input n ps)
  unfolding entry_rows
  entry_rows-IsOneSided n [] h = tt
  entry_rows-IsOneSided n (p ∷ ps) h = (h.0, entry_rows-IsOneSided (suc n) ps h.1)

  -- What a successful posting went through.
  pub post_ledger-inverse :
      (rows : List LedgerEntryRow) (db out : Database)
      → post_ledger input db ≡ ok (rows, out)
      → (ps : List ParsedLine) × (parse_lines input.lines ≡ ok ps)
        × (total_debit_cents ps ≡ total_credit_cents ps)
        × (insert_entries input ps db ≡ ok (rows, out))
  unfolding post_ledger
  post_ledger-inverse rows db out h =
      let (_, h1) = raise_if-eq-ok (is_empty input.lines) _ _ db h in
      let (ps, e, h2) = lift-eq-ok (parse_lines input.lines) _ db h1 in
      let (same, h3) =
        raise_if-eq-ok (not (eqb_ℤ (total_debit_cents ps) (total_credit_cents ps))) _ _ db h2 in
      (ps, e, ground arith, h3)

insert_entries-eq-ok :
    (input : PostLedgerInput) (ps : List ParsedLine) (db out : Database)
    (rows : List LedgerEntryRow)
    → insert_entries input ps db ≡ ok (rows, out)
    → (rows ≡ entry_rows input db.next_id ps)
      × (out.ledger_entries ≡ db.ledger_entries ++ entry_rows input db.next_id ps)
unfolding insert_entries
insert_entries-eq-ok input ps db out rows h = ground arith

-- What a posting that goes through leaves in the ledger: the rows of balanced parsed lines.
pub post_ledger-appends :
    (input : PostLedgerInput) (db out : Database) (rows : List LedgerEntryRow)
    → post_ledger input db ≡ ok (rows, out)
    → (ps : List ParsedLine) × (out.ledger_entries
        ≡ db.ledger_entries ++ entry_rows input db.next_id ps)
      × (total_debit_cents ps ≡ total_credit_cents ps)
post_ledger-appends input db out rows h =
    let (ps, parsed, same, put) = post_ledger-inverse input rows db out h in
    (ps, (insert_entries-eq-ok input ps db out rows put).1, same)

-- A posting that goes through has appended its rows to the ledger and changed no earlier one; their
-- debits and credits are equal in sum, and each row has exactly one side, which is positive.
pub post_ledger-balanced :
    (input : PostLedgerInput) (db out : Database) (rows : List LedgerEntryRow)
    → post_ledger input db ≡ ok (rows, out)
    → (debits rows ≡ credits rows)
      × All IsOneSided rows
      × (out.ledger_entries ≡ db.ledger_entries ++ rows)
post_ledger-balanced input db out rows h =
    let (ps, parsed, same, put) = post_ledger-inverse input rows db out h in
    let (e, k) = insert_entries-eq-ok input ps db out rows put in
    rw e (
      debits-entry_rows input db.next_id ps ∙ same ∙ sym (credits-entry_rows input db.next_id ps),
      entry_rows-IsOneSided input db.next_id ps (parse_lines-IsSided input.lines ps parsed),
      k,
    )

-- A posting of lines that parse to balanced amounts goes through.
pub post_ledger-ok :
    (input : PostLedgerInput) (db : Database) (ps : List ParsedLine)
    → is_empty input.lines ≡ false
    → parse_lines input.lines ≡ ok ps
    → total_debit_cents ps ≡ total_credit_cents ps
    → post_ledger input db ≡ insert_entries input ps db
unfolding post_ledger
post_ledger-ok input db ps some_line parsed same =
    rw (some_line, parsed, (eqb_ℤ_iff (total_debit_cents ps) (total_credit_cents ps)).1 same)

some_line :
    (input : PostLedgerInput) (rows : List LedgerEntryRow) (db out : Database)
    → post_ledger input db ≡ ok (rows, out)
    → is_empty input.lines ≡ false
unfolding post_ledger
some_line input rows db out h = (raise_if-eq-ok (is_empty input.lines) _ _ db h).0
