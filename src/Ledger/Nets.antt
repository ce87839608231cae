-- ===== src/Ledger/Nets.antt =====
-- The net per account that `zeroOutLedger` gathers, and the lines with which it reverses them.
use invoicing_platform.Prelude.{
  ℕ, suc, ◌≡◌, refl, inl, inr, Option, none, some, List, [], ◌∷◌, arith, Bool, true, false, ◌==◌,
  ==_iff, if◌then◌else◌, Bool-cases,
}
use invoicing_platform.Prelude.Int.{
  ℤ, pos, ◌+ℤ◌, ◌-ℤ◌, neg, ltb_ℤ, eqb_ℤ, int_laws, parts_of_eq, eqb_ℤ_iff,
}
use invoicing_platform.Money.{text, format_cents}
use invoicing_platform.Money.RoundTrip.{to_cents-format_cents}
use invoicing_platform.Database.{RowId, LedgerEntryRow, ok}
use invoicing_platform.Ledger.{
  PostLedgerInput, ParsedLine, NetMap, parse_line, parse_lines, total_debit_cents,
  total_credit_cents, entry_rows, add_net, net_by_account_from, reversal_lines,
}
use invoicing_platform.Ledger.Sums.{debits, credits, account_net}

-- What a map holds for an account, and in all.
abbrev pub net_in : RowId → NetMap → ℤ
net_in a [] = pos 0
net_in a ((k, v) ∷ m) = (if k == a then v else pos 0) +ℤ net_in a m

abbrev pub net_total : NetMap → ℤ
net_total [] = pos 0
net_total ((k, v) ∷ m) = v +ℤ net_total m

net_in-add_net :
    (a k : RowId) (n : ℤ) (m : NetMap)
    → net_in a (add_net k n m) ≡ net_in a m +ℤ (if k == a then n else pos 0)
unfolding add_net
net_in-add_net a k n [] = elim (Bool-cases (k == a)) [
  | inl e ↦ rw e (omega int_laws)
  | inr e ↦ rw e (omega int_laws)
]
net_in-add_net a k n ((j, v) ∷ m) = elim (Bool-cases (j == k)) [
  | inl e ↦
      rw (e, ← (==_iff j k).0 e)
        (elim (Bool-cases (j == a)) [
          | inl f ↦ rw f (omega int_laws)
          | inr f ↦ rw f (omega int_laws)
        ])
  | inr e ↦ rw (e, net_in-add_net a k n m) (omega int_laws)
]

net_total-add_net : (k : RowId) (n : ℤ) (m : NetMap) → net_total (add_net k n m) ≡ net_total m +ℤ n
unfolding add_net
net_total-add_net k n [] = omega int_laws
net_total-add_net k n ((j, v) ∷ m) = elim (Bool-cases (j == k)) [
  | inl e ↦ rw e (omega int_laws)
  | inr e ↦ rw (e, net_total-add_net k n m) (omega int_laws)
]

pub net_in-net_by_account_from :
    (a : RowId) (m : NetMap) (rows : List LedgerEntryRow)
    → net_in a (net_by_account_from m rows) ≡ net_in a m +ℤ account_net a rows
unfolding net_by_account_from
net_in-net_by_account_from a m [] = omega int_laws
net_in-net_by_account_from a m (r ∷ rs) =
    rw
      (
        net_in-net_by_account_from a (add_net r.account_id (r.debit -ℤ r.credit) m) rs,
        net_in-add_net a r.account_id (r.debit -ℤ r.credit) m,
      )
      (omega int_laws)

pub net_total-net_by_account_from :
    (m : NetMap) (rows : List LedgerEntryRow)
    → net_total (net_by_account_from m rows) ≡ net_total m +ℤ (debits rows -ℤ credits rows)
unfolding net_by_account_from
net_total-net_by_account_from m [] = omega int_laws
net_total-net_by_account_from m (r ∷ rs) =
    rw
      (
        net_total-net_by_account_from (add_net r.account_id (r.debit -ℤ r.credit) m) rs,
        net_total-add_net r.account_id (r.debit -ℤ r.credit) m,
      )
      (omega int_laws)

-- The reversing lines, as `postLedger` reads them.
abbrev reverse_entry : Option RowId → RowId → ℤ → ParsedLine
reverse_entry contact account net =
    if ltb_ℤ (pos 0) net
    then record {
      account_id = account;
      contact_id = contact;
      debit_cents = pos 0;
      credit_cents = net;
    }
    else record {
      account_id = account;
      contact_id = contact;
      debit_cents = neg net;
      credit_cents = pos 0;
    }

pub reversal_parsed : Option RowId → NetMap → List ParsedLine
reversal_parsed contact [] = []
reversal_parsed contact ((account, net) ∷ m) =
    let rest = reversal_parsed contact m in
    if eqb_ℤ net (pos 0) then rest else reverse_entry contact account net ∷ rest

pub parse_credit :
    (contact : Option RowId) (account : RowId) (net : ℤ)
    → ltb_ℤ (pos 0) net ≡ true
    → parse_line (record {
      account_id = account;
      contact_id = contact;
      debit = none;
      credit = some (text (format_cents net));
    })
      ≡ ok (record {
        account_id = account;
        contact_id = contact;
        debit_cents = pos 0;
        credit_cents = net;
      })
unfolding parse_line
parse_credit contact account net h = ground (arith, to_cents-format_cents net)

pub parse_positive_debit :
    (contact : Option RowId) (account : RowId) (net : ℤ)
    → ltb_ℤ (pos 0) net ≡ true
    → parse_line (record {
      account_id = account;
      contact_id = contact;
      debit = some (text (format_cents net));
      credit = none;
    })
      ≡ ok (record {
        account_id = account;
        contact_id = contact;
        debit_cents = net;
        credit_cents = pos 0;
      })
unfolding parse_line
parse_positive_debit contact account net h = ground (arith, to_cents-format_cents net)

parse_debit :
    (contact : Option RowId) (account : RowId) (net : ℤ)
    → eqb_ℤ net (pos 0) ≡ false
    → ltb_ℤ (pos 0) net ≡ false
    → parse_line (record {
      account_id = account;
      contact_id = contact;
      debit = some (text (format_cents (neg net)));
      credit = none;
    })
      ≡ ok (record {
        account_id = account;
        contact_id = contact;
        debit_cents = neg net;
        credit_cents = pos 0;
      })
unfolding parse_line neg
parse_debit contact account net h k = ground (arith, to_cents-format_cents (neg net))

pub parse-reversal_lines :
    (contact : Option RowId) (m : NetMap)
    → parse_lines (reversal_lines contact m) ≡ ok (reversal_parsed contact m)
unfolding parse_lines reversal_lines reversal_parsed
parse-reversal_lines contact [] = refl
parse-reversal_lines contact ((a, net) ∷ m) = elim (Bool-cases (eqb_ℤ net (pos 0))) [
  | inl zero_net ↦ rw zero_net (parse-reversal_lines contact m)
  | inr e ↦ elim (Bool-cases (ltb_ℤ (pos 0) net)) [
    | inl f ↦ rw (e, f, parse_credit contact a net f, parse-reversal_lines contact m)
    | inr f ↦ rw (e, f, parse_debit contact a net e f, parse-reversal_lines contact m)
  ]
]

pub net_total-reversal_parsed :
    (contact : Option RowId) (m : NetMap)
    → total_debit_cents (reversal_parsed contact m) +ℤ net_total m
      ≡ total_credit_cents (reversal_parsed contact m)
unfolding reversal_parsed
net_total-reversal_parsed contact [] = omega int_laws
net_total-reversal_parsed contact ((a, net) ∷ m) =
    let ih = net_total-reversal_parsed contact m in
    elim (Bool-cases (eqb_ℤ net (pos 0))) [
      | inl e ↦ rw (e, (eqb_ℤ_iff net (pos 0)).0 e, ← ih) (omega int_laws)
      | inr e ↦ elim (Bool-cases (ltb_ℤ (pos 0) net)) [
        | inl f ↦ rw (e, f, ← ih) (omega int_laws)
        | inr f ↦ rw (e, f, ← ih) (omega int_laws)
      ]
    ]

skip_zero : (b : Bool) (x y : ℤ) → x +ℤ y ≡ pos 0 → x +ℤ ((if b then pos 0 else pos 0) +ℤ y) ≡ pos 0
skip_zero true x y h = omega (int_laws, parts_of_eq h)
skip_zero false x y h = omega (int_laws, parts_of_eq h)

add_reversal :
    (b : Bool) (r v x y : ℤ)
    → r +ℤ v ≡ pos 0
    → x +ℤ y ≡ pos 0
    → (if b then r else pos 0) +ℤ x +ℤ ((if b then v else pos 0) +ℤ y) ≡ pos 0
add_reversal true r v x y e h = omega (int_laws, parts_of_eq h, parts_of_eq e)
add_reversal false r v x y e h = omega (int_laws, parts_of_eq h)

pub account_net-reversal :
    (input : PostLedgerInput) (n : ℕ) (contact : Option RowId) (a : RowId) (m : NetMap)
    → account_net a (entry_rows input n (reversal_parsed contact m)) +ℤ net_in a m ≡ pos 0
unfolding reversal_parsed entry_rows
account_net-reversal input n contact a [] = omega int_laws
account_net-reversal input n contact a ((k, net) ∷ m) = elim (Bool-cases (eqb_ℤ net (pos 0))) [
  | inl e ↦
      rw (e, (eqb_ℤ_iff net (pos 0)).0 e)
        (skip_zero (k == a) _ _ (account_net-reversal input n contact a m))
  | inr e ↦ elim (Bool-cases (ltb_ℤ (pos 0) net)) [
    | inl f ↦
        rw (e, f)
          (add_reversal (k == a) _ _ _ _ (omega int_laws)
            (account_net-reversal input (suc n) contact a m))
    | inr f ↦
        rw (e, f)
          (add_reversal (k == a) _ _ _ _ (omega int_laws)
            (account_net-reversal input (suc n) contact a m))
  ]
]
