-- ===== src/Ledger/Distinct.antt =====
-- The accounts of a net map are distinct, so a map whose nets are all zero needs no reversal.
use invoicing_platform.Prelude.{
  ◌≡◌, ◌≢◌, ◌∙◌, refl, inl, inr, Option, List, [], ◌∷◌, arith, ◌==◌, ==_iff, Bool-cases,
}
use invoicing_platform.Prelude.Int.{ℤ, pos, ◌+ℤ◌, ◌-ℤ◌, int_laws, parts_of_eq, eqb_ℤ_iff}
use invoicing_platform.Database.{RowId, LedgerEntryRow}
use invoicing_platform.Ledger.{NetMap, add_net, net_by_account_from, reversal_lines}
use invoicing_platform.Ledger.Nets.{net_in}

abbrev IsAbsent : RowId → NetMap → Type 0
IsAbsent k [] = Unit
IsAbsent k ((j, v) ∷ m) = (j ≢ k) × IsAbsent k m

abbrev pub IsDistinct : NetMap → Type 0
IsDistinct [] = Unit
IsDistinct ((j, v) ∷ m) = IsAbsent j m × IsDistinct m

add_net-IsAbsent :
    (j k : RowId) (n : ℤ) (m : NetMap) → k ≢ j → IsAbsent j m → IsAbsent j (add_net k n m)
unfolding add_net
add_net-IsAbsent j k n [] h a = (h, tt)
add_net-IsAbsent j k n ((i, v) ∷ m) h a = ground (arith, add_net-IsAbsent j k n m h a.1)

add_net-IsDistinct : (k : RowId) (n : ℤ) (m : NetMap) → IsDistinct m → IsDistinct (add_net k n m)
unfolding add_net
add_net-IsDistinct k n [] d = (tt, tt)
add_net-IsDistinct k n ((j, v) ∷ m) d =
    ground (arith, add_net-IsDistinct k n m d.1, add_net-IsAbsent j k n m)

pub net_by_account_from-IsDistinct :
    (m : NetMap) (rows : List LedgerEntryRow)
    → IsDistinct m
    → IsDistinct (net_by_account_from m rows)
unfolding net_by_account_from
net_by_account_from-IsDistinct m [] d = d
net_by_account_from-IsDistinct m (r ∷ rs) d =
    net_by_account_from-IsDistinct (add_net r.account_id (r.debit -ℤ r.credit) m) rs
      (add_net-IsDistinct r.account_id (r.debit -ℤ r.credit) m d)

net_in-IsAbsent : (k : RowId) (m : NetMap) → IsAbsent k m → net_in k m ≡ pos 0
net_in-IsAbsent k [] h = refl
net_in-IsAbsent k ((j, v) ∷ m) h = elim (Bool-cases (j == k)) [
  | inl e ↦ absurd (h.0 ((==_iff j k).0 e))
  | inr e ↦ rw (e, net_in-IsAbsent k m h.1) (omega int_laws)
]

-- The first account of a map of zero nets has net zero, and the rest is a map of zero nets.
head_zero :
    (k : RowId) (v : ℤ) (m : NetMap) → IsAbsent k m → net_in k ((k, v) ∷ m) ≡ pos 0 → v ≡ pos 0
head_zero k v m absent h =
    omega (int_laws, parts_of_eq (own k v m ∙ h), parts_of_eq (net_in-IsAbsent k m absent))
  where
    own : (k : RowId) (v : ℤ) (m : NetMap) → v +ℤ net_in k m ≡ net_in k ((k, v) ∷ m)
    own k v m = rw ((==_iff k k).1 refl)

tail_zero :
    (a k : RowId) (v : ℤ) (m : NetMap)
    → v ≡ pos 0
    → net_in a ((k, v) ∷ m) ≡ pos 0
    → net_in a m ≡ pos 0
tail_zero a k v m e h = elim (Bool-cases (k == a)) [
  | inl f ↦ omega (int_laws, parts_of_eq e, parts_of_eq (rw f at h))
  | inr f ↦ omega (int_laws, parts_of_eq (rw f at h))
]

pub reversal_lines-nil :
    (contact : Option RowId) (m : NetMap)
    → IsDistinct m
    → ((a : RowId) → net_in a m ≡ pos 0)
    → reversal_lines contact m ≡ []
unfolding reversal_lines
reversal_lines-nil contact [] d h = refl
reversal_lines-nil contact ((k, v) ∷ m) d h =
    let zero_net = head_zero k v m d.0 (h k) in
    rw ((eqb_ℤ_iff v (pos 0)).1 zero_net)
      (reversal_lines-nil contact m d.1 (λ a. tail_zero a k v m zero_net (h a)))
