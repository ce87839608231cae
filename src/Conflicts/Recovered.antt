-- ===== src/Conflicts/Recovered.antt =====
-- The recovered operation of a conflict: no held change was more final than it.
use invoicing_platform.Prelude.{
  ℕ, ◌≤◌, ◌≡◌, ◌⊎◌, inl, inr, refl, ap, Bool, true, false, Bool-cases, Option, none, some, List, [],
  ◌∷◌, select, arith, All, Any,
}
use invoicing_platform.Prelude.Unique.{All-map, All-always, All-both}
use invoicing_platform.Database.{RowId}
use invoicing_platform.Inbound.Guards.{
  Operation, create_op, update_op, delete_op, merge_op, void_op, emailed_op,
}
use invoicing_platform.Conflicts.Newest.{newest-All, newest-Any}
use invoicing_platform.Conflicts.{
  HeldRow, is_held, newest_first, with_operation, operations_of, is_delete, is_void, includes,
  first_operation, strongest, recover_conflict_operation,
}

-- How final an operation is at QBO.
abbrev pub finality : Operation → ℕ
finality delete_op = 2
finality void_op = 1
finality _ = 0

abbrev pub AtMost : ℕ → Operation → Type 0
AtMost n op = finality op ≤ n

-- What holds of an operation, when there is one.
abbrev pub OfSome : (Operation → Type 0) → Option Operation → Type 0
OfSome Q none = Unit
OfSome Q (some op) = Q op

-- Some row of the list has the operation.
abbrev pub Occurs : Operation → List HeldRow → Type 0
Occurs op rows = Any (λ row. row.operation ≡ some op) rows

-- The most final operation of the rows, or an update when no row has one.
abbrev pub IsMostFinal : Operation → List HeldRow → Type 0
IsMostFinal op rows =
    All (λ row. OfSome (AtMost (finality op)) row.operation) rows
    × ((op ≡ update_op) ⊎ Occurs op rows)

module _ (p : Operation → Bool) where
  includes-none : (ops : List Operation) → includes p ops ≡ false → All (λ op. p op ≡ false) ops
  includes-none [] h = tt
  includes-none (op ∷ ops) h = elim (Bool-cases (p op)) [
    | inl e ↦ absurd (cc (rw e at h))
    | inr e ↦ (e, includes-none ops (rw e at h))
  ]

  includes-some : (ops : List Operation) → includes p ops ≡ true → Any (λ op. p op ≡ true) ops
  includes-some [] h = absurd (cc)
  includes-some (op ∷ ops) h = elim (Bool-cases (p op)) [
    | inl e ↦ inl e
    | inr e ↦ inr (includes-some ops (rw e at h))
  ]

not_delete : (op : Operation) → is_delete op ≡ false → finality op ≤ 1
not_delete delete_op h = absurd (cc)
not_delete void_op h = omega arith
not_delete create_op h = omega arith
not_delete update_op h = omega arith
not_delete merge_op h = omega arith
not_delete emailed_op h = omega arith

neither : (op : Operation) → (is_delete op ≡ false) × (is_void op ≡ false) → finality op ≤ 0
neither delete_op h = absurd (cc (h.0))
neither void_op h = absurd (cc (h.1))
neither create_op h = omega arith
neither update_op h = omega arith
neither merge_op h = omega arith
neither emailed_op h = omega arith

at_most_two : (op : Operation) → finality op ≤ 2
at_most_two delete_op = omega arith
at_most_two void_op = omega arith
at_most_two create_op = omega arith
at_most_two update_op = omega arith
at_most_two merge_op = omega arith
at_most_two emailed_op = omega arith

is_delete-eq : (op : Operation) → is_delete op ≡ true → op ≡ delete_op
is_delete-eq delete_op h = refl
is_delete-eq _ h = absurd (cc)

is_void-eq : (op : Operation) → is_void op ≡ true → op ≡ void_op
is_void-eq void_op h = refl
is_void-eq _ h = absurd (cc)

-- The operation of a list of them that is replayed.
strongest-final : (ops : List Operation) → All (AtMost (finality (strongest ops))) ops
strongest-final ops = elim (Bool-cases (includes is_delete ops)) [
  | inl e ↦ rw e (All-always ops at_most_two)
  | inr e ↦ elim (Bool-cases (includes is_void ops)) [
    | inl k ↦ rw (e, k) (All-map ops not_delete (includes-none is_delete ops e))
    | inr k ↦
        All-map ops (λ op h. omega (arith, neither op h))
          (All-both _ _ ops (includes-none is_delete ops e) (includes-none is_void ops k))
  ]
]

Any-map :
    {A : Type 0} {P Q : A → Type 0} (xs : List A) → ((x : A) → P x → Q x) → Any P xs → Any Q xs
Any-map [] f h = h
Any-map (x ∷ xs) f (inl h) = inl (f x h)
Any-map (x ∷ xs) f (inr h) = inr (Any-map xs f h)

first-occurs :
    (ops : List Operation)
    → (first_operation ops ≡ update_op) ⊎ Any (λ op. op ≡ first_operation ops) ops
first-occurs [] = inl refl
first-occurs (op ∷ ops) = inr (inl refl)

strongest-occurs :
    (ops : List Operation) → (strongest ops ≡ update_op) ⊎ Any (λ op. op ≡ strongest ops) ops
strongest-occurs ops = elim (Bool-cases (includes is_delete ops)) [
  | inl e ↦ inr (rw e (Any-map ops is_delete-eq (includes-some is_delete ops e)))
  | inr e ↦ elim (Bool-cases (includes is_void ops)) [
    | inl k ↦ inr (rw (e, k) (Any-map ops is_void-eq (includes-some is_void ops k)))
    | inr k ↦ rw (e, k) (first-occurs ops)
  ]
]

module _ (Q : Operation → Type 0) where
  operation-All :
      (o : Option Operation) (ops : List Operation)
      → All Q (with_operation o ops)
      → OfSome Q o × All Q ops
  operation-All none ops h = (tt, h)
  operation-All (some x) ops h = h

  operations-All :
      (rows : List HeldRow) → All Q (operations_of rows) → All (λ row. OfSome Q row.operation) rows
  operations-All [] h = tt
  operations-All (row ∷ rows) h =
      let (first, rest) = operation-All row.operation (operations_of rows) h in
      (first, operations-All rows rest)

operation-Any :
    (o : Option Operation) (ops : List Operation) (op : Operation)
    → Any (λ x. x ≡ op) (with_operation o ops)
    → (o ≡ some op) ⊎ Any (λ x. x ≡ op) ops
operation-Any none ops op h = inr h
operation-Any (some x) ops op (inl e) = inl (ap some e)
operation-Any (some x) ops op (inr h) = inr h

operations-Any :
    (rows : List HeldRow) (op : Operation) → Any (λ x. x ≡ op) (operations_of rows) → Occurs op rows
operations-Any [] op h = h
operations-Any (row ∷ rows) op h = elim (operation-Any row.operation (operations_of rows) op h) [
  | inl e ↦ inl e
  | inr k ↦ inr (operations-Any rows op k)
]

-- The operation that a resolution replays is the most final of the operations of the held rows of the record
-- since its conflict, in any order of the log, or an update when no row has one.
pub recover-IsMostFinal :
    (log : List HeldRow) (org id : RowId) (since : Option ℕ)
    → IsMostFinal (recover_conflict_operation log org id since) (select (is_held org id since) log)
unfolding recover_conflict_operation
recover-IsMostFinal log org id since =
    let rows = newest_first (select (is_held org id since) log) in
    (
      newest-All _ (select (is_held org id since) log)
          (operations-All _ rows (strongest-final (operations_of rows))),
      elim (strongest-occurs (operations_of rows)) [
        | inl e ↦ inl e
        | inr h ↦ inr (newest-Any _ _ (operations-Any rows _ h))
      ],
    )
