-- ===== src/Conflicts/Newest.antt =====
-- The order of the held rows loses and adds none of them.
use invoicing_platform.Prelude.{◌⊎◌, inl, inr, Bool-cases, List, [], ◌∷◌, leb, All, Any}
use invoicing_platform.Conflicts.{HeldRow, insert_row, newest_first}

module _ (P : HeldRow → Type 0) where
  insert-All :
      (row : HeldRow) (rows : List HeldRow) → All P (insert_row row rows) → P row × All P rows
  insert-All row [] h = h
  insert-All row (r ∷ rows) h = elim (Bool-cases (leb r.created_at row.created_at)) [
    | inl e ↦ rw e at h
    | inr e ↦
        let k : P r × All P (insert_row row rows) = rw e at h in
        let (first, rest) = insert-All row rows k.1 in (first, (k.0, rest))
  ]

  pub newest-All : (rows : List HeldRow) → All P (newest_first rows) → All P rows
  newest-All [] h = h
  newest-All (row ∷ rows) h =
      let (first, rest) = insert-All row (newest_first rows) h in (first, newest-All rows rest)

  insert-later :
      (row r : HeldRow) (rows : List HeldRow) → P row ⊎ Any P rows → P row ⊎ Any P (r ∷ rows)
  insert-later row r rows (inl h) = inl h
  insert-later row r rows (inr h) = inr (inr h)

  insert-Any :
      (row : HeldRow) (rows : List HeldRow) → Any P (insert_row row rows) → P row ⊎ Any P rows
  insert-Any row [] h = h
  insert-Any row (r ∷ rows) h = elim (Bool-cases (leb r.created_at row.created_at)) [
    | inl e ↦ rw e at h
    | inr e ↦
        let k : P r ⊎ Any P (insert_row row rows) = rw e at h in
        elim k [
          | inl now ↦ inr (inl now)
          | inr later ↦ insert-later row r rows (insert-Any row rows later)
        ]
  ]

  pub newest-Any : (rows : List HeldRow) → Any P (newest_first rows) → Any P rows
  newest-Any [] h = h
  newest-Any (row ∷ rows) h = elim (insert-Any row (newest_first rows) h) [
    | inl e ↦ inl e
    | inr k ↦ inr (newest-Any rows k)
  ]
