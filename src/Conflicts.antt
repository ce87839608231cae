-- ===== src/Conflicts.antt =====
-- apps/api/src/routes/conflicts.ts: the operation that a resolution in favour of QBO replays, read back from
-- the audit rows of the changes that were held.
mod Newest
pub mod Recovered
use Prim.Native.String.{String}
use invoicing_platform.Prelude.{
  ℕ, Bool, true, false, ◌&&◌, ◌||◌, Option, none, some, List, [], ◌∷◌, ◌==◌, leb, str_eq, select,
  if◌then◌else◌,
}
use invoicing_platform.Database.{RowId}
use invoicing_platform.Inbound.Guards.{Operation, update_op, delete_op, void_op}

-- A row of the audit log with its time and the operation in its detail, when it has one.
pub record HeldRow : Type 0 where
  pub org_id : RowId
  pub local_id : Option RowId
  pub action : String
  pub created_at : ℕ
  pub operation : Option Operation

abbrev is_row : RowId → Option RowId → Bool
is_row id none = false
is_row id (some other) = other == id

abbrev is_since : Option ℕ → ℕ → Bool
is_since none t = true
is_since (some since) t = leb since t

abbrev pub is_held : RowId → RowId → Option ℕ → HeldRow → Bool
is_held org id since row =
    row.org_id == org
    && is_row id row.local_id
    && (str_eq row.action "qbo.inbound.conflict" || str_eq row.action "qbo.inbound.conflict_held")
    && is_since since row.created_at

-- `orderBy(desc(createdAt))`
abbrev pub insert_row : HeldRow → List HeldRow → List HeldRow
insert_row row [] = row ∷ []
insert_row row (r ∷ rows) =
    let rest = insert_row row rows in
    if leb r.created_at row.created_at then row ∷ r ∷ rows else r ∷ rest

abbrev pub newest_first : List HeldRow → List HeldRow
newest_first [] = []
newest_first (row ∷ rows) = insert_row row (newest_first rows)

abbrev pub with_operation : Option Operation → List Operation → List Operation
with_operation none operations = operations
with_operation (some operation) operations = operation ∷ operations

abbrev pub operations_of : List HeldRow → List Operation
operations_of [] = []
operations_of (row ∷ rows) = with_operation row.operation (operations_of rows)

abbrev pub is_delete : Operation → Bool
is_delete delete_op = true
is_delete _ = false

abbrev pub is_void : Operation → Bool
is_void void_op = true
is_void _ = false

abbrev pub includes : (Operation → Bool) → List Operation → Bool
includes p [] = false
includes p (operation ∷ rest) = if p operation then true else includes p rest

abbrev pub first_operation : List Operation → Operation
first_operation [] = update_op
first_operation (operation ∷ _) = operation

-- A delete goes before a void, and a void before the newest operation.
abbrev pub strongest : List Operation → Operation
strongest operations =
    if includes is_delete operations
    then delete_op
    else if includes is_void operations
    then void_op
    else first_operation operations

unfoldable pub recover_conflict_operation : List HeldRow → RowId → RowId → Option ℕ → Operation
recover_conflict_operation log org id since =
    strongest (operations_of (newest_first (select (is_held org id since) log)))
