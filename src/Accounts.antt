-- ===== src/Accounts.antt =====
-- apps/api/src/accounts/service.ts and apps/api/src/contacts/service.ts: the lookups that invoices and
-- payments make.
use invoicing_platform.Prelude.{String, Option, none, some, Bool, false, ◌&&◌, ◌==◌, first, str_eq}
use invoicing_platform.Database.{RowId, AccountRow, ContactRow, Database}

abbrev pub has_subtype : String → Option String → Bool
has_subtype subtype none = false
has_subtype subtype (some s) = str_eq s subtype

unfoldable pub get_account_by_subtype : RowId → String → Database → Option AccountRow
get_account_by_subtype org subtype db =
    first (λ a. a.org_id == org && has_subtype subtype a.subtype) db.accounts

-- `select().from(accounts).where(orgId = …, id = …).limit(1)`
unfoldable pub find_account : RowId → RowId → Database → Option AccountRow
find_account org id db = first (λ a. a.org_id == org && a.id == id) db.accounts

unfoldable pub get_contact : RowId → RowId → Database → Option ContactRow
get_contact org id db = first (λ c. c.org_id == org && c.id == id) db.contacts
