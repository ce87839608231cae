-- ===== src/Sweep/Query.antt =====
-- apps/api/src/qbo/retry-sweep.ts: the conditions of the queries for a record that may exist in QBO.
use invoicing_platform.Prelude.{Option, some, [], ◌∷◌, ◌++◌, ◌==◌, if◌then◌else◌}
use invoicing_platform.Money.{Text}
use invoicing_platform.Inbound.Body.{codes}

-- `value.replace(/\\/g, '\\\\')`
abbrev pub escape_backslashes : Text → Text
escape_backslashes [] = []
escape_backslashes (c ∷ s) =
    let rest = escape_backslashes s in if c == b'\\' then b'\\' ∷ b'\\' ∷ rest else c ∷ rest

-- `value.replace(/'/g, "\\'")`
abbrev pub escape_quotes : Text → Text
escape_quotes [] = []
escape_quotes (c ∷ s) =
    let rest = escape_quotes s in if c == 39 then b'\\' ∷ 39 ∷ rest else c ∷ rest

unfoldable pub escape_qbo_string : Text → Text
escape_qbo_string value = escape_quotes (escape_backslashes value)

-- `${column} = '${escapeQboString(value)}'`
abbrev equals : Text → Text → Text
equals column value = column ++ (codes " = '" ++ (escape_qbo_string value ++ (39 ∷ [])))

-- An empty text is no text.
abbrev by_first : Text → Option Text → Text → Text → Text
by_first column (some (c ∷ s)) other value = equals column (c ∷ s)
by_first column _ other value = equals other value

unfoldable pub build_document_create_where : Option Text → Text → Text
build_document_create_where doc_number txn_date =
    by_first (codes "DocNumber") doc_number (codes "TxnDate") txn_date

unfoldable pub build_contact_create_where : Option Text → Text → Text
build_contact_create_where email display_name =
    by_first (codes "PrimaryEmailAddr.Address") email (codes "DisplayName") display_name
