-- ===== src/Outbound/Builders.antt =====
-- apps/api/src/qbo/outbound-sync.ts: the pure builders of the bodies that are sent to QBO.
use mathlib.Core.Option
use Prim.Native.String.{String}
use invoicing_platform.Prelude.{
  ℕ, Bool, Option, none, some, List, [], ◌∷◌, str_eq, or_default, if◌then◌else◌,
}
use invoicing_platform.Prelude.Int.{ℤ}
use invoicing_platform.Database.{RowId, AccountType, asset, liability, equity, income, expense}
use invoicing_platform.Inbound.Body.{
  Json, number, text_value, array, object, Elements, end, element, Fields, close, field, non_empty,
}

-- `Number(formatCents(cents))`, the text of a QBO id, and the text with given codes.
pub record JsOutput : Type 0 where
  pub dollars : ℤ → ℕ
  pub qbo_text : RowId → String
  pub text_of : List ℕ → String

-- `if (value) body.key = value`
abbrev pub optional : String → Option Json → Fields → Fields
optional key none rest = rest
optional key (some v) rest = field key v rest

abbrev pub optional_text : String → Option String → Fields → Fields
optional_text key s rest = optional key (Option.map text_value (non_empty s)) rest

abbrev pub ref_to : String → Json
ref_to id = object (field "value" (text_value id) close)

pub record QboCustomerSource : Type 0 where
  pub display_name : String
  pub email : Option String
  pub phone : Option String

abbrev wrapped : String → Option String → Option Json
wrapped key s = Option.map (λ t. object (field key (text_value t) close)) (non_empty s)

unfoldable pub build_qbo_customer : QboCustomerSource → Json
build_qbo_customer contact = object (
    field "DisplayName" (text_value contact.display_name) (
      optional "PrimaryEmailAddr" (wrapped "Address" contact.email)
        (optional "PrimaryPhone" (wrapped "FreeFormNumber" contact.phone) close)))

pub record QboAccountSource : Type 0 where
  pub name : String
  pub type : AccountType
  pub subtype : Option String

-- `ACCOUNT_TYPE_TO_QBO`, which has every type.
abbrev account_type_to_qbo : AccountType → String
account_type_to_qbo asset = "Other Current Asset"
account_type_to_qbo liability = "Other Current Liability"
account_type_to_qbo equity = "Equity"
account_type_to_qbo income = "Income"
account_type_to_qbo expense = "Expense"

-- `SUBTYPE_TO_QBO_ACCOUNT_TYPE`
abbrev subtype_to_qbo : String → Option String
subtype_to_qbo s =
    if str_eq s "accounts_receivable"
    then some "Accounts Receivable"
    else if str_eq s "undeposited_funds"
    then some "Other Current Asset"
    else if str_eq s "sales_income"
    then some "Income"
    else none

-- `(subtype && MAP[subtype]) ?? …`: an empty subtype is not nullish, so it stays and is the type.
abbrev qbo_account_type : Option String → AccountType → String
qbo_account_type none type = account_type_to_qbo type
qbo_account_type (some String.[]) type = ""
qbo_account_type (some (String.◌∷◌ c s)) type =
    or_default (subtype_to_qbo (String.◌∷◌ c s)) (account_type_to_qbo type)

unfoldable pub build_qbo_account : QboAccountSource → Json
build_qbo_account account = object (
    field "Name" (text_value account.name)
      (field "AccountType" (text_value (qbo_account_type account.subtype account.type)) close))

pub record QboInvoiceLineSource : Type 0 where
  pub description : Option String
  pub quantity : ℕ
  pub unit_price : ℤ
  pub amount : ℤ
  pub item_qbo_id : Option RowId

pub record QboInvoiceSource : Type 0 where
  pub doc_number : Option String
  pub txn_date : String
  pub due_date : Option String
  pub memo : Option String

pub record QboPaymentLinkedInvoice : Type 0 where
  pub qbo_id : RowId
  pub amount_cents : ℤ

module _ (out : JsOutput) where
  pub record QboItemSource : Type 0 where
    pub name : String
    pub is_service : Bool
    pub default_price : Option ℤ

  unfoldable pub build_qbo_item : QboItemSource → Json
  build_qbo_item item = object (
      field "Name" (text_value item.name) (
        field "Type" (text_value (if item.is_service then "Service" else "NonInventory")) (
          optional "UnitPrice" (Option.map (λ price. number (out.dollars price)) item.default_price)
            close)))

  abbrev pub line_detail : QboInvoiceLineSource → Json
  line_detail line = object (
      field "Qty" (number line.quantity) (
        field "UnitPrice" (number (out.dollars line.unit_price)) (
          optional "ItemRef" (Option.map (λ id. ref_to (out.qbo_text id)) line.item_qbo_id) close)))

  unfoldable pub build_line : QboInvoiceLineSource → Json
  build_line line = object (
      field "Amount" (number (out.dollars line.amount)) (
        optional_text "Description" line.description (
          field "DetailType" (text_value "SalesItemLineDetail")
            (field "SalesItemLineDetail" (line_detail line) close))))

  unfoldable pub build_lines : List QboInvoiceLineSource → Elements
  build_lines [] = end
  build_lines (l ∷ ls) = element (build_line l) (build_lines ls)

  unfoldable pub build_qbo_invoice : QboInvoiceSource → List QboInvoiceLineSource → RowId → Json
  build_qbo_invoice txn lines customer = object (
      field "CustomerRef" (ref_to (out.qbo_text customer)) (
        field "TxnDate" (text_value txn.txn_date) (
          field "Line" (array (build_lines lines)) (
            optional_text "DocNumber" txn.doc_number (
              optional_text "DueDate" txn.due_date (optional_text "PrivateNote" txn.memo close))))))

  abbrev pub linked_txn : RowId → Json
  linked_txn id =
      object (
        field "TxnId" (text_value (out.qbo_text id)) (field "TxnType" (text_value "Invoice") close))

  unfoldable pub build_payment_line : QboPaymentLinkedInvoice → Json
  build_payment_line inv = object (
      field "Amount" (number (out.dollars inv.amount_cents))
        (field "LinkedTxn" (array (element (linked_txn inv.qbo_id) end)) close))

  unfoldable pub build_payment_lines : List QboPaymentLinkedInvoice → Elements
  build_payment_lines [] = end
  build_payment_lines (l ∷ ls) = element (build_payment_line l) (build_payment_lines ls)

  unfoldable pub build_qbo_payment : RowId → String → ℤ → List QboPaymentLinkedInvoice → Json
  build_qbo_payment customer txn_date total_cents linked_invoices = object (
      field "CustomerRef" (ref_to (out.qbo_text customer)) (
        field "TxnDate" (text_value txn_date) (
          field "TotalAmt" (number (out.dollars total_cents))
            (field "Line" (array (build_payment_lines linked_invoices)) close))))
