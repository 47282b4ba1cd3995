-- ===== src/Invoice/Config.antt =====
-- internal/invoice/sender.go: who bills, to which account, and what a usable configuration has. A Go
-- map is the list of its entries in the order that one iteration of it takes.
pub mod Bank
use antitimely.Prelude.{
  ℕ, ◌+◌, Bool, true, false, ◌||◌, Option, none, some, List, [], ◌∷◌, ◌++◌, if◌then◌else◌, ltb,
}
use antitimely.Prelude.Text.{Str, str_eq}
use antitimely.Domain.Cwd.{is_nil}

pub record BankField : Type 0 where
  pub label : Str
  pub value : Str

pub record BankAccount : Type 0 where
  pub title : Str
  pub subtitle : Str
  pub also_accepts : List Str
  pub fields : List BankField

-- `next_number` is an int64 in the source; a negative one is refused as 0 is.
pub record InvoiceSeed : Type 0 where
  pub number_prefix : Str
  pub number_pad : ℕ
  pub next_number : ℕ

pub record Sender : Type 0 where
  pub legal_name : Str
  pub tax_id : Str
  pub tax_id_label : Str
  pub address_lines : List Str
  pub logo_path : Str
  pub invoice : InvoiceSeed
  pub bank_accounts : List (Str × BankAccount)
  pub output_dir : Str

pub record GlobalInvoiceConfig : Type 0 where
  pub output_dir : Str
  pub line_item_label : Str
  pub due_days : ℕ

pub record Client : Type 0 where
  pub legal_name : Str
  pub tax_id : Str
  pub tax_id_label : Str
  pub email : Str
  pub address_lines : List Str

pub record SendersConfig : Type 0 where
  pub senders : List (Str × Sender)
  pub clients : List (Str × Client)
  pub invoice : GlobalInvoiceConfig

-- A read of a map.
unfoldable pub lookup {ℓ} : {A : Type ℓ} → Str → List (Str × A) → Option A
lookup k [] = none
lookup k ((k', v) ∷ m) = if str_eq k' k then some v else lookup k m

-- What `Validate` reports, with the keys of the entry.
pub data Issue : Type 0 where
  no_output_dir no_line_item_label : Issue
  no_legal_name no_tax_id no_address_lines no_number_prefix bad_next_number no_bank_accounts :
      Str → Issue
  no_bank_fields : Str → Str → Issue

abbrev report : Bool → Issue → List Issue
report true i = i ∷ []
report false i = []

abbrev is_empty {ℓ} : {A : Type ℓ} → List A → Bool
is_empty [] = true
is_empty (x ∷ xs) = false

bank_issues : Str → List (Str × BankAccount) → List Issue
bank_issues key [] = []
bank_issues key ((ccy, b) ∷ banks) =
    report (is_empty b.fields) (Issue.no_bank_fields key ccy) ++ bank_issues key banks

sender_issues : List (Str × Sender) → List Issue
unfolding bank_issues
sender_issues [] = []
sender_issues ((key, s) ∷ senders) =
    report (is_nil s.legal_name) (Issue.no_legal_name key)
    ++ (report (is_nil s.tax_id) (Issue.no_tax_id key)
        ++ (report (is_empty s.address_lines) (Issue.no_address_lines key)
            ++ (report (is_nil s.invoice.number_prefix) (Issue.no_number_prefix key)
                ++ (report (ltb s.invoice.next_number 1) (Issue.bad_next_number key)
                    ++ (report (is_empty s.bank_accounts) (Issue.no_bank_accounts key)
                        ++ (bank_issues key s.bank_accounts ++ sender_issues senders))))))

unfoldable pub validate : SendersConfig → List Issue
unfolding sender_issues
validate c =
    report (is_nil c.invoice.output_dir) Issue.no_output_dir
    ++ (report (is_nil c.invoice.line_item_label) Issue.no_line_item_label
        ++ sender_issues c.senders)

unfoldable pub accepts : Str → List Str → Bool
accepts currency [] = false
accepts currency (alt ∷ alts) = str_eq alt currency || accepts currency alts

unfoldable pub first_accepting : Str → List (Str × BankAccount) → Option BankAccount
unfolding accepts
first_accepting currency [] = none
first_accepting currency ((ccy, b) ∷ banks) =
    if accepts currency b.also_accepts then some b else first_accepting currency banks

-- `BankFor`: the account of the currency, or the first that the iteration finds to accept it.
unfoldable pub bank_for : Sender → Str → Option BankAccount
unfolding lookup first_accepting
bank_for s currency = elim (lookup currency s.bank_accounts) [
  | some b ↦ some b
  | none ↦ first_accepting currency s.bank_accounts
]
