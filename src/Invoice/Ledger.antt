-- ===== src/Invoice/Ledger.antt =====
-- internal/store/queries.sql.go: the invoice tables and the queries that billing runs on them.
pub mod Balance
pub mod Periods
use antitimely.Prelude.{
  ℕ, suc, ◌+◌, ◌*◌, Bool, true, false, ◌&&◌, ◌||◌, Option, none, some, List, [], ◌∷◌, ltb, leb,
  ◌==◌, if◌then◌else◌, max,
}
use antitimely.Prelude.Int.{ℤ, pos, ◌+ℤ◌, ◌-ℤ◌, ltb_ℤ}
use antitimely.Prelude.Text.{Str, str_eq}
use antitimely.Store.Tables.{Tick}

pub data Kind : Type 0 where
  hourly advance : Kind

pub record Invoice : Type 0 where
  pub id : ℕ
  pub company_id : ℕ
  pub sent_at : ℕ
  pub note : Str
  pub created_at : ℕ
  pub number : Option Str
  pub pdf_path : Option Str
  pub total_cents : Option ℤ
  pub currency : Option Str
  pub sender_key : Option Str
  pub kind : Kind
  pub credit_applied_cents : ℤ
  pub discount_cents : ℤ

-- `sender_state` maps a sender's key to the next number.
pub record Ledger : Type 0 where
  pub invoices : List Invoice
  pub sender_state : Str → Option ℕ

-- SQL's `=`, which holds for no NULL.
abbrev pub sql_eq : Option Str → Option Str → Bool
sql_eq (some a) (some b) = str_eq a b
sql_eq _ _ = false

abbrev pub cents : Option ℤ → ℤ
cents none = pos 0
cents (some n) = n

abbrev pub of_company : ℕ → Option Str → Invoice → Bool
of_company company currency r = (r.company_id == company) && sql_eq r.currency currency

abbrev pub advanced_by : Invoice → ℤ
advanced_by r = elim r.kind [ Kind.advance ↦ cents r.total_cents | Kind.hourly ↦ pos 0 ]

unfoldable pub sum_of : (Invoice → ℤ) → ℕ → Option Str → List Invoice → ℤ
sum_of f company currency [] = pos 0
sum_of f company currency (r ∷ rows) =
    let rest = sum_of f company currency rows in
    if of_company company currency r then f r +ℤ rest else rest

-- `CompanyCreditBalance`. The sums stay inside int64, as SQLite reports an overflow as an error.
unfoldable pub company_credit_balance : ℕ → Option Str → List Invoice → ℤ
unfolding sum_of
company_credit_balance company currency rows =
    sum_of advanced_by company currency rows
    -ℤ sum_of (λ r. r.credit_applied_cents) company currency rows

abbrev pub is_advance : Kind → Bool
is_advance Kind.advance = true
is_advance Kind.hourly = false

-- ORDER BY sent_at DESC, id DESC
abbrev newer : Invoice → Invoice → Bool
newer a b = ltb b.sent_at a.sent_at || ((a.sent_at == b.sent_at) && ltb b.id a.id)

place : Invoice → List Invoice → List Invoice
place r [] = r ∷ []
place r (s ∷ rows) = let rest = place r rows in if newer r s then r ∷ s ∷ rows else s ∷ rest

-- `CompanyCreditRows`
unfoldable pub company_credit_rows : ℕ → Option Str → List Invoice → List Invoice
unfolding place
company_credit_rows company currency [] = []
company_credit_rows company currency (r ∷ rows) =
    let rest = company_credit_rows company currency rows in
    if of_company company currency r && (is_advance r.kind || ltb_ℤ (pos 0) r.credit_applied_cents)
    then place r rest
    else rest

-- `LastInvoiceSentForCompany`: the newest row is one with the greatest `sent_at`.
unfoldable pub last_invoice_sent_for_company : ℕ → List Invoice → Option ℕ
last_invoice_sent_for_company company [] = none
last_invoice_sent_for_company company (r ∷ rows) =
    let rest = last_invoice_sent_for_company company rows in
    elim r.kind [
      | Kind.advance ↦ rest
      | Kind.hourly ↦
          if r.company_id == company
          then some (elim rest [ none ↦ r.sent_at | some t ↦ max r.sent_at t ])
          else rest
    ]

-- The seconds of the ticks that a company is billed for in a range; `bills` says of a project that
-- it is the company's and not paused.
unfoldable pub billed_seconds : (ℕ → Bool) → ℕ → ℕ → List Tick → List ℕ
billed_seconds bills from to [] = []
billed_seconds bills from to (t ∷ ticks) =
    let rest = billed_seconds bills from to ticks in
    elim t.project_id [
      | none ↦ rest
      | some p ↦ if bills p && (leb from t.ts && ltb t.ts to) then t.ts ∷ rest else rest
    ]

unfoldable pub has_second : ℕ → List ℕ → Bool
has_second x [] = false
has_second x (y ∷ ys) = (x == y) || has_second x ys

unfoldable pub count_distinct : List ℕ → ℕ
unfolding has_second
count_distinct [] = 0
count_distinct (x ∷ xs) = let rest = count_distinct xs in if has_second x xs then rest else suc rest

-- `CountTicksForCompanyInRange`
unfoldable pub count_ticks_for_company_in_range : (ℕ → Bool) → ℕ → ℕ → List Tick → ℕ
unfolding billed_seconds count_distinct
count_ticks_for_company_in_range bills from to ticks =
    count_distinct (billed_seconds bills from to ticks)

unfoldable pub set_sender : Str → ℕ → Ledger → Ledger
set_sender key n l = record l {
  sender_state = λ k. if str_eq k key then some n else l.sender_state k;
}

-- `SeedSenderState`, which leaves a row that is there.
unfoldable pub seed_sender_state : Str → ℕ → Ledger → Ledger
unfolding set_sender
seed_sender_state key n l = elim (l.sender_state key) [ some m ↦ l | none ↦ set_sender key n l ]

-- `AllocateNextInvoiceNumber`; `none` is sql.ErrNoRows.
unfoldable pub allocate_next_invoice_number : Str → Ledger → Option (ℕ × Ledger)
unfolding set_sender
allocate_next_invoice_number key l = elim (l.sender_state key) [
  | none ↦ none
  | some n ↦ some (n, set_sender key (suc n) l)
]

max_invoice_id : List Invoice → ℕ
max_invoice_id [] = 0
max_invoice_id (r ∷ rows) = max r.id (max_invoice_id rows)

-- `InsertInvoiceFull`: the row gets the id after the largest.
unfoldable pub insert_invoice_full : Invoice → Ledger → ℕ × Ledger
unfolding max_invoice_id
insert_invoice_full r l =
    let id = suc (max_invoice_id l.invoices) in
    (id, record l { invoices = record r { id = id } ∷ l.invoices })
