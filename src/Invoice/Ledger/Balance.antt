-- ===== src/Invoice/Ledger/Balance.antt =====
-- How a new row moves the credit balance and the billing anchor.
use antitimely.Prelude.{ℕ, ◌≡◌, refl, inl, inr, Option, List, ◌∷◌, if◌then◌else◌, arith, Bool-cases}
use antitimely.Prelude.Int.{◌+ℤ◌, ◌-ℤ◌, int_laws}
use antitimely.Prelude.Text.{Str}
use antitimely.Invoice.Ledger.{
  Kind, Invoice, of_company, advanced_by, sum_of, company_credit_balance,
  last_invoice_sent_for_company,
}

-- A row moves the balance of its company and currency by what it advances less what it draws, and
-- moves no other balance.
pub company_credit_balance-cons :
    (company : ℕ) (currency : Option Str) (r : Invoice) (rows : List Invoice)
    → company_credit_balance company currency (r ∷ rows) ≡ (
        if of_company company currency r
        then company_credit_balance company currency rows
          +ℤ (advanced_by r -ℤ r.credit_applied_cents)
        else company_credit_balance company currency rows)
unfolding company_credit_balance sum_of
company_credit_balance-cons company currency r rows =
    elim (Bool-cases (of_company company currency r)) [
      | inl e ↦ rw e (grind int_laws)
      | inr e ↦ rw e refl
    ]

-- An advance does not move the start of the next hourly period.
pub last_invoice_sent-advance :
    (company : ℕ) (r : Invoice) (rows : List Invoice)
    → r.kind ≡ Kind.advance
    → last_invoice_sent_for_company company (r ∷ rows) ≡ last_invoice_sent_for_company company rows
unfolding last_invoice_sent_for_company
last_invoice_sent-advance company r rows h = ground arith
