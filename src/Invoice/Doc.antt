-- ===== src/Invoice/Doc.antt =====
-- internal/invoice/invoice.go and doc.go: the document that the PDF shows.
pub mod Totals
use antitimely.Prelude.{ℕ, ◌+◌, Bool, true, false, Option, none, some, List, [], ◌∷◌, if◌then◌else◌}
use antitimely.Prelude.Int.{ℤ, pos, ◌+₆₄◌, ◌-₆₄◌, ltb_ℤ}
use antitimely.Prelude.Text.{Str}
use antitimely.Invoice.Config.{BankAccount, Client, Sender, bank_for}
use antitimely.Invoice.LineItem.{BillingMode, LineItem, compute_line_item}

-- What the time zone of the host says of a moment: the start of its month, the start of the next
-- month, and the moment some days later.
pub record Zone : Type 0 where
  pub month_start : ℕ → ℕ
  pub next_month : ℕ → ℕ
  pub add_days : ℕ → ℕ → ℕ

pub record BuildDocInput : Type 0 where
  pub now : ℕ
  pub client_name : Str
  pub client : Option Client
  pub billing_mode : BillingMode
  pub currency : Str
  pub rate_cents : ℤ
  pub sender : Sender
  pub invoice_number : Str
  pub period_from : ℕ
  pub period_to : ℕ
  pub due_days : ℕ
  pub line_item_label : Str
  pub ticks : ℕ
  pub tick_sec : ℕ
  pub discount_cents : ℤ
  pub credit_applied_cents : ℤ
  pub credit_applied_ref : Str

pub record InvoiceDoc : Type 0 where
  pub number : Str
  pub issue_date : ℕ
  pub due_date : ℕ
  pub period_from : ℕ
  pub period_to : ℕ
  pub currency : Str
  pub client_name : Str
  pub client : Option Client
  pub sender : Sender
  pub line_item_label : Str
  pub line_item : LineItem
  pub discount_cents : ℤ
  pub credit_applied_cents : ℤ
  pub credit_applied_ref : Str
  pub bank : BankAccount
  pub logo_path : Str

-- `AmountDueCents`
unfoldable pub amount_due_cents : InvoiceDoc → ℤ
amount_due_cents d = d.line_item.total_cents -₆₄ d.discount_cents -₆₄ d.credit_applied_cents

pub data DocError : Type 0 where
  no_bank negative_discount negative_credit exceeds_total : DocError

pub data Built : Type 0 where
  refused : DocError → Built
  built : InvoiceDoc → Built

-- `BuildDoc`
unfoldable pub build_doc : Zone → BuildDocInput → Built
unfolding bank_for compute_line_item
build_doc zone i =
    let li = compute_line_item i.billing_mode i.ticks i.tick_sec i.rate_cents in
    elim (bank_for i.sender i.currency) [
      | none ↦ Built.refused DocError.no_bank
      | some bank ↦
          if ltb_ℤ i.discount_cents (pos 0)
          then Built.refused DocError.negative_discount
          else if ltb_ℤ i.credit_applied_cents (pos 0)
          then Built.refused DocError.negative_credit
          else if ltb_ℤ li.total_cents (i.discount_cents +₆₄ i.credit_applied_cents)
          then Built.refused DocError.exceeds_total
          else Built.built (record {
            number = i.invoice_number;
            issue_date = i.now;
            due_date = zone.add_days i.now i.due_days;
            period_from = i.period_from;
            period_to = i.period_to;
            currency = i.currency;
            client_name = i.client_name;
            client = i.client;
            sender = i.sender;
            line_item_label = i.line_item_label;
            line_item = li;
            discount_cents = i.discount_cents;
            credit_applied_cents = i.credit_applied_cents;
            credit_applied_ref = i.credit_applied_ref;
            bank = bank;
            logo_path = i.sender.logo_path;
          })
    ]
