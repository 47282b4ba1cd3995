-- ===== src/Tests/Billing.antt =====
-- Runs of the billing code at concrete inputs.
use antitimely.Prelude.{
  ◌+◌, ◌≡◌, ◌≢◌, refl, ◌⊎◌, Bool, true, false, none, some, List, [], ◌∷◌, arith, if◌then◌else◌,
}
use antitimely.Prelude.Int.{ℤ, pos, negsuc, ◌+ℤ◌, ◌-ℤ◌, ◌≤ℤ◌}
use antitimely.Prelude.Text.{Str, codes, str_eq}
use antitimely.Store.Tables.{Tick}
use antitimely.Invoice.Number.{format_invoice_number}
use antitimely.Invoice.Number.Readback.{format_invoice_number-distinct}
use antitimely.Invoice.Credit.{apply_credit}
use antitimely.Invoice.Credit.Bounds.{apply_credit-bounds}
use antitimely.Invoice.Config.{BankAccount, Sender, bank_for, lookup}
use antitimely.Invoice.Config.Bank.{Shows, bank_for-Serves}
use antitimely.Invoice.LineItem.{BillingMode, compute_line_item}
use antitimely.Invoice.Doc.{Zone, BuildDocInput, InvoiceDoc, Built, build_doc, amount_due_cents}
use antitimely.Invoice.Doc.Totals.{build_doc-apply_credit}
use antitimely.Invoice.Ledger.{
  Kind, Invoice, Ledger, company_credit_balance, count_ticks_for_company_in_range,
  seed_sender_state, sum_of,
}
use antitimely.Invoice.Ledger.Periods.{count_ticks-cut}
use antitimely.Invoice.Service.{Failures, Host, ServiceError}
use antitimely.Invoice.Service.Generate.{GenerateArgs, invoice_generate}
use antitimely.Invoice.Service.Advance.{AdvanceArgs, invoice_advance}
use antitimely.Invoice.Service.Advance.Prepaid.{SameAnchor, invoice_advance-SameAnchor}
use antitimely.Invoice.Service.Drawdown.{IsCovered, invoice_generate-IsCovered}
use antitimely.Invoice.Service.Rollback.{invoice_generate-failed, invoice_generate-dry_run}

format_invoice_number-distinct_example :
    format_invoice_number (codes "INV-") 3 14 ≢ format_invoice_number (codes "INV-") 3 140
format_invoice_number-distinct_example =
    format_invoice_number-distinct (codes "INV-") 3 14 140 (λ e. omega (arith, e))

apply_credit-bounds_example :
    let applied = apply_credit (pos 700) (pos 500) (pos 100) in
    (pos 0 ≤ℤ applied)
    × (pos 100 +ℤ applied ≤ℤ pos 500)
    × ((applied ≤ℤ pos 700) ⊎ (applied ≡ pos 0))
    × ((applied ≡ pos 700) ⊎ (pos 100 +ℤ applied ≡ pos 500) ⊎ (pos 700 ≤ℤ pos 0))
apply_credit-bounds_example =
    apply_credit-bounds (pos 700) (pos 500) (pos 100) (omega arith, (omega arith, omega arith))
      (omega arith, (omega arith, omega arith)) (omega arith)

abbrev euro_account : BankAccount
euro_account = record {
  title = codes "SEPA";
  subtitle = [];
  also_accepts = codes "USD" ∷ [];
  fields = record { label = codes "IBAN"; value = codes "DE1" } ∷ [];
}

abbrev sender : Sender
sender = record {
  legal_name = codes "Rian";
  tax_id = codes "1";
  tax_id_label = [];
  address_lines = [];
  logo_path = [];
  invoice = record { number_prefix = codes "INV-"; number_pad = 3; next_number = 14 };
  bank_accounts = (codes "EUR", euro_account) ∷ [];
  output_dir = [];
}

bank_for-Serves_example : Shows sender (codes "USD") (bank_for sender (codes "USD"))
bank_for-Serves_example = bank_for-Serves sender (codes "USD")

abbrev zone : Zone
zone = record { month_start = λ t. t; next_month = λ t. t + 2592000; add_days = λ t d. t + d }

abbrev input : BuildDocInput
input = record {
  now = 1000;
  client_name = codes "Acme";
  client = none;
  billing_mode = BillingMode.monthly_fixed;
  currency = codes "EUR";
  rate_cents = pos 500;
  sender = sender;
  invoice_number = codes "INV-014";
  period_from = 0;
  period_to = 1000;
  due_days = 14;
  line_item_label = codes "Software";
  ticks = 0;
  tick_sec = 5;
  discount_cents = pos 100;
  credit_applied_cents = pos 0;
  credit_applied_ref = [];
}

build_doc-apply_credit_example :
    (d : InvoiceDoc) × (build_doc zone input ≡ Built.built d) × (pos 0 ≤ℤ amount_due_cents d)
unfolding compute_line_item apply_credit bank_for lookup str_eq ◌-ℤ◌
build_doc-apply_credit_example =
    build_doc-apply_credit zone input (negsuc 40) (omega arith, (omega arith, omega arith))
      (omega arith, (omega arith, omega arith)) (omega arith) (λ e. cc e) refl

abbrev row : Kind → ℤ → ℤ → Invoice
row kind total credit = record {
  id = 1;
  company_id = 2;
  sent_at = 900;
  note = [];
  created_at = 900;
  number = none;
  pdf_path = none;
  total_cents = some total;
  currency = some (codes "EUR");
  sender_key = none;
  kind = kind;
  credit_applied_cents = credit;
  discount_cents = pos 0;
}

abbrev rows : List Invoice
rows = row Kind.advance (pos 900) (pos 0) ∷ []

-- Two windows of one project in the same second, and a second on the cut.
abbrev ticks : List Tick
ticks =
    record { ts = 50; observation_id = 1; project_id = some 3 }
    ∷ record { ts = 50; observation_id = 2; project_id = some 3 }
    ∷ record { ts = 60; observation_id = 1; project_id = some 3 }
    ∷ []

count_ticks-cut_example :
    count_ticks_for_company_in_range (λ p. true) 0 100 ticks
    ≡ count_ticks_for_company_in_range (λ p. true) 0 60 ticks
      + count_ticks_for_company_in_range (λ p. true) 60 100 ticks
count_ticks-cut_example = count_ticks-cut (λ p. true) 0 60 100 ticks (omega arith) (omega arith)

abbrev no_failures : Failures
no_failures = record {
  last_sent = false;
  count_ticks = false;
  seed_state = false;
  begin = false;
  read_balance = false;
  read_rows = false;
  read_number = false;
  render = false;
  insert = false;
  commit = false;
  rename = false;
}

-- The company's sender has no such key when `known` is false.
abbrev host : Bool → Failures → Host
host known failures = record {
  company = some (record {
    id = 2;
    name = codes "Acme";
    created_at = 10;
    billing_mode = BillingMode.hourly;
    currency = some (codes "EUR");
    rate_cents = some (pos 7500);
    billed_from = if known then some (codes "rian") else none;
  });
  config = some (record {
    senders = (codes "rian", record sender { address_lines = codes "Rua 1" ∷ [] }) ∷ [];
    clients = [];
    invoice = record {
      output_dir = codes "/out";
      line_item_label = codes "Software";
      due_days = 14;
    };
  });
  clock = 1000;
  zone = zone;
  tick_interval_seconds = 5;
  ticks = ticks;
  bills = λ c p. true;
  pdf_path = λ n. some n;
  failures = failures;
}

abbrev args : Bool → GenerateArgs
args dry = record {
  issue_date_unix = 0;
  from_unix = 0;
  to_unix = 0;
  note = [];
  discount_cents = pos 0;
  dry_run = dry;
  no_credit = false;
  allow_empty = false;
}

abbrev ledger : Ledger
ledger = record { invoices = []; sender_state = λ k. none }

no_rows-IsCovered : IsCovered []
unfolding company_credit_balance sum_of ◌-ℤ◌
no_rows-IsCovered company currency = omega arith

invoice_generate-IsCovered_example :
    IsCovered (invoice_generate (host true no_failures) (args false) ledger).0.invoices
invoice_generate-IsCovered_example =
    invoice_generate-IsCovered (host true no_failures) (args false) ledger no_rows-IsCovered

invoice_generate-failed_example :
    ((invoice_generate (host false no_failures) (args false) ledger).0 ≡ ledger)
    ⊎ ((key : Str) × (s : Sender) × ((invoice_generate
            (host false no_failures)
            (args false)
            ledger).0
          ≡ seed_sender_state key s.invoice.next_number ledger))
unfolding invoice_generate
invoice_generate-failed_example =
    invoice_generate-failed (host false no_failures) (args false) ledger ServiceError.no_billed_from
      refl (λ e. cc e)

invoice_generate-dry_run_example :
    (invoice_generate (host true no_failures) (args true) ledger).0 ≡ ledger
invoice_generate-dry_run_example =
    invoice_generate-dry_run (host true no_failures) (args true) ledger refl

abbrev advance_args : AdvanceArgs
advance_args = record { amount_cents = pos 50000; issue_date_unix = 0; note = []; dry_run = false }

invoice_advance-SameAnchor_example :
    SameAnchor ledger (invoice_advance (host true no_failures) advance_args ledger).0
invoice_advance-SameAnchor_example =
    invoice_advance-SameAnchor (host true no_failures) advance_args ledger
