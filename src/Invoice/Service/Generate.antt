-- ===== src/Invoice/Service/Generate.antt =====
-- internal/daemon/rpc_invoice.go: `InvoiceGenerate`.
use antitimely.Prelude.{
  ℕ, Bool, true, false, not, ◌&&◌, Option, none, some, List, [], ◌∷◌, if◌then◌else◌, ltb, ◌==◌,
}
use antitimely.Prelude.Int.{ℤ, pos, ◌-₆₄◌, eqb_ℤ}
use antitimely.Prelude.Text.{Str}
use antitimely.Invoice.Number.{format_invoice_number}
use antitimely.Invoice.Credit.{apply_credit}
use antitimely.Invoice.Config.{SendersConfig, Sender, lookup}
use antitimely.Invoice.LineItem.{BillingMode, compute_line_item}
use antitimely.Invoice.Doc.{Zone, BuildDocInput, InvoiceDoc, Built, build_doc, amount_due_cents}
use antitimely.Invoice.Ledger.{
  Kind, Invoice, Ledger, cents, company_credit_balance, company_credit_rows,
  last_invoice_sent_for_company, count_ticks_for_company_in_range, insert_invoice_full,
}
use antitimely.Invoice.Service.{
  Company, Host, ServiceError, Result, failed, ok, bind, found, refuse_if, load_valid_sender,
  sender_of, seeded, allocate_invoice_number, oldest_unexhausted_advance, settle,
}

-- A time of 0 is not set. The source also takes a negative one as not set.
pub record GenerateArgs : Type 0 where
  pub issue_date_unix : ℕ
  pub from_unix : ℕ
  pub to_unix : ℕ
  pub note : Str
  pub discount_cents : ℤ
  pub dry_run : Bool
  pub no_credit : Bool
  pub allow_empty : Bool

pub record GenerateReply : Type 0 where
  pub invoice_id : ℕ
  pub number : Str
  pub pdf_path : Str
  pub total_cents : ℤ
  pub currency : Str
  pub sender_key : Str
  pub issue_date_unix : ℕ
  pub due_date_unix : ℕ
  pub from_unix : ℕ
  pub to_unix : ℕ
  pub ticks : ℕ
  pub billing_mode : BillingMode
  pub credit_applied_cents : ℤ
  pub credit_remaining_cents : ℤ

-- A time that is set, or another.
abbrev pub set_or : ℕ → ℕ → ℕ
set_or t other = if ltb 0 t then t else other

abbrev pub or_zero : Option ℕ → ℕ
or_zero none = 0
or_zero (some t) = t

-- `DefaultPeriod`; `none` is the zero time.
unfoldable pub default_period : Zone → BillingMode → ℕ → ℕ → Option ℕ × ℕ
default_period zone BillingMode.monthly_fixed now last_sent =
    (some (zone.month_start now), zone.next_month now)
default_period zone BillingMode.hourly now last_sent =
    (if ltb 0 last_sent then some last_sent else none, now)
default_period zone BillingMode.not_billable now last_sent = (none, now)

-- The start: set by the caller, or by default; an hourly company that was never billed starts where
-- it was created.
abbrev start_of : Company → ℕ → Option ℕ → ℕ
start_of co from_unix default =
    set_or from_unix (elim default [ some t ↦ t | none ↦ co.created_at ])

-- What is fixed before the transaction.
pub record Plan : Type 0 where
  pub company : Company
  pub sender_key : Str
  pub config : SendersConfig
  pub sender : Sender
  pub now : ℕ
  pub from : ℕ
  pub to : ℕ
  pub ticks : ℕ

-- Only an hourly company's time is counted, and an empty period is refused unless it is allowed.
unfoldable pub ticks_of : Host → Bool → Company → ℕ → ℕ → Result ℕ
unfolding count_ticks_for_company_in_range
ticks_of host allow_empty co from to = elim co.billing_mode [
  | BillingMode.hourly ↦
      let n = count_ticks_for_company_in_range (host.bills co.id) from to host.ticks in
      refuse_if host.failures.count_ticks ServiceError.database
        (refuse_if ((n == 0) && not allow_empty) ServiceError.no_time (ok n))
  | _ ↦ ok 0
]

abbrev pub is_billable : BillingMode → Bool
is_billable BillingMode.not_billable = false
is_billable _ = true

-- `InvoiceGenerate` up to the transaction. It reads the ledger and changes nothing.
unfoldable pub plan : Host → GenerateArgs → Ledger → Result Plan
unfolding sender_of load_valid_sender last_invoice_sent_for_company default_period ticks_of
plan host args l = bind (found ServiceError.no_company host.company) (λ co.
    refuse_if (not (is_billable co.billing_mode)) ServiceError.not_billable (
      bind (sender_of co) (λ key. bind (load_valid_sender host.config key) (λ (cfg, sender).
        refuse_if host.failures.last_sent ServiceError.database (
          let now = set_or args.issue_date_unix host.clock in
          let last_sent = or_zero (last_invoice_sent_for_company co.id l.invoices) in
          let (from, to) = default_period host.zone co.billing_mode now last_sent in
          let from' = start_of co args.from_unix from in
          let to' = set_or args.to_unix to in
          bind (ticks_of host args.allow_empty co from' to') (λ n. ok (record {
            company = co;
            sender_key = key;
            config = cfg;
            sender = sender;
            now = now;
            from = from';
            to = to';
            ticks = n;
          })))))))

-- What the transaction makes: the document, and the ledger with its row.
pub record Draft : Type 0 where
  pub doc : InvoiceDoc
  pub applied : ℤ
  pub remaining : ℤ
  pub path : Str
  pub number : ℕ
  pub ledger : Ledger

abbrev pub currency_of : Company → Str
currency_of co = elim co.currency [ some c ↦ c | none ↦ [] ]

-- The credit that is taken: none where the caller wants none.
unfoldable pub applied_credit : Host → GenerateArgs → Plan → Ledger → ℤ
unfolding apply_credit company_credit_balance compute_line_item
applied_credit host args p l =
    if args.no_credit
    then pos 0
    else apply_credit (company_credit_balance p.company.id p.company.currency l.invoices)
        (compute_line_item p.company.billing_mode p.ticks host.tick_interval_seconds
          (cents p.company.rate_cents)).total_cents
        args.discount_cents

unfoldable pub doc_input : Host → GenerateArgs → Plan → Ledger → ℕ → BuildDocInput
unfolding applied_credit oldest_unexhausted_advance company_credit_rows format_invoice_number lookup
doc_input host args p l number =
    let applied = applied_credit host args p l in
    let rows = company_credit_rows p.company.id p.company.currency l.invoices in
    record {
      now = p.now;
      client_name = p.company.name;
      client = lookup p.company.name p.config.clients;
      billing_mode = p.company.billing_mode;
      currency = currency_of p.company;
      rate_cents = cents p.company.rate_cents;
      sender = p.sender;
      invoice_number =
          format_invoice_number p.sender.invoice.number_prefix p.sender.invoice.number_pad number;
      period_from = p.from;
      period_to = p.to;
      due_days = p.config.invoice.due_days;
      line_item_label = p.config.invoice.line_item_label;
      ticks = p.ticks;
      tick_sec = host.tick_interval_seconds;
      discount_cents = args.discount_cents;
      credit_applied_cents = applied;
      credit_applied_ref = if eqb_ℤ applied (pos 0) then [] else oldest_unexhausted_advance rows;
    }

abbrev pub invoice_row : Host → GenerateArgs → Plan → InvoiceDoc → ℤ → Str → Invoice
invoice_row host args p doc applied path = record {
  id = 0;
  company_id = p.company.id;
  sent_at = p.now;
  note = args.note;
  created_at = host.clock;
  number = some doc.number;
  pdf_path = some path;
  total_cents = some (amount_due_cents doc);
  currency = some (currency_of p.company);
  sender_key = some p.sender_key;
  kind = Kind.hourly;
  credit_applied_cents = applied;
  discount_cents = args.discount_cents;
}

abbrev pub built_doc : Built → Result InvoiceDoc
built_doc (Built.refused e) = failed (ServiceError.document e)
built_doc (Built.built d) = ok d

unfoldable pub drafted : Host → GenerateArgs → Plan → Ledger → ℕ → Ledger → InvoiceDoc → Str → Draft
unfolding applied_credit insert_invoice_full
drafted host args p l number l' doc path =
    let applied = applied_credit host args p l in
    record {
      doc = doc;
      applied = applied;
      remaining = company_credit_balance p.company.id p.company.currency l.invoices;
      path = path;
      number = number;
      ledger =
          if args.dry_run
          then l'
          else (insert_invoice_full (invoice_row host args p doc applied path) l').1;
    }

-- The transaction, up to the PDF. The balance and the rows are read inside it.
unfoldable pub draft : Host → GenerateArgs → Plan → Ledger → Result Draft
unfolding allocate_invoice_number doc_input build_doc drafted
draft host args p l =
    let f = host.failures in
    refuse_if f.begin ServiceError.database (
      refuse_if f.read_balance ServiceError.database (
        refuse_if f.read_rows ServiceError.database (
          refuse_if f.read_number ServiceError.database (
            bind (allocate_invoice_number args.dry_run p.sender_key p.sender.invoice.next_number l)
              (λ (number, l').
                bind (built_doc (build_doc host.zone (doc_input host args p l number))) (λ doc.
                  bind (found ServiceError.no_path (host.pdf_path doc.number))
                    (λ path. ok (drafted host args p l number l' doc path))))))))

abbrev pub reply_of : GenerateArgs → Plan → Draft → ℕ → GenerateReply
reply_of args p d id = record {
  invoice_id = if args.dry_run then 0 else id;
  number = d.doc.number;
  pdf_path = d.path;
  total_cents = amount_due_cents d.doc;
  currency = d.doc.currency;
  sender_key = p.sender_key;
  issue_date_unix = d.doc.issue_date;
  due_date_unix = d.doc.due_date;
  from_unix = p.from;
  to_unix = p.to;
  ticks = p.ticks;
  billing_mode = p.company.billing_mode;
  credit_applied_cents = d.applied;
  credit_remaining_cents = d.remaining -₆₄ d.applied;
}

abbrev pub newest_id : List Invoice → ℕ
newest_id [] = 0
newest_id (r ∷ rows) = r.id

-- The transaction and what follows it.
unfoldable pub issue : Host → GenerateArgs → Plan → Ledger → Ledger × Result GenerateReply
unfolding draft settle amount_due_cents
issue host args p l = elim (draft host args p l) [
  | failed e ↦ (l, failed e)
  | ok d ↦
      settle host.failures args.dry_run l d.ledger (reply_of args p d (newest_id d.ledger.invoices))
]

-- `InvoiceGenerate`
unfoldable pub invoice_generate : Host → GenerateArgs → Ledger → Ledger × Result GenerateReply
unfolding plan issue seeded
invoice_generate host args l = elim (plan host args l) [
  | failed e ↦ (l, failed e)
  | ok p ↦
      if not args.dry_run && host.failures.seed_state
      then (l, failed ServiceError.database)
      else issue host args p (seeded args.dry_run p.sender_key p.sender l)
]
