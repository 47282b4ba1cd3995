-- ===== src/Invoice/Service/Advance.antt =====
-- internal/daemon/rpc_invoice.go: `InvoiceAdvance`, a prepayment.
pub mod Prepaid
use antitimely.Prelude.{
  ℕ, suc, ◌+◌, Bool, true, false, not, ◌&&◌, Option, none, some, List, [], ◌∷◌, if◌then◌else◌, ltb,
}
use antitimely.Prelude.Int.{ℤ, pos, ◌+₆₄◌, ltb_ℤ, leb_ℤ, wrap64, times_ℤ, quot_ℤ, pos_part}
use antitimely.Prelude.Text.{Str}
use antitimely.Invoice.Number.{format_invoice_number}
use antitimely.Invoice.Config.{SendersConfig, Sender, BankAccount, lookup, bank_for}
use antitimely.Invoice.Doc.{Zone, InvoiceDoc, amount_due_cents}
use antitimely.Invoice.Ledger.{
  Kind, Invoice, Ledger, cents, company_credit_balance, insert_invoice_full,
}
use antitimely.Invoice.Service.{
  Company, Failures, Host, ServiceError, Result, failed, ok, bind, found, refuse_if,
  load_valid_sender, sender_of, seeded, allocate_invoice_number, settle,
}
use antitimely.Invoice.Service.Generate.{Plan, set_or, currency_of, is_billable}

pub record AdvanceArgs : Type 0 where
  pub amount_cents : ℤ
  pub issue_date_unix : ℕ
  pub note : Str
  pub dry_run : Bool

pub record AdvanceReply : Type 0 where
  pub number : Str
  pub pdf_path : Str
  pub currency : Str
  pub total_cents : ℤ
  pub credit_remaining_cents : ℤ

-- `InvoiceAdvance` up to the transaction. An advance bills no time; its period is shown as the rest
-- of the month.
unfoldable pub advance_plan : Host → AdvanceArgs → Result Plan
unfolding sender_of load_valid_sender
advance_plan host args = refuse_if (leb_ℤ args.amount_cents (pos 0)) ServiceError.not_positive (
    bind (found ServiceError.no_company host.company) (λ co.
      refuse_if (not (is_billable co.billing_mode)) ServiceError.not_billable (
        bind (sender_of co) (λ key.
          refuse_if (leb_ℤ (cents co.rate_cents) (pos 0)) ServiceError.no_rate (
            bind (load_valid_sender host.config key) (λ (cfg, sender).
              let now = set_or args.issue_date_unix host.clock in
              ok (record {
                company = co;
                sender_key = key;
                config = cfg;
                sender = sender;
                now = now;
                from = now;
                to = host.zone.next_month now;
                ticks = 0;
              })))))))

-- The line item shows the hours that the amount pays at the rate, and bills the amount.
unfoldable pub advance_doc : Host → AdvanceArgs → Plan → ℕ → BankAccount → InvoiceDoc
unfolding format_invoice_number lookup wrap64
advance_doc host args p number bank = record {
  number = format_invoice_number p.sender.invoice.number_prefix p.sender.invoice.number_pad number;
  issue_date = p.now;
  due_date = host.zone.add_days p.now p.config.invoice.due_days;
  period_from = p.from;
  period_to = p.to;
  currency = currency_of p.company;
  client_name = p.company.name;
  client = lookup p.company.name p.config.clients;
  sender = p.sender;
  line_item_label = p.config.invoice.line_item_label;
  line_item = record {
    quantity_hours_times_100 =
        quot_ℤ (wrap64 (times_ℤ args.amount_cents 100)) (pos_part (cents p.company.rate_cents));
    unit_cents = cents p.company.rate_cents;
    total_cents = args.amount_cents;
  };
  discount_cents = pos 0;
  credit_applied_cents = pos 0;
  credit_applied_ref = [];
  bank = bank;
  logo_path = p.sender.logo_path;
}

abbrev pub advance_row : Host → AdvanceArgs → Plan → InvoiceDoc → Str → Invoice
advance_row host args p doc path = record {
  id = 0;
  company_id = p.company.id;
  sent_at = p.now;
  note = args.note;
  created_at = host.clock;
  number = some doc.number;
  pdf_path = some path;
  total_cents = some (amount_due_cents doc);
  currency = some (currency_of p.company);
  sender_key = some p.sender_key;
  kind = Kind.advance;
  credit_applied_cents = pos 0;
  discount_cents = pos 0;
}

pub record AdvanceDraft : Type 0 where
  pub doc : InvoiceDoc
  pub before : ℤ
  pub path : Str
  pub ledger : Ledger

unfoldable pub advance_drafted :
    Host → AdvanceArgs → Plan → Ledger → Ledger → InvoiceDoc → Str → AdvanceDraft
unfolding insert_invoice_full company_credit_balance
advance_drafted host args p l l' doc path = record {
  doc = doc;
  before = company_credit_balance p.company.id p.company.currency l.invoices;
  path = path;
  ledger =
      if args.dry_run then l' else (insert_invoice_full (advance_row host args p doc path) l').1;
}

unfoldable pub advance_draft : Host → AdvanceArgs → Plan → Ledger → Result AdvanceDraft
unfolding allocate_invoice_number bank_for advance_doc advance_drafted
advance_draft host args p l =
    let f = host.failures in
    refuse_if f.begin ServiceError.database (
      refuse_if f.read_balance ServiceError.database (
        refuse_if f.read_number ServiceError.database (
          bind (allocate_invoice_number args.dry_run p.sender_key p.sender.invoice.next_number l)
            (λ (number, l').
              bind (found ServiceError.no_account (bank_for p.sender (currency_of p.company)))
                (λ bank.
                  let doc = advance_doc host args p number bank in
                  bind (found ServiceError.no_path (host.pdf_path doc.number))
                    (λ path. ok (advance_drafted host args p l l' doc path)))))))

abbrev pub advance_reply : AdvanceDraft → AdvanceReply
advance_reply d = record {
  number = d.doc.number;
  pdf_path = d.path;
  currency = d.doc.currency;
  total_cents = amount_due_cents d.doc;
  credit_remaining_cents = d.before +₆₄ amount_due_cents d.doc;
}

unfoldable pub advance_issue : Host → AdvanceArgs → Plan → Ledger → Ledger × Result AdvanceReply
unfolding advance_draft settle amount_due_cents
advance_issue host args p l = elim (advance_draft host args p l) [
  | failed e ↦ (l, failed e)
  | ok d ↦ settle host.failures args.dry_run l d.ledger (advance_reply d)
]

-- `InvoiceAdvance`
unfoldable pub invoice_advance : Host → AdvanceArgs → Ledger → Ledger × Result AdvanceReply
unfolding advance_plan advance_issue seeded
invoice_advance host args l = elim (advance_plan host args) [
  | failed e ↦ (l, failed e)
  | ok p ↦
      if not args.dry_run && host.failures.seed_state
      then (l, failed ServiceError.database)
      else advance_issue host args p (seeded args.dry_run p.sender_key p.sender l)
]
