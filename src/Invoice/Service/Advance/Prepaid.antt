-- ===== src/Invoice/Service/Advance/Prepaid.antt =====
-- What an advance leaves of the billing anchor.
use antitimely.Prelude.{ℕ, ◌≡◌, refl, ap, subst, ◌∙◌, inl, inr, not, ◌&&◌, Bool-cases}
use antitimely.Prelude.Text.{Str}
use antitimely.Invoice.Config.{bank_for}
use antitimely.Invoice.Doc.{InvoiceDoc}
use antitimely.Invoice.Ledger.{Ledger, last_invoice_sent_for_company, insert_invoice_full}
use antitimely.Invoice.Ledger.Balance.{last_invoice_sent-advance}
use antitimely.Invoice.Service.{
  Host, ServiceError, Result, failed, ok, found, seeded, allocate_invoice_number, settle,
}
use antitimely.Invoice.Service.Generate.{Plan, currency_of}
use antitimely.Invoice.Service.Drawdown.{
  bind-ok, refuse_if-ok, ok_injective, seeded-invoices, allocate-invoices, result-cases,
  settle-ledger,
}
use antitimely.Invoice.Service.Advance.{
  AdvanceArgs, AdvanceReply, AdvanceDraft, advance_plan, advance_doc, advance_row, advance_drafted,
  advance_draft, advance_reply, advance_issue, invoice_advance,
}

-- The anchor of every company is the same in both ledgers.
abbrev pub SameAnchor : Ledger → Ledger → Type 0
SameAnchor l l' =
    (company : ℕ)
    → last_invoice_sent_for_company company l'.invoices
      ≡ last_invoice_sent_for_company company l.invoices

drafted-SameAnchor :
    (host : Host) (args : AdvanceArgs) (p : Plan) (l l' : Ledger) (doc : InvoiceDoc) (path : Str)
    → l'.invoices ≡ l.invoices
    → SameAnchor l (advance_drafted host args p l l' doc path).ledger
unfolding advance_drafted insert_invoice_full
drafted-SameAnchor host args p l l' doc path same company = elim (Bool-cases args.dry_run) [
  | inl t ↦ rw t (ap (last_invoice_sent_for_company company) same)
  | inr t ↦ rw t (
      last_invoice_sent-advance company
        (record (advance_row host args p doc path) {
          id = (insert_invoice_full (advance_row host args p doc path) l').0;
        })
        l'.invoices refl
      ∙ ap (last_invoice_sent_for_company company) same)
]

draft-SameAnchor :
    (host : Host) (args : AdvanceArgs) (p : Plan) (l : Ledger) (d : AdvanceDraft)
    → advance_draft host args p l ≡ ok d
    → SameAnchor l d.ledger
unfolding advance_draft
draft-SameAnchor host args p l d h =
    let f = host.failures in
    let h1 = refuse_if-ok f.begin _ _ d h in
    let h2 = refuse_if-ok f.read_balance _ _ d h1 in
    let h3 = refuse_if-ok f.read_number _ _ d h2 in
    let ((number, l'), e, h4) =
      bind-ok (allocate_invoice_number args.dry_run p.sender_key p.sender.invoice.next_number l) _ d
        h3 in
    let (bank, e', h5) =
      bind-ok (found ServiceError.no_account (bank_for p.sender (currency_of p.company))) _ d h4 in
    let doc = advance_doc host args p number bank in
    let (path, e'', h6) = bind-ok (found ServiceError.no_path (host.pdf_path doc.number)) _ d h5 in
    let (same, dry) =
      allocate-invoices args.dry_run p.sender_key p.sender.invoice.next_number l number l' e in
    subst (λ x. SameAnchor l x.ledger) (ok_injective _ d h6)
      (drafted-SameAnchor host args p l l' doc path same)

issue-SameAnchor :
    (host : Host) (args : AdvanceArgs) (p : Plan) (l : Ledger)
    → SameAnchor l (advance_issue host args p l).0
unfolding advance_issue
issue-SameAnchor host args p l = go (advance_draft host args p l) refl
  where
    go :
        (r : Result AdvanceDraft)
        → advance_draft host args p l ≡ r
        → SameAnchor l
            (elim r as (λ x. Ledger × Result AdvanceReply) [
              | failed e ↦ (l, failed e)
              | ok d ↦ settle host.failures args.dry_run l d.ledger (advance_reply d)
            ]).0
    go (failed e) h = λ company. refl
    go (ok d) h = elim (settle-ledger host.failures args.dry_run l d.ledger (advance_reply d)) [
      | inl e ↦ rw e (λ company. refl)
      | inr e ↦ rw e (draft-SameAnchor host args p l d h)
    ]

-- Whatever the arguments, the outcome and the step that fails, `InvoiceAdvance` leaves the start of
-- the next hourly period of every company where it was: no hour worked before an advance is dropped.
pub invoice_advance-SameAnchor :
    (host : Host) (args : AdvanceArgs) (l : Ledger) → SameAnchor l (invoice_advance host args l).0
unfolding invoice_advance
invoice_advance-SameAnchor host args l = elim (result-cases (advance_plan host args)) [
  | inl (e, h) ↦ rw (h, invoice_advance) (λ company. refl)
  | inr (p, h) ↦
      rw (h, invoice_advance)
        (elim (Bool-cases (not args.dry_run && host.failures.seed_state)) [
          | inl e ↦ rw e (λ company. refl)
          | inr e ↦ rw e (λ company.
              issue-SameAnchor host args p (seeded args.dry_run p.sender_key p.sender l) company
              ∙ ap (last_invoice_sent_for_company company)
                  (seeded-invoices args.dry_run p.sender_key p.sender l))
        ])
]
