-- ===== src/Invoice/Service/Drawdown.antt =====
-- What `InvoiceGenerate` leaves in the ledger.
use antitimely.Prelude.{
  ℕ, ◌≡◌, refl, sym, ap, subst, ◌⊎◌, inl, inr, Bool, true, false, not, ◌&&◌, Option, none, some,
  List, [], ◌∷◌, arith, Bool-cases, Option-cases,
}
use antitimely.Prelude.Int.{ℤ, pos, ◌+ℤ◌, ◌-ℤ◌, ◌≤ℤ◌}
use antitimely.Prelude.Text.{Str, str_eq_iff}
use antitimely.Invoice.Credit.{apply_credit}
use antitimely.Invoice.Config.{Sender}
use antitimely.Invoice.Doc.{InvoiceDoc, build_doc}
use antitimely.Invoice.Ledger.{
  Kind, Invoice, Ledger, company_credit_balance, of_company, advanced_by, insert_invoice_full,
  allocate_next_invoice_number, seed_sender_state, set_sender, sum_of,
}
use antitimely.Invoice.Ledger.Balance.{company_credit_balance-cons}
use antitimely.Invoice.Service.{
  Failures, Host, ServiceError, Result, failed, ok, bind, found, refuse_if, seeded,
  allocate_invoice_number, settle,
}
use antitimely.Invoice.Service.Generate.{
  GenerateArgs, GenerateReply, Plan, Draft, plan, draft, drafted, issue, applied_credit, doc_input,
  invoice_generate, invoice_row, built_doc, currency_of, reply_of, newest_id,
}

pub bind-ok {ℓ} :
    {A B : Type ℓ} (x : Result A) (f : A → Result B) (b : B)
    → bind x f ≡ ok b
    → (a : A) × (x ≡ ok a) × (f a ≡ ok b)
bind-ok (failed e) f b h = absurd (ground arith)
bind-ok (ok a) f b h = (a, refl, h)

pub refuse_if-ok {ℓ} :
    {A : Type ℓ} (t : Bool) (e : ServiceError) (r : Result A) (a : A)
    → refuse_if t e r ≡ ok a
    → r ≡ ok a
refuse_if-ok true e r a h = absurd (ground arith)
refuse_if-ok false e r a h = h

pub ok_injective {ℓ} : {A : Type ℓ} (a b : A) → ok a ≡ ok b → a ≡ b
ok_injective a b h = cc

pub seeded-invoices :
    (dry : Bool) (key : Str) (s : Sender) (l : Ledger) → (seeded dry key s l).invoices ≡ l.invoices
unfolding seeded seed_sender_state set_sender
seeded-invoices dry key s l = ground arith

seeded-dry : (key : Str) (s : Sender) (l : Ledger) → seeded true key s l ≡ l
unfolding seeded
seeded-dry key s l = refl

pub allocate-invoices :
    (dry : Bool) (key : Str) (n : ℕ) (l : Ledger) (k : ℕ) (l' : Ledger)
    → allocate_invoice_number dry key n l ≡ ok (k, l')
    → (l'.invoices ≡ l.invoices) × (dry ≡ true → l' ≡ l)
unfolding allocate_invoice_number allocate_next_invoice_number set_sender
allocate-invoices dry key n l k l' h = ground arith

-- The ledger of a draft: that of the transaction's start on a dry run, else with one row more.
abbrev pub Drafted : Host → GenerateArgs → Plan → Ledger → Draft → Type 0
Drafted host args p l d =
    (d.applied ≡ applied_credit host args p l)
    × (d.remaining ≡ company_credit_balance p.company.id p.company.currency l.invoices)
    × (args.dry_run ≡ true → d.ledger ≡ l)
    × (args.dry_run ≡ false
        → (r : Invoice) × (d.ledger.invoices ≡ r ∷ l.invoices)
          × (r.company_id ≡ p.company.id)
          × (r.currency ≡ some (currency_of p.company))
          × (r.kind ≡ Kind.hourly)
          × (r.credit_applied_cents ≡ applied_credit host args p l))

made-Drafted :
    (host : Host) (args : GenerateArgs) (p : Plan) (l : Ledger) (number : ℕ) (l' : Ledger)
    (doc : InvoiceDoc) (path : Str)
    → l'.invoices ≡ l.invoices
    → (args.dry_run ≡ true → l' ≡ l)
    → Drafted host args p l (drafted host args p l number l' doc path)
unfolding drafted insert_invoice_full
made-Drafted host args p l number l' doc path same dry = (
  refl,
  refl,
  (λ t. rw t (dry t)),
  λ t. rw t (row, ap (λ rows. row ∷ rows) same, refl, refl, refl, refl),
)
  where
    row : Invoice
    row =
        let r = invoice_row host args p doc (applied_credit host args p l) path in
        record r { id = (insert_invoice_full r l').0 }

pub draft-Drafted :
    (host : Host) (args : GenerateArgs) (p : Plan) (l : Ledger) (d : Draft)
    → draft host args p l ≡ ok d
    → Drafted host args p l d
unfolding draft
draft-Drafted host args p l d h =
    let f = host.failures in
    let h1 = refuse_if-ok f.begin _ _ d h in
    let h2 = refuse_if-ok f.read_balance _ _ d h1 in
    let h3 = refuse_if-ok f.read_rows _ _ d h2 in
    let h4 = refuse_if-ok f.read_number _ _ d h3 in
    let ((number, l'), e, h5) =
      bind-ok (allocate_invoice_number args.dry_run p.sender_key p.sender.invoice.next_number l) _ d
        h4 in
    let (doc, e', h6) =
      bind-ok (built_doc (build_doc host.zone (doc_input host args p l number))) _ d h5 in
    let (path, e'', h7) = bind-ok (found ServiceError.no_path (host.pdf_path doc.number)) _ d h6 in
    let (same, dry) =
      allocate-invoices args.dry_run p.sender_key p.sender.invoice.next_number l number l' e in
    subst (Drafted host args p l) (ok_injective _ d h7)
      (made-Drafted host args p l number l' doc path same dry)

apply_credit-kept :
    (credit total goodwill : ℤ)
    → (pos 0 ≤ℤ apply_credit credit total goodwill)
      × (pos 0 ≤ℤ credit → apply_credit credit total goodwill ≤ℤ credit)
      × (credit ≡ pos 0 → apply_credit credit total goodwill ≡ pos 0)
unfolding apply_credit
apply_credit-kept credit total goodwill = ground arith

-- The credit taken is at most the balance that it is taken from.
applied_credit-kept :
    (host : Host) (args : GenerateArgs) (p : Plan) (l : Ledger)
    → let balance = company_credit_balance p.company.id p.company.currency l.invoices in
      (pos 0 ≤ℤ balance → applied_credit host args p l ≤ℤ balance)
      × (balance ≡ pos 0 → applied_credit host args p l ≡ pos 0)
unfolding applied_credit
applied_credit-kept host args p l = elim (Bool-cases args.no_credit) [
  | inl e ↦ rw e ((λ h. h), λ h. refl)
  | inr e ↦ rw e (
      let (_, kept, zero) =
        apply_credit-kept (company_credit_balance p.company.id p.company.currency l.invoices) _
          args.discount_cents in
      (kept, zero))
]

-- No balance of a company in a currency is below 0.
abbrev pub IsCovered : List Invoice → Type 0
IsCovered rows =
    (company : ℕ) (currency : Option Str) → pos 0 ≤ℤ company_credit_balance company currency rows

-- A NULL currency is the currency of no row.
no_currency-sum :
    (f : Invoice → ℤ) (company : ℕ) (rows : List Invoice) → sum_of f company none rows ≡ pos 0
unfolding sum_of
no_currency-sum f company [] = refl
no_currency-sum f company (r ∷ rows) = let ih = no_currency-sum f company rows in ground arith

no_currency-balance :
    (company : ℕ) (rows : List Invoice) → company_credit_balance company none rows ≡ pos 0
unfolding company_credit_balance ◌-ℤ◌
no_currency-balance company rows =
    rw
      (
        no_currency-sum advanced_by company rows,
        no_currency-sum (λ r. r.credit_applied_cents) company rows,
      )
      (ground arith)

of_company-same :
    (company : ℕ) (currency : Option Str) (r : Invoice)
    → of_company company currency r ≡ true
    → (r.company_id ≡ company) × (r.currency ≡ currency)
of_company-same company none r h = absurd (ground arith)
of_company-same company (some c) r h = elim (Option-cases r.currency) [
  | inl e ↦ absurd (ground arith)
  | inr (d, e) ↦ let q = str_eq_iff d c in (ground arith, ground arith)
]

spent_lem : (b x : ℤ) → x ≤ℤ b → pos 0 ≤ℤ b +ℤ (pos 0 -ℤ x)
unfolding ◌+ℤ◌ ◌-ℤ◌
spent_lem b x h = ground arith

IsCovered-cons :
    (r : Invoice) (rows : List Invoice)
    → r.kind ≡ Kind.hourly
    → r.credit_applied_cents ≤ℤ company_credit_balance r.company_id r.currency rows
    → IsCovered rows
    → IsCovered (r ∷ rows)
IsCovered-cons r rows k h covered company currency =
    elim (Bool-cases (of_company company currency r)) [
      | inr e ↦
          rw (company_credit_balance-cons company currency r rows, e) (covered company currency)
      | inl e ↦
          let (same, in_it) = of_company-same company currency r e in
          let fits : r.credit_applied_cents ≤ℤ company_credit_balance company currency rows =
            rw (sym same, sym in_it) h in
          rw (company_credit_balance-cons company currency r rows, e, k) (spent_lem _ _ fits)
    ]

applied_credit-fits :
    (host : Host) (args : GenerateArgs) (p : Plan) (l : Ledger)
    → IsCovered l.invoices
    → applied_credit host args p l
      ≤ℤ company_credit_balance p.company.id (some (currency_of p.company)) l.invoices
applied_credit-fits host args p l covered = elim (Option-cases p.company.currency) [
  | inl e ↦
      let zero =
        (applied_credit-kept host args p l).1
          (rw e (no_currency-balance p.company.id l.invoices)) in
      rw zero (covered p.company.id (some (currency_of p.company)))
  | inr (c, e) ↦
      let fits = (applied_credit-kept host args p l).0 (covered p.company.id p.company.currency) in
      let q : p.company.currency ≡ some (currency_of p.company) = ground arith in
      subst
        (λ cur. applied_credit host args p l ≤ℤ company_credit_balance p.company.id cur l.invoices)
        q fits
]

draft-IsCovered :
    (host : Host) (args : GenerateArgs) (p : Plan) (l : Ledger) (d : Draft)
    → draft host args p l ≡ ok d
    → IsCovered l.invoices
    → IsCovered d.ledger.invoices
draft-IsCovered host args p l d h covered =
    let (applied, remaining, dry, real) = draft-Drafted host args p l d h in
    elim (Bool-cases args.dry_run) [
      | inl t ↦ rw (dry t) covered
      | inr t ↦
          let (r, e, company, currency, kind, credit) = real t in
          rw e (
            IsCovered-cons r l.invoices kind
              (rw (company, currency, credit) (applied_credit-fits host args p l covered)) covered)
    ]

pub result-cases {ℓ} :
    {A : Type ℓ} (r : Result A) → ((e : ServiceError) × (r ≡ failed e)) ⊎ ((a : A) × (r ≡ ok a))
result-cases (failed e) = inl (e, refl)
result-cases (ok a) = inr (a, refl)

pub settle-ledger {ℓ} :
    {A : Type ℓ} (f : Failures) (dry : Bool) (before after : Ledger) (reply : A)
    → ((settle f dry before after reply).0 ≡ before) ⊎ ((settle f dry before after reply).0 ≡ after)
unfolding settle
settle-ledger f dry before after reply = ground arith

issue-IsCovered :
    (host : Host) (args : GenerateArgs) (p : Plan) (l : Ledger)
    → IsCovered l.invoices
    → IsCovered (issue host args p l).0.invoices
unfolding issue
issue-IsCovered host args p l covered = go (draft host args p l) refl
  where
    go :
        (r : Result Draft)
        → draft host args p l ≡ r
        → IsCovered
            (elim r as (λ x. Ledger × Result GenerateReply) [
              | failed e ↦ (l, failed e)
              | ok d ↦
                  settle host.failures args.dry_run l d.ledger
                    (reply_of args p d (newest_id d.ledger.invoices))
            ]).0.invoices
    go (failed e) h = covered
    go (ok d) h =
        elim (settle-ledger host.failures args.dry_run l d.ledger
          (reply_of args p d (newest_id d.ledger.invoices))) [
            | inl e ↦ rw e covered
            | inr e ↦ rw e (draft-IsCovered host args p l d h covered)
          ]

-- Where no credit balance is below 0, none is after `InvoiceGenerate`, whatever the arguments, the
-- outcome and the step that fails: no invoice spends credit that is not there.
pub invoice_generate-IsCovered :
    (host : Host) (args : GenerateArgs) (l : Ledger)
    → IsCovered l.invoices
    → IsCovered (invoice_generate host args l).0.invoices
unfolding invoice_generate
invoice_generate-IsCovered host args l covered = elim (result-cases (plan host args l)) [
  | inl (e, h) ↦ rw (h, invoice_generate) covered
  | inr (p, h) ↦
      rw (h, invoice_generate)
        (elim (Bool-cases (not args.dry_run && host.failures.seed_state)) [
          | inl e ↦ rw e covered
          | inr e ↦
              let same : l.invoices ≡ (seeded args.dry_run p.sender_key p.sender l).invoices =
                sym (seeded-invoices args.dry_run p.sender_key p.sender l) in
              rw e (
                issue-IsCovered host args p (seeded args.dry_run p.sender_key p.sender l)
                  (subst IsCovered same covered))
        ])
]
