-- ===== src/Invoice/Service.antt =====
-- internal/daemon/rpc_invoice.go: what `InvoiceGenerate` and `InvoiceAdvance` share.
pub mod Generate
pub mod Rollback
pub mod Advance
pub mod Drawdown
use antitimely.Prelude.{
  ℕ, suc, ◌+◌, Bool, true, false, not, ◌&&◌, Option, none, some, List, [], ◌∷◌, if◌then◌else◌, ltb,
  reverse,
}
use antitimely.Prelude.Int.{ℤ, pos, ◌+₆₄◌, ltb_ℤ}
use antitimely.Prelude.Text.{Str}
use antitimely.Store.Tables.{Tick}
use antitimely.Domain.Cwd.{is_nil}
use antitimely.Invoice.Config.{SendersConfig, Sender, Issue, validate, lookup}
use antitimely.Invoice.LineItem.{BillingMode}
use antitimely.Invoice.Doc.{Zone, DocError}
use antitimely.Invoice.Ledger.{
  Kind, Invoice, Ledger, cents, seed_sender_state, allocate_next_invoice_number, is_advance,
}

-- `store.Company`
pub record Company : Type 0 where
  pub id : ℕ
  pub name : Str
  pub created_at : ℕ
  pub billing_mode : BillingMode
  pub currency : Option Str
  pub rate_cents : Option ℤ
  pub billed_from : Option Str

-- Which steps outside the model fail in this call: statements of the database, and files.
pub record Failures : Type 0 where
  pub last_sent : Bool
  pub count_ticks : Bool
  pub seed_state : Bool
  pub begin : Bool
  pub read_balance : Bool
  pub read_rows : Bool
  pub read_number : Bool
  pub render : Bool
  pub insert : Bool
  pub commit : Bool
  pub rename : Bool

-- What the call finds: the company of the name, the configuration file, the clock, the zone, the
-- tracked time, and the path of a PDF.
pub record Host : Type 0 where
  pub company : Option Company
  pub config : Option SendersConfig
  pub clock : ℕ
  pub zone : Zone
  pub tick_interval_seconds : ℕ
  pub ticks : List Tick
  pub bills : ℕ → ℕ → Bool
  pub pdf_path : Str → Option Str
  pub failures : Failures

pub data ServiceError : Type 0 where
  no_company not_billable no_billed_from no_rate not_positive : ServiceError
  config_unreadable config_invalid no_sender no_time no_account : ServiceError
  database no_path render commit moving : ServiceError
  document : DocError → ServiceError

pub data Result {ℓ} (A : Type ℓ) : Type ℓ where
  failed : ServiceError → Result A
  ok : A → Result A

-- `if err != nil { return err }`
abbrev pub bind {ℓ} : {A B : Type ℓ} → Result A → (A → Result B) → Result B
bind (failed e) f = failed e
bind (ok a) f = f a

abbrev pub found {ℓ} : {A : Type ℓ} → ServiceError → Option A → Result A
found e none = failed e
found e (some a) = ok a

abbrev pub refuse_if {ℓ} : {A : Type ℓ} → Bool → ServiceError → Result A → Result A
refuse_if true e r = failed e
refuse_if false e r = r

abbrev no_issues : List Issue → Bool
no_issues [] = true
no_issues (i ∷ issues) = false

-- `loadValidSender`
unfoldable pub load_valid_sender : Option SendersConfig → Str → Result (SendersConfig × Sender)
unfolding validate lookup
load_valid_sender config sender_key = bind (found ServiceError.config_unreadable config) (λ cfg.
    refuse_if (not (no_issues (validate cfg))) ServiceError.config_invalid
      (bind (found ServiceError.no_sender (lookup sender_key cfg.senders)) (λ s. ok (cfg, s))))

-- The sender that bills a company; an unset one and an empty one are the same.
unfoldable pub sender_of : Company → Result Str
sender_of co = elim co.billed_from [
  | none ↦ failed ServiceError.no_billed_from
  | some key ↦ refuse_if (is_nil key) ServiceError.no_billed_from (ok key)
]

-- The sender's row is made before the transaction, and not on a dry run.
unfoldable pub seeded : Bool → Str → Sender → Ledger → Ledger
unfolding seed_sender_state
seeded dry_run key sender l =
    if dry_run then l else seed_sender_state key sender.invoice.next_number l

-- `allocateInvoiceNumber`: a dry run reads the number and takes none.
unfoldable pub allocate_invoice_number : Bool → Str → ℕ → Ledger → Result (ℕ × Ledger)
unfolding allocate_next_invoice_number
allocate_invoice_number dry_run key configured_next l =
    if dry_run
    then ok (elim (l.sender_state key) [ none ↦ configured_next | some n ↦ n ], l)
    else found ServiceError.database (allocate_next_invoice_number key l)

unfoldable pub drawn_down : List Invoice → ℤ
drawn_down [] = pos 0
drawn_down (r ∷ rows) = r.credit_applied_cents +₆₄ drawn_down rows

-- The walk over the advances, oldest first, with what they advanced so far.
unfoldable pub walk_advances : ℤ → ℤ → List Invoice → Str
walk_advances drawn advanced [] = []
walk_advances drawn advanced (r ∷ rows) =
    if is_advance r.kind
    then (let advanced' = advanced +₆₄ cents r.total_cents in
        let rest = walk_advances drawn advanced' rows in
        if ltb_ℤ drawn advanced' then elim r.number [ some n ↦ n | none ↦ rest ] else rest)
    else walk_advances drawn advanced rows

-- `oldestUnexhaustedAdvance`, of rows that are newest first
unfoldable pub oldest_unexhausted_advance : List Invoice → Str
unfolding drawn_down walk_advances
oldest_unexhausted_advance rows = walk_advances (drawn_down rows) (pos 0) (reverse rows)

-- The end of the transaction: the row is inserted and committed, then the PDF takes its place. An
-- error before the commit leaves the ledger as the transaction found it; a PDF that cannot be moved
-- is an error after it. A dry run commits nothing and moves nothing.
unfoldable pub settle {ℓ} : {A : Type ℓ} → Failures → Bool → Ledger → Ledger → A → Ledger × Result A
settle f dry_run before after reply =
    if f.render
    then (before, failed ServiceError.render)
    else if not dry_run && f.insert
    then (before, failed ServiceError.database)
    else if f.commit
    then (before, failed ServiceError.commit)
    else if not dry_run && f.rename
    then (after, failed ServiceError.moving)
    else (after, ok reply)
