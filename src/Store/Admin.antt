-- ===== src/Store/Admin.antt =====
-- schema.sql and internal/store/queries.sql.go: the tables that the handlers of the service write, and
-- their statements. `none` for the result of a statement is a constraint that SQLite refuses to
-- break. The foreign keys of the schema are on.
pub mod After
pub mod Sound
use antitimely.Prelude.{
  ℕ, ◌+◌, Bool, true, false, not, ◌&&◌, ◌||◌, Option, none, some, List, [], ◌∷◌, map, ◌==◌, max,
  if◌then◌else◌, any, find, keep, length,
}
use antitimely.Prelude.Int.{ℤ, pos}
use antitimely.Prelude.Text.{Str, str_eq, codes}
use antitimely.Domain.Signal.{RuleSpec}
use antitimely.Domain.Rules.{sort_rules}
use antitimely.Store.Tables.{Observation, Tick}
use antitimely.Invoice.Ledger.{Kind, Invoice}
use antitimely.Invoice.LineItem.{BillingMode}
use antitimely.Invoice.Service.{Company}
use antitimely.Retro.{Sqlite, RetagParams, selected}

-- `paused` is 0 or 1.
pub record Project : Type 0 where
  pub id : ℕ
  pub name : Str
  pub company_id : Option ℕ
  pub paused : Bool
  pub created_at : ℕ

pub record WatchedProgram : Type 0 where
  pub kind : Str
  pub identifier : Str

pub record Database : Type 0 where
  pub companies : List Company
  pub projects : List Project
  pub watched : List WatchedProgram
  pub rules : List RuleSpec
  pub observations : List Observation
  pub ignored : List ℕ
  pub ticks : List Tick
  pub invoices : List Invoice

abbrev pub Statement : Type 0 → Type 0
Statement A = Database → Option (A × Database)

module _ {A : Type 0} where
  -- The statement goes through when no constraint is broken.
  unfoldable pub allow : Bool → A × Database → Option (A × Database)
  allow true x = some x
  allow false x = none

abbrev pub bundle : Str
bundle = codes "bundle"

abbrev pub binary : Str
binary = codes "binary"

abbrev greatest {ℓ} : {A : Type ℓ} → (A → ℕ) → List A → ℕ
greatest id [] = 0
greatest id (x ∷ xs) = max (id x) (greatest id xs)

-- The row id of a new row.
abbrev pub fresh_id {ℓ} : {A : Type ℓ} → (A → ℕ) → List A → ℕ
fresh_id id xs = greatest id xs + 1

abbrev pub is_some {ℓ} : {A : Type ℓ} → Option A → Bool
is_some none = false
is_some (some a) = true

abbrev pub has_project : Database → ℕ → Bool
has_project db p = any (λ q. q.id == p) db.projects

abbrev pub has_company : Database → Option ℕ → Bool
has_company db none = true
has_company db (some c) = any (λ k. k.id == c) db.companies

abbrev pub has_observation : Database → ℕ → Bool
has_observation db o = any (λ x. x.id == o) db.observations

unfoldable pub get_company_by_name : Str → Database → Option Company
get_company_by_name name db = find (λ c. str_eq c.name name) db.companies

unfoldable pub get_project_by_name : Str → Database → Option Project
get_project_by_name name db = find (λ p. str_eq p.name name) db.projects

unfoldable pub get_observation : ℕ → Database → Option Observation
get_observation i db = find (λ o. o.id == i) db.observations

unfoldable pub get_invoice_by_id : ℕ → Database → Option Invoice
get_invoice_by_id i db = find (λ r. r.id == i) db.invoices

unfoldable pub count_invoices_by_company_id : ℕ → Database → ℕ
count_invoices_by_company_id c db = length (keep (λ r. r.company_id == c) db.invoices)

unfoldable pub list_paused_project_ids : Database → List ℕ
list_paused_project_ids db = map (λ p. p.id) (keep (λ p. p.paused) db.projects)

-- ORDER BY priority, id
unfoldable pub list_rules_for_cache : Database → List RuleSpec
list_rules_for_cache db = sort_rules db.rules

-- CHECK (kind IN ('bundle', 'binary')), UNIQUE (kind, identifier)
unfoldable pub add_watched_program : Str → Str → Statement Unit
add_watched_program kind name db =
    allow
      ((str_eq kind bundle || str_eq kind binary)
        && not (any (λ w. str_eq w.kind kind && str_eq w.identifier name) db.watched))
      (tt, record db { watched = record { kind = kind; identifier = name } ∷ db.watched })

unfoldable pub remove_watched_program : Str → Str → Statement Unit
remove_watched_program kind name db = some (
  tt,
  record db {
    watched = keep (λ w. not (str_eq w.kind kind && str_eq w.identifier name)) db.watched;
  },
)

-- UNIQUE (name), and a company that is there or NULL.
unfoldable pub add_project : Str → Option ℕ → ℕ → Statement ℕ
add_project name company now db =
    let i = fresh_id (λ p. p.id) db.projects in
    allow (not (any (λ p. str_eq p.name name) db.projects) && has_company db company) (
      i,
      record db {
        projects =
            record { id = i; name = name; company_id = company; paused = false; created_at = now }
            ∷ db.projects;
      },
    )

abbrev pub assigned_to : ℕ → Tick → Bool
assigned_to p t = elim t.project_id [ none ↦ false | some q ↦ q == p ]

-- Rules go with their project; a project with ticks stays.
unfoldable pub delete_project_by_name : Str → Statement Unit
unfolding get_project_by_name
delete_project_by_name name db = elim (get_project_by_name name db) [
  | none ↦ some (tt, db)
  | some p ↦ allow (not (any (assigned_to p.id) db.ticks)) (
    tt,
    record db {
      projects = keep (λ q. not (q.id == p.id)) db.projects;
      rules = keep (λ r. not (r.project_id == p.id)) db.rules;
    },
  )
]

abbrev pub pause_named : Bool → Str → Project → Project
pause_named b name p = if str_eq p.name name then record p { paused = b } else p

unfoldable pub set_project_paused : Bool → Str → Statement Unit
set_project_paused b name db = some (
  tt,
  record db {
    projects = map (λ p. if str_eq p.name name then record p { paused = b } else p) db.projects;
  },
)

abbrev pub set_paused : Bool → Project → Project
set_paused b p = record p { paused = b }

-- `PauseAllProjects` and `ResumeAllProjects`; the count is that of the rows.
unfoldable pub set_all_paused : Bool → Statement ℕ
set_all_paused b db =
    some (length db.projects, record db { projects = map (set_paused b) db.projects })

abbrev pub move_to : Option ℕ → Str → Project → Project
move_to company name p = if str_eq p.name name then record p { company_id = company } else p

unfoldable pub set_project_company : Option ℕ → Str → Statement Unit
set_project_company company name db =
    allow (has_company db company || not (any (λ p. str_eq p.name name) db.projects))
      (tt, record db { projects = map (move_to company name) db.projects })

pub record AddRuleParams : Type 0 where
  pub project_id : ℕ
  pub priority : ℤ
  pub match_bundle_id : Option Str
  pub match_title_substr : Option Str
  pub match_binary_name : Option Str
  pub match_cwd_prefix : Option Str
  pub match_space_id : Option Str

-- The CHECK of the table: some column is given.
abbrev pub gives_column : AddRuleParams → Bool
gives_column a =
    is_some a.match_bundle_id
    || is_some a.match_title_substr
    || is_some a.match_binary_name
    || is_some a.match_cwd_prefix
    || is_some a.match_space_id

abbrev pub rule_row : ℕ → AddRuleParams → RuleSpec
rule_row i a = record {
  id = i;
  project_id = a.project_id;
  priority = a.priority;
  match_bundle_id = a.match_bundle_id;
  match_title_substr = a.match_title_substr;
  match_binary_name = a.match_binary_name;
  match_cwd_prefix = a.match_cwd_prefix;
  match_space_id = a.match_space_id;
}

unfoldable pub add_rule : AddRuleParams → Statement ℕ
add_rule a db =
    let i = fresh_id (λ r. r.id) db.rules in
    allow (gives_column a && has_project db a.project_id)
      (i, record db { rules = rule_row i a ∷ db.rules })

unfoldable pub delete_rule : ℕ → Statement Unit
delete_rule i db = some (tt, record db { rules = keep (λ r. not (r.id == i)) db.rules })

abbrev pub waits : Tick → Bool
waits t = elim t.project_id [ none ↦ true | some p ↦ false ]

-- `project_id IS NULL` and the rest of the WHERE
abbrev pub wanted : (ℕ → Bool) → Tick → Bool
wanted hit t = waits t && hit t.observation_id

abbrev pub take_tick : (ℕ → Bool) → ℕ → Tick → Tick
take_tick hit p t = if wanted hit t then record t { project_id = some p } else t

-- UPDATE ticks SET project_id = p WHERE project_id IS NULL AND ..., with the number of the rows.
unfoldable pub assign : (ℕ → Bool) → ℕ → Statement ℕ
assign hit p db =
    let hits = length (keep (wanted hit) db.ticks) in
    allow (has_project db p || (hits == 0))
      (hits, record db { ticks = map (take_tick hit p) db.ticks })

unfoldable pub retag_single_observation : ℕ → ℕ → Statement ℕ
unfolding assign
retag_single_observation p o = assign (λ i. i == o) p

unfoldable pub apply_rule_retroactively_counted : Sqlite → RetagParams → Statement ℕ
unfolding assign
apply_rule_retroactively_counted sql q db = assign (selected sql q db.observations) q.project_id db

-- ON CONFLICT (observation_id) DO NOTHING
unfoldable pub ignore_observation : ℕ → Statement Unit
ignore_observation o db =
    if any (λ i. i == o) db.ignored
    then some (tt, db)
    else allow (has_observation db o) (tt, record db { ignored = o ∷ db.ignored })

unfoldable pub add_company : Str → ℕ → Statement ℕ
add_company name now db =
    let i = fresh_id (λ c. c.id) db.companies in
    allow (not (any (λ c. str_eq c.name name) db.companies)) (
      i,
      record db {
        companies =
            record {
              id = i;
              name = name;
              created_at = now;
              billing_mode = BillingMode.not_billable;
              currency = none;
              rate_cents = none;
              billed_from = none;
            }
            ∷ db.companies;
      },
    )

abbrev pub leaves : ℕ → Option ℕ → Option ℕ
leaves c none = none
leaves c (some k) = if k == c then none else some k

abbrev pub leave : ℕ → Project → Project
leave c p = record p { company_id = leaves c p.company_id }

-- Invoices go with their company; its projects stay, with no company.
unfoldable pub delete_company_by_name : Str → Statement Unit
unfolding get_company_by_name
delete_company_by_name name db = elim (get_company_by_name name db) [
  | none ↦ some (tt, db)
  | some c ↦ some (
    tt,
    record db {
      companies = keep (λ k. not (k.id == c.id)) db.companies;
      projects = map (leave c.id) db.projects;
      invoices = keep (λ r. not (r.company_id == c.id)) db.invoices;
    },
  )
]

pub record BillingParams : Type 0 where
  pub billing_mode : Option BillingMode
  pub currency : Option Str
  pub rate_cents : Option ℤ
  pub billed_from : Option Str

abbrev bill : BillingMode → BillingParams → Company → Company
bill mode a c = record c {
  billing_mode = mode;
  currency = a.currency;
  rate_cents = a.rate_cents;
  billed_from = a.billed_from;
}

abbrev pub bill_named : Str → BillingMode → BillingParams → Company → Company
bill_named name mode a c = if str_eq c.name name then bill mode a c else c

-- `none` for the mode is a text that the CHECK does not take; without a row there is no check.
unfoldable pub set_company_billing : Str → BillingParams → Statement Unit
set_company_billing name a db = elim a.billing_mode [
  | none ↦ allow (not (any (λ c. str_eq c.name name) db.companies)) (tt, db)
  | some mode ↦ some (tt, record db { companies = map (bill_named name mode a) db.companies })
]

unfoldable pub add_invoice : ℕ → ℕ → Str → ℕ → Statement ℕ
add_invoice company sent_at note now db =
    let i = fresh_id (λ r. r.id) db.invoices in
    allow (has_company db (some company)) (
      i,
      record db {
        invoices =
            record {
              id = i;
              company_id = company;
              sent_at = sent_at;
              note = note;
              created_at = now;
              number = none;
              pdf_path = none;
              total_cents = none;
              currency = none;
              sender_key = none;
              kind = Kind.hourly;
              credit_applied_cents = pos 0;
              discount_cents = pos 0;
            }
            ∷ db.invoices;
      },
    )

unfoldable pub delete_invoice : ℕ → Statement Unit
delete_invoice i db = some (tt, record db { invoices = keep (λ r. not (r.id == i)) db.invoices })
