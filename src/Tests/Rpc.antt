-- ===== src/Tests/Rpc.antt =====
-- Runs of the calls of the service at concrete inputs.
use antitimely.Prelude.{
  ℕ, ◌≡◌, refl, inl, inr, true, false, Bool, Option, none, some, List, [], ◌∷◌, In,
}
use antitimely.Prelude.Int.{pos}
use antitimely.Prelude.Text.{Str, codes, str_eq, trim_right, has_char, only}
use antitimely.Retro.{selected, retag_filter, cwd_clause}
use antitimely.Domain.Signal.{Source}
use antitimely.Daemon.Cache.{new_cache}
use antitimely.Domain.Rules.{sort_rules}
use antitimely.Store.Tables.{Observation, Tick}
use antitimely.Store.Admin.{
  Database, Project, get_observation, set_project_paused, allow, get_project_by_name, add_rule,
  assign, apply_rule_retroactively_counted, list_rules_for_cache, list_paused_project_ids,
}
use antitimely.Store.Admin.Sound.{IsSound}
use antitimely.Invoice.LineItem.{BillingMode}
use antitimely.Invoice.Ledger.{Kind, Invoice, company_credit_balance}
use antitimely.Invoice.Service.{Company}
use antitimely.Rpc.Exec.{
  Service, ◌>>=◌, statement, select, on_cache, pure, found, attempt, transaction,
}
use antitimely.Rpc.Exec.Stable.{is_ok}
use antitimely.Rpc.{
  project_pause, reload_cache, project_for, project_id_of, tag_with, add_and_sweep, RuleArgs,
  tag_signature, invoice_delete, company_delete,
}
use antitimely.Rpc.Requests.{
  Request, tag, pause_project, delete_project, delete_company, handle, serve,
}
use antitimely.Rpc.Sound.{serve-IsSound}
use antitimely.Rpc.Sync.{IsSynced}
use antitimely.Rpc.Sync.Handled.{handle-IsSynced}
use antitimely.Rpc.Tagging.{Outcome, Swept}
use antitimely.Rpc.Tagging.Atomic.{tag_signature-Outcome, tag_signature-In}
use antitimely.Rpc.Guards.{invoice_delete-company_credit_balance}
use antitimely.Rpc.Companies.{company_delete-invoices}
use antitimely.Tests.Domain.{sqlite}

abbrev acme : Company
acme = record {
  id = 1;
  name = codes "acme";
  created_at = 0;
  billing_mode = BillingMode.hourly;
  currency = none;
  rate_cents = none;
  billed_from = none;
}

abbrev site : Project
site = record { id = 4; name = codes "site"; company_id = some 1; paused = false; created_at = 0 }

abbrev seen : ℕ → Str → Observation
seen i space = record {
  id = i;
  source = Source.agent;
  bundle_id = [];
  window_title = [];
  binary_name = codes "go";
  cwd = codes "/w/site";
  space_id = space;
  first_seen = 0;
}

abbrev second : ℕ → ℕ → Option ℕ → Tick
second ts o p = record { ts = ts; observation_id = o; project_id = p }

abbrev sent : Invoice
sent = record {
  id = 7;
  company_id = 1;
  sent_at = 50;
  note = [];
  created_at = 50;
  number = none;
  pdf_path = none;
  total_cents = some (pos 900);
  currency = some (codes "EUR");
  sender_key = none;
  kind = Kind.hourly;
  credit_applied_cents = pos 0;
  discount_cents = pos 0;
}

abbrev tables : Database
tables = record {
  companies = acme ∷ [];
  projects = site ∷ [];
  watched = [];
  rules = [];
  observations = seen 2 (codes "w1") ∷ seen 3 (codes "w2") ∷ [];
  ignored = [];
  ticks = second 100 2 none ∷ second 105 3 none ∷ second 110 2 none ∷ [];
  invoices = sent ∷ [];
}

abbrev running : List Bool → Service
running faults = record { db = tables; cache = new_cache; faults = faults }

abbrev by_directory : RuleArgs
by_directory = record {
  priority = pos 100;
  match_bundle_id = [];
  match_title_substr = [];
  match_binary_name = [];
  match_cwd_prefix = codes "/w/site";
  match_space_id = [];
}

tables-IsSound : IsSound tables
tables-IsSound = record {
  projects = (refl, tt);
  rules = tt;
  ticks = (refl, (refl, (refl, tt)));
  ignored = tt;
  invoices = (refl, tt);
}

abbrev calls : List Request
calls =
    tag 2 (codes "site") false (some by_directory) 120
    ∷ delete_project (codes "site")
    ∷ delete_company (codes "acme") true
    ∷ []

serve-IsSound_example : IsSound (serve sqlite calls (running [])).db
serve-IsSound_example = serve-IsSound sqlite calls (running []) tables-IsSound

running-IsSynced : IsSynced (running []).db (running []).cache
unfolding new_cache sort_rules
running-IsSynced = record {
  bundles = λ x. refl;
  binaries = λ x. refl;
  rules = refl;
  paused = λ p. refl;
  patterns = λ x. refl;
  spaces = λ x. refl;
}

handle-IsSynced_example :
    let s = (handle sqlite (pause_project (codes "site")) (running [])).1 in IsSynced s.db s.cache
unfolding handle project_pause ◌>>=◌ statement set_project_paused reload_cache select on_cache
handle-IsSynced_example =
    handle-IsSynced sqlite (pause_project (codes "site")) (running []) running-IsSynced refl

tag_signature-Outcome_example :
    let x =
      tag_signature sqlite 2
        (codes "site")
        false
        (some by_directory)
        120
        (running (false ∷ false ∷ false ∷ false ∷ true ∷ [])) in
    Outcome sqlite 2 (codes "site") by_directory tables x.1.db
    × (is_ok x.0 ≡ true → Swept sqlite 2 (codes "site") by_directory tables x.1.db)
tag_signature-Outcome_example =
    tag_signature-Outcome sqlite 2 (codes "site") false by_directory 120
      (running (false ∷ false ∷ false ∷ false ∷ true ∷ []))

tag_signature-In_example :
    In
      (second 105 3 none)
      (tag_signature sqlite 2 (codes "site") false (some by_directory) 120 (running [])).1.db.ticks
unfolding get_observation str_eq
tag_signature-In_example =
    tag_signature-In sqlite 2 (codes "site") false by_directory 120 (running [])
      (seen 2 (codes "w1")) (second 105 3 none) refl (inr (refl, refl)) (inr (inl refl))

invoice_delete-company_credit_balance_example :
    company_credit_balance 1
      (some (codes "EUR"))
      (invoice_delete 7 false (running [])).1.db.invoices
    ≡ company_credit_balance 1 (some (codes "EUR")) (sent ∷ [])
invoice_delete-company_credit_balance_example =
    invoice_delete-company_credit_balance 7 1 (some (codes "EUR")) (running []) (refl, tt)
      (refl, tt)

company_delete-invoices_example :
    (company_delete (codes "acme") false (running [])).1.db.invoices ≡ sent ∷ []
company_delete-invoices_example = company_delete-invoices (codes "acme") (running [])

-- The sweep takes the two ticks of the space of the observation, and not the one of the other space.
abbrev swept_ticks : List Tick
swept_ticks = second 100 2 (some 4) ∷ second 105 3 none ∷ second 110 2 (some 4) ∷ []

tag_run :
    (tag_signature sqlite 2 (codes "site") false (some by_directory) 120 (running [])).1.db.ticks
    ≡ swept_ticks
unfolding tag_signature ◌>>=◌ statement select project_for attempt found get_project_by_name str_eq
    pure tag_with get_observation transaction add_and_sweep add_rule allow
    apply_rule_retroactively_counted reload_cache on_cache selected retag_filter project_id_of
    assign cwd_clause trim_right has_char only list_rules_for_cache list_paused_project_ids
tag_run = refl
