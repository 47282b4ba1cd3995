-- ===== src/Rpc.antt =====
-- internal/daemon/rpc.go: the service of the daemon. `ReloadCache` and the handlers that change the
-- tables.
pub mod Exec
pub mod Requests
pub mod Sound
pub mod Sync
pub mod Guards
pub mod Companies
pub mod Tagging
use antitimely.Prelude.{
  ℕ, Bool, true, false, not, ◌&&◌, ◌||◌, Option, none, some, List, [], ◌∷◌, map, ltb, ◌==◌,
  if◌then◌else◌, any,
}
use antitimely.Prelude.Int.{ℤ, pos, ltb_ℤ}
use antitimely.Prelude.Text.{Str, str_eq}
use antitimely.Domain.Signal.{RuleSpec}
use antitimely.Domain.Cwd.{PatternError, validate_cwd_pattern, is_nil}
use antitimely.Store.Admin.{
  Database, WatchedProgram, AddRuleParams, BillingParams, bundle, binary, get_company_by_name,
  get_project_by_name, get_observation, get_invoice_by_id, count_invoices_by_company_id,
  list_paused_project_ids, list_rules_for_cache, add_watched_program, remove_watched_program,
  add_project, delete_project_by_name, set_project_paused, set_all_paused, set_project_company,
  add_rule, delete_rule, retag_single_observation, apply_rule_retroactively_counted,
  ignore_observation, add_company, delete_company_by_name, set_company_billing, add_invoice,
  delete_invoice,
}
use antitimely.Store.Tables.{Observation}
use antitimely.Invoice.Ledger.{Kind, Invoice, is_advance}
use antitimely.Retro.{Sqlite, RetagParams}
use antitimely.Daemon.Cache.{
  Cache, CacheSnapshot, arm_project, arm_all_projects, store_preserving_runtime,
}
use antitimely.Rpc.Exec.{
  RpcError, Reply, ok, err, attempt, Handler, pure, raise, found, statement, select, on_cache,
  ◌>>=◌, ◌>>◌, transaction,
}

-- `snap.AllowedBundles` and `snap.AllowedBinaries`
abbrev pub watches : Str → Str → WatchedProgram → Bool
watches kind name w = str_eq w.kind kind && str_eq w.identifier name

-- The distinct patterns that are not empty, in the order of the rules.
unfoldable pub cwd_patterns_of : List Str → List RuleSpec → List Str
cwd_patterns_of seen [] = []
cwd_patterns_of seen (r ∷ rs) = elim r.match_cwd_prefix [
  | none ↦ cwd_patterns_of seen rs
  | some p ↦ elim (is_nil p || any (str_eq p) seen) [
    | true ↦ cwd_patterns_of seen rs
    | false ↦ p ∷ cwd_patterns_of (p ∷ seen) rs
  ]
]

abbrev pub binds : Str → RuleSpec → Bool
binds x r = elim r.match_space_id [ none ↦ false | some v ↦ not (is_nil v) && str_eq v x ]

-- The snapshot that `ReloadCache` builds from the rows that it read.
unfoldable pub snapshot_of : List WatchedProgram → List RuleSpec → List ℕ → CacheSnapshot
unfolding cwd_patterns_of
snapshot_of watched rules paused = record {
  allowed_bundles = λ x. any (watches bundle x) watched;
  allowed_binaries = λ x. any (watches binary x) watched;
  rules = rules;
  paused_project_ids = λ p. any (λ i. i == p) paused;
  armed_projects = λ p. false;
  cwd_patterns = cwd_patterns_of [] rules;
  bound_space_ids = λ x. any (binds x) rules;
}

-- `ReloadCache`
unfoldable pub reload_cache : Handler Unit
reload_cache = do
  watched ← select (λ db. db.watched)
  rules ← select list_rules_for_cache
  paused ← select list_paused_project_ids
  on_cache (store_preserving_runtime (snapshot_of watched rules paused))

-- `WatchAdd`
unfoldable pub watch_add : Str → Str → Handler Unit
watch_add kind name =
    if not (str_eq kind bundle) && not (str_eq kind binary)
    then raise RpcError.bad_kind
    else (do statement (add_watched_program kind name); reload_cache)

-- `WatchRemove`
unfoldable pub watch_remove : Str → Str → Handler Unit
watch_remove kind name = do statement (remove_watched_program kind name); reload_cache

-- The id of the company of the name, or NULL for no name.
unfoldable pub company_id_of : Str → Handler (Option ℕ)
company_id_of name =
    if is_nil name
    then pure none
    else (do row ← select (get_company_by_name name); c ← found row; pure (some c.id))

-- `ProjectAdd`
unfoldable pub project_add : Str → Str → ℕ → Handler ℕ
project_add name company now = do
  c ← company_id_of company
  i ← statement (add_project name c now)
  on_cache (arm_project i)
  pure i

-- `ProjectDelete`
unfoldable pub project_delete : Str → Handler Unit
project_delete name = do statement (delete_project_by_name name); reload_cache

-- `ProjectPause`
unfoldable pub project_pause : Str → Handler Unit
project_pause name = do statement (set_project_paused true name); reload_cache

-- `ProjectResume`
unfoldable pub project_resume : Str → Handler Unit
project_resume name = do statement (set_project_paused false name); reload_cache

-- `ProjectPauseAll`; the reply is the count.
unfoldable pub project_pause_all : Handler ℕ
project_pause_all = do n ← statement (set_all_paused true); reload_cache; pure n

-- `ProjectResumeAll`
unfoldable pub project_resume_all : Handler ℕ
project_resume_all = do
  n ← statement (set_all_paused false)
  reload_cache
  ids ← select (λ db. map (λ p. p.id) db.projects)
  on_cache (arm_all_projects ids)
  pure n

-- `ProjectSetCompany`
unfoldable pub project_set_company : Str → Str → Handler Unit
project_set_company name company = do
  c ← company_id_of company
  statement (set_project_company c name)

-- `nullStr`
abbrev pub null_str : Str → Option Str
null_str v = if is_nil v then none else some v

-- The rule of a request, an empty text for no clause.
pub record RuleArgs : Type 0 where
  pub priority : ℤ
  pub match_bundle_id : Str
  pub match_title_substr : Str
  pub match_binary_name : Str
  pub match_cwd_prefix : Str
  pub match_space_id : Str

abbrev pub row_of : ℕ → Option Str → RuleArgs → AddRuleParams
row_of project space a = record {
  project_id = project;
  priority = a.priority;
  match_bundle_id = null_str a.match_bundle_id;
  match_title_substr = null_str a.match_title_substr;
  match_binary_name = null_str a.match_binary_name;
  match_cwd_prefix = null_str a.match_cwd_prefix;
  match_space_id = space;
}

-- The parameters of the sweep. The space is that of the observation.
abbrev pub sweep_of : ℕ → Observation → RuleArgs → RetagParams
sweep_of project obs a = record {
  project_id = project;
  bundle_id = null_str a.match_bundle_id;
  window_title = null_str a.match_title_substr;
  binary_name = null_str a.match_binary_name;
  space_id = null_str obs.space_id;
  cwd = null_str a.match_cwd_prefix;
}

unfoldable pub check_pattern : Str → Handler Unit
check_pattern p =
    if is_nil p
    then pure tt
    else elim (validate_cwd_pattern p) [ none ↦ pure tt | some e ↦ raise (RpcError.bad_pattern e) ]

-- `RuleAdd`
unfoldable pub rule_add : Str → RuleArgs → Handler ℕ
rule_add project a = do
  check_pattern a.match_cwd_prefix
  row ← select (get_project_by_name project)
  p ← found row
  i ← statement (add_rule (row_of p.id (null_str a.match_space_id) a))
  reload_cache
  pure i

-- `RuleDelete`
unfoldable pub rule_delete : ℕ → Handler Unit
rule_delete i = do statement (delete_rule i); reload_cache

-- `IgnoreSignature`
unfoldable pub ignore_signature : ℕ → Handler Unit
ignore_signature o = statement (ignore_observation o)

-- `CompanyAdd`
unfoldable pub company_add : Str → ℕ → Handler ℕ
company_add name now = statement (add_company name now)

unfoldable pub refuse_invoices : Str → Handler Unit
refuse_invoices name = do
  row ← select (get_company_by_name name)
  c ← found row
  n ← select (count_invoices_by_company_id c.id)
  if ltb 0 n then raise RpcError.has_invoices else pure tt

-- `CompanyDelete`
unfoldable pub company_delete : Str → Bool → Handler Unit
company_delete name force = do
  if force then pure tt else refuse_invoices name
  statement (delete_company_by_name name)

-- `SetCompanyBilling`
unfoldable pub set_billing : Str → BillingParams → Handler Unit
set_billing name a = statement (set_company_billing name a)

-- `InvoiceSend`: no time is now.
unfoldable pub invoice_send : Str → ℕ → Str → ℕ → Handler ℕ
invoice_send company sent_at note now = do
  row ← select (get_company_by_name company)
  c ← found row
  statement (add_invoice c.id (if sent_at == 0 then now else sent_at) note now)

unfoldable pub carries_credit : Invoice → Bool
carries_credit r = is_advance r.kind || ltb_ℤ (pos 0) r.credit_applied_cents

unfoldable pub refuse_credit : ℕ → Handler Unit
refuse_credit i = do
  row ← select (get_invoice_by_id i)
  r ← found row
  if carries_credit r then raise RpcError.has_credit else pure tt

-- `InvoiceDelete`
unfoldable pub invoice_delete : ℕ → Bool → Handler Unit
invoice_delete i force = do if force then pure tt else refuse_credit i; statement (delete_invoice i)

unfoldable pub create_project : Str → ℕ → Handler ℕ
create_project name now = do
  i ← statement (add_project name none now)
  on_cache (arm_project i)
  pure i

abbrev pub or_create : Bool → Str → ℕ → Reply ℕ → Handler ℕ
or_create create name now (ok p) = pure p
or_create true name now (err e) = create_project name now
or_create false name now (err e) = raise e

unfoldable pub project_id_of : Str → Handler ℕ
project_id_of name = do row ← select (get_project_by_name name); p ← found row; pure p.id

-- The project of the name. A lookup that fails, for whatever reason, goes on to create one when asked.
unfoldable pub project_for : Str → Bool → ℕ → Handler ℕ
unfolding create_project project_id_of
project_for name create now = do r ← attempt (project_id_of name); or_create create name now r

module _ (sql : Sqlite) where
  -- The two statements of the transaction: the new rule, and the count of the ticks that it takes.
  unfoldable pub add_and_sweep : ℕ → Observation → RuleArgs → Handler (ℕ × ℕ)
  add_and_sweep p obs a = do
    i ← statement (add_rule (row_of p none a))
    n ← statement (apply_rule_retroactively_counted sql (sweep_of p obs a))
    pure (i, n)

  unfoldable pub tag_with : Option RuleArgs → ℕ → ℕ → Handler (Option (ℕ × ℕ))
  tag_with none p o = do statement (retag_single_observation p o); pure none
  tag_with (some a) p o = do
    row ← select (get_observation o)
    obs ← found row
    done ← transaction (add_and_sweep p obs a)
    reload_cache
    pure (some done)

  -- `TagSignature`: the reply is the rule and the count, when there is a rule.
  unfoldable pub tag_signature : ℕ → Str → Bool → Option RuleArgs → ℕ → Handler (Option (ℕ × ℕ))
  tag_signature o name create rule now = do p ← project_for name create now; tag_with rule p o
