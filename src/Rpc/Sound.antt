-- ===== src/Rpc/Sound.antt =====
-- The references between the tables, over the calls of the service.
use antitimely.Prelude.{ℕ, ◌==◌, Bool, true, false, Option, none, some, List, [], ◌∷◌}
use antitimely.Prelude.Text.{Str}
use antitimely.Daemon.Cache.{Cache}
use antitimely.Domain.Cwd.{PatternError, validate_cwd_pattern}
use antitimely.Retro.{Sqlite, RetagParams, selected}
use antitimely.Store.Admin.{Statement, retag_single_observation, apply_rule_retroactively_counted}
use antitimely.Store.Admin.Sound.{
  IsSound, KeepsSound, add_watched_program-IsSound, remove_watched_program-IsSound,
  add_project-IsSound, delete_project_by_name-IsSound, set_project_paused-IsSound,
  set_all_paused-IsSound, set_project_company-IsSound, add_rule-IsSound, delete_rule-IsSound,
  assign-IsSound, ignore_observation-IsSound,
}
use antitimely.Store.Admin.Sound.Billing.{
  add_company-IsSound, delete_company_by_name-IsSound, set_company_billing-IsSound,
  add_invoice-IsSound, delete_invoice-IsSound,
}
use antitimely.Rpc.Exec.{
  RpcError, Reply, err, ok, Service, Handler, statement, on_cache, pure, raise,
}
use antitimely.Rpc.Exec.Stable.{
  Stable, OnDb, Stable-statement, Stable-on_cache, Stable-transaction, Stable-if, Stable-pure,
  Stable-raise, Stable-bind, Stable-attempt, stable_rules,
}
use antitimely.Rpc.{
  RuleArgs, reload_cache, company_id_of, check_pattern, refuse_invoices, refuse_credit, project_for,
  project_id_of, create_project, or_create, tag_with, add_and_sweep, watch_add, watch_remove,
  project_add, project_delete, project_pause, project_resume, project_pause_all, project_resume_all,
  project_set_company, rule_add, rule_delete, ignore_signature, company_add, company_delete,
  set_billing, invoice_send, invoice_delete, tag_signature,
}
use antitimely.Rpc.Requests.{Request, tag, handle, serve, done}

abbrev Safe : {A : Type 0} → Handler A → Type 0
Safe m = Stable (OnDb IsSound) m

Safe-statement : {A : Type 0} (q : Statement A) → KeepsSound q → Safe (statement q)
Safe-statement q k = Stable-statement q (λ db c x e h. (k db h).at x e)

Safe-on_cache : (f : Cache → Cache) → Safe (on_cache f)
Safe-on_cache f = Stable-on_cache f (λ db c h. h)

retag-IsSound : (p o : ℕ) → KeepsSound (retag_single_observation p o)
unfolding retag_single_observation
retag-IsSound p o = assign-IsSound (λ i. i == o) p

sweep-IsSound :
    (sql : Sqlite) (q : RetagParams) → KeepsSound (apply_rule_retroactively_counted sql q)
unfolding apply_rule_retroactively_counted
sweep-IsSound sql q db = assign-IsSound (selected sql q db.observations) q.project_id db

ruleset safe_rules = (
  stable_rules, Stable-transaction, Safe-statement, Safe-on_cache, add_watched_program-IsSound,
  remove_watched_program-IsSound, add_project-IsSound, delete_project_by_name-IsSound,
  set_project_paused-IsSound, set_all_paused-IsSound, set_project_company-IsSound, add_rule-IsSound,
  delete_rule-IsSound, retag-IsSound, sweep-IsSound, ignore_observation-IsSound,
  add_company-IsSound, delete_company_by_name-IsSound, set_company_billing-IsSound,
  add_invoice-IsSound, delete_invoice-IsSound,
)

reload_cache-Safe : Safe reload_cache
unfolding reload_cache
reload_cache-Safe = search safe_rules

company_id_of-Safe : (name : Str) → Safe (company_id_of name)
unfolding company_id_of
company_id_of-Safe name = search safe_rules

check_pattern-Safe : (p : Str) → Safe (check_pattern p)
unfolding check_pattern
check_pattern-Safe p = Stable-if _ _ _ (Stable-pure tt) (go (validate_cwd_pattern p))
  where
    go :
        (o : Option PatternError)
        → Safe (elim o [ none ↦ pure tt | some e ↦ raise (RpcError.bad_pattern e) ])
    go none = Stable-pure tt
    go (some e) = Stable-raise _

refuse_invoices-Safe : (name : Str) → Safe (refuse_invoices name)
unfolding refuse_invoices
refuse_invoices-Safe name = search safe_rules

refuse_credit-Safe : (i : ℕ) → Safe (refuse_credit i)
unfolding refuse_credit
refuse_credit-Safe i = search safe_rules

project_id_of-Safe : (name : Str) → Safe (project_id_of name)
unfolding project_id_of
project_id_of-Safe name = search safe_rules

create_project-Safe : (name : Str) (now : ℕ) → Safe (create_project name now)
unfolding create_project
create_project-Safe name now = search safe_rules

or_create-Safe :
    (create : Bool) (name : Str) (now : ℕ) (r : Reply ℕ) → Safe (or_create create name now r)
or_create-Safe create name now (ok p) = Stable-pure p
or_create-Safe true name now (err e) = create_project-Safe name now
or_create-Safe false name now (err e) = Stable-raise e

project_for-Safe : (name : Str) (create : Bool) (now : ℕ) → Safe (project_for name create now)
unfolding project_for
project_for-Safe name create now =
    Stable-bind _ _ (Stable-attempt _ (project_id_of-Safe name)) (or_create-Safe create name now)

ruleset parts = (
  safe_rules, reload_cache-Safe, company_id_of-Safe, check_pattern-Safe, refuse_invoices-Safe,
  refuse_credit-Safe, project_for-Safe,
)

module _ (sql : Sqlite) where
  tag_with-Safe : (rule : Option RuleArgs) (p o : ℕ) → Safe (tag_with sql rule p o)
  unfolding tag_with add_and_sweep
  tag_with-Safe none p o = search safe_rules
  tag_with-Safe (some a) p o = search parts depth 12

  tag_signature-Safe :
      (o : ℕ) (name : Str) (create : Bool) (rule : Option RuleArgs) (now : ℕ)
      → Safe (tag_signature sql o name create rule now)
  unfolding tag_signature
  tag_signature-Safe o name create rule now =
      Stable-bind _ _ (project_for-Safe name create now) (λ p. tag_with-Safe rule p o)

  handle-Safe : (r : Request) → Safe (handle sql r)
  unfolding handle done watch_add watch_remove project_add project_delete project_pause
      project_resume project_pause_all project_resume_all project_set_company rule_add rule_delete
      ignore_signature company_add company_delete set_billing invoice_send invoice_delete
  handle-Safe (tag o name create rule now) =
      Stable-bind _ _ (tag_signature-Safe o name create rule now) (λ a. Stable-pure tt)
  handle-Safe _ = search parts depth 12

  -- From a database whose references are sound, whatever the calls, whichever of them are refused and
  -- whichever statements fail, each rule and each assigned tick has its project, and each project and
  -- each invoice its company.
  pub serve-IsSound : (rs : List Request) (s : Service) → IsSound s.db → IsSound (serve sql rs s).db
  unfolding serve
  serve-IsSound [] s h = h
  serve-IsSound (r ∷ rs) s h = serve-IsSound rs (handle sql r s).1 ((handle-Safe r).at s h)
