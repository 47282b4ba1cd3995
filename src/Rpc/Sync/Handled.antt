-- ===== src/Rpc/Sync/Handled.antt =====
-- Each call that returns leaves the polling loop with the snapshot of the tables.
use antitimely.Prelude.{ℕ, ◌≡◌, Bool, true, false, Option, none, some}
use antitimely.Prelude.Text.{Str}
use antitimely.Retro.{Sqlite}
use antitimely.Rpc.Exec.{Reply, err, ok, Service}
use antitimely.Rpc.Exec.Stable.{
  Stable, StableOk, Sets, is_ok, Stable-StableOk, Sets-StableOk, StableOk-bind, StableOk-bind_keeps,
  Sets-bind, Sets-bind_keeps, Sets-if, Sets-raise, Stable-pure, Stable-raise, Stable-bind,
  Stable-attempt, stable_rules,
}
use antitimely.Rpc.{
  RuleArgs, company_id_of, refuse_invoices, refuse_credit, project_for, project_id_of,
  create_project, or_create, tag_with, watch_add, watch_remove, project_add, project_delete,
  project_pause, project_resume, project_pause_all, project_resume_all, project_set_company,
  rule_add, rule_delete, ignore_signature, company_add, company_delete, set_billing, invoice_send,
  invoice_delete, tag_signature,
}
use antitimely.Rpc.Requests.{
  Request, watch, add_project, pause_all, resume_all, move_project, tag, ignore, add_rule,
  add_company, delete_company, set_billing_of, send_invoice, delete_invoice, handle, done,
}
use antitimely.Rpc.Sync.{IsSynced, reload_cache-IsSynced}
use antitimely.Rpc.Sync.Quiet.{
  Quiet-statement, add_project-Quiet, set_project_company-Quiet, retag-Quiet,
  ignore_observation-Quiet, add_company-Quiet, delete_company_by_name-Quiet,
  set_company_billing-Quiet, add_invoice-Quiet, delete_invoice-Quiet, arm_project-Quiet,
  arm_all_projects-Quiet,
}

ruleset quiet_rules = (
  stable_rules, Quiet-statement, add_project-Quiet, set_project_company-Quiet, retag-Quiet,
  ignore_observation-Quiet, add_company-Quiet, delete_company_by_name-Quiet,
  set_company_billing-Quiet, add_invoice-Quiet, delete_invoice-Quiet, arm_project-Quiet,
  arm_all_projects-Quiet,
)

ruleset sets_rules = (reload_cache-IsSynced, Sets-bind, Sets-bind_keeps, Sets-if, Sets-raise)

company_id_of-Quiet : (name : Str) → Stable IsSynced (company_id_of name)
unfolding company_id_of
company_id_of-Quiet name = search quiet_rules

refuse_invoices-Quiet : (name : Str) → Stable IsSynced (refuse_invoices name)
unfolding refuse_invoices
refuse_invoices-Quiet name = search quiet_rules

refuse_credit-Quiet : (i : ℕ) → Stable IsSynced (refuse_credit i)
unfolding refuse_credit
refuse_credit-Quiet i = search quiet_rules

project_id_of-Quiet : (name : Str) → Stable IsSynced (project_id_of name)
unfolding project_id_of
project_id_of-Quiet name = search quiet_rules

create_project-Quiet : (name : Str) (now : ℕ) → Stable IsSynced (create_project name now)
unfolding create_project
create_project-Quiet name now = search quiet_rules

or_create-Quiet :
    (create : Bool) (name : Str) (now : ℕ) (r : Reply ℕ)
    → Stable IsSynced (or_create create name now r)
or_create-Quiet create name now (ok p) = Stable-pure p
or_create-Quiet true name now (err e) = create_project-Quiet name now
or_create-Quiet false name now (err e) = Stable-raise e

project_for-Quiet :
    (name : Str) (create : Bool) (now : ℕ) → Stable IsSynced (project_for name create now)
unfolding project_for
project_for-Quiet name create now =
    Stable-bind _ _ (Stable-attempt _ (project_id_of-Quiet name)) (or_create-Quiet create name now)

ruleset quiet_parts = (quiet_rules, company_id_of-Quiet, refuse_invoices-Quiet, refuse_credit-Quiet)

project_add-Quiet : (name company : Str) (now : ℕ) → Stable IsSynced (project_add name company now)
unfolding project_add
project_add-Quiet name company now = search quiet_parts depth 12

invoice_send-Quiet :
    (company : Str) (sent_at : ℕ) (note : Str) (now : ℕ)
    → Stable IsSynced (invoice_send company sent_at note now)
unfolding invoice_send
invoice_send-Quiet company sent_at note now = search quiet_parts depth 12

watch_add-Sets : (kind name : Str) → Sets IsSynced (watch_add kind name)
unfolding watch_add
watch_add-Sets kind name = search sets_rules

pause_all-Sets : Sets IsSynced project_pause_all
unfolding project_pause_all
pause_all-Sets = search (quiet_rules, sets_rules) depth 12

resume_all-Sets : Sets IsSynced project_resume_all
unfolding project_resume_all
resume_all-Sets = search (quiet_rules, sets_rules) depth 12

rule_add-Sets : (project : Str) (a : RuleArgs) → Sets IsSynced (rule_add project a)
unfolding rule_add
rule_add-Sets project a = search (quiet_rules, sets_rules) depth 12

module _ (sql : Sqlite) where
  tag_with-StableOk : (rule : Option RuleArgs) (p o : ℕ) → StableOk IsSynced (tag_with sql rule p o)
  unfolding tag_with
  tag_with-StableOk none p o = Stable-StableOk _ (search quiet_rules)
  tag_with-StableOk (some a) p o = Sets-StableOk _ (search (quiet_rules, sets_rules) depth 12)

  tag_signature-StableOk :
      (o : ℕ) (name : Str) (create : Bool) (rule : Option RuleArgs) (now : ℕ)
      → StableOk IsSynced (tag_signature sql o name create rule now)
  unfolding tag_signature
  tag_signature-StableOk o name create rule now =
      StableOk-bind _ _ (project_for-Quiet name create now) (λ p. tag_with-StableOk rule p o)

  handle-StableOk : (r : Request) → StableOk IsSynced (handle sql r)
  unfolding handle done watch_remove project_delete project_pause project_resume project_set_company
      rule_delete ignore_signature company_add company_delete set_billing invoice_delete
  handle-StableOk (watch kind name) = Sets-StableOk _ (watch_add-Sets kind name)
  handle-StableOk (add_project name company now) =
      Stable-StableOk _ (Stable-bind _ _ (project_add-Quiet name company now) λ a. Stable-pure tt)
  handle-StableOk pause_all =
      Sets-StableOk _ (Sets-bind_keeps _ _ pause_all-Sets λ a. Stable-pure tt)
  handle-StableOk resume_all =
      Sets-StableOk _ (Sets-bind_keeps _ _ resume_all-Sets λ a. Stable-pure tt)
  handle-StableOk (move_project name company) = Stable-StableOk _ (search quiet_parts)
  handle-StableOk (tag o name create rule now) =
      StableOk-bind_keeps _ _ (tag_signature-StableOk o name create rule now) λ a. Stable-pure tt
  handle-StableOk (ignore o) = Stable-StableOk _ (search quiet_parts)
  handle-StableOk (add_rule project a) =
      Sets-StableOk _ (Sets-bind_keeps _ _ (rule_add-Sets project a) λ a. Stable-pure tt)
  handle-StableOk (add_company name now) = Stable-StableOk _ (search quiet_parts)
  handle-StableOk (delete_company name force) = Stable-StableOk _ (search quiet_parts)
  handle-StableOk (set_billing_of name a) = Stable-StableOk _ (search quiet_parts)
  handle-StableOk (send_invoice company sent_at note now) =
      Stable-StableOk _
        (Stable-bind _ _ (invoice_send-Quiet company sent_at note now) λ a. Stable-pure tt)
  handle-StableOk (delete_invoice i force) = Stable-StableOk _ (search quiet_parts)
  handle-StableOk _ = Sets-StableOk _ (search sets_rules)

  -- A call that returns without an error leaves the snapshot as the tables have it, if it was so
  -- before: the watched programs, the rules in their order, the paused projects, and the patterns and
  -- the workspaces that some rule asks for.
  pub handle-IsSynced :
      (r : Request) (s : Service)
      → IsSynced s.db s.cache
      → is_ok (handle sql r s).0 ≡ true
      → IsSynced (handle sql r s).1.db (handle sql r s).1.cache
  handle-IsSynced r s h e = (handle-StableOk r).at s h e
