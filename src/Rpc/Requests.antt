-- ===== src/Rpc/Requests.antt =====
-- internal/daemon/rpc.go: the calls of the service that change its state, and a run of them. net/rpc
-- may serve calls at once; here one call ends before the next begins.
use antitimely.Prelude.{ℕ, Bool, Option, List, [], ◌∷◌}
use antitimely.Prelude.Text.{Str}
use antitimely.Retro.{Sqlite}
use antitimely.Store.Admin.{BillingParams}
use antitimely.Rpc.Exec.{Service, Handler, pure, ◌>>◌}
use antitimely.Rpc.{
  RuleArgs, watch_add, watch_remove, project_add, project_delete, project_pause, project_resume,
  project_pause_all, project_resume_all, project_set_company, rule_add, rule_delete,
  ignore_signature, company_add, company_delete, set_billing, invoice_send, invoice_delete,
  tag_signature,
}

-- The arguments of each call, with the clock where the handler reads it.
pub data Request : Type 0 where
  watch unwatch : Str → Str → Request
  add_project : Str → Str → ℕ → Request
  delete_project pause_project resume_project : Str → Request
  pause_all resume_all : Request
  move_project : Str → Str → Request
  tag : ℕ → Str → Bool → Option RuleArgs → ℕ → Request
  ignore : ℕ → Request
  add_rule : Str → RuleArgs → Request
  delete_rule : ℕ → Request
  add_company : Str → ℕ → Request
  delete_company : Str → Bool → Request
  set_billing_of : Str → BillingParams → Request
  send_invoice : Str → ℕ → Str → ℕ → Request
  delete_invoice : ℕ → Bool → Request

-- The call without the rest of its reply.
unfoldable pub done : {A : Type 0} → Handler A → Handler Unit
done m = do m; pure tt

module _ (sql : Sqlite) where
  unfoldable pub handle : Request → Handler Unit
  handle (watch kind name) = watch_add kind name
  handle (unwatch kind name) = watch_remove kind name
  handle (add_project name company now) = done (project_add name company now)
  handle (delete_project name) = project_delete name
  handle (pause_project name) = project_pause name
  handle (resume_project name) = project_resume name
  handle pause_all = done project_pause_all
  handle resume_all = done project_resume_all
  handle (move_project name company) = project_set_company name company
  handle (tag o name create rule now) = done (tag_signature sql o name create rule now)
  handle (ignore o) = ignore_signature o
  handle (add_rule project a) = done (rule_add project a)
  handle (delete_rule i) = rule_delete i
  handle (add_company name now) = done (company_add name now)
  handle (delete_company name force) = company_delete name force
  handle (set_billing_of name a) = set_billing name a
  handle (send_invoice company sent_at note now) = done (invoice_send company sent_at note now)
  handle (delete_invoice i force) = invoice_delete i force

  unfoldable pub serve : List Request → Service → Service
  unfolding handle
  serve [] s = s
  serve (r ∷ rs) s = serve rs (handle r s).1
