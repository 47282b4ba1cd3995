-- ===== src/Rpc/Sync/Quiet.antt =====
-- The statements and the mutations that no snapshot shows.
use antitimely.Prelude.{
  arith, inl, inr, ℕ, ◌≡◌, refl, sym, ap, ◌∙◌, Bool, Option, List, [], ◌∷◌, map, ◌==◌, any, any-map,
  Bool-cases, Option-cases,
}
use antitimely.Prelude.Text.{Str}
use antitimely.Daemon.Cache.{Cache, arm_project, arm_all_projects, clear_suppressed}
use antitimely.Domain.Rules.{sort_rules}
use antitimely.Store.Admin.{
  Database, Project, Statement, BillingParams, move_to, leave, add_project, set_project_company,
  assign, retag_single_observation, ignore_observation, add_company, delete_company_by_name,
  get_company_by_name, set_company_billing, add_invoice, delete_invoice,
}
use antitimely.Store.Admin.After.{After, After-some, After-allow}
use antitimely.Rpc.Exec.{statement, on_cache}
use antitimely.Rpc.Exec.Stable.{Stable, Stable-statement, Stable-on_cache}
use antitimely.Rpc.Sync.{IsSynced, is_paused}

-- What a snapshot shows of the tables is unchanged.
pub record Unmoved (db db' : Database) : Type 0 where
  pub watched : db'.watched ≡ db.watched
  pub rules : db'.rules ≡ db.rules
  pub paused : (p : ℕ) → any (is_paused p) db'.projects ≡ any (is_paused p) db.projects

abbrev Quiet : {A : Type 0} → Statement A → Type 0
Quiet q = (db : Database) → After (Unmoved db) (q db)

Unmoved-IsSynced : (db db' : Database) (c : Cache) → Unmoved db db' → IsSynced db c → IsSynced db' c
Unmoved-IsSynced db db' c u h = record {
  bundles = λ x. rw u.watched (h.bundles x);
  binaries = λ x. rw u.watched (h.binaries x);
  rules = h.rules ∙ ap sort_rules (sym u.rules);
  paused = λ p. h.paused p ∙ sym (u.paused p);
  patterns = λ x. rw u.rules (h.patterns x);
  spaces = λ x. rw u.rules (h.spaces x);
}

pub Quiet-statement : {A : Type 0} (q : Statement A) → Quiet q → Stable IsSynced (statement q)
Quiet-statement q k = Stable-statement q (λ db c x e h. Unmoved-IsSynced db x.1 c ((k db).at x e) h)

still :
    (db db' : Database)
    → db'.watched ≡ db.watched
    → db'.rules ≡ db.rules
    → db'.projects ≡ db.projects
    → Unmoved db db'
still db db' w r p = record {
  watched = w;
  rules = r;
  paused = λ i. ap (λ ps. any (is_paused i) ps) p;
}

pub add_project-Quiet :
    (name : Str) (company : Option ℕ) (now : ℕ) → Quiet (add_project name company now)
unfolding add_project
add_project-Quiet name company now db =
    After-allow _ _ λ t. record { watched = refl; rules = refl; paused = λ p. refl }

-- A change of each project that keeps its id and the flag.
changed :
    (db : Database) (g : Project → Project)
    → ((q : Project) → ((g q).paused ≡ q.paused) × ((g q).id ≡ q.id))
    → (p : ℕ) → any (is_paused p) (map g db.projects) ≡ any (is_paused p) db.projects
changed db g k p = any-map (is_paused p) g db.projects λ q. same q (g q) (k q).0 (k q).1
  where
    same : (q r : Project) → r.paused ≡ q.paused → r.id ≡ q.id → is_paused p r ≡ is_paused p q
    same q r e f = rw (e, f) refl

pub set_project_company-Quiet :
    (company : Option ℕ) (name : Str) → Quiet (set_project_company company name)
unfolding set_project_company
set_project_company-Quiet company name db = After-allow _ _ λ t. record {
  watched = refl;
  rules = refl;
  paused = changed db (move_to company name) λ q. (ground arith, ground arith);
}

pub assign-Quiet : (hit : ℕ → Bool) (p : ℕ) → Quiet (assign hit p)
unfolding assign
assign-Quiet hit p db = After-allow _ _ λ t. still db _ refl refl refl

pub retag-Quiet : (p o : ℕ) → Quiet (retag_single_observation p o)
unfolding retag_single_observation
retag-Quiet p o = assign-Quiet (λ i. i == o) p

pub ignore_observation-Quiet : (o : ℕ) → Quiet (ignore_observation o)
unfolding ignore_observation
ignore_observation-Quiet o db = elim (Bool-cases (any (λ i. i == o) db.ignored)) [
  | inl t ↦ rw t (After-some _ (still db db refl refl refl))
  | inr t ↦ rw t (After-allow _ _ λ e. still db _ refl refl refl)
]

pub add_company-Quiet : (name : Str) (now : ℕ) → Quiet (add_company name now)
unfolding add_company
add_company-Quiet name now db = After-allow _ _ λ e. still db _ refl refl refl

pub delete_company_by_name-Quiet : (name : Str) → Quiet (delete_company_by_name name)
unfolding delete_company_by_name
delete_company_by_name-Quiet name db = elim (Option-cases (get_company_by_name name db)) [
  | inl e ↦ rw (e, delete_company_by_name) (After-some _ (still db db refl refl refl))
  | inr (c, e) ↦
      rw (e, delete_company_by_name)
        (After-some _ (record {
          watched = refl;
          rules = refl;
          paused = changed db (leave c.id) λ q. (refl, refl);
        }))
]

pub set_company_billing-Quiet :
    (name : Str) (a : BillingParams) → Quiet (set_company_billing name a)
unfolding set_company_billing
set_company_billing-Quiet name a db = elim (Option-cases a.billing_mode) [
  | inl e ↦ rw e (After-allow _ _ λ t. still db db refl refl refl)
  | inr (m, e) ↦ rw e (After-some _ (still db _ refl refl refl))
]

pub add_invoice-Quiet :
    (company sent_at : ℕ) (note : Str) (now : ℕ) → Quiet (add_invoice company sent_at note now)
unfolding add_invoice
add_invoice-Quiet company sent_at note now db = After-allow _ _ λ t. still db _ refl refl refl

pub delete_invoice-Quiet : (i : ℕ) → Quiet (delete_invoice i)
unfolding delete_invoice
delete_invoice-Quiet i db = After-some _ (still db _ refl refl refl)

pub arm_project-Quiet : (i : ℕ) → Stable IsSynced (on_cache (arm_project i))
unfolding arm_project clear_suppressed
arm_project-Quiet i = Stable-on_cache (arm_project i) (λ db c h. armed db c h)
  where
    armed : (db : Database) (c : Cache) → IsSynced db c → IsSynced db (arm_project i c)
    armed db c h = elim (Bool-cases (c.snap.armed_projects i)) [
      | inl t ↦ rw t h
      | inr t ↦ rw t (record {
        bundles = h.bundles;
        binaries = h.binaries;
        rules = h.rules;
        paused = h.paused;
        patterns = h.patterns;
        spaces = h.spaces;
      })
    ]

pub arm_all_projects-Quiet : (is : List ℕ) → Stable IsSynced (on_cache (arm_all_projects is))
unfolding arm_all_projects
arm_all_projects-Quiet is = Stable-on_cache (arm_all_projects is) (λ db c h. armed is db c h)
  where
    armed :
        (is : List ℕ) (db : Database) (c : Cache)
        → IsSynced db c
        → IsSynced db (arm_all_projects is c)
    armed [] db c h = h
    armed (i ∷ is) db c h = record {
      bundles = h.bundles;
      binaries = h.binaries;
      rules = h.rules;
      paused = h.paused;
      patterns = h.patterns;
      spaces = h.spaces;
    }
