-- ===== src/Store/Admin/Sound.antt =====
-- References between the tables of schema.sql: each row that is named is there.
pub mod Billing
use antitimely.Prelude.{
  arith, subst, ◌⊎◌, inl, inr, ℕ, ◌≡◌, refl, ap, ◌∙◌, sym, Bool, true, false, not, ◌&&◌, ◌||◌,
  Option, none, some, List, [], ◌∷◌, map, ◌==◌, if◌then◌else◌, any, find, keep, length, All,
  All-mono, All-keep, All-map, All-both, any-keep, any-map, any-All, keep-none, Bool-cases, ==_iff,
  Option-cases,
}
use antitimely.Prelude.Text.{Str, str_eq}
use antitimely.Domain.Signal.{RuleSpec}
use antitimely.Store.Tables.{Observation, Tick}
use antitimely.Invoice.Ledger.{Invoice}
use antitimely.Invoice.LineItem.{BillingMode}
use antitimely.Invoice.Service.{Company}
use antitimely.Retro.{Sqlite, RetagParams, selected}
use antitimely.Store.Admin.After.{After, After-some, After-allow}
use antitimely.Store.Admin.{
  bill_named, move_to, wanted, take_tick, Database, WatchedProgram, Project, gives_column,
  Statement, AddRuleParams, BillingParams, has_project, has_company, has_observation, assigned_to,
  allow, waits, leaves, leave, set_paused, add_watched_program, remove_watched_program, add_project,
  delete_project_by_name, get_project_by_name, get_company_by_name, set_project_paused,
  set_all_paused, set_project_company, add_rule, delete_rule, assign, retag_single_observation,
  apply_rule_retroactively_counted, ignore_observation, add_company, delete_company_by_name,
  set_company_billing, add_invoice, delete_invoice,
}

-- The project of a tick; a tick that waits names none.
abbrev pub tick_at_home : Database → Tick → Bool
tick_at_home db t = elim t.project_id [ none ↦ true | some p ↦ has_project db p ]

-- The foreign keys of the schema.
pub record IsSound (db : Database) : Type 0 where
  pub projects : All (λ p. has_company db p.company_id ≡ true) db.projects
  pub rules : All (λ r. has_project db r.project_id ≡ true) db.rules
  pub ticks : All (λ t. tick_at_home db t ≡ true) db.ticks
  pub ignored : All (λ o. has_observation db o ≡ true) db.ignored
  pub invoices : All (λ r. has_company db (some r.company_id) ≡ true) db.invoices

-- A statement keeps the references.
abbrev pub KeepsSound : {A : Type 0} → Statement A → Type 0
KeepsSound q = (db : Database) → IsSound db → After IsSound (q db)

-- The watched programs are in no reference.
watched-IsSound :
    (db : Database) (ws : List WatchedProgram) → IsSound db → IsSound (record db { watched = ws })
watched-IsSound db ws h = record {
  projects = h.projects;
  rules = h.rules;
  ticks = h.ticks;
  ignored = h.ignored;
  invoices = h.invoices;
}

pub remove_watched_program-IsSound :
    (kind name : Str) → KeepsSound (remove_watched_program kind name)
unfolding remove_watched_program
remove_watched_program-IsSound kind name db h = After-some _ (watched-IsSound db _ h)

pub add_watched_program-IsSound : (kind name : Str) → KeepsSound (add_watched_program kind name)
unfolding add_watched_program
add_watched_program-IsSound kind name db h = After-allow _ _ (λ t. watched-IsSound db _ h)

-- A project that is there stays when projects are added.
pub at_home-more :
    (db db' : Database)
    → ((p : ℕ) → has_project db p ≡ true → has_project db' p ≡ true)
    → (t : Tick) → tick_at_home db t ≡ true
    → tick_at_home db' t ≡ true
at_home-more db db' more t h = go t.project_id h
  where
    go :
        (o : Option ℕ)
        → (elim o [ none ↦ true | some p ↦ has_project db p ]) ≡ true
        → (elim o [ none ↦ true | some p ↦ has_project db' p ]) ≡ true
    go none h = refl
    go (some p) h = more p h

-- The references to the projects, after a change of the projects that loses none.
moved_projects :
    (db : Database) (ps : List Project)
    → IsSound db
    → All (λ p. has_company db p.company_id ≡ true) ps
    → ((p : ℕ) → has_project db p ≡ true → any (λ q. q.id == p) ps ≡ true)
    → IsSound (record db { projects = ps })
moved_projects db ps h companies more = record {
  projects = companies;
  rules = All-mono _ _ db.rules (λ r. more r.project_id) h.rules;
  ticks = All-mono _ _ db.ticks (at_home-more db (record db { projects = ps }) more) h.ticks;
  ignored = h.ignored;
  invoices = h.invoices;
}

pub or_here : (a b : Bool) → b ≡ true → (a || b) ≡ true
or_here a b h = ground arith

second : (a b : Bool) → (a && b) ≡ true → b ≡ true
second a b h = ground arith

pub add_project-IsSound :
    (name : Str) (company : Option ℕ) (now : ℕ) → KeepsSound (add_project name company now)
unfolding add_project
add_project-IsSound name company now db h =
    After-allow _ _ λ t. moved_projects db _ h (second _ _ t, h.projects) (λ p e. or_here _ _ e)

-- A change of each project that keeps its id and names a company that is there.
changed_projects :
    (db : Database) (g : Project → Project)
    → IsSound db
    → ((p : Project) → (g p).id ≡ p.id)
    → ((p : Project) → has_company db p.company_id ≡ true → has_company db (g p).company_id ≡ true)
    → IsSound (record db { projects = map g db.projects })
changed_projects db g h same company =
    moved_projects db _ h (All-map _ _ g db.projects company h.projects)
      λ p e. any-map (λ q. q.id == p) g db.projects (λ q. ap (λ i. i == p) (same q)) ∙ e

pub set_project_paused-IsSound : (b : Bool) (name : Str) → KeepsSound (set_project_paused b name)
unfolding set_project_paused
set_project_paused-IsSound b name db h = After-some _ (
    changed_projects db _ h (λ p. ground arith)
      (λ p e. elim (Bool-cases (str_eq p.name name)) [ inl t ↦ rw t e | inr t ↦ rw t e ]))

pub set_all_paused-IsSound : (b : Bool) → KeepsSound (set_all_paused b)
unfolding set_all_paused
set_all_paused-IsSound b db h =
    After-some _ (changed_projects db (set_paused b) h (λ p. refl) (λ p e. e))

or-cases : (a b : Bool) → (a || b) ≡ true → (a ≡ true) ⊎ (b ≡ true)
or-cases true b h = inl refl
or-cases false b h = inr h

unnot : (a : Bool) → not a ≡ true → a ≡ false
unnot a h = ground arith

-- The company is there, unless no project has the name.
pub set_project_company-IsSound :
    (company : Option ℕ) (name : Str) → KeepsSound (set_project_company company name)
unfolding set_project_company
set_project_company-IsSound company name db h = After-allow _ _ λ t. elim (or-cases _ _ t) [
  | inl e ↦
      changed_projects db (move_to company name) h (λ p. ground arith) (λ p k. moved company e p k)
  | inr e ↦
      moved_projects db _ h
        (All-map _ _ (move_to company name) db.projects (λ p k. other company p k.0 k.1)
          (All-both _ _ db.projects (any-All (λ p. str_eq p.name name) db.projects (unnot _ e))
            h.projects))
        (λ p k.
          any-map (λ q. q.id == p) (move_to company name) db.projects (λ q. same_place q p) ∙ k)
]
  where
    same_place : (q : Project) (p : ℕ) → ((move_to company name q).id == p) ≡ (q.id == p)
    same_place q p = ap (λ i. i == p) (kept q)
      where
        kept : (q : Project) → (move_to company name q).id ≡ q.id
        kept q = ground arith

    moved :
        (o : Option ℕ)
        → has_company db o ≡ true
        → (p : Project) → has_company db p.company_id ≡ true
        → has_company db (move_to o name p).company_id ≡ true
    moved o e p k = elim (Bool-cases (str_eq p.name name)) [ inl t ↦ rw t e | inr t ↦ rw t k ]

    other :
        (o : Option ℕ) (p : Project)
        → str_eq p.name name ≡ false
        → has_company db p.company_id ≡ true
        → has_company db (move_to o name p).company_id ≡ true
    other o p t k = rw t k

pub negated : (a : Bool) → a ≡ false → not a ≡ true
negated a h = ground arith

pub distinct_ids : (a b c : ℕ) → not (b == c) ≡ true → (a == b) ≡ true → not (a == c) ≡ true
distinct_ids a b c h k = ground arith

-- A project without ticks goes, with its rules.
drop_project :
    (db : Database) (i : ℕ)
    → any (assigned_to i) db.ticks ≡ false
    → IsSound db
    → IsSound (record db {
      projects = keep (λ q. not (q.id == i)) db.projects;
      rules = keep (λ r. not (r.project_id == i)) db.rules;
    })
drop_project db i free h = record {
  projects = All-keep _ _ (λ q. not (q.id == i)) db.projects (λ p t e. e) h.projects;
  rules =
      All-keep _ _ (λ r. not (r.project_id == i)) db.rules (λ r t e. still r.project_id t e)
        h.rules;
  ticks =
      All-mono _ _ db.ticks (λ t e. at_home t.project_id e.0 e.1)
        (All-both _ _ db.ticks (any-All (assigned_to i) db.ticks free) h.ticks);
  ignored = h.ignored;
  invoices = h.invoices;
}
  where
    still :
        (p : ℕ)
        → not (p == i) ≡ true
        → has_project db p ≡ true
        → any (λ q. q.id == p) (keep (λ q. not (q.id == i)) db.projects) ≡ true
    still p t e =
        any-keep (λ q. q.id == p) (λ q. not (q.id == i)) db.projects
          (λ q k. distinct_ids q.id p i t k)
        ∙ e

    at_home :
        (o : Option ℕ)
        → (elim o [ none ↦ false | some q ↦ q == i ]) ≡ false
        → (elim o [ none ↦ true | some p ↦ has_project db p ]) ≡ true
        → (elim o [
          | none ↦ true
          | some p ↦ any (λ q. q.id == p) (keep (λ q. not (q.id == i)) db.projects)
        ])
          ≡ true
    at_home none h e = refl
    at_home (some p) h e = still p (negated (p == i) h) e

pub delete_project_by_name-IsSound : (name : Str) → KeepsSound (delete_project_by_name name)
unfolding delete_project_by_name
delete_project_by_name-IsSound name db h = elim (Option-cases (get_project_by_name name db)) [
  | inl e ↦ rw (e, delete_project_by_name) (After-some _ h)
  | inr (p, e) ↦
      rw (e, delete_project_by_name) (After-allow _ _ λ t. drop_project db p.id (unnot _ t) h)
]

rules-IsSound :
    (db : Database) (rs : List RuleSpec)
    → IsSound db
    → All (λ r. has_project db r.project_id ≡ true) rs
    → IsSound (record db { rules = rs })
rules-IsSound db rs h all = record {
  projects = h.projects;
  rules = all;
  ticks = h.ticks;
  ignored = h.ignored;
  invoices = h.invoices;
}

pub add_rule-IsSound : (a : AddRuleParams) → KeepsSound (add_rule a)
unfolding add_rule
add_rule-IsSound a db h = After-allow _ _ λ t. rules-IsSound db _ h (second _ _ t, h.rules)

pub delete_rule-IsSound : (i : ℕ) → KeepsSound (delete_rule i)
unfolding delete_rule
delete_rule-IsSound i db h =
    After-some _ (rules-IsSound db _ h (All-keep _ _ _ db.rules (λ r t e. e) h.rules))

-- The ticks that the statement takes go to a project that is there, unless it takes none.
pub assign-IsSound : (hit : ℕ → Bool) (p : ℕ) → KeepsSound (assign hit p)
unfolding assign
assign-IsSound hit p db h = After-allow _ _ λ t. record {
  projects = h.projects;
  rules = h.rules;
  ticks = elim (or-cases _ _ t) [
    | inl e ↦ All-map _ _ (take_tick hit p) db.ticks (λ x k. taken e x k) h.ticks
    | inr e ↦
        All-map _ _ (take_tick hit p) db.ticks (λ x k. left x k.0 k.1)
          (All-both _ _ db.ticks (keep-none (wanted hit) db.ticks ((==_iff _ _).0 e)) h.ticks)
  ];
  ignored = h.ignored;
  invoices = h.invoices;
}
  where
    taken :
        has_project db p ≡ true
        → (x : Tick) → tick_at_home db x ≡ true
        → tick_at_home db (take_tick hit p x) ≡ true
    taken e x k = elim (Bool-cases (wanted hit x)) [ inl t ↦ rw t e | inr t ↦ rw t k ]

    left :
        (x : Tick)
        → wanted hit x ≡ false
        → tick_at_home db x ≡ true
        → tick_at_home db (take_tick hit p x) ≡ true
    left x t k = rw t k

pub ignore_observation-IsSound : (o : ℕ) → KeepsSound (ignore_observation o)
unfolding ignore_observation
ignore_observation-IsSound o db h = elim (Bool-cases (any (λ i. i == o) db.ignored)) [
  | inl t ↦ rw t (After-some _ h)
  | inr t ↦ rw t (
      After-allow _ _ λ e. record {
        projects = h.projects;
        rules = h.rules;
        ticks = h.ticks;
        ignored = (e, h.ignored);
        invoices = h.invoices;
      })
]
