-- ===== src/Rpc/Tagging.antt =====
-- What `TagSignature` with a rule changes.
pub mod Atomic
use antitimely.Prelude.{
  arith, inl, inr, ℕ, ◌≡◌, refl, sym, ap, subst, ◌∙◌, ◌⊎◌, Bool, true, false, not, ◌&&◌, ◌||◌,
  Option, none, some, List, [], ◌∷◌, map, ◌==◌, if◌then◌else◌, any, find, Bool-cases, Option-cases,
}
use antitimely.Prelude.Text.{Str, str_eq, str_eq_refl}
use antitimely.Domain.Signal.{RuleSpec}
use antitimely.Daemon.Cache.{arm_project}
use antitimely.Domain.Cwd.{is_nil}
use antitimely.Domain.Rules.{asks}
use antitimely.Retro.{Sqlite, RetagParams, retag_filter, selected, retag_tick}
use antitimely.Store.Tables.{Observation, Tick}
use antitimely.Store.Admin.{
  Database, Project, get_project_by_name, rule_row, get_observation, add_rule, add_project, assign,
  wanted, take_tick, waits, apply_rule_retroactively_counted, fresh_id, allow,
}
use antitimely.Store.Admin.After.{After, After-some, After-allow}
use antitimely.Rpc.Exec.{
  RpcError, Reply, err, ok, Service, Handler, proceed, pure, raise, found, statement, select,
  on_cache, attempt, transaction, ◌>>=◌,
}
use antitimely.Rpc.Exec.Stable.{
  Stable, OnDb, Holds, is_ok, stable_rules, Stable-statement, Stable-on_cache, Stable-bind,
  Stable-attempt, Stable-pure, Stable-raise, Stable-select, rest_keeps, rest_keeps_ok,
  transaction-ok, transaction-runs,
}
use antitimely.Rpc.Exec.Runs.{select-runs, found-runs, statement-runs}
use antitimely.Rpc.{
  RuleArgs, row_of, sweep_of, reload_cache, project_for, project_id_of, create_project, or_create,
  add_and_sweep, tag_with, tag_signature,
}

-- The rules, the ticks and the observations are those of `d`.
pub record SameWork (d db : Database) : Type 0 where
  pub rules : db.rules ≡ d.rules
  pub ticks : db.ticks ≡ d.ticks
  pub observations : db.observations ≡ d.observations

-- The project of the name has this id.
abbrev pub IsNamed : Str → ℕ → Database → Type 0
IsNamed name p db = (q : Project) × (get_project_by_name name db ≡ some q) × (q.id ≡ p)

module _ (sql : Sqlite) (o : ℕ) (name : Str) (a : RuleArgs) where
  -- There is one rule more, under a fresh id and for the project of the name, and the sweep of it has
  -- been over the ticks. The sweep is that of the tagged observation.
  pub record Swept (d db : Database) : Type 0 where
    pub project : ℕ
    pub named : IsNamed name project db
    pub obs : Observation
    pub tagged : get_observation o d ≡ some obs
    pub rules : db.rules ≡ rule_row (fresh_id (λ r. r.id) d.rules) (row_of project none a) ∷ d.rules
    pub ticks : db.ticks ≡ map (retag_tick sql (sweep_of project obs a) d.observations) d.ticks

  abbrev pub Outcome : Database → Database → Type 0
  Outcome d db = ((db.rules ≡ d.rules) × (db.ticks ≡ d.ticks)) ⊎ Swept d db

-- `assign` and the sweep move the same ticks.
taken-retagged :
    (sql : Sqlite) (q : RetagParams) (os : List Observation) (t : Tick)
    → take_tick (selected sql q os) q.project_id t ≡ retag_tick sql q os t
unfolding retag_tick
taken-retagged sql q os t = ground arith

map-ext : (f g : Tick → Tick) (ts : List Tick) → ((t : Tick) → f t ≡ g t) → map f ts ≡ map g ts
map-ext f g [] h = refl
map-ext f g (t ∷ ts) h = rw (h t, map-ext f g ts h) refl

swept-ticks :
    (sql : Sqlite) (q : RetagParams) (db : Database)
    → After
        (λ d.
          (d.projects ≡ db.projects)
          × (d.rules ≡ db.rules)
          × (d.ticks ≡ map (retag_tick sql q db.observations) db.ticks))
        (apply_rule_retroactively_counted sql q db)
unfolding apply_rule_retroactively_counted assign
swept-ticks sql q db =
    After-allow _ _ λ t. (refl, refl, map-ext _ _ db.ticks (taken-retagged sql q db.observations))

added-rule :
    (p : ℕ) (a : RuleArgs) (db : Database)
    → After
        (λ d.
          (d.rules ≡ rule_row (fresh_id (λ r. r.id) db.rules) (row_of p none a) ∷ db.rules)
          × (d.projects ≡ db.projects)
          × (d.ticks ≡ db.ticks)
          × (d.observations ≡ db.observations))
        (add_rule (row_of p none a) db)
unfolding add_rule
added-rule p a db = After-allow _ _ λ t. (refl, refl, refl, refl)

added-project :
    (name : Str) (now : ℕ) (d db : Database)
    → SameWork d db
    → After (SameWork d) (add_project name none now db)
unfolding add_project
added-project name now d db h =
    After-allow _ _ λ t. record { rules = h.rules; ticks = h.ticks; observations = h.observations }

module _ (d : Database) where
  abbrev Same : Database → Type 0
  Same db = SameWork d db

  looked : (name : Str) → Stable (OnDb Same) (project_id_of name)
  unfolding project_id_of
  looked name = search stable_rules

  created : (name : Str) (now : ℕ) → Stable (OnDb Same) (create_project name now)
  unfolding create_project
  created name now =
      Stable-bind _ _
        (Stable-statement (add_project name none now)
          (λ db c x e h. (added-project name now d db h).at x e))
        λ i. Stable-bind _ _ (Stable-on_cache _ (λ db c h. h)) λ u. Stable-pure i

  or_created :
      (create : Bool) (name : Str) (now : ℕ) (r : Reply ℕ)
      → Stable (OnDb Same) (or_create create name now r)
  or_created create name now (ok p) = Stable-pure p
  or_created true name now (err e) = created name now
  or_created false name now (err e) = Stable-raise e

  project_for-Same :
      (name : Str) (create : Bool) (now : ℕ) → Stable (OnDb Same) (project_for name create now)
  unfolding project_for
  project_for-Same name create now =
      Stable-bind _ _ (Stable-attempt _ (looked name)) (or_created create name now)

kept-IsNamed :
    (name : Str) (p : ℕ) (db db' : Database)
    → db'.projects ≡ db.projects
    → IsNamed name p db
    → IsNamed name p db'
unfolding get_project_by_name
kept-IsNamed name p db db' e (q, found, same) =
    (q, ap (λ ps. find (λ x. str_eq x.name name) ps) e ∙ found, same)

-- What a reply that is an id says: it is the id of the project of the name.
abbrev pub Names : Str → Reply ℕ × Service → Type 0
Names name x = (p : ℕ) → x.0 ≡ ok p → IsNamed name p x.1.db

looked-Names : (name : Str) (s : Service) → Names name (project_id_of name s)
unfolding project_id_of pure
looked-Names name s =
    select-runs (Names name) _ _ s (λ fs p e. absurd (cc e))
      λ fs. found-runs (Names name) _ _ _ (λ p e. absurd (cc e)) λ q found p e. (q, found, cc e)

added-IsNamed :
    (name : Str) (now : ℕ) (db : Database) (x : ℕ × Database)
    → add_project name none now db ≡ some x
    → IsNamed name x.0 x.1
unfolding add_project get_project_by_name allow
added-IsNamed name now db x e = elim (Bool-cases (any (λ p. str_eq p.name name) db.projects)) [
  | inl taken ↦ absurd (cc (rw taken at e))
  | inr free ↦
      let i = fresh_id (λ p. p.id) db.projects in
      let new : Project = record {
        id = i;
        name = name;
        company_id = none;
        paused = false;
        created_at = now;
      } in
      let same : (i, record db { projects = new ∷ db.projects }) ≡ x = cc (rw free at e) in
      subst (λ y. IsNamed name y.0 y.1) same (new, rw (str_eq_refl name) refl, refl)
]

created-Names : (name : Str) (now : ℕ) (s : Service) → Names name (create_project name now s)
unfolding create_project ◌>>=◌ pure on_cache
created-Names name now s =
    statement-runs (λ x. Names name (proceed x.0 arm x.1)) (add_project name none now) s
      (λ e fs p k. absurd (cc k))
      λ x fs e p k. subst (λ i. IsNamed name i x.1) (cc k) (added-IsNamed name now s.db x e)
  where
    arm : ℕ → Handler ℕ
    arm i t = (ok i, record t { cache = arm_project i t.cache })

or_created-Names :
    (create : Bool) (name : Str) (now : ℕ) (r : Reply ℕ) (s : Service)
    → Names name (r, s)
    → Names name (or_create create name now r s)
unfolding pure raise
or_created-Names create name now (ok p) s h = h
or_created-Names true name now (err e) s h = created-Names name now s
or_created-Names false name now (err e) s h = h

pub project_for-Names :
    (name : Str) (create : Bool) (now : ℕ) (s : Service)
    → Names name (project_for name create now s)
unfolding project_for ◌>>=◌ attempt
project_for-Names name create now s = or_created-Names create name now _ _ (looked-Names name s)

module _ (sql : Sqlite) (o : ℕ) (name : Str) (a : RuleArgs) (d : Database) where
  abbrev Ends : Database → Type 0
  Ends db = Outcome sql o name a d db

  same_obs :
      (db : Database) (obs : Observation)
      → SameWork d db
      → get_observation o db ≡ some obs
      → get_observation o d ≡ some obs
  unfolding get_observation
  same_obs db obs h e = subst (λ os. find (λ x. x.id == o) os ≡ some obs) h.observations e

  -- The body of the transaction, when it goes through.
  body-Swept :
      (p : ℕ) (obs : Observation) (t : Service)
      → SameWork d t.db
      → IsNamed name p t.db
      → get_observation o d ≡ some obs
      → is_ok (add_and_sweep sql p obs a t).0 ≡ true
      → Swept sql o name a d (add_and_sweep sql p obs a t).1.db
  unfolding add_and_sweep ◌>>=◌ pure
  body-Swept p obs t h named e =
      statement-runs (λ x. Q (proceed x.0 (λ i s. Sweep i s) x.1)) (add_rule (row_of p none a)) t
        (λ e fs k. absurd (ground arith))
        λ x fs e1.
          statement-runs (λ y. Q (proceed y.0 (λ n s. (ok (x.0, n), s)) y.1))
            (apply_rule_retroactively_counted sql (sweep_of p obs a)) _
            (λ e fs k. absurd (ground arith))
            λ y gs e2 k.
              let (rules, projects, ticks, obses) = (added-rule p a t.db).at x e1 in
              let (projects', rules', ticks') = (swept-ticks sql (sweep_of p obs a) x.1).at y e2 in
              record {
                project = p;
                named = kept-IsNamed name p t.db y.1 (projects' ∙ projects) named;
                obs = obs;
                tagged = e;
                rules =
                    rules'
                    ∙ rules
                    ∙ ap (λ rs. rule_row (fresh_id (λ r. r.id) rs) (row_of p none a) ∷ rs) h.rules;
                ticks = ticks' ∙ moved obses ticks h;
              }
    where
      moved :
          {os : List Observation} {ts : List Tick}
          → os ≡ t.db.observations
          → ts ≡ t.db.ticks
          → SameWork d t.db
          → map (retag_tick sql (sweep_of p obs a) os) ts
            ≡ map (retag_tick sql (sweep_of p obs a) d.observations) d.ticks
      moved e f h = rw (e ∙ h.observations, f ∙ h.ticks) refl

      Q : Reply (ℕ × ℕ) × Service → Type 0
      Q x = is_ok x.0 ≡ true → Swept sql o name a d x.1.db

      Sweep : ℕ → Handler (ℕ × ℕ)
      Sweep i =
          statement (apply_rule_retroactively_counted sql (sweep_of p obs a)) >>= λ n. pure (i, n)

  reported :
      {R : Database → Type 0} (x : ℕ × ℕ) → Stable (OnDb R) (reload_cache >>= λ u. pure (some x))
  unfolding reload_cache
  reported x =
      Stable-bind _ _
        (Stable-bind _ _ (Stable-select _) λ ws.
          Stable-bind _ _ (Stable-select _)
            λ rs. Stable-bind _ _ (Stable-select _) λ ps. Stable-on_cache _ (λ db c h. h))
        λ u. Stable-pure _

  tag_with-Ends :
      (p : ℕ) (t : Service)
      → SameWork d t.db
      → IsNamed name p t.db
      → Ends (tag_with sql (some a) p o t).1.db
  unfolding tag_with
  tag_with-Ends p t h named =
      select-runs R _ _ t (λ fs. idle t h)
        λ fs. found-runs R _ _ _ (idle t h) λ obs e.
          rest_keeps {P = OnDb Ends} _ _ _
            (transaction-runs Ends (add_and_sweep sql p obs a) (record t { faults = fs }) (idle t h)
              (λ gs k.
                inr
                  (body-Swept p obs (record t { faults = gs }) h named (same_obs t.db obs h e) k)))
            reported
    where
      R : Reply (Option (ℕ × ℕ)) × Service → Type 0
      R x = Ends x.1.db

      idle : (t : Service) → SameWork d t.db → Ends t.db
      idle t h = inl (h.rules, h.ticks)

  tag_with-Swept :
      (p : ℕ) (t : Service)
      → SameWork d t.db
      → IsNamed name p t.db
      → is_ok (tag_with sql (some a) p o t).0 ≡ true
      → Swept sql o name a d (tag_with sql (some a) p o t).1.db
  unfolding tag_with
  tag_with-Swept p t h named =
      select-runs R _ _ t (λ fs k. absurd (ground arith))
        λ fs.
          found-runs R _ _ _ (λ k. absurd (ground arith))
            λ obs e.
              rest_keeps_ok {P = OnDb (Swept sql o name a d)} _ _ _
                (transaction-ok (Swept sql o name a d) (add_and_sweep sql p obs a)
                  (record t { faults = fs })
                  (λ gs k.
                    body-Swept p obs (record t { faults = gs }) h named (same_obs t.db obs h e) k))
                reported
    where
      R : Reply (Option (ℕ × ℕ)) × Service → Type 0
      R x = is_ok x.0 ≡ true → Swept sql o name a d x.1.db
