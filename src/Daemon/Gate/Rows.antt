-- ===== src/Daemon/Gate/Rows.antt =====
-- Which tick rows a signal can bring.
use antitimely.Prelude.{
  ℕ, ◌+◌, ◌≤◌, ◌<◌, ◌≡◌, refl, ◌⊎◌, inl, inr, Bool, true, false, Option, none, some, List, [], ◌∷◌,
  ◌==◌, if◌then◌else◌, arith, Bool-cases, ◌∙◌, sym, All, ap, subst, ==_iff,
}
use antitimely.Domain.Signal.{Signal, is_agent, is_transcript}
use antitimely.Domain.Rules.{match_rules}
use antitimely.Store.Tables.{Tick}
use antitimely.Store.Observing.{Db, upsert_observation, insert_tick, resume_project_by_id}
use antitimely.Daemon.Gate.{
  Gate, Faults, TickEnv, Flow, continues, falls, state_of, record_tick, gates, attribute,
  attribute_observed, process, process_all,
}

pub upsert_observation-keeps :
    (s : Signal) (now : ℕ) (db : Db)
    → ((upsert_observation s now db).1.ticks ≡ db.ticks)
      × ((upsert_observation s now db).1.ignored ≡ db.ignored)
      × ((upsert_observation s now db).1.paused ≡ db.paused)
unfolding upsert_observation
upsert_observation-keeps s now db = ground arith

gates-ticks :
    (sig : Signal) (env : TickEnv) (f : Faults) (p : ℕ) (g : Gate)
    → (state_of (gates sig env f p g)).db.ticks ≡ g.db.ticks
unfolding gates resume_project_by_id
gates-ticks sig env f p g = ground arith

-- When a row for project `p` may be written.
pub record MayCount (sig : Signal) (env : TickEnv) (p : ℕ) (g : Gate) : Type 0 where
  -- A paused project counts by a transcript alone.
  pub unpaused : env.snap.paused_project_ids p ≡ true → is_transcript sig ≡ true
  -- An armed project's agent activity counts once a signal of this tick has disarmed the project,
  -- or as the last tick of enough of it, with the user present.
  pub disarmed :
      is_agent sig ≡ true
      → env.snap.armed_projects p ≡ true
      → (g.disarmed_this_tick p ≡ true)
        ⊎ ((g.armed_counted_this_tick p ≡ false)
            × (env.user_present ≡ true)
            × (0 < env.auto_disarm_agent_ticks)
            × (env.auto_disarm_agent_ticks ≤ g.armed_agent_streak p + 1))
  -- A transcript counts only where nothing else has in this tick.
  pub single : is_transcript sig ≡ true → g.ticked_this_tick p ≡ false

gates-MayCount :
    (sig : Signal) (env : TickEnv) (f : Faults) (p : ℕ) (g g' : Gate)
    → gates sig env f p g ≡ falls g'
    → MayCount sig env p g
unfolding gates
gates-MayCount sig env f p g g' e = record {
  unpaused = λ h. ground arith;
  disarmed = λ h k. ground arith;
  single = λ h. ground arith;
}

-- What one signal does to the rows: nothing, or one row of this second for the rule's project,
-- which is not a row of an ignored observation.
abbrev pub RowOf : TickEnv → Signal → Gate → Gate → Type 0
RowOf env sig g g' =
    (t : Tick) × (g'.db.ticks ≡ t ∷ g.db.ticks)
    × (t.ts ≡ env.now)
    × (t.project_id ≡ match_rules sig env.snap.rules)
    × (g.db.ignored t.observation_id ≡ false)
    × ((p : ℕ) → t.project_id ≡ some p → MayCount sig env p g)

record_tick-ticks :
    (env : TickEnv) (f : Faults) (obs : ℕ) (pid : Option ℕ) (g : Gate)
    → ((record_tick env f obs pid g).db.ticks ≡ g.db.ticks)
      ⊎ ((record_tick env f obs pid g).db.ticks
          ≡ record { ts = env.now; observation_id = obs; project_id = pid } ∷ g.db.ticks)
unfolding record_tick insert_tick
record_tick-ticks env f obs pid g = ground arith

abbrev OneRow : TickEnv → Signal → ℕ → Option ℕ → Gate → Gate → Type 0
OneRow env sig obs pid g g' =
    (g'.db.ticks ≡ record { ts = env.now; observation_id = obs; project_id = pid } ∷ g.db.ticks)
    × ((p : ℕ) → pid ≡ some p → MayCount sig env p g)

attribute-rows :
    (sig : Signal) (env : TickEnv) (f : Faults) (obs : ℕ) (pid : Option ℕ) (g : Gate)
    → ((attribute sig env f obs pid g).db.ticks ≡ g.db.ticks)
      ⊎ OneRow env sig obs pid g (attribute sig env f obs pid g)
unfolding attribute
attribute-rows sig env f obs none g = elim (record_tick-ticks env f obs none g) [
  | inl e ↦ inl e
  | inr e ↦ inr (e, λ p h. cc)
]
attribute-rows sig env f obs (some p) g = go (gates sig env f p g) refl
  where
    row : Tick
    row = record { ts = env.now; observation_id = obs; project_id = some p }

    go :
        (fl : Flow)
        → gates sig env f p g ≡ fl
        → ((elim fl as (λ x. Gate) [
          | continues g' ↦ g'
          | falls g' ↦ record_tick env f obs (some p) g'
        ]).db.ticks
            ≡ g.db.ticks)
          ⊎ OneRow env sig obs (some p) g (elim fl as (λ x. Gate) [
            | continues g' ↦ g'
            | falls g' ↦ record_tick env f obs (some p) g'
          ])
    go (continues g') e = inl (ap (λ x. (state_of x).db.ticks) (sym e) ∙ gates-ticks sig env f p g)
    go (falls g') e =
        let same : g'.db.ticks ≡ g.db.ticks =
          ap (λ x. (state_of x).db.ticks) (sym e) ∙ gates-ticks sig env f p g in
        elim (record_tick-ticks env f obs (some p) g') [
          | inl h ↦ inl (h ∙ same)
          | inr h ↦ inr (
            h ∙ ap (◌∷◌ row) same,
            λ q k.
                let same_project : p ≡ q = cc in
                subst (λ x. MayCount sig env x g) same_project (gates-MayCount sig env f p g g' e),
          )
        ]

MayCount-db :
    (sig : Signal) (env : TickEnv) (p : ℕ) (g : Gate) (db' : Db)
    → MayCount sig env p (record g { db = db' })
    → MayCount sig env p g
MayCount-db sig env p g db' m = record {
  unpaused = m.unpaused;
  disarmed = m.disarmed;
  single = m.single;
}

attribute_observed-RowOf :
    (env : TickEnv) (sig : Signal) (f : Faults) (obs : ℕ) (g : Gate) (db' : Db)
    → db'.ticks ≡ g.db.ticks
    → db'.ignored ≡ g.db.ignored
    → ((attribute_observed env sig f obs (record g { db = db' })).db.ticks ≡ g.db.ticks)
      ⊎ RowOf env sig g (attribute_observed env sig f obs (record g { db = db' }))
unfolding attribute_observed
attribute_observed-RowOf env sig f obs g db' ticks_same ignored_same = elim (Bool-cases f.ignored) [
  | inl unread ↦ rw unread (inl ticks_same)
  | inr read ↦ elim (Bool-cases (db'.ignored obs)) [
    | inl hidden ↦ rw (read, hidden) (inl ticks_same)
    | inr shown ↦
        simp (read, shown)
          (elim (attribute-rows sig env f obs (match_rules sig env.snap.rules)
            (record g { db = db' })) [
              | inl e ↦ inl (e ∙ ticks_same)
              | inr (e, may) ↦
                  let row : Tick = record {
                    ts = env.now;
                    observation_id = obs;
                    project_id = match_rules sig env.snap.rules;
                  } in
                  inr (
                    row,
                    e ∙ ap (◌∷◌ row) ticks_same,
                    refl,
                    refl,
                    ap (λ m. m obs) (sym ignored_same) ∙ shown,
                    λ p h. MayCount-db sig env p g db' (may p h),
                  )
            ])
  ]
]

-- A signal brings at most one row, for the project of the first matching rule. An observation
-- that is ignored gets none; a project that was paused when the tick began gets one by a
-- transcript only; one that was armed gets one by agent activity only when it is disarmed; and a
-- transcript brings one only to a project without one in this tick.
pub process-RowOf :
    (env : TickEnv) (sig : Signal) (f : Faults) (g : Gate)
    → ((process env (sig, f) g).db.ticks ≡ g.db.ticks) ⊎ RowOf env sig g (process env (sig, f) g)
unfolding process
process-RowOf env sig f g = elim (Bool-cases f.upsert) [
  | inl failed ↦ rw failed (inl refl)
  | inr kept ↦
      let same = upsert_observation-keeps sig env.now g.db in
      simp kept (
        attribute_observed-RowOf env sig f (upsert_observation sig env.now g.db).0 g
          (upsert_observation sig env.now g.db).1 same.0 same.1)
]

-- The rows of one project.
abbrev pub is_of : ℕ → Option ℕ → Bool
is_of p none = false
is_of p (some q) = q == p

abbrev pub rows_of : ℕ → List Tick → List Tick
rows_of p [] = []
rows_of p (t ∷ ts) = if is_of p t.project_id then t ∷ rows_of p ts else rows_of p ts

is_of-eq : (p : ℕ) (o : Option ℕ) → is_of p o ≡ true → o ≡ some p
is_of-eq p none h = cc
is_of-eq p (some q) h = ap some ((==_iff q p).0 h)

process-rows_of :
    (env : TickEnv) (sig : Signal) (f : Faults) (g : Gate) (p : ℕ)
    → ¬ MayCount sig env p g
    → rows_of p (process env (sig, f) g).db.ticks ≡ rows_of p g.db.ticks
process-rows_of env sig f g p barred = elim (process-RowOf env sig f g) [
  | inl e ↦ ap (rows_of p) e
  | inr (t, e, _, _, _, may) ↦ ap (rows_of p) e ∙ not_counted t (λ h. barred (may p h))
]
  where
    not_counted :
        (t : Tick) → ¬ (t.project_id ≡ some p) → rows_of p (t ∷ g.db.ticks) ≡ rows_of p g.db.ticks
    not_counted t h = elim (Bool-cases (is_of p t.project_id)) [
      | inl c ↦ absurd (h (is_of-eq p t.project_id c))
      | inr c ↦ rw c
    ]

-- A project that is paused when a tick begins gets no row in it unless a transcript is among the
-- signals: no window left open and no process, with or without the user, bills a paused project.
pub process_all-paused :
    (env : TickEnv) (p : ℕ) (sigs : List (Signal × Faults)) (g : Gate)
    → env.snap.paused_project_ids p ≡ true
    → All (λ s. is_transcript s.0 ≡ false) sigs
    → rows_of p (process_all env sigs g).db.ticks ≡ rows_of p g.db.ticks
unfolding process_all
process_all-paused env p [] g paused h = refl
process_all-paused env p ((sig, f) ∷ sigs) g paused h =
    process_all-paused env p sigs (process env (sig, f) g) paused h.1
    ∙ process-rows_of env sig f g p (λ m. absurd (cc (m.unpaused paused)))
