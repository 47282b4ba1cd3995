-- ===== src/Daemon/Gate/Idle.antt =====
-- Unattended work: agent signals while the user is away.
use antitimely.Prelude.{
  ℕ, ◌≡◌, refl, true, false, Option, none, some, List, [], ◌∷◌, arith, ◌∙◌, All,
}
use antitimely.Domain.Signal.{Signal, is_agent}
use antitimely.Domain.Rules.{match_rules}
use antitimely.Store.Observing.{upsert_observation, insert_tick}
use antitimely.Daemon.Cache.{add_suppressed, arm_project, disarm_project}
use antitimely.Daemon.Gate.{
  Gate, Faults, TickEnv, Flow, continues, falls, state_of, gates, record_tick, attribute, process,
  process_all,
}
use antitimely.Daemon.Gate.Rows.{upsert_observation-keeps}

-- No project is paused, resumed, armed or disarmed.
abbrev pub Unmoved : Gate → Gate → Type 0
Unmoved g g' = (g'.cache.snap ≡ g.cache.snap) × (g'.db.paused ≡ g.db.paused)

module _ (env : TickEnv) (away : env.user_present ≡ false) where
  gates-Unmoved :
      (sig : Signal) (f : Faults) (p : ℕ) (g : Gate)
      → is_agent sig ≡ true
      → Unmoved g (state_of (gates sig env f p g))
  unfolding gates add_suppressed disarm_project arm_project
  gates-Unmoved sig f p g agent = ground arith

  record_tick-Unmoved :
      (f : Faults) (obs : ℕ) (pid : Option ℕ) (g : Gate) → Unmoved g (record_tick env f obs pid g)
  unfolding record_tick insert_tick
  record_tick-Unmoved f obs pid g = ground arith

  attribute-Unmoved :
      (sig : Signal) (f : Faults) (obs : ℕ) (pid : Option ℕ) (g : Gate)
      → is_agent sig ≡ true
      → Unmoved g (attribute sig env f obs pid g)
  unfolding attribute
  attribute-Unmoved sig f obs none g agent = record_tick-Unmoved f obs none g
  attribute-Unmoved sig f obs (some p) g agent =
      go (gates sig env f p g) (gates-Unmoved sig f p g agent)
    where
      go :
          (fl : Flow)
          → Unmoved g (state_of fl)
          → Unmoved g (elim fl as (λ x. Gate) [
            | continues g' ↦ g'
            | falls g' ↦ record_tick env f obs (some p) g'
          ])
      go (continues g') u = u
      go (falls g') u = let r = record_tick-Unmoved f obs (some p) g' in (r.0 ∙ u.0, r.1 ∙ u.1)

  process-Unmoved :
      (sig : Signal) (f : Faults) (g : Gate)
      → is_agent sig ≡ true
      → Unmoved g (process env (sig, f) g)
  unfolding process
  process-Unmoved sig f g agent =
      let obs = (upsert_observation sig env.now g.db).0 in
      let db' = (upsert_observation sig env.now g.db).1 in
      ground (
        arith,
        upsert_observation-keeps sig env.now g.db,
        attribute-Unmoved sig f obs (match_rules sig env.snap.rules) (record g { db = db' }) agent,
      )

  -- While the user is away, agent signals pause, resume, arm and disarm no project: background work
  -- never brings back a paused project and never disarms an armed one.
  pub process_all-Unmoved :
      (sigs : List (Signal × Faults)) (g : Gate)
      → All (λ s. is_agent s.0 ≡ true) sigs
      → Unmoved g (process_all env sigs g)
  unfolding process_all
  process_all-Unmoved [] g h = (refl, refl)
  process_all-Unmoved ((sig, f) ∷ sigs) g h =
      let first = process-Unmoved sig f g h.0 in
      let rest = process_all-Unmoved sigs (process env (sig, f) g) h.1 in
      (rest.0 ∙ first.0, rest.1 ∙ first.1)
