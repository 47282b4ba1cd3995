-- ===== src/Daemon/Gate/Arming.antt =====
-- The arming gate over a tick and over many.
use antitimely.Prelude.{
  ℕ, ◌+◌, ◌≤◌, ◌≡◌, inl, inr, Bool, true, false, Option, none, some, List, [], ◌∷◌, arith,
  Bool-cases,
}
use antitimely.Domain.Signal.{Signal}
use antitimely.Domain.Rules.{match_rules}
use antitimely.Store.Observing.{upsert_observation}
use antitimely.Daemon.Cache.{add_suppressed, mark_project_active, arm_project, disarm_project}
use antitimely.Daemon.Cache.Arming.{IsTidy}
use antitimely.Daemon.Gate.{
  Gate, Faults, TickEnv, Flow, continues, falls, state_of, record_tick, gates, attribute,
  attribute_observed, process, process_all, record_signals, fresh_tick,
}

-- The invariant of the loop, against the streaks at the start of the tick: a project that was armed
-- then and that no signal has disarmed is armed still; only armed projects have suppressed ticks;
-- and no streak has grown by more than one.
pub record Inv (env : TickEnv) (before : ℕ → ℕ) (g : Gate) : Type 0 where
  pub armed :
      (p : ℕ)
      → env.snap.armed_projects p ≡ true
      → g.disarmed_this_tick p ≡ false
      → g.cache.snap.armed_projects p ≡ true
  pub tidy : IsTidy g.cache
  pub slow : (p : ℕ) → g.armed_agent_streak p ≤ before p + 1
  pub uncounted : (p : ℕ) → g.armed_counted_this_tick p ≡ false → g.armed_agent_streak p ≤ before p

module _ (env : TickEnv) (before : ℕ → ℕ) where
  gates-Inv :
      (sig : Signal) (f : Faults) (p : ℕ) (g : Gate)
      → Inv env before g
      → Inv env before (state_of (gates sig env f p g))
  unfolding gates disarm_project arm_project add_suppressed mark_project_active
  gates-Inv sig f p g v = record {
    armed = λ q a d. ground (arith, v.armed q, v.armed p);
    tidy = λ q a. ground (arith, v.tidy q, v.armed p);
    slow = λ q. ground (arith, v.slow q, v.uncounted p);
    uncounted = λ q u. ground (arith, v.uncounted q);
  }

  record_tick-Inv :
      (f : Faults) (obs : ℕ) (pid : Option ℕ) (g : Gate)
      → Inv env before g
      → Inv env before (record_tick env f obs pid g)
  unfolding record_tick
  record_tick-Inv f obs pid g v = elim (Bool-cases f.insert) [
    | inl e ↦ simp e v
    | inr e ↦
        simp e (record { armed = v.armed; tidy = v.tidy; slow = v.slow; uncounted = v.uncounted })
  ]

  attribute-Inv :
      (sig : Signal) (f : Faults) (obs : ℕ) (pid : Option ℕ) (g : Gate)
      → Inv env before g
      → Inv env before (attribute sig env f obs pid g)
  unfolding attribute
  attribute-Inv sig f obs none g v = record_tick-Inv f obs none g v
  attribute-Inv sig f obs (some p) g v = go (gates sig env f p g) (gates-Inv sig f p g v)
    where
      go :
          (fl : Flow)
          → Inv env before (state_of fl)
          → Inv env before (elim fl as (λ x. Gate) [
            | continues g' ↦ g'
            | falls g' ↦ record_tick env f obs (some p) g'
          ])
      go (continues g') w = w
      go (falls g') w = record_tick-Inv f obs (some p) g' w

  attribute_observed-Inv :
      (sig : Signal) (f : Faults) (obs : ℕ) (g : Gate)
      → Inv env before g
      → Inv env before (attribute_observed env sig f obs g)
  unfolding attribute_observed
  attribute_observed-Inv sig f obs g v = elim (Bool-cases f.ignored) [
    | inl e ↦ simp e v
    | inr e ↦ elim (Bool-cases (g.db.ignored obs)) [
      | inl h ↦ simp (e, h) v
      | inr h ↦ simp (e, h) (attribute-Inv sig f obs (match_rules sig env.snap.rules) g v)
    ]
  ]

  process-Inv :
      (sig : Signal) (f : Faults) (g : Gate)
      → Inv env before g
      → Inv env before (process env (sig, f) g)
  unfolding process
  process-Inv sig f g v = elim (Bool-cases f.upsert) [
    | inl e ↦ simp e v
    | inr e ↦ simp e (
        attribute_observed-Inv sig f (upsert_observation sig env.now g.db).0
          (record g { db = (upsert_observation sig env.now g.db).1 })
          (record { armed = v.armed; tidy = v.tidy; slow = v.slow; uncounted = v.uncounted }))
  ]

  process_all-Inv :
      (sigs : List (Signal × Faults)) (g : Gate)
      → Inv env before g
      → Inv env before (process_all env sigs g)
  unfolding process_all
  process_all-Inv [] g v = v
  process_all-Inv ((sig, f) ∷ sigs) g v =
      process_all-Inv sigs (process env (sig, f) g) (process-Inv sig f g v)

-- Where only armed projects have suppressed ticks, the same holds after a tick, whatever its signals
-- and whichever database calls fail, and no project's streak toward its automatic disarm has grown
-- by more than one, however many processes worked in it.
pub record_signals-IsTidy :
    (now : ℕ) (present : Bool) (n : ℕ) (sigs : List (Signal × Faults)) (g : Gate)
    → IsTidy g.cache
    → IsTidy (record_signals now present n sigs g).cache
      × ((p : ℕ)
          → (record_signals now present n sigs g).armed_agent_streak p ≤ g.armed_agent_streak p + 1)
unfolding record_signals
record_signals-IsTidy now present n sigs g tidy =
    let env : TickEnv = record {
      now = now;
      user_present = present;
      snap = g.cache.snap;
      auto_disarm_agent_ticks = n;
    } in
    let v = process_all-Inv env g.armed_agent_streak sigs (fresh_tick g) (record {
      armed = λ p a d. a;
      tidy = tidy;
      slow = λ p. omega arith;
      uncounted = λ p u. omega arith;
    }) in
    (v.tidy, v.slow)
