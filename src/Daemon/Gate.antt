-- ===== src/Daemon/Gate.antt =====
-- internal/daemon/pipeline.go: what `RunTick` does with each signal of a tick: the observation, the
-- rule, the focus disarm, the pause gate, the arming gate, the duplicate check and the tick row.
pub mod Rows
pub mod Arming
pub mod Sustained
pub mod Idle
use antitimely.Prelude.{
  ℕ, ◌+◌, ◌≡◌, Bool, true, false, not, ◌&&◌, ◌||◌, Option, none, some, List, [], ◌∷◌, ◌==◌, ltb,
  leb, if◌then◌else◌,
}
use antitimely.Prelude.Maps.{update}
use antitimely.Domain.Signal.{Source, Signal, is_agent, is_focus, is_transcript}
use antitimely.Domain.Rules.{match_rules}
use antitimely.Store.Tables.{Tick}
use antitimely.Store.Observing.{Db, upsert_observation, insert_tick, resume_project_by_id}
use antitimely.Daemon.Cache.{
  Cache, CacheSnapshot, add_suppressed, mark_project_active, arm_project, disarm_project,
}

-- The pipeline's state with the maps that live for one tick.
pub record Gate : Type 0 where
  pub cache : Cache
  pub db : Db
  pub armed_agent_streak : ℕ → ℕ
  pub disarmed_this_tick : ℕ → Bool
  pub armed_counted_this_tick : ℕ → Bool
  pub ticked_this_tick : ℕ → Bool

-- Which database calls fail for a signal.
pub record Faults : Type 0 where
  pub upsert : Bool
  pub ignored : Bool
  pub resume : Bool
  pub insert : Bool

-- What stays the same during a tick: its time, the presence of the user, the snapshot taken at its
-- start, and `AutoDisarmAgentTicks`, where 0 is "never".
pub record TickEnv : Type 0 where
  pub now : ℕ
  pub user_present : Bool
  pub snap : CacheSnapshot
  pub auto_disarm_agent_ticks : ℕ

-- `continue`, or on to the next statement.
pub data Flow : Type 0 where
  continues falls : Gate → Flow

infixl 5 ◌>>=◌
abbrev pub ◌>>=◌ : Flow → (Gate → Flow) → Flow
continues g >>= f = continues g
falls g >>= f = f g

abbrev pub state_of : Flow → Gate
state_of (continues g) = g
state_of (falls g) = g

-- A focus or transcript signal disarms its project.
unfoldable pub disarm_by_signal : Signal → ℕ → Gate → Gate
disarm_by_signal sig p g =
    if is_focus sig || is_transcript sig
    then record g {
      cache = disarm_project p g.cache;
      armed_agent_streak = update p 0 g.armed_agent_streak;
      disarmed_this_tick = update p true g.disarmed_this_tick;
    }
    else g

resumed : ℕ → Gate → Gate
resumed p g = record g {
  db = resume_project_by_id p g.db;
  cache = mark_project_active p g.cache;
  armed_agent_streak = update p 0 g.armed_agent_streak;
}

-- The cases of a paused project.
unfoldable pub pause_case : Source → TickEnv → Faults → ℕ → Gate → Flow
unfolding resumed
pause_case Source.transcript env f p g =
    if f.resume
    then continues g
    else falls (record (resumed p g) { disarmed_this_tick = update p true g.disarmed_this_tick })
pause_case Source.agent env f p g =
    if not env.user_present
    then continues g
    else if f.resume
    then continues g
    else continues (record (resumed p g) { cache = arm_project p (mark_project_active p g.cache) })
pause_case Source.focus env f p g = continues g

unfoldable pub pause_gate : Signal → TickEnv → Faults → ℕ → Gate → Flow
unfolding pause_case
pause_gate sig env f p g =
    if env.snap.paused_project_ids p then pause_case sig.source env f p g else falls g

-- One tick of agent activity in an armed project.
unfoldable pub count_armed : TickEnv → ℕ → Gate → Flow
count_armed env p g =
    if env.user_present && ltb 0 env.auto_disarm_agent_ticks
    then (if leb env.auto_disarm_agent_ticks (g.armed_agent_streak p + 1)
        then falls (record g {
          cache = disarm_project p g.cache;
          armed_agent_streak = update p 0 g.armed_agent_streak;
          disarmed_this_tick = update p true g.disarmed_this_tick;
        })
        else continues (record g {
          cache = add_suppressed p g.cache;
          armed_agent_streak = update p (g.armed_agent_streak p + 1) g.armed_agent_streak;
        }))
    else continues (record g { cache = add_suppressed p g.cache })

unfoldable pub arming_gate : Signal → TickEnv → ℕ → Gate → Flow
unfolding count_armed
arming_gate sig env p g =
    if is_agent sig && env.snap.armed_projects p && not (g.disarmed_this_tick p)
    then (if g.armed_counted_this_tick p
        then continues g
        else count_armed env p
            (record g { armed_counted_this_tick = update p true g.armed_counted_this_tick }))
    else falls g

-- A transcript does not tick a project that this tick has counted.
unfoldable pub duplicate_gate : Signal → ℕ → Gate → Flow
duplicate_gate sig p g = if is_transcript sig && g.ticked_this_tick p then continues g else falls g

abbrev mark : Option ℕ → (ℕ → Bool) → ℕ → Bool
mark none m = m
mark (some p) m = update p true m

unfoldable pub record_tick : TickEnv → Faults → ℕ → Option ℕ → Gate → Gate
record_tick env f obs pid g = if f.insert then g else record g {
  db = insert_tick (record { ts = env.now; observation_id = obs; project_id = pid }) g.db;
  ticked_this_tick = mark pid g.ticked_this_tick;
}

-- The gates of a signal that a rule gave to a project.
unfoldable pub gates : Signal → TickEnv → Faults → ℕ → Gate → Flow
unfolding disarm_by_signal pause_gate arming_gate duplicate_gate
gates sig env f p g =
    pause_gate sig env f p (disarm_by_signal sig p g)
    >>= arming_gate sig env p
    >>= duplicate_gate sig p

-- After the observation is known not to be ignored.
unfoldable pub attribute : Signal → TickEnv → Faults → ℕ → Option ℕ → Gate → Gate
unfolding gates record_tick
attribute sig env f obs none g = record_tick env f obs none g
attribute sig env f obs (some p) g = elim (gates sig env f p g) [
  | continues g' ↦ g'
  | falls g' ↦ record_tick env f obs (some p) g'
]

-- The observation has an id; an ignored one goes no further.
unfoldable pub attribute_observed : TickEnv → Signal → Faults → ℕ → Gate → Gate
unfolding attribute
attribute_observed env sig f obs g =
    if f.ignored
    then g
    else if g.db.ignored obs
    then g
    else attribute sig env f obs (match_rules sig env.snap.rules) g

-- The body of the loop over the signals.
unfoldable pub process : TickEnv → Signal × Faults → Gate → Gate
unfolding attribute_observed
process env (sig, f) g =
    if f.upsert
    then g
    else (let (obs, db') = upsert_observation sig env.now g.db in
        attribute_observed env sig f obs (record g { db = db' }))

unfoldable pub process_all : TickEnv → List (Signal × Faults) → Gate → Gate
process_all env [] g = g
process_all env (s ∷ ss) g = process_all env ss (process env s g)

-- The loop of a tick starts with empty maps, and with the snapshot taken at the start of the tick.
unfoldable pub fresh_tick : Gate → Gate
fresh_tick g = record g {
  disarmed_this_tick = λ _. false;
  armed_counted_this_tick = λ _. false;
  ticked_this_tick = λ _. false;
}

unfoldable pub record_signals : ℕ → Bool → ℕ → List (Signal × Faults) → Gate → Gate
unfolding fresh_tick
record_signals now present n sigs g =
    process_all
      (record {
        now = now;
        user_present = present;
        snap = g.cache.snap;
        auto_disarm_agent_ticks = n;
      })
      sigs (fresh_tick g)
