-- ===== src/Tests/Daemon.antt =====
-- Runs of internal/daemon at concrete inputs.
use antitimely.Prelude.{
  ℕ, ◌+◌, ◌≤◌, ◌≡◌, refl, ◌⊎◌, Bool, true, false, none, some, List, [], ◌∷◌, ◌++◌, All, ◌==◌,
  if◌then◌else◌,
}
use antitimely.Prelude.Int.{pos}
use antitimely.Prelude.Maps.{update}
use antitimely.Prelude.Text.{codes, str_eq}
use antitimely.Domain.Signal.{Source, Signal, RuleSpec}
use antitimely.Domain.Rules.{match_one, match_rules}
use antitimely.Daemon.Cache.{
  CacheSnapshot, new_cache, arm_project, add_suppressed, mark_project_active, disarm_project,
  clear_suppressed,
}
use antitimely.Daemon.Cache.Arming.{
  CacheOp, apply, run, AreDue, IsTidy, run-IsTidy, new_cache-IsTidy,
}
use antitimely.Daemon.Cache.Interleaving.{
  Call, attempt, clear, HasLanded, Shared, Pc, Step, Reach, start, replay, Once, Reach-serial,
}
use antitimely.Daemon.Backoff.{TitleState, SlowTick}
use antitimely.Daemon.Busy.History.{Sample, run_of, state_after, works, state_after-works}
use antitimely.Daemon.Gate.{Gate, TickEnv, process, process_all, record_signals}
use antitimely.Daemon.Gate.Rows.{RowOf, rows_of, process-RowOf, process_all-paused}
use antitimely.Daemon.Gate.Arming.{record_signals-IsTidy}
use antitimely.Daemon.Gate.Sustained.{
  no_faults, agent_ticks, IsWaiting, IsAgentOf, IsBack, agent_ticks-disarm,
}

abbrev daily : List CacheOp
daily = CacheOp.arm 3 ∷ CacheOp.suppress 3 ∷ CacheOp.activate 3 ∷ CacheOp.disarm 3 ∷ []

daily-AreDue : AreDue daily new_cache
unfolding apply arm_project clear_suppressed new_cache
daily-AreDue = (tt, (refl, (tt, (tt, tt))))

run-IsTidy_example : IsTidy (run daily new_cache)
run-IsTidy_example = run-IsTidy daily new_cache daily-AreDue new_cache-IsTidy

-- The tick is counted, and dropped again with the arming.
daily_counters :
    ((run (CacheOp.arm 3 ∷ CacheOp.suppress 3 ∷ []) new_cache).suppressed 3 ≡ 1)
    × ((run daily new_cache).suppressed 3 ≡ 0)
unfolding run apply arm_project add_suppressed mark_project_active disarm_project clear_suppressed
    new_cache
daily_counters = (refl, refl)

abbrev cleared : TitleState
cleared = record { retry_at = 0; backoff_sec = 0; timeout_streak = 0 }

abbrev quiet : SlowTick
quiet = record { retry_at = 0; backoff_sec = 0 }

-- Two ticks above a bar of 10, then one below it.
abbrev samples : List Sample
samples = record { bar = 10; delta = 40 } ∷ record { bar = 10; delta = 30 } ∷ []

abbrev dip : List Sample
dip = record { bar = 10; delta = 1 } ∷ []

state_after-works_example : state_after 2 3 (dip ++ samples) ≡ record {
  working = works 2 3 (dip ++ samples);
  above_streak = run_of true (dip ++ samples);
  below_streak = run_of false (dip ++ samples);
}
state_after-works_example = state_after-works 2 3 (dip ++ samples)

abbrev shop_rule : RuleSpec
shop_rule = record {
  id = 1;
  project_id = 3;
  priority = pos 0;
  match_bundle_id = none;
  match_title_substr = none;
  match_binary_name = some (codes "node");
  match_cwd_prefix = none;
  match_space_id = none;
}

-- Project 3 is armed, and paused as the argument says.
abbrev snapshot : Bool → CacheSnapshot
snapshot paused = record (new_cache.snap) {
  rules = shop_rule ∷ [];
  paused_project_ids = λ i. paused;
  armed_projects = λ i. i == 3;
}

abbrev node : Signal
node = record {
  source = Source.agent;
  bundle_id = [];
  window_title = [];
  binary_name = codes "node";
  cwd = codes "/shop";
  space_id = [];
}

abbrev gate : Bool → Gate
gate paused = record {
  cache = record { snap = snapshot paused; suppressed = λ i. 0 };
  db = record { observations = []; ignored = λ i. false; ticks = []; paused = λ i. paused };
  armed_agent_streak = λ i. 0;
  disarmed_this_tick = λ i. false;
  armed_counted_this_tick = λ i. false;
  ticked_this_tick = λ i. false;
}

abbrev env : Bool → Bool → TickEnv
env present paused = record {
  now = 1000;
  user_present = present;
  snap = snapshot paused;
  auto_disarm_agent_ticks = 1;
}

process-RowOf_example :
    ((process (env true false) (node, no_faults) (gate false)).db.ticks ≡ (gate false).db.ticks)
    ⊎ RowOf
        (env true false)
        node
        (gate false)
        (process (env true false) (node, no_faults) (gate false))
process-RowOf_example = process-RowOf (env true false) node no_faults (gate false)

process_all-paused_example :
    rows_of 3 (process_all (env true true) ((node, no_faults) ∷ []) (gate true)).db.ticks
    ≡ rows_of 3 (gate true).db.ticks
process_all-paused_example =
    process_all-paused (env true true) 3 ((node, no_faults) ∷ []) (gate true) refl (refl, tt)

record_signals-IsTidy_example :
    IsTidy (record_signals 1000 true 4 ((node, no_faults) ∷ []) (gate false)).cache
    × ((p : ℕ)
        → (record_signals 1000 true 4 ((node, no_faults) ∷ []) (gate false)).armed_agent_streak p
          ≤ (gate false).armed_agent_streak p + 1)
record_signals-IsTidy_example =
    record_signals-IsTidy 1000 true 4 ((node, no_faults) ∷ []) (gate false) (λ i h. refl)

node_waits : IsWaiting 3 (gate false)
node_waits = record { armed = refl; unpaused = refl; heard = λ i. refl }

-- Another process of the same project.
abbrev second_node : Signal
second_node = record node { cwd = codes "/shop/api" }

node_works : IsAgentOf (shop_rule ∷ []) 3 node
unfolding match_rules match_one str_eq
node_works = (refl, refl)

second_works : IsAgentOf (shop_rule ∷ []) 3 second_node
unfolding match_rules match_one str_eq
second_works = (refl, refl)

agent_ticks-disarm_example :
    ((agent_ticks 3 ((1005, node, second_node ∷ []) ∷ (1000, node, []) ∷ []) (gate false)).db.ticks
      ≡ (gate false).db.ticks)
    × IsBack 1010 3 (
        agent_ticks 3
          ((1010, second_node, node ∷ []) ∷ (1005, node, second_node ∷ []) ∷ (1000, node, []) ∷ [])
          (gate false))
agent_ticks-disarm_example =
    agent_ticks-disarm 3 3 1010 second_node (node ∷ [])
      ((1005, node, second_node ∷ []) ∷ (1000, node, []) ∷ []) (gate false) node_waits
      ((second_works, (node_works, tt)), ((node_works, (second_works, tt)), ((node_works, tt), tt)))
      refl refl

-- One caller arms project 3 and clears its counter; meanwhile another counts a suppressed tick.
abbrev calls : ℕ → Call
calls t = if t == 5 then Call.mutate (CacheOp.arm 3) else Call.mutate (CacheOp.suppress 3)

abbrev idle : CacheSnapshot
idle = record (new_cache.snap) { rules = shop_rule ∷ [] }

abbrev armed : CacheSnapshot
armed = record idle { armed_projects = update 3 true idle.armed_projects }

abbrev loaded : Shared
loaded = record (start calls idle) { pc = update 5 (Pc.holding 0 idle) (λ t. Pc.fresh) }

abbrev swapped : Shared
swapped = record loaded {
  version = 1;
  snap = armed;
  log = 5 ∷ [];
  pc = update 5 Pc.swapped loaded.pc;
}

abbrev added : Shared
added = record swapped { suppressed = update 3 1 (λ _. 0); pc = update 6 Pc.done swapped.pc }

abbrev cleared_all : Shared
cleared_all = record added {
  suppressed = clear (CacheOp.arm 3) added.suppressed;
  pc = update 5 Pc.done added.pc;
}

Reach-serial_example :
    (cleared_all.snap ≡ replay calls cleared_all.log idle)
    × Once calls cleared_all.log
    × All (λ t. HasLanded (cleared_all.pc t)) cleared_all.log
unfolding attempt new_cache
Reach-serial_example = Reach-serial calls idle cleared_all (
    Reach.then_step
      (Reach.then_step
        (Reach.then_step
          (Reach.then_step Reach.here
            (Step.loads (start calls idle) 5 (CacheOp.arm 3) refl refl tt))
          (Step.swaps loaded 5 0 idle armed (CacheOp.arm 3) refl refl refl refl))
        (Step.adds swapped 6 3 refl refl))
      (Step.clears added 5 (CacheOp.arm 3) refl refl))
