-- ===== src/Tests/Agents.antt =====
-- Runs of the collectors of internal/daemon at concrete inputs.
use antitimely.Prelude.{ℕ, ◌≡◌, refl, inl, true, false, Option, none, some, [], ◌∷◌, All, arith}
use antitimely.Prelude.Text.{Str, codes, str_eq}
use antitimely.Daemon.Cache.{CacheSnapshot, new_cache}
use antitimely.Daemon.Busy.{idle_state}
use antitimely.Daemon.Permission.{PermState, get_state}
use antitimely.Daemon.Agent.{
  ProcessSample, AgentConfig, Probes, Procs, emit, collect_agent_signals, agent_signal,
  cwd_matches_any_pattern,
}
use antitimely.Daemon.Agent.Emission.{IsSound, Fits, EmittedBy, collect_agent_signals-Tracked}
use antitimely.Daemon.Agent.Retries.{emit_all, emit_all-retries, IsBoundOnly, Answers, IsOpen}
use antitimely.Daemon.Agent.Continues.{ContinuedBy, listed, collect_agent_signals-ContinuedBy}
use antitimely.Daemon.Gate.Idle.{Unmoved}
use antitimely.Daemon.Gate.Sustained.{no_faults}
use antitimely.Daemon.Tick.{TickConfig, TickHost, Pipeline, run_tick}
use antitimely.Daemon.Tick.Away.{run_tick-away}
use antitimely.Daemon.Focus.{Frontmost, Title, Focus, focus_signal, collect_focus_signal}
use antitimely.Daemon.Focus.Denial.{IsQuiet, denied-waits}

-- Space w1 has a rule.
abbrev snapshot : CacheSnapshot
snapshot = record (new_cache.snap) {
  bound_space_ids = λ s. str_eq s (codes "w1");
  allowed_bundles = λ b. true;
}

abbrev config : AgentConfig
config = record {
  cpu_delta_thresh = 10;
  cpu_delta_thresh_idle = 20;
  agent_busy_rise_ticks = 1;
  agent_busy_fall_ticks = 2;
}

-- herdr answers, or not.
abbrev probes : Option Str → Probes
probes answer = record {
  env_var = λ i. some (codes "p1");
  process_cwd = λ i. some (codes "/wt");
  space_for_pane = λ p. answer;
}

abbrev claude : ProcessSample
claude = record { pid = 42; name = codes "claude"; cpu_ticks = 100 }

abbrev seen : Procs
seen = record {
  prev_cpu = λ i. some 0;
  proc_class = λ i. none;
  proc_activity = λ i. idle_state;
  proc_pane = λ i. none;
}

-- The panes that processes have, and the workspaces that herdr has named.
abbrev Own : ℕ → Str → Type 0
Own i pane = pane ≡ codes "p1"

abbrev Names : Str → Str → Type 0
Names pane space = space ≡ codes "w1"

seen-IsSound : IsSound Own Names snapshot seen
seen-IsSound = record { panes = λ i v e. absurd (cc e); verdicts = λ i c e t. absurd (cc e) }

probes-Fits : Fits Own Names (probes (some (codes "w1")))
probes-Fits = record { panes = λ i v e. cc e; spaces = λ v w e. cc e }

collect_agent_signals-Tracked_example :
    All
      (EmittedBy Own Names snapshot (claude ∷ []))
      (collect_agent_signals config
        (probes (some (codes "w1")))
        snapshot
        true
        (some (claude ∷ []))
        seen).0
    × IsSound Own Names snapshot
        (collect_agent_signals config
          (probes (some (codes "w1")))
          snapshot
          true
          (some (claude ∷ []))
          seen).1
collect_agent_signals-Tracked_example =
    collect_agent_signals-Tracked Own Names config (probes (some (codes "w1"))) snapshot true
      (claude ∷ []) seen probes-Fits seen-IsSound

-- In the second tick the process is at work in the pane of w1.
abbrev busier : ProcessSample
busier = record { pid = 42; name = codes "claude"; cpu_ticks = 400 }

collect_agent_signals-ContinuedBy_example :
    let after =
      (collect_agent_signals config (probes none) snapshot true (some (claude ∷ [])) seen).1 in
    All
      (ContinuedBy (listed (some (claude ∷ []))) (busier ∷ []))
      (collect_agent_signals config
        (probes (some (codes "w1")))
        snapshot
        true
        (some (busier ∷ []))
        after).0
collect_agent_signals-ContinuedBy_example =
    collect_agent_signals-ContinuedBy config config (probes none) (probes (some (codes "w1")))
      snapshot snapshot true true (some (claude ∷ [])) (busier ∷ []) seen (tt, tt)

in_bound_space : IsBoundOnly snapshot claude (codes "p1") (codes "w1") (codes "/wt")
unfolding cwd_matches_any_pattern str_eq new_cache
in_bound_space = record {
  in_pane = refl;
  in_dir = refl;
  in_space = refl;
  off_list = refl;
  off_rules = refl;
  bound = refl;
}

answers :
    (a : Option Str) → Answers snapshot claude (codes "p1") (codes "w1") (codes "/wt") a (probes a)
answers a = record { pane_answer = refl; dir_answer = refl; space_answer = refl }

seen-IsOpen : IsOpen snapshot claude (codes "p1") (codes "w1") (codes "/wt") seen
seen-IsOpen = record { pane_open = inl refl; class_open = inl refl }

emit_all-retries_example :
    let x = emit_all snapshot claude (probes none ∷ probes none ∷ []) seen in
    All (λ sig. sig ≡ none) x.0
    × ((emit (probes (some (codes "w1"))) snapshot claude x.1).0
        ≡ some (agent_signal (codes "claude") (codes "/wt") (codes "w1")))
emit_all-retries_example =
    emit_all-retries snapshot claude (codes "p1") (codes "w1") (codes "/wt")
      (probes none ∷ probes none ∷ []) (probes (some (codes "w1"))) seen in_bound_space
      (answers none, (answers none, tt)) (answers (some (codes "w1"))) seen-IsOpen

abbrev calm : Focus
calm = record { title = record { retry_at = 0; backoff_sec = 0; timeout_streak = 0 }; perm = none }

calm-IsQuiet : IsQuiet 1000 calm
calm-IsQuiet = record { few = omega arith; bounded = omega arith; started = inl refl }

denied-waits_example :
    let f' =
      (collect_focus_signal snapshot 1000
        (Frontmost.window (codes "code"))
        Title.denied
        calm).1.1 in
    (collect_focus_signal snapshot 1040
        (Frontmost.window (codes "code"))
        (Title.title (codes "x"))
        f'
      ≡ (some (focus_signal (codes "code") []), (false, f')))
    × (get_state 1040 f'.perm ≡ PermState.accessibility_denied)
denied-waits_example =
    denied-waits snapshot 1000 1040 (codes "code") (Title.title (codes "x")) calm calm-IsQuiet refl
      (omega arith) (omega arith)

abbrev tick_config : TickConfig
tick_config = record {
  idle_threshold_sec = 120;
  auto_disarm_agent_ticks = 12;
  tick_budget = 5;
  agent = config;
}

-- The user left five minutes ago.
abbrev host : TickHost
host = record {
  idle = some 300;
  swapped = false;
  front = Frontmost.window (codes "code");
  title = Title.denied;
  processes = some (claude ∷ []);
  probes = probes (some (codes "w1"));
  transcripts = [];
  faults = λ s. no_faults;
  took = 1;
}

abbrev pipeline : Pipeline
pipeline = record {
  gate = record {
    cache = record { snap = snapshot; suppressed = λ i. 0 };
    db = record { observations = []; ignored = λ i. false; ticks = []; paused = λ i. true };
    armed_agent_streak = λ i. 0;
    disarmed_this_tick = λ i. false;
    armed_counted_this_tick = λ i. false;
    ticked_this_tick = λ i. false;
  };
  focus = calm;
  procs = seen;
  slow_tick = record { retry_at = 0; backoff_sec = 0 };
}

run_tick-away_example :
    let (asked, after) = run_tick tick_config 1000 host pipeline in
    (asked ≡ false)
    × (run_tick tick_config 1000
          (record host { front = Frontmost.denied; title = Title.timed_out })
          pipeline
        ≡ (asked, after))
    × (after.focus ≡ pipeline.focus)
    × Unmoved pipeline.gate after.gate
run_tick-away_example =
    run_tick-away tick_config 1000 300 host Frontmost.denied Title.timed_out pipeline refl
      (omega arith) refl
