-- ===== src/Daemon/Tick.antt =====
-- internal/daemon/pipeline.go: one whole call of `RunTick`, from the idle time to the rows. The
-- signals of the transcripts are an argument.
pub mod Away
use antitimely.Prelude.{
  ℕ, ◌≡◌, Bool, true, false, Option, none, some, List, [], ◌∷◌, ◌++◌, ◌+◌, ltb, if◌then◌else◌,
}
use antitimely.Domain.Signal.{Signal}
use antitimely.Daemon.Cache.{CacheSnapshot}
use antitimely.Daemon.Backoff.{SlowTick, report_slow_tick}
use antitimely.Daemon.Permission.{PermState, PermissionTracker, set_probe}
use antitimely.Daemon.Agent.{AgentConfig, Probes, Procs, ProcessSample, collect_agent_signals}
use antitimely.Daemon.Focus.{Focus, Frontmost, Title, collect_focus_signal}
use antitimely.Daemon.Gate.{Gate, Faults, record_signals}

pub record TickConfig : Type 0 where
  pub idle_threshold_sec : ℕ
  pub auto_disarm_agent_ticks : ℕ
  pub tick_budget : ℕ
  pub agent : AgentConfig

-- What the host answers during the tick. `idle` is `none` where it cannot be read; `swapped` says
-- that the snapshot is not the one of the tick before; `faults` are the failures of the database for
-- the signal at a position of the tick; `took` is how long the tick took.
pub record TickHost : Type 0 where
  pub idle : Option ℕ
  pub swapped : Bool
  pub front : Frontmost
  pub title : Title
  pub processes : Option (List ProcessSample)
  pub probes : Probes
  pub transcripts : List Signal
  pub faults : ℕ → Faults
  pub took : ℕ

pub record Pipeline : Type 0 where
  pub gate : Gate
  pub focus : Focus
  pub procs : Procs
  pub slow_tick : SlowTick

-- A change of the snapshot drops every verdict.
unfoldable pub forget_verdicts : Bool → Procs → Procs
forget_verdicts swapped m = if swapped then record m { proc_class = λ i. none } else m

-- An idle time that cannot be read counts as presence, and is noted.
unfoldable pub read_presence :
    TickConfig → Option ℕ → ℕ → PermissionTracker → Bool × PermissionTracker
unfolding set_probe
read_presence cfg none now perm = (true, set_probe PermState.idle_detection_failed now perm)
read_presence cfg (some idle) now perm = (ltb idle cfg.idle_threshold_sec, perm)

abbrev focus_signals : Option Signal → List Signal
focus_signals none = []
focus_signals (some s) = s ∷ []

-- The window is looked at only while the user is present. The flag says that a title was asked for.
unfoldable pub collect_focus :
    Bool → CacheSnapshot → ℕ → TickHost → Focus → List Signal × Bool × Focus
unfolding collect_focus_signal
collect_focus present snap now host f =
    if present
    then (let (sig, (ran, f')) = collect_focus_signal snap now host.front host.title f in
        (focus_signals sig, ran, f'))
    else ([], false, f)

abbrev pub with_faults : (ℕ → Faults) → ℕ → List Signal → List (Signal × Faults)
with_faults faults i [] = []
with_faults faults i (s ∷ ss) = (s, faults i) ∷ with_faults faults (i + 1) ss

-- The reply is whether a title was asked for.
unfoldable pub run_tick : TickConfig → ℕ → TickHost → Pipeline → Bool × Pipeline
unfolding forget_verdicts read_presence collect_focus record_signals collect_agent_signals
    report_slow_tick
run_tick cfg now host p =
    let snap = p.gate.cache.snap in
    let (present, perm) = read_presence cfg host.idle now p.focus.perm in
    let (focus, ran, f) = collect_focus present snap now host (record (p.focus) { perm = perm }) in
    let (agents, m) =
      collect_agent_signals cfg.agent host.probes snap present host.processes
        (forget_verdicts host.swapped p.procs) in
    let signals = focus ++ (agents ++ host.transcripts) in
    (
      ran,
      record {
        gate =
            record_signals now present cfg.auto_disarm_agent_ticks
              (with_faults host.faults 0 signals) p.gate;
        focus = f;
        procs = m;
        slow_tick = (report_slow_tick cfg.tick_budget host.took now p.slow_tick).0;
      },
    )
