-- ===== src/Daemon/Tick/Away.antt =====
-- A tick while the user is away.
use antitimely.Prelude.{
  ℕ, ◌+◌, ◌≤◌, ◌≡◌, refl, Bool, true, false, Option, none, some, List, [], ◌∷◌, ◌++◌, ltb, All,
  arith,
}
use antitimely.Domain.Signal.{Signal, is_agent}
use antitimely.Daemon.Cache.{CacheSnapshot}
use antitimely.Daemon.Focus.{Frontmost, Title}
use antitimely.Daemon.Agent.{AgentConfig, Probes, ProcessSample, Procs, collect_agent_signals}
use antitimely.Daemon.Agent.Continues.{visit_all-is_agent}
use antitimely.Daemon.Gate.{Faults, TickEnv, record_signals, fresh_tick}
use antitimely.Daemon.Gate.Idle.{Unmoved, process_all-Unmoved}
use antitimely.Daemon.Tick.{
  TickConfig, TickHost, Pipeline, forget_verdicts, read_presence, collect_focus, run_tick,
  with_faults,
}

agents_only :
    (faults : ℕ → Faults) (i : ℕ) (sigs : List Signal)
    → All (λ s. is_agent s ≡ true) sigs
    → All (λ (s : Signal × Faults). is_agent s.0 ≡ true) (with_faults faults i (sigs ++ []))
agents_only faults i [] h = tt
agents_only faults i (s ∷ sigs) (agent, h) = (agent, agents_only faults (i + 1) sigs h)

collect_agent_signals-is_agent :
    (cfg : AgentConfig) (probes : Probes) (snap : CacheSnapshot) (present : Bool)
    (procs : Option (List ProcessSample)) (m : Procs)
    → All (λ s. is_agent s ≡ true) (collect_agent_signals cfg probes snap present procs m).0
unfolding collect_agent_signals
collect_agent_signals-is_agent cfg probes snap present none m = tt
collect_agent_signals-is_agent cfg probes snap present (some procs) m =
    visit_all-is_agent cfg probes snap present procs m

-- While the user is away by a readable idle time and no transcript moves, a tick asks for no title and
-- does not depend on the window in front nor on what a title probe would answer; the focus state stays
-- as it was; and whatever the processes do, whether or not `ps` succeeds, and whichever database calls
-- fail, the tick pauses, resumes, arms and disarms no project.
pub run_tick-away :
    (cfg : TickConfig) (now idle : ℕ) (host : TickHost) (front : Frontmost) (answer : Title)
    (p : Pipeline)
    → host.idle ≡ some idle
    → cfg.idle_threshold_sec ≤ idle
    → host.transcripts ≡ []
    → let (asked, after) = run_tick cfg now host p in
      (asked ≡ false)
      × (run_tick cfg now (record host { front = front; title = answer }) p ≡ (asked, after))
      × (after.focus ≡ p.focus)
      × Unmoved p.gate after.gate
unfolding run_tick read_presence collect_focus record_signals fresh_tick
run_tick-away cfg now idle host front answer p h0 h1 h2 =
    let e : ltb idle cfg.idle_threshold_sec ≡ false = ground arith in
    let snap = p.gate.cache.snap in
    let m = forget_verdicts host.swapped p.procs in
    let sigs = (collect_agent_signals cfg.agent host.probes snap false host.processes m).0 in
    let env : TickEnv = record {
      now = now;
      user_present = false;
      snap = snap;
      auto_disarm_agent_ticks = cfg.auto_disarm_agent_ticks;
    } in
    simp (h0, e, h2)
      (
        refl,
        refl,
        refl,
        process_all-Unmoved env refl (with_faults host.faults 0 (sigs ++ [])) (fresh_tick p.gate) (
            agents_only host.faults 0 sigs
              (collect_agent_signals-is_agent cfg.agent host.probes snap false host.processes m)),
      )
