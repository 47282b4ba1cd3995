-- ===== src/Daemon/Agent.antt =====
-- internal/daemon/pipeline.go: `collectAgentSignals`, which processes are at work in a tracked place.
pub mod Emission
pub mod Retries
pub mod Continues
use antitimely.Prelude.{
  ℕ, ◌+◌, ◌-◌, ◌≡◌, Bool, true, false, not, ◌&&◌, ◌||◌, Option, none, some, List, [], ◌∷◌, ◌==◌,
  ltb, any, if◌then◌else◌,
}
use antitimely.Prelude.Maps.{update}
use antitimely.Prelude.Text.{Str, str_eq}
use antitimely.Domain.Signal.{Source, Signal}
use antitimely.Domain.Cwd.{matches_cwd, is_nil}
use antitimely.Daemon.Cache.{CacheSnapshot}
use antitimely.Daemon.Busy.{ActivityState, idle_state, classify}

pub record ProcessSample : Type 0 where
  pub pid : ℕ
  pub name : Str
  pub cpu_ticks : ℕ

pub record ProcClass : Type 0 where
  pub name : Str
  pub cwd : Str
  pub track : Bool
  pub track_final : Bool

pub record AgentConfig : Type 0 where
  pub cpu_delta_thresh : ℕ
  pub cpu_delta_thresh_idle : ℕ
  pub agent_busy_rise_ticks : ℕ
  pub agent_busy_fall_ticks : ℕ

-- What the system answers in this tick; `none` is an error. `env_var` is HERDR_PANE_ID, "" where the
-- process has none, and `space_for_pane` is herdr's workspace of a pane.
pub record Probes : Type 0 where
  pub env_var : ℕ → Option Str
  pub process_cwd : ℕ → Option Str
  pub space_for_pane : Str → Option Str

-- What is remembered by process id. A missing activity reads as the zero value.
pub record Procs : Type 0 where
  pub prev_cpu : ℕ → Option ℕ
  pub proc_class : ℕ → Option ProcClass
  pub proc_activity : ℕ → ActivityState
  pub proc_pane : ℕ → Option Str

-- `cwdMatchesAnyPattern`
unfoldable pub cwd_matches_any_pattern : Str → List Str → Bool
cwd_matches_any_pattern cwd [] = false
cwd_matches_any_pattern cwd (p ∷ ps) = matches_cwd p cwd || cwd_matches_any_pattern cwd ps

-- Another process has the id now.
unfoldable pub forget : ℕ → Procs → Procs
forget i m = record m {
  proc_class = update i none m.proc_class;
  proc_activity = update i idle_state m.proc_activity;
  proc_pane = update i none m.proc_pane;
}

abbrev pub renamed : Option ProcClass → Str → Bool
renamed none name = false
renamed (some c) name = not (str_eq c.name name)

unfoldable pub check_name : ProcessSample → Procs → Procs
unfolding forget
check_name proc m = if renamed (m.proc_class proc.pid) proc.name then forget proc.pid m else m

-- The pane of the process: remembered, or probed now; a failed probe is not remembered.
unfoldable pub pane_of : Probes → ℕ → Procs → Option Str × Procs
pane_of probes i m = elim (m.proc_pane i) [
  | some v ↦ (some v, m)
  | none ↦ elim (probes.env_var i) [
    | some v ↦ (some v, record m { proc_pane = update i (some v) m.proc_pane })
    | none ↦ (none, m)
  ]
]

-- The space and whether it is known. A process outside herdr has none, and that is known.
unfoldable pub space_of : Probes → Option Str → Str × Bool
space_of probes none = ([], false)
space_of probes (some []) = ([], true)
space_of probes (some (c ∷ pane)) = elim (probes.space_for_pane (c ∷ pane)) [
  | some s ↦ (s, true)
  | none ↦ ([], false)
]

-- The verdict, which is kept once nothing can change it.
unfoldable pub judge : CacheSnapshot → Str → Str × Bool → ProcClass → ProcClass
unfolding cwd_matches_any_pattern
judge snap name (space, known) c =
    if c.track_final
    then c
    else (let without_space =
          snap.allowed_binaries name || cwd_matches_any_pattern c.cwd snap.cwd_patterns in
        record c {
          track = without_space || (not (is_nil space) && snap.bound_space_ids space);
          track_final = without_space || known;
        })

-- The class that is remembered, or a new one for the directory of the process; an unknown or empty
-- directory is not remembered.
unfoldable pub class_of : Probes → ProcessSample → Procs → Option ProcClass
class_of probes proc m = elim (m.proc_class proc.pid) [
  | some c ↦ some c
  | none ↦ elim (probes.process_cwd proc.pid) [
    | none ↦ none
    | some [] ↦ none
    | some (d ∷ cwd) ↦
        some (record { name = proc.name; cwd = d ∷ cwd; track = false; track_final = false })
  ]
]

abbrev pub agent_signal : Str → Str → Str → Signal
agent_signal name cwd space = record {
  source = Source.agent;
  bundle_id = [];
  window_title = [];
  binary_name = name;
  cwd = cwd;
  space_id = space;
}

-- A working process: the space, the class, the verdict and the signal.
unfoldable pub emit : Probes → CacheSnapshot → ProcessSample → Procs → Option Signal × Procs
unfolding pane_of space_of class_of judge
emit probes snap proc m =
    let (pane, m') = pane_of probes proc.pid m in
    let space = space_of probes pane in
    elim (class_of probes proc m') [
      | none ↦ (none, m')
      | some c ↦
          let c' = judge snap proc.name space c in
          let m'' = record m' { proc_class = update proc.pid (some c') m'.proc_class } in
          (if c'.track then some (agent_signal proc.name c'.cwd space.0) else none, m'')
    ]

abbrev pub threshold : AgentConfig → Bool → ℕ
threshold cfg present = if present then cfg.cpu_delta_thresh else cfg.cpu_delta_thresh_idle

-- A process whose CPU counter has not gone back since the last tick.
unfoldable pub measure :
    AgentConfig → Probes → CacheSnapshot → Bool → ProcessSample → ℕ → Procs → Option Signal × Procs
unfolding emit classify
measure cfg probes snap present proc prev m =
    let st =
      classify cfg.agent_busy_rise_ticks cfg.agent_busy_fall_ticks (threshold cfg present)
        (proc.cpu_ticks - prev) (m.proc_activity proc.pid) in
    let m' = record m { proc_activity = update proc.pid st m.proc_activity } in
    if st.working then emit probes snap proc m' else (none, m')

-- The body of the loop over the processes.
unfoldable pub visit :
    AgentConfig → Probes → CacheSnapshot → Bool → ProcessSample → Procs → Option Signal × Procs
unfolding measure check_name forget
visit cfg probes snap present proc m =
    let m' = record m { prev_cpu = update proc.pid (some proc.cpu_ticks) m.prev_cpu } in
    elim (m.prev_cpu proc.pid) [
      | none ↦ (none, m')
      | some prev ↦
          let m'' = check_name proc m' in
          if ltb proc.cpu_ticks prev
          then (none, forget proc.pid m'')
          else measure cfg probes snap present proc prev m''
    ]

abbrev pub add_signal : Option Signal → List Signal → List Signal
add_signal none out = out
add_signal (some s) out = s ∷ out

unfoldable pub visit_all :
    AgentConfig → Probes → CacheSnapshot → Bool → List ProcessSample → Procs → List Signal × Procs
unfolding visit
visit_all cfg probes snap present [] m = ([], m)
visit_all cfg probes snap present (proc ∷ procs) m =
    let (sig, m') = visit cfg probes snap present proc m in
    let (out, m'') = visit_all cfg probes snap present procs m' in (add_signal sig out, m'')

abbrev pub is_live : List ProcessSample → ℕ → Bool
is_live [] i = false
is_live (p ∷ ps) i = (p.pid == i) || is_live ps i

-- The deferred sweep: what belongs to no process of this tick is dropped.
unfoldable pub sweep : List ProcessSample → Procs → Procs
sweep live m = record {
  prev_cpu = λ i. if is_live live i then m.prev_cpu i else none;
  proc_class = λ i. if is_live live i then m.proc_class i else none;
  proc_activity = λ i. if is_live live i then m.proc_activity i else idle_state;
  proc_pane = λ i. if is_live live i then m.proc_pane i else none;
}

-- `none` for the processes is a failed `ps`: no signal, and the sweep finds no process alive.
unfoldable pub collect_agent_signals :
    AgentConfig
    → Probes
    → CacheSnapshot
    → Bool
    → Option (List ProcessSample)
    → Procs
    → List Signal × Procs
unfolding visit_all sweep
collect_agent_signals cfg probes snap present none m = ([], sweep [] m)
collect_agent_signals cfg probes snap present (some procs) m =
    let (out, m') = visit_all cfg probes snap present procs m in (out, sweep procs m')
