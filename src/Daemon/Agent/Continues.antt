-- ===== src/Daemon/Agent/Continues.antt =====
-- `collectAgentSignals` in internal/daemon/pipeline.go over two ticks: its sweep and its CPU counters.
use antitimely.Prelude.{
  ℕ, ◌-◌, ◌≡◌, refl, ◌∙◌, ap, ◌≢◌, inl, inr, Bool, true, false, Option, none, some, List, [], ◌∷◌,
  arith, All, All-mono, In, Bool-cases, Option-cases, ltb, ==_ne,
}
use antitimely.Prelude.Maps.{update}
use antitimely.Domain.Signal.{Source, Signal, is_agent}
use antitimely.Daemon.Cache.{CacheSnapshot}
use antitimely.Daemon.Busy.{classify, ActivityState}
use antitimely.Daemon.Agent.{
  ProcessSample, AgentConfig, Probes, Procs, pane_of, class_of, emit, measure, visit, visit_all,
  check_name, forget, sweep, is_live, add_signal, collect_agent_signals, threshold,
}
use antitimely.Prelude.{if◌then◌else◌}

abbrev pub listed : Option (List ProcessSample) → List ProcessSample
listed none = []
listed (some procs) = procs

-- `ps` lists each process id once.
abbrev pub Distinct : List ProcessSample → Type 0
Distinct [] = Unit
Distinct (p ∷ ps) = All (λ (q : ProcessSample). q.pid ≢ p.pid) ps × Distinct ps

emit-prev_cpu :
    (probes : Probes) (snap : CacheSnapshot) (proc : ProcessSample) (m : Procs)
    → (emit probes snap proc m).1.prev_cpu ≡ m.prev_cpu
unfolding emit pane_of class_of
emit-prev_cpu probes snap proc m = ground arith

check_name-prev_cpu : (proc : ProcessSample) (m : Procs) → (check_name proc m).prev_cpu ≡ m.prev_cpu
unfolding check_name forget
check_name-prev_cpu proc m = ground arith

-- An agent signal with the program's name.
abbrev pub IsOf : ProcessSample → Signal → Type 0
IsOf proc s = (s.source ≡ Source.agent) × (s.binary_name ≡ proc.name)

emit-IsOf :
    (probes : Probes) (snap : CacheSnapshot) (proc : ProcessSample) (m : Procs) (s : Signal)
    → (emit probes snap proc m).0 ≡ some s
    → IsOf proc s
unfolding emit
emit-IsOf probes snap proc m s e = (ground arith, ground arith)

-- The signal is one of a process of this list whose id the earlier list has too.
abbrev pub ContinuedBy : List ProcessSample → List ProcessSample → Signal → Type 0
ContinuedBy earlier procs s =
    (proc : ProcessSample) × In proc procs × (is_live earlier proc.pid ≡ true) × IsOf proc s

add_signal-ContinuedBy :
    (earlier : List ProcessSample) (proc : ProcessSample) (procs : List ProcessSample)
    (o : Option Signal) (out : List Signal)
    → ((s : Signal) → o ≡ some s → (is_live earlier proc.pid ≡ true) × IsOf proc s)
    → All (ContinuedBy earlier procs) out
    → All (ContinuedBy earlier (proc ∷ procs)) (add_signal o out)
add_signal-ContinuedBy earlier proc procs none out h k =
    All-mono _ _ out (λ s x. (x.0, inr x.1, x.2, x.3)) k
add_signal-ContinuedBy earlier proc procs (some s) out h k = (
  (let (live, name) = h s refl in (proc, inl refl, live, name)),
  All-mono _ _ out (λ s x. (x.0, inr x.1, x.2, x.3)) k,
)

module _ (cfg : AgentConfig) (probes : Probes) (snap : CacheSnapshot) (present : Bool) where
  worked :
      (proc : ProcessSample) (st : ActivityState) (m : Procs)
      → (if st.working then emit probes snap proc m else (none, m)).1.prev_cpu ≡ m.prev_cpu
  worked proc st m = elim (Bool-cases st.working) [
    | inl w ↦ rw w (emit-prev_cpu probes snap proc m)
    | inr w ↦ rw w refl
  ]

  worked-IsOf :
      (proc : ProcessSample) (st : ActivityState) (m : Procs) (s : Signal)
      → (if st.working then emit probes snap proc m else (none, m)).0 ≡ some s
      → IsOf proc s
  worked-IsOf proc st m s e = elim (Bool-cases st.working) [
    | inl w ↦ emit-IsOf probes snap proc m s (rw w at e)
    | inr w ↦ absurd (cc (rw w at e))
  ]

  -- The verdict on the CPU of the process, and what is remembered with it.
  abbrev judged : ProcessSample → ℕ → Procs → ActivityState
  judged proc prev m =
      classify cfg.agent_busy_rise_ticks cfg.agent_busy_fall_ticks (threshold cfg present)
        (proc.cpu_ticks - prev) (m.proc_activity proc.pid)

  abbrev active : ProcessSample → ℕ → Procs → Procs
  active proc prev m = record m {
    proc_activity = update proc.pid (judged proc prev m) m.proc_activity;
  }

  measure-prev_cpu :
      (proc : ProcessSample) (prev : ℕ) (m : Procs)
      → (measure cfg probes snap present proc prev m).1.prev_cpu ≡ m.prev_cpu
  unfolding measure
  measure-prev_cpu proc prev m = worked proc (judged proc prev m) (active proc prev m)

  measure-IsOf :
      (proc : ProcessSample) (prev : ℕ) (m : Procs) (s : Signal)
      → (measure cfg probes snap present proc prev m).0 ≡ some s
      → IsOf proc s
  unfolding measure
  measure-IsOf proc prev m s e = worked-IsOf proc (judged proc prev m) (active proc prev m) s e

  visit-prev_cpu :
      (proc : ProcessSample) (m : Procs)
      → (visit cfg probes snap present proc m).1.prev_cpu
        ≡ update proc.pid (some proc.cpu_ticks) m.prev_cpu
  unfolding visit
  visit-prev_cpu proc m = elim (Option-cases (m.prev_cpu proc.pid)) [
    | inl fresh ↦ rw (fresh, visit) refl
    | inr (prev, seen) ↦
        rw (seen, visit)
          (elim (Bool-cases (ltb proc.cpu_ticks prev)) [
            | inl back ↦ rw (back, forget) (check_name-prev_cpu proc m')
            | inr on ↦
                rw on
                  (measure-prev_cpu proc prev (check_name proc m') ∙ check_name-prev_cpu proc m')
          ])
  ]
    where
      m' : Procs
      m' = record m { prev_cpu = update proc.pid (some proc.cpu_ticks) m.prev_cpu }

  -- A visit brings a signal only of a process whose CPU counter was remembered, and with its name.
  visit-some :
      (proc : ProcessSample) (m : Procs) (s : Signal)
      → (visit cfg probes snap present proc m).0 ≡ some s
      → (m.prev_cpu proc.pid ≢ none) × IsOf proc s
  unfolding visit
  visit-some proc m s e = elim (Option-cases (m.prev_cpu proc.pid)) [
    | inl fresh ↦ absurd (cc (rw (fresh, visit) at e))
    | inr (prev, seen) ↦ (
      (λ n. cc),
      elim (Bool-cases (ltb proc.cpu_ticks prev)) [
        | inl back ↦ absurd (cc (rw back at (rw (seen, visit) at e)))
        | inr on ↦
            measure-IsOf proc prev
              (check_name proc
                (record m { prev_cpu = update proc.pid (some proc.cpu_ticks) m.prev_cpu }))
              s (rw on at (rw (seen, visit) at e))
      ],
    )
  ]

  -- Where the counter of each process is remembered only if the process was in the earlier list.
  abbrev OnlyOf : List ProcessSample → List ProcessSample → Procs → Type 0
  OnlyOf earlier procs m =
      All (λ (q : ProcessSample). is_live earlier q.pid ≡ false → m.prev_cpu q.pid ≡ none) procs

  visit-OnlyOf :
      (earlier : List ProcessSample) (proc : ProcessSample) (procs : List ProcessSample) (m : Procs)
      → All (λ (q : ProcessSample). q.pid ≢ proc.pid) procs
      → OnlyOf earlier procs m
      → OnlyOf earlier procs (visit cfg probes snap present proc m).1
  visit-OnlyOf earlier proc [] m ne h = tt
  visit-OnlyOf earlier proc (q ∷ procs) m (n, ne) (h, hs) = (
    (λ gone. ap (λ f. f q.pid) (visit-prev_cpu proc m) ∙ (rw (==_ne q.pid proc.pid n) (h gone))),
    visit-OnlyOf earlier proc procs m ne hs,
  )

  -- Whatever is remembered, the collector brings agent signals only.
  pub visit_all-is_agent :
      (procs : List ProcessSample) (m : Procs)
      → All (λ s. is_agent s ≡ true) (visit_all cfg probes snap present procs m).0
  unfolding visit_all
  visit_all-is_agent [] m = tt
  visit_all-is_agent (proc ∷ procs) m =
      go (visit cfg probes snap present proc m).0 _ refl
        (visit_all-is_agent procs (visit cfg probes snap present proc m).1)
    where
      go :
          (o : Option Signal) (out : List Signal)
          → (visit cfg probes snap present proc m).0 ≡ o
          → All (λ s. is_agent s ≡ true) out
          → All (λ s. is_agent s ≡ true) (add_signal o out)
      go none out e h = h
      go (some s) out e h =
          (ap (λ x. is_agent (record s { source = x })) (visit-some proc m s e).1.0, h)

  visit_all-ContinuedBy :
      (earlier procs : List ProcessSample) (m : Procs)
      → Distinct procs
      → OnlyOf earlier procs m
      → All (ContinuedBy earlier procs) (visit_all cfg probes snap present procs m).0
  unfolding visit_all
  visit_all-ContinuedBy earlier [] m d h = tt
  visit_all-ContinuedBy earlier (proc ∷ procs) m (ne, d) (h, hs) =
      add_signal-ContinuedBy earlier proc procs (visit cfg probes snap present proc m).0 _
        (λ s e.
          let (held, name) = visit-some proc m s e in
          (
            elim (Bool-cases (is_live earlier proc.pid)) [
              | inl live ↦ live
              | inr gone ↦ absurd (held (h gone))
            ],
            name,
          ))
        (visit_all-ContinuedBy earlier procs (visit cfg probes snap present proc m).1 d
          (visit-OnlyOf earlier proc procs m ne hs))

sweep-OnlyOf :
    (earlier procs : List ProcessSample) (m : Procs)
    → All
        (λ (q : ProcessSample).
          is_live earlier q.pid ≡ false → (sweep earlier m).prev_cpu q.pid ≡ none)
        procs
unfolding sweep
sweep-OnlyOf earlier [] m = tt
sweep-OnlyOf earlier (q ∷ procs) m = ((λ gone. rw gone refl), sweep-OnlyOf earlier procs m)

-- Over two ticks, each signal of the second is of a process whose id both lists have: a process is
-- measured against the tick right before, so it brings no signal in the tick in which it appears, or
-- comes back after a tick without it. A failed `ps` lists none, so the tick after it brings no agent
-- signal at all. The second list has each id once; the configuration, the snapshot, the presence of
-- the user and what the system answers may differ between the ticks.
pub collect_agent_signals-ContinuedBy :
    (cfg cfg' : AgentConfig) (probes probes' : Probes) (snap snap' : CacheSnapshot)
    (present present' : Bool) (earlier : Option (List ProcessSample)) (procs : List ProcessSample)
    (m : Procs)
    → Distinct procs
    → let after = (collect_agent_signals cfg probes snap present earlier m).1 in
      All
        (ContinuedBy (listed earlier) procs)
        (collect_agent_signals cfg' probes' snap' present' (some procs) after).0
unfolding collect_agent_signals
collect_agent_signals-ContinuedBy cfg cfg' probes probes' snap snap' present present' none procs m
      d =
    visit_all-ContinuedBy cfg' probes' snap' present' [] procs (sweep [] m) d
      (sweep-OnlyOf [] procs m)
collect_agent_signals-ContinuedBy cfg cfg' probes probes' snap snap' present present' (some earlier)
      procs m d =
    let m' = (visit_all cfg probes snap present earlier m).1 in
    visit_all-ContinuedBy cfg' probes' snap' present' earlier procs (sweep earlier m') d
      (sweep-OnlyOf earlier procs m')
