-- ===== src/Daemon/Agent/Emission.antt =====
-- `collectAgentSignals` in internal/daemon/pipeline.go: which processes emit, and which verdicts are kept.
use antitimely.Prelude.{
  each_entry, ℕ, ◌-◌, ◌≡◌, refl, ◌⊎◌, inl, inr, Bool, true, false, Option, none, some, List, [],
  ◌∷◌, arith, Bool-cases, Option-cases, All, ap, sym, ◌∙◌, subst, ◌==◌, ltb, In, ==_iff,
}
use antitimely.Prelude.{if◌then◌else◌}
use antitimely.Prelude.Maps.{update}
use antitimely.Prelude.Text.{Str, str_eq_iff}
use antitimely.Domain.Signal.{Source, Signal}
use antitimely.Domain.Cwd.{is_nil}
use antitimely.Daemon.Cache.{CacheSnapshot}
use antitimely.Daemon.Busy.{ActivityState, classify}
use antitimely.Daemon.Agent.{
  ProcessSample, ProcClass, AgentConfig, Probes, Procs, cwd_matches_any_pattern, forget, check_name,
  pane_of, space_of, judge, class_of, emit, measure, visit, visit_all, sweep, is_live, add_signal,
  collect_agent_signals, agent_signal, renamed, threshold,
}

-- What herdr has said: the pane that the environment of a process names, and the workspace of a pane.
module _ (own : ℕ → Str → Type 0) (names : Str → Str → Type 0) where
  -- The program is on the allowlist, or a rule covers the directory, or a rule names the workspace that
  -- herdr gave for the pane of this process.
  abbrev pub Tracked : CacheSnapshot → ℕ → Str → Str → Type 0
  Tracked snap i name cwd =
      (snap.allowed_binaries name ≡ true)
      ⊎ (cwd_matches_any_pattern cwd snap.cwd_patterns ≡ true)
      ⊎ ((pane space : Str) × own i pane × names pane space × (snap.bound_space_ids space ≡ true))

  -- The answers of this tick are among those.
  pub record Fits (probes : Probes) : Type 0 where
    pub panes : (i : ℕ) (pane : Str) → probes.env_var i ≡ some pane → own i pane
    pub spaces : (pane space : Str) → probes.space_for_pane pane ≡ some space → names pane space

  -- What is remembered is right for the snapshot: the panes and the verdicts.
  pub record IsSound (snap : CacheSnapshot) (m : Procs) : Type 0 where
    pub panes : (i : ℕ) (pane : Str) → m.proc_pane i ≡ some pane → own i pane
    pub verdicts :
        (i : ℕ) (c : ProcClass)
        → m.proc_class i ≡ some c
        → c.track ≡ true
        → Tracked snap i c.name c.cwd

  -- A workspace, where there is one, is the one herdr gave for the pane of the process.
  abbrev Housed : ℕ → Str → Type 0
  Housed i space = is_nil space ≡ false → (pane : Str) × own i pane × names pane space

  space_of-Housed :
      (probes : Probes) (i : ℕ) (pane : Option Str)
      → Fits probes
      → ((v : Str) → pane ≡ some v → own i v)
      → Housed i (space_of probes pane).0
  unfolding space_of
  space_of-Housed probes i none f o n = absurd (cc n)
  space_of-Housed probes i (some []) f o n = absurd (cc n)
  space_of-Housed probes i (some (c ∷ pane)) f o n =
      elim (Option-cases (probes.space_for_pane (c ∷ pane))) [
        | inl e ↦ absurd (cc (rw (e, is_nil) at n))
        | inr (space, e) ↦
            rw (e, space_of) (c ∷ pane, o (c ∷ pane) refl, f.spaces (c ∷ pane) space e)
      ]

  judge-Tracked :
      (snap : CacheSnapshot) (i : ℕ) (space : Str × Bool) (c : ProcClass)
      → Housed i space.0
      → (c.track ≡ true → Tracked snap i c.name c.cwd)
      → (judge snap c.name space c).track ≡ true
      → Tracked snap i c.name c.cwd
  unfolding judge
  judge-Tracked snap i (space, known) c housed h t = elim (Bool-cases c.track_final) [
    | inl f ↦ h (ground arith)
    | inr f ↦ elim (Bool-cases (snap.allowed_binaries c.name)) [
      | inl a ↦ inl a
      | inr a ↦ elim (Bool-cases (cwd_matches_any_pattern c.cwd snap.cwd_patterns)) [
        | inl p ↦ inr (inl p)
        | inr p ↦
            let (pane, at, named) = housed (ground arith) in
            inr (inr (pane, space, at, named, ground arith))
      ]
    ]
  ]

  judge-same :
      (snap : CacheSnapshot) (name : Str) (space : Str × Bool) (c : ProcClass)
      → ((judge snap name space c).name ≡ c.name) × ((judge snap name space c).cwd ≡ c.cwd)
  unfolding judge
  judge-same snap name (space, known) c = ground arith

  pane_of-class :
      (probes : Probes) (i : ℕ) (m : Procs) → (pane_of probes i m).1.proc_class ≡ m.proc_class
  unfolding pane_of
  pane_of-class probes i m = ground arith

  -- The remembered class belongs to a process of this name.
  abbrev Named : ProcessSample → Procs → Type 0
  Named proc m = (c : ProcClass) → m.proc_class proc.pid ≡ some c → c.name ≡ proc.name

  class_of_sound :
      (probes : Probes) (snap : CacheSnapshot) (proc : ProcessSample) (m : Procs) (c : ProcClass)
      → IsSound snap m
      → Named proc m
      → class_of probes proc m ≡ some c
      → (c.name ≡ proc.name) × (c.track ≡ true → Tracked snap proc.pid c.name c.cwd)
  unfolding class_of
  class_of_sound probes snap proc m c h n e = elim (Option-cases (m.proc_class proc.pid)) [
    | inl absent ↦ (ground arith, λ t. absurd (ground arith))
    | inr (k, held) ↦
        let same : k ≡ c = ground arith in
        (sym (ap (λ x. x.name) same) ∙ n k held, h.verdicts proc.pid c (held ∙ ap some same))
  ]

  -- What a signal of the collector is.
  abbrev pub IsAgentOf : CacheSnapshot → ProcessSample → Signal → Type 0
  IsAgentOf snap proc s =
      (s.source ≡ Source.agent)
      × (s.binary_name ≡ proc.name)
      × Tracked snap proc.pid s.binary_name s.cwd

  -- The outcome of a visit: a signal is one of the process, and the verdicts stay right.
  abbrev Outcome : CacheSnapshot → ProcessSample → Option Signal × Procs → Type 0
  Outcome snap proc (sig, m) =
      ((s : Signal) → sig ≡ some s → IsAgentOf snap proc s) × IsSound snap m

  emitted-Outcome :
      (snap : CacheSnapshot) (proc : ProcessSample) (c : ProcClass) (space : Str) (m : Procs)
      → c.name ≡ proc.name
      → (c.track ≡ true → Tracked snap proc.pid c.name c.cwd)
      → IsSound snap m
      → Outcome snap proc (
        if c.track then some (agent_signal proc.name c.cwd space) else none,
        record m { proc_class = update proc.pid (some c) m.proc_class },
      )
  emitted-Outcome snap proc c space m name was h = (
    (λ s k. elim (Bool-cases c.track) [
      | inl t ↦
          let e : agent_signal proc.name c.cwd space ≡ s = ground arith in
          subst (IsAgentOf snap proc) e
            (refl, refl, subst (λ n. Tracked snap proc.pid n c.cwd) name (was t))
      | inr t ↦ absurd (ground arith)
    ]),
    record {
      panes = h.panes;
      verdicts = λ i d e t. elim (Bool-cases (i == proc.pid)) [
        | inl same ↦
            let k : some c ≡ some d = rw same at e in
            let q : c ≡ d = cc in
            subst (λ j. Tracked snap j d.name d.cwd) (sym ((==_iff i proc.pid).0 same))
              (subst (λ x. Tracked snap proc.pid x.name x.cwd) q (was (ap (λ x. x.track) q ∙ t)))
        | inr other ↦ h.verdicts i d (rw other at e) t
      ];
    },
  )

  pane_of_sound :
      (probes : Probes) (i : ℕ) (m : Procs)
      → Fits probes
      → ((j : ℕ) (v : Str) → m.proc_pane j ≡ some v → own j v)
      → ((v : Str) → (pane_of probes i m).0 ≡ some v → own i v)
        × ((j : ℕ) (v : Str) → (pane_of probes i m).1.proc_pane j ≡ some v → own j v)
  unfolding pane_of
  pane_of_sound probes i m f h = elim (Option-cases (m.proc_pane i)) [
    | inr (v, held) ↦ rw (held, pane_of) ((λ w e. h i w (held ∙ e)), h)
    | inl absent ↦
        rw (absent, pane_of)
          (elim (Option-cases (probes.env_var i)) [
            | inl e ↦ rw e ((λ w k. absurd (cc k)), h)
            | inr (v, e) ↦ rw e (
              (λ w k. f.panes i w (e ∙ k)),
              (λ j w k. elim (Bool-cases (j == i)) [
                | inl same ↦
                    subst (λ x. own x w) (sym ((==_iff j i).0 same))
                      (f.panes i w (e ∙ (rw same at k)))
                | inr other ↦ h j w (rw other at k)
              ]),
            )
          ])
  ]

  emit-Outcome :
      (probes : Probes) (snap : CacheSnapshot) (proc : ProcessSample) (m : Procs)
      → Fits probes
      → IsSound snap m
      → Named proc m
      → Outcome snap proc (emit probes snap proc m)
  unfolding emit
  emit-Outcome probes snap proc m f h n = go (class_of probes proc m') refl
    where
      m' : Procs
      m' = (pane_of probes proc.pid m).1

      space : Str × Bool
      space = space_of probes (pane_of probes proc.pid m).0

      m'-IsSound : IsSound snap m'
      m'-IsSound = record {
        panes = (pane_of_sound probes proc.pid m f h.panes).1;
        verdicts =
            λ i c e. h.verdicts i c (sym (ap (λ f. f i) (pane_of-class probes proc.pid m)) ∙ e);
      }

      m'-Named : Named proc m'
      m'-Named c e = n c (sym (ap (λ f. f proc.pid) (pane_of-class probes proc.pid m)) ∙ e)

      housed : Housed proc.pid space.0
      housed = space_of-Housed probes proc.pid _ f (pane_of_sound probes proc.pid m f h.panes).0

      go :
          (o : Option ProcClass)
          → class_of probes proc m' ≡ o
          → Outcome snap proc (elim o as (λ x. Option Signal × Procs) [
            | none ↦ (none, m')
            | some c ↦
                let c' = judge snap proc.name space c in
                let m'' = record m' { proc_class = update proc.pid (some c') m'.proc_class } in
                (if c'.track then some (agent_signal proc.name c'.cwd space.0) else none, m'')
          ])
      go none e = (λ s k. cc, m'-IsSound)
      go (some c) e =
          let (name, was) = class_of_sound probes snap proc m' c m'-IsSound m'-Named e in
          let (named, placed) = judge-same snap proc.name space c in
          emitted-Outcome snap proc (judge snap proc.name space c) space.0 m' (named ∙ name)
            (λ t.
              subst (λ n. Tracked snap proc.pid n (judge snap proc.name space c).cwd) (sym named)
                (subst (Tracked snap proc.pid c.name) (sym placed) (
                  judge-Tracked snap proc.pid space c housed was
                    (subst (λ n. (judge snap n space c).track ≡ true) (sym name) t))))
            m'-IsSound

  forget-IsSound :
      (snap : CacheSnapshot) (i : ℕ) (m : Procs) → IsSound snap m → IsSound snap (forget i m)
  unfolding forget
  forget-IsSound snap i m h = record {
    panes = λ j v e. elim (Bool-cases (j == i)) [
      | inl same ↦ absurd (cc (rw same at e))
      | inr other ↦ h.panes j v (rw other at e)
    ];
    verdicts = λ j c e t. elim (Bool-cases (j == i)) [
      | inl same ↦ absurd (cc (rw same at e))
      | inr other ↦ h.verdicts j c (rw other at e) t
    ];
  }

  -- Nothing that is sound to remember depends on the counters or on the activity.
  same-IsSound :
      (snap : CacheSnapshot) (m m' : Procs)
      → m'.proc_class ≡ m.proc_class
      → m'.proc_pane ≡ m.proc_pane
      → IsSound snap m
      → IsSound snap m'
  same-IsSound snap m m' classes panes h = record {
    panes = λ i v e. h.panes i v (sym (ap (λ f. f i) panes) ∙ e);
    verdicts = λ i c e. h.verdicts i c (sym (ap (λ f. f i) classes) ∙ e);
  }

  check_name-IsSound :
      (snap : CacheSnapshot) (proc : ProcessSample) (m : Procs)
      → IsSound snap m
      → IsSound snap (check_name proc m)
  unfolding check_name
  check_name-IsSound snap proc m h = elim (Bool-cases (renamed (m.proc_class proc.pid) proc.name)) [
    | inl e ↦ rw e (forget-IsSound snap proc.pid m h)
    | inr e ↦ rw e h
  ]

  check_name-Named : (proc : ProcessSample) (m : Procs) → Named proc (check_name proc m)
  unfolding check_name forget
  check_name-Named proc m c e = ground (arith, str_eq_iff c.name proc.name)

  measured-Outcome :
      (probes : Probes) (snap : CacheSnapshot) (proc : ProcessSample) (st : ActivityState)
      (m : Procs)
      → Fits probes
      → IsSound snap m
      → Named proc m
      → Outcome snap proc (if st.working then emit probes snap proc m else (none, m))
  measured-Outcome probes snap proc st m f h n = elim (Bool-cases st.working) [
    | inl w ↦ rw w (emit-Outcome probes snap proc m f h n)
    | inr w ↦ rw w ((λ s k. cc), h)
  ]

  measure-Outcome :
      (cfg : AgentConfig) (probes : Probes) (snap : CacheSnapshot) (present : Bool)
      (proc : ProcessSample) (prev : ℕ) (m : Procs)
      → Fits probes
      → IsSound snap m
      → Named proc m
      → Outcome snap proc (measure cfg probes snap present proc prev m)
  unfolding measure
  measure-Outcome cfg probes snap present proc prev m f h n =
      let st =
        classify cfg.agent_busy_rise_ticks cfg.agent_busy_fall_ticks (threshold cfg present)
          (proc.cpu_ticks - prev) (m.proc_activity proc.pid) in
      measured-Outcome probes snap proc st
        (record m { proc_activity = update proc.pid st m.proc_activity }) f
        (same-IsSound snap m _ refl refl h) n

  visit-Outcome :
      (cfg : AgentConfig) (probes : Probes) (snap : CacheSnapshot) (present : Bool)
      (proc : ProcessSample) (m : Procs)
      → Fits probes
      → IsSound snap m
      → Outcome snap proc (visit cfg probes snap present proc m)
  unfolding visit
  visit-Outcome cfg probes snap present proc m f h = elim (Option-cases (m.prev_cpu proc.pid)) [
    | inl fresh ↦ rw (fresh, visit) ((λ s k. cc), same-IsSound snap m _ refl refl h)
    | inr (prev, seen) ↦
        rw (seen, visit)
          (elim (Bool-cases (ltb proc.cpu_ticks prev)) [
            | inl back ↦ rw back ((λ s k. cc), forget-IsSound snap proc.pid m'' sound)
            | inr on ↦ rw on (
                measure-Outcome cfg probes snap present proc prev m'' f sound
                  (check_name-Named proc m'))
          ])
  ]
    where
      m' : Procs
      m' = record m { prev_cpu = update proc.pid (some proc.cpu_ticks) m.prev_cpu }

      m'' : Procs
      m'' = check_name proc m'

      sound : IsSound snap m''
      sound = check_name-IsSound snap proc m' (same-IsSound snap m m' refl refl h)

  -- The signal is one of a process of the list.
  abbrev pub EmittedBy : CacheSnapshot → List ProcessSample → Signal → Type 0
  EmittedBy snap procs s = (proc : ProcessSample) × In proc procs × IsAgentOf snap proc s

  abbrev AllOutcome : CacheSnapshot → List ProcessSample → List Signal × Procs → Type 0
  AllOutcome snap procs (out, m) =
      ((s : Signal) → In s out → EmittedBy snap procs s) × IsSound snap m

  add_signal-Outcome :
      (snap : CacheSnapshot) (proc : ProcessSample) (procs : List ProcessSample)
      (sig : Option Signal) (rest : List Signal × Procs)
      → ((s : Signal) → sig ≡ some s → IsAgentOf snap proc s)
      → AllOutcome snap procs rest
      → AllOutcome snap (proc ∷ procs) (add_signal sig rest.0, rest.1)
  add_signal-Outcome snap proc procs none (out, m) own (later, sound) =
      ((λ s i. let (q, at_q, of_q) = later s i in (q, inr at_q, of_q)), sound)
  add_signal-Outcome snap proc procs (some t) (out, m) own (later, sound) = (
    (λ s i. elim i [
      | inl e ↦ (proc, inl refl, own s (ap some (sym e)))
      | inr i' ↦ let (q, at_q, of_q) = later s i' in (q, inr at_q, of_q)
    ]),
    sound,
  )

  visit_all-Outcome :
      (cfg : AgentConfig) (probes : Probes) (snap : CacheSnapshot) (present : Bool)
      (procs : List ProcessSample) (m : Procs)
      → Fits probes
      → IsSound snap m
      → AllOutcome snap procs (visit_all cfg probes snap present procs m)
  unfolding visit_all
  visit_all-Outcome cfg probes snap present [] m f h = ((λ s i. absurd i), h)
  visit_all-Outcome cfg probes snap present (proc ∷ procs) m f h =
      let first = visit cfg probes snap present proc m in
      let (own, sound) = visit-Outcome cfg probes snap present proc m f h in
      add_signal-Outcome snap proc procs first.0 (visit_all cfg probes snap present procs first.1)
        own (visit_all-Outcome cfg probes snap present procs first.1 f sound)

  sweep-IsSound :
      (snap : CacheSnapshot) (live : List ProcessSample) (m : Procs)
      → IsSound snap m
      → IsSound snap (sweep live m)
  unfolding sweep
  sweep-IsSound snap live m h = record {
    panes = λ i v e. elim (Bool-cases (is_live live i)) [
      | inl l ↦ h.panes i v (rw l at e)
      | inr l ↦ absurd (cc (rw l at e))
    ];
    verdicts = λ i c e t. elim (Bool-cases (is_live live i)) [
      | inl l ↦ h.verdicts i c (rw l at e) t
      | inr l ↦ absurd (cc (rw l at e))
    ];
  }

  -- Where what is remembered is right, of whatever herdr has said so far and says in this tick, a tick
  -- emits only agent signals, each of a process that `ps` listed, with its name, and tracked: the
  -- program is on the allowlist, or a rule covers the directory, or a rule names the workspace that
  -- herdr gave for the process's own pane. What the tick leaves remembered is right again.
  pub collect_agent_signals-Tracked :
      (cfg : AgentConfig) (probes : Probes) (snap : CacheSnapshot) (present : Bool)
      (procs : List ProcessSample) (m : Procs)
      → Fits probes
      → IsSound snap m
      → All (EmittedBy snap procs) (collect_agent_signals cfg probes snap present (some procs) m).0
        × IsSound snap (collect_agent_signals cfg probes snap present (some procs) m).1
  unfolding collect_agent_signals
  collect_agent_signals-Tracked cfg probes snap present procs m f h =
      let (own, sound) = visit_all-Outcome cfg probes snap present procs m f h in
      (
        each_entry (EmittedBy snap procs) (visit_all cfg probes snap present procs m).0 own,
        sweep-IsSound snap procs (visit_all cfg probes snap present procs m).1 sound,
      )
