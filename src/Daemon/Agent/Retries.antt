-- ===== src/Daemon/Agent/Retries.antt =====
-- `collectAgentSignals` in internal/daemon/pipeline.go: what failed lookups of a process's workspace cost.
use antitimely.Prelude.{
  ap, ◌∙◌, ◌≡◌, refl, ◌⊎◌, inl, inr, true, false, Option, none, some, List, [], ◌∷◌, arith, All,
}
use antitimely.Prelude.Text.{Str}
use antitimely.Domain.Signal.{Signal}
use antitimely.Domain.Cwd.{is_nil}
use antitimely.Daemon.Cache.{CacheSnapshot}
use antitimely.Daemon.Agent.{
  ProcessSample, ProcClass, Probes, Procs, cwd_matches_any_pattern, pane_of, space_of, judge,
  class_of, emit, agent_signal,
}

-- The emissions of a working process, one for each tick's answers.
unfoldable pub emit_all :
    CacheSnapshot → ProcessSample → List Probes → Procs → List (Option Signal) × Procs
emit_all snap proc [] m = ([], m)
emit_all snap proc (probes ∷ later) m =
    let (sig, m') = emit probes snap proc m in
    let (sigs, m'') = emit_all snap proc later m' in (sig ∷ sigs, m'')

module _ (snap : CacheSnapshot) (proc : ProcessSample) (pane space cwd : Str) where
  -- Only the workspace can bring the process in: the program is off the allowlist, no rule covers the
  -- directory, and a rule names the workspace.
  pub record IsBoundOnly : Type 0 where
    pub in_pane : is_nil pane ≡ false
    pub in_dir : is_nil cwd ≡ false
    pub in_space : is_nil space ≡ false
    pub off_list : snap.allowed_binaries proc.name ≡ false
    pub off_rules : cwd_matches_any_pattern cwd snap.cwd_patterns ≡ false
    pub bound : snap.bound_space_ids space ≡ true

  -- The process answers for its pane and its directory, and herdr for the pane's workspace.
  pub record Answers (workspace : Option Str) (probes : Probes) : Type 0 where
    pub pane_answer : probes.env_var proc.pid ≡ some pane
    pub dir_answer : probes.process_cwd proc.pid ≡ some cwd
    pub space_answer : probes.space_for_pane pane ≡ workspace

  -- What is remembered of the process is nothing, or is of this pane and this directory, with no
  -- verdict that is kept.
  pub record IsOpen (m : Procs) : Type 0 where
    pub pane_open : (m.proc_pane proc.pid ≡ none) ⊎ (m.proc_pane proc.pid ≡ some pane)
    pub class_open :
        (m.proc_class proc.pid ≡ none)
        ⊎ ((c : ProcClass) × (m.proc_class proc.pid ≡ some c)
            × (c.cwd ≡ cwd)
            × (c.track_final ≡ false))

  pane_of-open :
      (workspace : Option Str) (probes : Probes) (m : Procs)
      → Answers workspace probes
      → IsOpen m
      → ((pane_of probes proc.pid m).0 ≡ some pane)
        × ((pane_of probes proc.pid m).1.proc_pane proc.pid ≡ some pane)
        × ((pane_of probes proc.pid m).1.proc_class ≡ m.proc_class)
  unfolding pane_of
  pane_of-open workspace probes m a o = elim o.pane_open [
    | inl p ↦ (ground (arith, a.pane_answer), ground (arith, a.pane_answer), ground arith)
    | inr p ↦ (ground arith, ground arith, ground arith)
  ]

  class_of-open :
      (workspace : Option Str) (probes : Probes) (m m' : Procs)
      → IsBoundOnly
      → Answers workspace probes
      → IsOpen m
      → m'.proc_class ≡ m.proc_class
      → (c : ProcClass) × (class_of probes proc m' ≡ some c)
        × (c.cwd ≡ cwd)
        × (c.track_final ≡ false)
  unfolding class_of
  class_of-open workspace probes m m' b a o same = elim o.class_open [
    | inl k ↦ fresh cwd b.in_dir a.dir_answer (ap (λ f. f proc.pid) same ∙ k)
    | inr (c, k, d, f) ↦ (c, rw (ap (λ f. f proc.pid) same ∙ k, class_of) refl, d, f)
  ]
    where
      fresh :
          (dir : Str)
          → is_nil dir ≡ false
          → probes.process_cwd proc.pid ≡ some dir
          → m'.proc_class proc.pid ≡ none
          → (c : ProcClass) × (class_of probes proc m' ≡ some c)
            × (c.cwd ≡ dir)
            × (c.track_final ≡ false)
      fresh [] n e k = absurd (cc n)
      fresh (d ∷ dir) n e k = (
        record { name = proc.name; cwd = d ∷ dir; track = false; track_final = false },
        rw (k, class_of) (rw (e, class_of) refl),
        refl,
        refl,
      )

  emit-none :
      (probes : Probes) (m : Procs)
      → IsBoundOnly
      → Answers none probes
      → IsOpen m
      → ((emit probes snap proc m).0 ≡ none) × IsOpen (emit probes snap proc m).1
  unfolding emit space_of judge
  emit-none probes m b a o =
      let (at, kept, same) = pane_of-open none probes m a o in
      let (c, k, d, f) = class_of-open none probes m (pane_of probes proc.pid m).1 b a o same in
      let inside = b.in_pane in
      let answer = a.space_answer in
      (
        ground (arith, b.off_list, b.off_rules),
        record {
          pane_open = inr (ground (arith, b.off_list, b.off_rules));
          class_open = inr (
            judge snap proc.name ([], false) c,
            ground (arith, b.off_list, b.off_rules),
            ground (arith, b.off_list, b.off_rules),
            ground (arith, b.off_list, b.off_rules),
          );
        },
      )

  emit-some :
      (probes : Probes) (m : Procs)
      → IsBoundOnly
      → Answers (some space) probes
      → IsOpen m
      → (emit probes snap proc m).0 ≡ some (agent_signal proc.name cwd space)
  unfolding emit space_of judge
  emit-some probes m b a o =
      let (at, kept, same) = pane_of-open (some space) probes m a o in
      let (c, k, d, f) =
        class_of-open (some space) probes m (pane_of probes proc.pid m).1 b a o same in
      let inside = b.in_pane in
      let answer = a.space_answer in ground (arith, b.off_list, b.off_rules, b.bound, b.in_space)

  -- A process whose pane's workspace has a rule, in a directory with no rule and off the allowlist, is not
  -- emitted in any number of ticks in which herdr fails to name the workspace, and no failure is kept:
  -- in the first tick in which herdr answers it is emitted, with the workspace. The process has a pane
  -- and a directory, and answers for both in each of the ticks; before, no verdict is kept of it.
  pub emit_all-retries :
      (failing : List Probes) (probes : Probes) (m : Procs)
      → IsBoundOnly
      → All (Answers none) failing
      → Answers (some space) probes
      → IsOpen m
      → let x = emit_all snap proc failing m in
        All (λ sig. sig ≡ none) x.0
        × ((emit probes snap proc x.1).0 ≡ some (agent_signal proc.name cwd space))
  unfolding emit_all
  emit_all-retries [] probes m b fs a o = (tt, emit-some probes m b a o)
  emit_all-retries (p ∷ failing) probes m b (f, fs) a o =
      let (silent, o') = emit-none p m b f o in
      let (later, found) = emit_all-retries failing probes (emit p snap proc m).1 b fs a o' in
      ((silent, later), found)
