-- ===== src/Daemon/Gate/Sustained.antt =====
-- Sustained agent activity brings an armed project back: the arming gate of `RunTick` in
-- internal/daemon/pipeline.go cannot drop time for ever, and counts a tick once.
use antitimely.Prelude.{
  ℕ, ◌+◌, ◌≤◌, ◌<◌, ◌≡◌, refl, Bool, true, false, ◌||◌, some, List, [], ◌∷◌, ◌==◌, arith, ◌∙◌, ap,
  length, All, In, inl, inr, subst, sym,
}
use antitimely.Domain.Signal.{Signal, RuleSpec, is_agent}
use antitimely.Domain.Rules.{match_rules}
use antitimely.Store.Tables.{Tick}
use antitimely.Store.Observing.{upsert_observation, has_tick, insert_tick}
use antitimely.Daemon.Cache.{add_suppressed, disarm_project}
use antitimely.Daemon.Gate.{Gate, TickEnv, Faults, process, process_all, record_signals, fresh_tick}
use antitimely.Daemon.Gate.Rows.{upsert_observation-keeps, process-RowOf}

-- Every database call succeeds.
abbrev pub no_faults : Faults
no_faults = record { upsert = false; ignored = false; resume = false; insert = false }

-- A tick with the user present, in which one process works, or several do.
abbrev pub Round : Type 0
Round = ℕ × Signal × List Signal

abbrev sure : List Signal → List (Signal × Faults)
sure [] = []
sure (s ∷ ss) = (s, no_faults) ∷ sure ss

abbrev pub agent_tick : ℕ → Round → Gate → Gate
agent_tick n (now, sig, sigs) g = record_signals now true n (sure (sig ∷ sigs)) g

-- An agent signal that the rules give to the project.
abbrev pub IsAgentOf : List RuleSpec → ℕ → Signal → Type 0
IsAgentOf rules p sig = (is_agent sig ≡ true) × (match_rules sig rules ≡ some p)

abbrev pub IsWork : List RuleSpec → ℕ → Round → Type 0
IsWork rules p (now, sig, sigs) = IsAgentOf rules p sig × All (IsAgentOf rules p) sigs

-- The project is armed and not paused, and nothing is ignored.
pub record IsWaiting (p : ℕ) (g : Gate) : Type 0 where
  pub armed : g.cache.snap.armed_projects p ≡ true
  pub unpaused : g.cache.snap.paused_project_ids p ≡ false
  pub heard : (i : ℕ) → g.db.ignored i ≡ false

-- No row of the second is there yet.
abbrev pub has_second : ℕ → List Tick → Bool
has_second now [] = false
has_second now (t ∷ ts) = (t.ts == now) || has_second now ts

has_second-has_tick :
    (now i : ℕ) (ts : List Tick) → has_second now ts ≡ false → has_tick now i ts ≡ false
unfolding has_tick
has_second-has_tick now i [] h = refl
has_second-has_tick now i (t ∷ ts) h = ground (arith, has_second-has_tick now i ts)

-- Within a tick that started at `g0`, after the project's tick was counted and dropped.
record IsDropped (p : ℕ) (g0 g : Gate) : Type 0 where
  counted : g.armed_counted_this_tick p ≡ true
  armed : g.disarmed_this_tick p ≡ false
  ticks : g.db.ticks ≡ g0.db.ticks
  snap : g.cache.snap ≡ g0.cache.snap
  ignored : g.db.ignored ≡ g0.db.ignored
  streak : g.armed_agent_streak p ≡ g0.armed_agent_streak p + 1

-- Within a tick in which the project was disarmed: a row for it, and nothing of the episode is left.
pub record IsBack (now p : ℕ) (g : Gate) : Type 0 where
  disarmed : g.disarmed_this_tick p ≡ true
  pub row :
      (obs : ℕ) × In (record { ts = now; observation_id = obs; project_id = some p }) g.db.ticks
  pub unarmed : g.cache.snap.armed_projects p ≡ false
  pub unsuppressed : g.cache.suppressed p ≡ 0
  pub restarted : g.armed_agent_streak p ≡ 0

module _ (n now p : ℕ) (g0 : Gate) (w : IsWaiting p g0) where
  abbrev env : TickEnv
  env = record { now = now; user_present = true; snap = g0.cache.snap; auto_disarm_agent_ticks = n }

  process-IsDropped :
      (sig : Signal)
      → IsAgentOf g0.cache.snap.rules p sig
      → g0.armed_agent_streak p + 1 < n
      → IsDropped p g0 (process env (sig, no_faults) (fresh_tick g0))
  unfolding process fresh_tick add_suppressed disarm_project
  process-IsDropped sig (agent, rule) lt =
      let keeps = upsert_observation-keeps sig now g0.db in
      let heard = w.heard (upsert_observation sig now g0.db).0 in
      let armed = w.armed in
      let unpaused = w.unpaused in
      record {
        counted = ground arith;
        armed = ground arith;
        ticks = ground arith;
        snap = ground arith;
        ignored = ground arith;
        streak = ground arith;
      }

  -- Another process of the project changes nothing but the observations.
  again-IsDropped :
      (sig : Signal) (g : Gate)
      → IsAgentOf g0.cache.snap.rules p sig
      → IsDropped p g0 g
      → IsDropped p g0 (process env (sig, no_faults) g)
  unfolding process
  again-IsDropped sig g (agent, rule) d =
      let keeps = upsert_observation-keeps sig now g.db in
      let obs = (upsert_observation sig now g.db).0 in
      let heard : g.db.ignored obs ≡ false = ap (λ f. f obs) d.ignored ∙ w.heard obs in
      let armed = w.armed in
      let unpaused = w.unpaused in
      let counted = d.counted in
      let live = d.armed in
      let ticks = d.ticks in
      let snap = d.snap in
      let ignored = d.ignored in
      let streak = d.streak in
      record {
        counted = ground arith;
        armed = ground arith;
        ticks = ground arith;
        snap = ground arith;
        ignored = ground arith;
        streak = ground arith;
      }

  all-IsDropped :
      (sigs : List Signal) (g : Gate)
      → All (IsAgentOf g0.cache.snap.rules p) sigs
      → IsDropped p g0 g
      → IsDropped p g0 (process_all env (sure sigs) g)
  unfolding process_all
  all-IsDropped [] g h d = d
  all-IsDropped (sig ∷ sigs) g (h, hs) d =
      all-IsDropped sigs (process env (sig, no_faults) g) hs (again-IsDropped sig g h d)

  process-In :
      (t : Tick) (sig : Signal) (g : Gate)
      → In t g.db.ticks
      → In t (process env (sig, no_faults) g).db.ticks
  process-In t sig g i = elim (process-RowOf env sig no_faults g) [
    | inl same ↦ subst (In t) (sym same) i
    | inr (row, e, _, _, _, _) ↦ subst (In t) (sym e) (inr i)
  ]

  process-IsBack :
      (sig : Signal)
      → IsAgentOf g0.cache.snap.rules p sig
      → 0 < n
      → n ≤ g0.armed_agent_streak p + 1
      → has_second now g0.db.ticks ≡ false
      → IsBack now p (process env (sig, no_faults) (fresh_tick g0))
  unfolding process fresh_tick disarm_project insert_tick
  process-IsBack sig (agent, rule) pos le fresh =
      let obs = (upsert_observation sig now g0.db).0 in
      let keeps = upsert_observation-keeps sig now g0.db in
      let absent = has_second-has_tick now obs g0.db.ticks fresh in
      let heard = w.heard obs in
      let armed = w.armed in
      let unpaused = w.unpaused in
      let at_head : (g : Gate)
          → g.db.ticks
            ≡ record { ts = now; observation_id = obs; project_id = some p } ∷ g0.db.ticks
          → In (record { ts = now; observation_id = obs; project_id = some p }) g.db.ticks =
        λ g e.
          subst (In (record { ts = now; observation_id = obs; project_id = some p })) (sym e)
            (inl refl) in
      record {
        disarmed = ground arith;
        row = (obs, at_head (process env (sig, no_faults) (fresh_tick g0)) (ground arith));
        unarmed = ground arith;
        unsuppressed = ground arith;
        restarted = ground arith;
      }

  again-IsBack :
      (sig : Signal) (g : Gate)
      → IsAgentOf g0.cache.snap.rules p sig
      → IsBack now p g
      → IsBack now p (process env (sig, no_faults) g)
  unfolding process insert_tick
  again-IsBack sig g (agent, rule) b =
      let keeps = upsert_observation-keeps sig now g.db in
      let (obs, there) = b.row in
      let unpaused = w.unpaused in
      let disarmed = b.disarmed in
      let unarmed = b.unarmed in
      let unsuppressed = b.unsuppressed in
      let restarted = b.restarted in
      record {
        disarmed = ground arith;
        row = (
          obs,
          process-In (record { ts = now; observation_id = obs; project_id = some p }) sig g there,
        );
        unarmed = ground arith;
        unsuppressed = ground arith;
        restarted = ground arith;
      }

  all-IsBack :
      (sigs : List Signal) (g : Gate)
      → All (IsAgentOf g0.cache.snap.rules p) sigs
      → IsBack now p g
      → IsBack now p (process_all env (sure sigs) g)
  unfolding process_all
  all-IsBack [] g h b = b
  all-IsBack (sig ∷ sigs) g (h, hs) b =
      all-IsBack sigs (process env (sig, no_faults) g) hs (again-IsBack sig g h b)

agent_tick-IsDropped :
    (n p : ℕ) (r : Round) (g : Gate)
    → IsWaiting p g
    → IsWork g.cache.snap.rules p r
    → g.armed_agent_streak p + 1 < n
    → IsDropped p g (agent_tick n r g)
unfolding record_signals process_all
agent_tick-IsDropped n p (now, sig, sigs) g w (h, hs) lt =
    all-IsDropped n now p g w sigs _ hs (process-IsDropped n now p g w sig h lt)

agent_tick-IsBack :
    (n p now : ℕ) (sig : Signal) (sigs : List Signal) (g : Gate)
    → IsWaiting p g
    → IsWork g.cache.snap.rules p (now, sig, sigs)
    → 0 < n
    → n ≤ g.armed_agent_streak p + 1
    → has_second now g.db.ticks ≡ false
    → IsBack now p (agent_tick n (now, sig, sigs) g)
unfolding record_signals process_all
agent_tick-IsBack n p now sig sigs g w (h, hs) pos le fresh =
    all-IsBack n now p g w sigs _ hs (process-IsBack n now p g w sig h pos le fresh)

IsDropped-IsWaiting : (p : ℕ) (g g' : Gate) → IsDropped p g g' → IsWaiting p g → IsWaiting p g'
IsDropped-IsWaiting p g g' d w = record {
  armed = ap (λ s. s.armed_projects p) d.snap ∙ w.armed;
  unpaused = ap (λ s. s.paused_project_ids p) d.snap ∙ w.unpaused;
  heard = λ i. ap (λ m. m i) d.ignored ∙ w.heard i;
}

-- The ticks, the newest first.
unfoldable pub agent_ticks : ℕ → List Round → Gate → Gate
agent_ticks n [] g = g
agent_ticks n (r ∷ earlier) g = agent_tick n r (agent_ticks n earlier g)

-- After the ticks: the project waits on, no row came, the rules are the same, and the streak grew by
-- one for each tick.
record Waits (p : ℕ) (rounds : List Round) (g g' : Gate) : Type 0 where
  waiting : IsWaiting p g'
  ticks : g'.db.ticks ≡ g.db.ticks
  rules : g'.cache.snap.rules ≡ g.cache.snap.rules
  streak : g'.armed_agent_streak p ≡ g.armed_agent_streak p + length rounds

agent_ticks-Waits :
    (n p : ℕ) (rounds : List Round) (g : Gate)
    → IsWaiting p g
    → All (IsWork g.cache.snap.rules p) rounds
    → g.armed_agent_streak p + length rounds < n
    → Waits p rounds g (agent_ticks n rounds g)
unfolding agent_ticks
agent_ticks-Waits n p [] g w h lt = record {
  waiting = w;
  ticks = refl;
  rules = refl;
  streak = omega arith;
}
agent_ticks-Waits n p (r ∷ rounds) g w (h, hs) lt =
    let before = agent_ticks-Waits n p rounds g w hs (omega arith) in
    let g' = agent_ticks n rounds g in
    let streak = before.streak in
    let d =
      agent_tick-IsDropped n p r g' before.waiting
        (subst (λ rules. IsWork rules p r) (sym before.rules) h) (omega arith) in
    let grown = d.streak in
    record {
      waiting = IsDropped-IsWaiting p g' (agent_tick n r g') d before.waiting;
      ticks = d.ticks ∙ before.ticks;
      rules = ap (λ s. s.rules) d.snap ∙ before.rules;
      streak = omega arith;
    }

-- Automatic disarming is set to `n` ticks, and an armed project that is not paused has a streak. In
-- each of the coming ticks, as many as bring the streak to `n`, the user is present, and one process of
-- the project or several are all that the tick brings. Then no tick but the last writes a row, however
-- many of its processes work at once, and the last writes a row for the project and disarms it, with
-- its streak and its suppressed count back at 0. No observation is ignored, every database call
-- succeeds, and no row of the last second is there before.
pub agent_ticks-disarm :
    (n p last : ℕ) (sig : Signal) (sigs : List Signal) (rounds : List Round) (g : Gate)
    → IsWaiting p g
    → All (IsWork g.cache.snap.rules p) ((last, sig, sigs) ∷ rounds)
    → g.armed_agent_streak p + length rounds + 1 ≡ n
    → has_second last g.db.ticks ≡ false
    → ((agent_ticks n rounds g).db.ticks ≡ g.db.ticks)
      × IsBack last p (agent_ticks n ((last, sig, sigs) ∷ rounds) g)
unfolding agent_ticks
agent_ticks-disarm n p last sig sigs rounds g w (h, hs) enough fresh =
    let before = agent_ticks-Waits n p rounds g w hs (omega arith) in
    let g' = agent_ticks n rounds g in
    let streak = before.streak in
    (
      before.ticks,
      agent_tick-IsBack n p last sig sigs g' before.waiting
          (subst (λ rules. IsWork rules p (last, sig, sigs)) (sym before.rules) h) (omega arith)
          (omega arith) (ap (has_second last) before.ticks ∙ fresh),
    )
