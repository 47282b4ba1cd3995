-- ===== src/Daemon/Busy.antt =====
-- internal/daemon/pipeline.go: the busy classifier of `collectAgentSignals`, one process at a time.
pub mod History
use antitimely.Prelude.{
  ℕ, suc, zero, ◌+◌, ◌-◌, ◌≤◌, ◌<◌, ◌≡◌, refl, ◌≢◌, Bool, true, false, not, ◌&&◌, List, [], ◌∷◌,
  ◌++◌, max, leb, ltb, if◌then◌else◌, arith, length, All, ◌⊎◌, inl, inr,
}

pub record ActivityState : Type 0 where
  pub working : Bool
  pub above_streak : ℕ
  pub below_streak : ℕ

-- The zero value, which a process without an entry reads.
abbrev pub idle_state : ActivityState
idle_state = record { working = false; above_streak = 0; below_streak = 0 }

-- One tick: the CPU delta against the bar, for the configured rise and fall.
unfoldable pub classify : ℕ → ℕ → ℕ → ℕ → ActivityState → ActivityState
classify rise_ticks fall_ticks threshold delta st =
    let rise = max rise_ticks 1 in
    let fall = max fall_ticks 1 in
    if leb threshold delta
    then record {
      working = if not st.working && leb rise (st.above_streak + 1) then true else st.working;
      above_streak = st.above_streak + 1;
      below_streak = 0;
    }
    else record {
      working = if st.working && leb fall (st.below_streak + 1) then false else st.working;
      above_streak = 0;
      below_streak = st.below_streak + 1;
    }
