-- ===== src/Daemon/Backoff.antt =====
-- internal/daemon/pipeline.go: the quiet windows after a failed title probe and after a slow tick,
-- which grow by the same rule.
pub mod Growth
use antitimely.Prelude.{
  ℕ, ◌+◌, ◌*◌, ◌≤◌, ◌<◌, ◌≡◌, refl, Bool, true, false, ◌==◌, ltb, leb, if◌then◌else◌, arith, min,
  List, [], ◌∷◌,
}

abbrev pub title_deny_backoff_sec : ℕ
title_deny_backoff_sec = 60

abbrev pub title_backoff_max_sec : ℕ
title_backoff_max_sec = 300

abbrev pub osascript_timeout_streak : ℕ
osascript_timeout_streak = 3

abbrev pub slow_tick_backoff_start_sec : ℕ
slow_tick_backoff_start_sec = 60

abbrev pub slow_tick_backoff_max_sec : ℕ
slow_tick_backoff_max_sec = 300

-- The switch that both functions begin with: start, or double below the cap; then the cap.
unfoldable pub grow : ℕ → ℕ → ℕ → ℕ
grow start cap b =
    let b' = if b == 0 then start else if ltb b cap then b * 2 else b in
    if ltb cap b' then cap else b'

pub record TitleState : Type 0 where
  pub retry_at : ℕ
  pub backoff_sec : ℕ
  pub timeout_streak : ℕ

-- `backOffTitle`
unfoldable pub back_off_title : ℕ → TitleState → TitleState
unfolding grow
back_off_title now s =
    let b = grow title_deny_backoff_sec title_backoff_max_sec s.backoff_sec in
    record s { backoff_sec = b; retry_at = now + b }

pub record SlowTick : Type 0 where
  pub retry_at : ℕ
  pub backoff_sec : ℕ

-- `backOffSlowTick`
unfoldable pub back_off_slow_tick : ℕ → SlowTick → SlowTick
unfolding grow
back_off_slow_tick now s =
    let b = grow slow_tick_backoff_start_sec slow_tick_backoff_max_sec s.backoff_sec in
    record { backoff_sec = b; retry_at = now + b }

-- `reportSlowTick`, with whether it wrote a line. A budget of 0 turns the report off.
unfoldable pub report_slow_tick : ℕ → ℕ → ℕ → SlowTick → SlowTick × Bool
unfolding back_off_slow_tick
report_slow_tick budget took now s =
    if budget == 0
    then (s, false)
    else if leb took budget
    then (record { retry_at = 0; backoff_sec = 0 }, false)
    else if ltb now s.retry_at
    then (s, false)
    else (back_off_slow_tick now s, true)
