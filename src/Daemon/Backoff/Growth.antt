-- ===== src/Daemon/Backoff/Growth.antt =====
-- How the quiet windows grow.
use native.Mathlib.Nat.{pow-suc}
use antitimely.Prelude.{
  ℕ, zero, suc, ◌+◌, ◌*◌, ◌^◌, ◌≤◌, ◌<◌, ◌≡◌, List, [], ◌∷◌, arith, min, length, true, false, ◌⊎◌,
}
use antitimely.Daemon.Backoff.{
  TitleState, back_off_title, title_deny_backoff_sec, title_backoff_max_sec, SlowTick,
  report_slow_tick,
}

-- Probes that fail one after the other, at the given times, the newest first.
unfoldable pub failures : List ℕ → TitleState → TitleState
failures [] s = s
failures (now ∷ earlier) s = back_off_title now (failures earlier s)

pow_pos : (n : ℕ) → 1 ≤ 2 ^ n
pow_pos zero = omega arith
pow_pos (suc n) = omega (arith, pow-suc 2 n, pow_pos n)

-- From a clear state, the n-th failure in a row asks for 60 * 2 ^ (n - 1) seconds of quiet, at most
-- 300, counted from its own time.
pub failures_window :
    (now : ℕ) (earlier : List ℕ) (s : TitleState)
    → s.backoff_sec ≡ 0
    → ((failures (now ∷ earlier) s).backoff_sec
        ≡ min (title_deny_backoff_sec * 2 ^ length earlier) title_backoff_max_sec)
      × ((failures (now ∷ earlier) s).retry_at ≡ now + (failures (now ∷ earlier) s).backoff_sec)
unfolding failures back_off_title
failures_window now [] s h = ground arith
failures_window now (t ∷ ts) s h =
    ground (arith, failures_window t ts s h, pow_pos (length ts), pow-suc 2 (length ts))

-- The window is closed, or at least a minute long.
abbrev pub IsWindow : SlowTick → Type 0
IsWindow s = (s.backoff_sec ≡ 0) ⊎ (60 ≤ s.backoff_sec)

pub report_slow_tick-IsWindow :
    (budget took now : ℕ) (s : SlowTick)
    → IsWindow s
    → IsWindow (report_slow_tick budget took now s).0
unfolding report_slow_tick
report_slow_tick-IsWindow budget took now s h = ground arith

-- A slow tick that is reported keeps every slow tick of the next minute out of the log, and leaves
-- the state as it is; a tick inside its budget ends that, and the next slow tick is reported.
pub report_slow_tick_quiet :
    (budget took now later took' fast between : ℕ) (s : SlowTick)
    → (report_slow_tick budget took now s).1 ≡ true
    → IsWindow s
    → budget < took'
    → later < now + 60
    → fast ≤ budget
    → (report_slow_tick budget took' later (report_slow_tick budget took now s).0
        ≡ ((report_slow_tick budget took now s).0, false))
      × ((report_slow_tick budget took' later
            (report_slow_tick budget fast between (report_slow_tick budget took now s).0).0).1
          ≡ true)
unfolding report_slow_tick
report_slow_tick_quiet budget took now later took' fast between s h w slow soon quick =
    (ground arith, ground arith)
