-- ===== src/Daemon/Focus/Denial.antt =====
-- What repeated refusals do to the title probe.
use antitimely.Prelude.{ℕ, ◌+◌, ◌≤◌, ◌<◌, ◌≡◌, ◌⊎◌, true, false, some, [], arith}
use antitimely.Prelude.Text.{Str}
use antitimely.Daemon.Cache.{CacheSnapshot}
use antitimely.Daemon.Backoff.{
  back_off_title, grow, osascript_timeout_streak, title_deny_backoff_sec, title_backoff_max_sec,
}
use antitimely.Daemon.Permission.{PermState, set_probe, get_state}
use antitimely.Daemon.Focus.{
  Frontmost, Title, Focus, probe_title, focus_signal, collect_focus_signal,
}

-- What the daemon keeps between ticks: fewer timeouts than the limit, a quiet window that ends at
-- most the longest wait from now, and a wait that is unset or at least the first one.
pub record IsQuiet (now : ℕ) (f : Focus) : Type 0 where
  pub few : f.title.timeout_streak < osascript_timeout_streak
  pub bounded : f.title.retry_at ≤ now + title_backoff_max_sec
  pub started : (f.title.backoff_sec ≡ 0) ⊎ (title_deny_backoff_sec ≤ f.title.backoff_sec)

-- Where fewer than the limit of timeouts are counted, the quiet window ends at most the longest wait
-- from now, and the wait is unset or at least the first one, all this holds after the collector ran,
-- whatever the window and the title answer.
pub collect_focus_signal-IsQuiet :
    (snap : CacheSnapshot) (now : ℕ) (front : Frontmost) (answer : Title) (f : Focus)
    → IsQuiet now f
    → IsQuiet now (collect_focus_signal snap now front answer f).1.1
unfolding collect_focus_signal probe_title back_off_title grow set_probe
collect_focus_signal-IsQuiet snap now Frontmost.failed answer f h = h
collect_focus_signal-IsQuiet snap now Frontmost.denied answer f h = record {
  few = h.few;
  bounded = h.bounded;
  started = h.started;
}
collect_focus_signal-IsQuiet snap now (Frontmost.window b) answer f h =
    let few = h.few in
    let bounded = h.bounded in
    let started = h.started in
    record { few = ground arith; bounded = ground arith; started = ground arith }

-- A probe of an allowed application that is due and denied: for at least a minute from then on no
-- probe of that application runs, its bundle is still reported, without a title, nothing else
-- changes, and the permission reads as denied.
pub denied-waits :
    (snap : CacheSnapshot) (now later : ℕ) (bundle : Str) (answer : Title) (f : Focus)
    → IsQuiet now f
    → snap.allowed_bundles bundle ≡ true
    → f.title.retry_at ≤ now
    → later < now + title_deny_backoff_sec
    → let f' = (collect_focus_signal snap now (Frontmost.window bundle) Title.denied f).1.1 in
      (collect_focus_signal snap later (Frontmost.window bundle) answer f'
        ≡ (some (focus_signal bundle []), (false, f')))
      × (get_state later f'.perm ≡ PermState.accessibility_denied)
unfolding collect_focus_signal probe_title back_off_title grow set_probe get_state
denied-waits snap now later bundle answer f quiet allowed due soon =
    let started = quiet.started in ground arith
