-- ===== src/Daemon/Focus.antt =====
-- internal/daemon/pipeline.go: `collectFocusSignal`, the frontmost window and its title.
pub mod Denial
use antitimely.Prelude.{ℕ, ◌+◌, ◌≡◌, Bool, true, false, Option, none, some, [], leb, if◌then◌else◌}
use antitimely.Prelude.Text.{Str}
use antitimely.Domain.Signal.{Source, Signal}
use antitimely.Daemon.Cache.{CacheSnapshot}
use antitimely.Daemon.Backoff.{TitleState, back_off_title, osascript_timeout_streak}
use antitimely.Daemon.Permission.{PermState, PermissionTracker, set_probe}

-- The answers of the bridge, by the error's kind where the code asks for it.
pub data Frontmost : Type 0 where
  window : Str → Frontmost
  denied failed : Frontmost

pub data Title : Type 0 where
  title : Str → Title
  denied timed_out failed : Title

pub record Focus : Type 0 where
  pub title : TitleState
  pub perm : PermissionTracker

-- The switch on the result of the title probe: the title, and what is kept.
unfoldable pub probe_title : ℕ → Title → Focus → Str × Focus
unfolding back_off_title set_probe
probe_title now (Title.title t) f = (
  t,
  record {
    title = record { retry_at = 0; backoff_sec = 0; timeout_streak = 0 };
    perm = set_probe PermState.ok now f.perm;
  },
)
probe_title now Title.denied f = (
  [],
  record {
    title = back_off_title now (record f.title { timeout_streak = 0 });
    perm = set_probe PermState.accessibility_denied now f.perm;
  },
)
probe_title now Title.timed_out f =
    let s = record f.title { timeout_streak = f.title.timeout_streak + 1 } in
    (
      [],
      record f {
        title =
            (if leb osascript_timeout_streak s.timeout_streak
              then record (back_off_title now s) { timeout_streak = 0 }
              else s);
      },
    )
probe_title now Title.failed f = ([], record f { title = record f.title { timeout_streak = 0 } })

abbrev pub focus_signal : Str → Str → Signal
focus_signal bundle t = record {
  source = Source.focus;
  bundle_id = bundle;
  window_title = t;
  binary_name = [];
  cwd = [];
  space_id = [];
}

-- The title is asked for only in an allowed application and outside the quiet window; `answer` is
-- what the probe would say. The Boolean is whether the probe ran.
unfoldable pub collect_focus_signal :
    CacheSnapshot → ℕ → Frontmost → Title → Focus → Option Signal × (Bool × Focus)
unfolding probe_title set_probe
collect_focus_signal snap now Frontmost.failed answer f = (none, (false, f))
collect_focus_signal snap now Frontmost.denied answer f =
    (none, (false, record f { perm = set_probe PermState.accessibility_denied now f.perm }))
collect_focus_signal snap now (Frontmost.window bundle) answer f =
    if snap.allowed_bundles bundle
    then (if leb f.title.retry_at now
        then (let (t, f') = probe_title now answer f in (some (focus_signal bundle t), (true, f')))
        else (some (focus_signal bundle []), (false, f)))
    else (none, (false, f))
