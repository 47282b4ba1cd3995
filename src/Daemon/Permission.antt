-- ===== src/Daemon/Permission.antt =====
-- internal/daemon/permission.go: the last permission probe, and how long it counts.
pub mod Freshness
use antitimely.Prelude.{ℕ, ◌+◌, ◌*◌, ◌<◌, ◌≤◌, ◌≡◌, Option, none, some, ltb, if◌then◌else◌, arith}
use antitimely.Daemon.Backoff.{title_backoff_max_sec}

pub data PermState : Type 0 where
  ok accessibility_denied idle_detection_failed unknown : PermState

pub record ProbeResult : Type 0 where
  pub state : PermState
  pub at : ℕ

abbrev pub PermissionTracker : Type 0
PermissionTracker = Option ProbeResult

abbrev pub perm_stale_after_sec : ℕ
perm_stale_after_sec = 3 * title_backoff_max_sec

unfoldable pub set_probe : PermState → ℕ → PermissionTracker → PermissionTracker
set_probe state at p = some (record { state = state; at = at })

-- `now - last.at` on int64 is negative for a probe from the future; such a probe counts.
unfoldable pub get_state : ℕ → PermissionTracker → PermState
get_state now none = PermState.unknown
get_state now (some r) =
    if ltb (r.at + perm_stale_after_sec) now then PermState.unknown else r.state
