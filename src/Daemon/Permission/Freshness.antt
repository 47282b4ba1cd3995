-- ===== src/Daemon/Permission/Freshness.antt =====
-- A probe's answer outlives the longest quiet window of the title probe.
use antitimely.Prelude.{ℕ, ◌+◌, ◌≤◌, ◌≡◌, arith}
use antitimely.Daemon.Backoff.{TitleState, back_off_title, grow}
use antitimely.Daemon.Permission.{PermState, PermissionTracker, set_probe, get_state}

-- The answer of a failed probe is still reported when the quiet window that it opens ends, and for
-- ten minutes after, whatever the window's length.
pub get_state-back_off :
    (state : PermState) (now t : ℕ) (s : TitleState) (p : PermissionTracker)
    → t ≤ (back_off_title now s).retry_at + 600
    → get_state t (set_probe state now p) ≡ state
unfolding get_state set_probe back_off_title grow
get_state-back_off state now t s p h = ground arith
