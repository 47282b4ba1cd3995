-- ===== src/Daemon.antt =====
-- internal/daemon: what runs on each tick, and the caches that it reads.
pub mod Cache
pub mod Backoff
pub mod Permission
pub mod Busy
pub mod Gate
pub mod Agent
pub mod Focus
pub mod Import
pub mod Transcript
pub mod Codex
pub mod Tick
