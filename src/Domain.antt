-- ===== src/Domain.antt =====
-- internal/domain: signals, rules, and which rule a signal matches.
pub mod Signal
pub mod Path
pub mod Glob
pub mod Cwd
pub mod Rules
