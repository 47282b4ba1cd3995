-- ===== src/Store.antt =====
-- internal/store: the tables of schema.sql and the queries over them.
pub mod Tables
pub mod Observing
pub mod Admin
