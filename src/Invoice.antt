-- ===== src/Invoice.antt =====
-- internal/invoice and internal/daemon/rpc_invoice.go: what is billed, and the credit it draws on.
pub mod Number
pub mod Credit
pub mod LineItem
pub mod Config
pub mod Doc
pub mod Ledger
pub mod Service
