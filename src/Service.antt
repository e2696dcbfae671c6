-- ===== src/Service.antt =====
-- internal/service
pub mod Events
pub mod Transactions
pub mod Wallets
pub mod Ledger
pub mod Auth
pub mod Audit
pub mod Notifications
