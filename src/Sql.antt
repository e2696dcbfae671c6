-- ===== src/Sql.antt =====
-- The statements of database/queries, one module for each file.
pub mod Order
pub mod Users
pub mod Wallets
pub mod Transactions
pub mod LedgerEntries
pub mod AuditLogs
pub mod Notifications
pub mod Laws
