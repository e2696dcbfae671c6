-- ===== src/Repository.antt =====
-- internal/repository: each method runs one statement, or a list and its count, and maps the rows.
pub mod Common
pub mod Wallets
pub mod Users
pub mod Transactions
pub mod LedgerEntries
pub mod AuditLogs
pub mod Notifications
pub mod Effects
pub mod Reads
pub mod Inbox
