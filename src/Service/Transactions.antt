-- ===== src/Service/Transactions.antt =====
-- internal/service/transaction_service.go
pub mod Postings
pub mod Balances
pub mod Totals
pub mod TopUp
pub mod Transfer
pub mod Queries
pub mod Access
pub mod Lists
