-- ===== src/Handler.antt =====
-- internal/handler: each handler checks what gin has bound, calls its service, and turns an error of
-- the service into a status.
pub mod Replies
pub mod Transactions
pub mod Auth
pub mod Wallets
pub mod Feeds
