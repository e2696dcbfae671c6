-- ===== src/Utils.antt =====
-- internal/utils: what the services and the handlers share.
pub mod Ids
pub mod SafeChannel
