-- ===== src/Tests.antt =====
-- Concrete inputs, runs of the code on them, and the theorems applied to them.
mod Fixtures
mod Runs
pub mod Pages
pub mod Identifiers
mod Outside
pub mod Witnesses
pub mod Serving
pub mod Guards
pub mod Queues
