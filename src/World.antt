-- ===== src/World.antt =====
-- A request's view of the outside: the database with the transaction that the request has open,
-- and the events handed to the publishing goroutines. Every call to a service outside the program
-- is numbered, and `Env` says how the call of each number goes.
mod Monad
pub mod Rules
pub mod Reading
pub mod Commits
pub mod Appends
pub mod Inserts
unfoldable pub use Monad.*
