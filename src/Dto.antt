-- ===== src/Dto.antt =====
-- The requests and responses of internal/dto.
pub mod Pagination
pub mod Bodies
pub mod Feeds
pub mod Validation
unfoldable pub use Pagination.*
