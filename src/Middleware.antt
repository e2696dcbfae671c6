-- ===== src/Middleware.antt =====
-- internal/middleware: what stands before and around the handlers.
pub mod Auth
pub mod Site
pub mod Jwt
pub mod Cors
pub mod RateLimit
pub mod Idempotency
pub mod Audit
