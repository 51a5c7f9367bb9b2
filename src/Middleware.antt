-- ===== src/Middleware.antt =====
-- The HTTP middlewares of internal/middleware that guard a billed request.
pub mod RateLimit
pub mod Auth
pub mod Concurrency
