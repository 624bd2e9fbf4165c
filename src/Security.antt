-- ===== src/Security.antt =====
-- core/security: who calls, what a caller may see, and how often.
pub mod Keys
pub mod Scoping
pub mod RateLimit
pub mod Auth
