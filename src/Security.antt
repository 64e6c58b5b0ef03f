-- ===== src/Security.antt =====
-- src/security: accounts, sessions, authorisation, rate limits, the allowlist of addresses and the
-- cells of a CSV export.
pub mod Entities
pub mod Store
pub mod Authentication
pub mod Authorization
pub mod RateLimit
pub mod Network
pub mod Sanitizer
