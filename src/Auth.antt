-- ===== src/Auth.antt =====
-- The package `auth`: API tokens, browser sessions, the local-network bypass,
-- the lockout of the mobile login, and core/adhoc_credentials.py.
pub mod Tokens
pub mod Adhoc
pub mod Sessions
pub mod Bypass
pub mod RateLimit
