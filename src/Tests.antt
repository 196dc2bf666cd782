-- ===== src/Tests.antt =====
-- The properties at concrete inputs.
mod Data
mod Jwt
mod Access
mod Auth
mod Bypass
mod Collab
mod Scheduler
mod Scanner
mod Moderation
mod Watch
mod Safety
mod Limits
