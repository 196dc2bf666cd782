-- ===== src/Apps.antt =====
-- apps/utils.py: what the modules that upgrade the applications share.
pub mod Version
pub mod Validate
pub mod Locks
