-- ===== src/Scanner.antt =====
-- core/scanner.py: pending updates of a guest, the scan that finds them, the re-read after an apply
-- that retires them, and the status of a guest's services.
pub mod Upgradable
pub mod Scan
pub mod Services
