-- ===== src/Scheduler.antt =====
-- core/scheduler.py: interval settings, maintenance windows, and the back-off of the moderation
-- watch poll.
pub mod Interval
pub mod Window
pub mod Stretch
