-- ===== src/Notify.antt =====
-- core/push_notifier.py: the push notifications of the mobile clients.
pub mod Push
