-- ===== src/Mastodon.antt =====
-- core/mastodon_admin.py: the client of Mastodon's admin API.
pub mod Listing
pub mod StatusLimit
