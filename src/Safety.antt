-- ===== src/Safety.antt =====
-- core/url_safety.py and core/local_redirect.py: the addresses the server calls for a user, and the
-- places it redirects a browser to.
pub mod Outbound
pub mod Redirect
