-- ===== src/Lib.antt =====
-- A model of the core of MSTDNCA Proxmox Tool, a Flask application that scans, updates and watches
-- the guests of Proxmox hosts, and of what makes that core correct.
--
-- The parts, and how they interact:
-- * Access (models.py) holds roles, users and guests, and says who may act on which guest; Auth and
--   Collab use its accounts and tags. Access/Scope (core/guest_scope.py) is the same question for
--   guests that a request names indirectly, by a page's path or a setting.
-- * Auth is the package auth/ and core/adhoc_credentials.py. Auth/Tokens (auth/jwt_auth.py): the
--   JSON web tokens of the API, and the revocation table that core/scheduler.py prunes.
--   Auth/Sessions (auth/session_manager.py): the row behind each browser login. Auth/Bypass
--   (auth/proxy_trust.py, auth/local_network.py): whose forwarded headers count, and the login
--   without credentials from a trusted subnet; it starts and revokes sessions. Auth/Adhoc: SSH
--   credentials parked under a token for one use. Auth/RateLimit (auth/jwt_auth.py): the lockout of an
--   address after failed logins.
-- * Collab (core/collaboration.py): the presence and activity hub, shared terminals and their registry,
--   and the cursors on a page.
-- * Scheduler (core/scheduler.py): interval settings, maintenance windows, the job that polls for
--   moderation alerts and stretches its own interval.
-- * Scanner (core/scanner.py): parsing of apt's output, the record of a scan, the re-read after an
--   apply, and the status of services.
-- * Watch (core/moderation_watch.py) is the poll that watches Mastodon accounts. Watch/Alerts: an alert
--   is recorded once. Watch/Check, Watch/Signups, Watch/Signups/Welcome and Watch/Silent are its steps,
--   Watch/Run their order and what a failure does; Watch/Notice is the message to a reporter. Mastodon
--   (core/mastodon_admin.py) is the listing of accounts that the poll reads, and the limit of a message.
-- * Safety (core/url_safety.py, core/local_redirect.py): the guard of the URLs that the server calls
--   for a user, and of redirects. Notify (core/push_notifier.py) calls the registered webhooks behind that
--   guard, for the users whom Access lets see the guest.
-- * Apps (apps/utils.py): the order of versions, the upgrade locks, and the checks of values that a
--   remote shell is given. Trends (core/update_trends.py): the weekly totals of applied updates.
-- * Moderation (core/moderation.py): the comparison of PeerTube's users with Mastodon's addresses.
-- * Base has the shared names, dictionaries in insertion order, and Python's text functions; Tests
--   has concrete inputs.
--
-- Correspondence. A definition has the name of the Python function it models, less a leading
-- underscore; `_scan_guest_locked` is `scan_guest`, `determine_severity` is `is_critical`, the hook
-- of init_session_tracking is `enforce_session_state`, and the twenty permission properties of User
-- are `has_permission`. An object that is changed is a record that is passed in and returned; a
-- queue or a table is a list. None is `none`; a ValueError is a value where the code can raise one. A
-- check-then-act sequence that another thread can come between is two definitions: the snapshot and
-- `register` of a terminal's subscriber, `append` and `fan_out` of its output, which `perform_steps` takes
-- in any order. Helpers split a handler at its early returns.
--
-- `run_steps` is the body of `run_watch_poll` after the pruning, `list_newer` is `list_local_accounts`
-- with a cutoff. A failure that a step raises is the second part of its result.
--
-- Conventions. Instants are microseconds in Access, Auth/Tokens and Auth/RateLimit, as is a time of day
-- in Scheduler/Window, milliseconds in Collab/Cursor, and seconds elsewhere; they are always an argument, as a fresh token or session id
-- is. Text is a list of code points.
--
-- Parameters. Python's character tables (`Unicode`), PyJWT (`Jwt`), `ipaddress` (`IpLib`), Werkzeug's
-- ProxyFix and password hash, SHA-256, the HTTP answers of PeerTube and Mastodon, the result of a block
-- request, `urlparse`, the resolver of names, Flask's URL map and the class `\w` are
-- arguments, with the laws that their documentation gives where a result needs them. Tests has an
-- instance of each.
--
-- Bounds. The `while` loop that caps the parked credentials runs on the number of entries, and each
-- round drops one. The pagination runs on the code's own limit of 1000 pages of 100 users, which
-- reads 100,000 users. The pagination of Mastodon runs on its own limit of pages, and the match of a
-- route on the two tries of the code. All other loops are over lists.
--
-- Not modelled: the web routes and templates, the shell scripts in apps/, the clients of external
-- services, the AI assistant, the formatting of notifications, the refresh of the status limit at
-- the start of a watch poll, the limit of 4300 digits that int() has, and logging and audit rows,
-- which only pass on or render what the parts above decide; database transactions; the locks,
-- which the code takes around each shared change that is one definition here.
pub mod Base
pub mod Access
pub mod Auth
pub mod Collab
pub mod Scheduler
pub mod Scanner
pub mod Moderation
pub mod Mastodon
pub mod Watch
pub mod Apps
pub mod Safety
pub mod Notify
pub mod Trends
pub mod Tests
