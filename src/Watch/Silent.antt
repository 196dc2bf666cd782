-- ===== src/Watch/Silent.antt =====
-- core/moderation_watch.py, `_scan_silent_logins`: the last step of a poll. An alert for an account
-- that never posted and has logged in again.
pub mod Exact
use mstdnca_proxmox_tool.Base.{
  ℕ, ◌+◌, ◌-◌, ◌*◌, ◌==◌, ltb, leb, Bool, true, false, not, ◌&&◌, Option, none, some, List, [], ◌∷◌,
  if◌then◌else◌,
}
use mstdnca_proxmox_tool.Base.Text.{Text, Unicode}
use mstdnca_proxmox_tool.Watch.{
  silent_login, Account, Failure, Api, answer, api_error, Summary, Poll, Client, WatchSettings,
  days,
}
use mstdnca_proxmox_tool.Watch.Alerts.{alert}

-- The last scan is less than `SILENT_SCAN_MIN_HOURS` hours ago.
unfoldable pub scanned_recently : ℕ → Option ℕ → Bool
scanned_recently now none = false
scanned_recently now (some t) = ltb now (t + 24 * 3600)

-- `created_at <= now - min_age` and `last_login >= now - login_days`.
old_and_back : ℕ → WatchSettings → Option ℕ → Option ℕ → Bool
old_and_back now settings none last_login = false
old_and_back now settings (some created_at) none = false
old_and_back now settings (some created_at) (some last_login) =
    leb (created_at + days settings.silent_min_age_days) now
    && leb now (last_login + days settings.silent_login_days)

-- The account that the loop does not skip.
unfoldable pub is_silent : ℕ → WatchSettings → Account → Bool
unfolding old_and_back
is_silent now settings account =
    (account.statuses_count == 0)
    && old_and_back now settings account.created_at account.last_login_at

module _ (u : Unicode) (client : Client) (now : ℕ) (settings : WatchSettings)
    (excerpt : Account → Text) where
  flag_silent : Account → Poll → Poll
  unfolding is_silent alert
  flag_silent account s =
      if is_silent now settings account
      then alert u now silent_login (record account { excerpt = some (excerpt account) }) none false
          s
      else s

  flag_all : List Account → Poll → Poll
  unfolding flag_silent
  flag_all [] s = s
  flag_all (account ∷ rest) s = flag_all rest (flag_silent account s)

  scanned : Poll → Poll
  scanned s = record s { db = record s.db { silent_last_scan_at = some now } }

  after_listing : Poll → Api (List Account) → Poll × Option Failure
  unfolding flag_all scanned
  after_listing s (answer accounts) = (scanned (flag_all accounts s), none)
  after_listing s (api_error e) = (s, some e)

  -- `_scan_silent_logins`; `excerpt` is the line it writes for the account.
  unfoldable pub scan_silent_logins : Poll → Poll × Option Failure
  unfolding scanned_recently after_listing
  scan_silent_logins s =
      if scanned_recently now s.db.silent_last_scan_at
      then (s, none)
      else if not client.scan_budget_ok
      then (record s { summary = record s.summary { deferred = true } }, none)
      else after_listing s (client.accounts_in_window (now - days settings.silent_scan_window_days))
