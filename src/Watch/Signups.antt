-- ===== src/Watch/Signups.antt =====
-- core/moderation_watch.py, `_discover_new_accounts`: the third step of a poll. An alert and, where it is
-- configured, a watch for each new local account.
pub mod Growth
pub mod Covers
pub mod Welcome
use mstdnca_proxmox_tool.Base.{
  ℕ, ◌+◌, ◌==◌, ltb, Bool, true, false, not, Option, none, some, List, [], ◌∷◌, ◌++◌, any,
  if◌then◌else◌,
}
use mathlib.Core.List.{reverse}
use mstdnca_proxmox_tool.Base.Text.{Unicode}
use mstdnca_proxmox_tool.Watch.{
  new_account, WatchRow, Account, Failure, Api, answer, api_error, Summary, Poll, Client,
  WatchSettings, days,
}
use mstdnca_proxmox_tool.Watch.Alerts.{alert}

unfoldable pub watched : ℕ → List WatchRow → Bool
watched account_id watches = any (λ w. w.account_id == account_id) watches

auto_watch : ℕ → ℕ → Account → ℕ → WatchRow
auto_watch now auto_watch_days account id = record {
  id = id;
  account_id = account.id;
  acct = account.acct;
  last_status_id = none;
  last_checked_at = none;
  expires_at = some (now + days auto_watch_days);
  auto_added = true;
}

-- The watch that the loop adds for a new account.
pub add_watch : ℕ → ℕ → Account → Poll → Poll
unfolding watched auto_watch
add_watch now auto_watch_days account s =
    if not (ltb 0 auto_watch_days)
    then s
    else if watched account.id s.db.watches
    then s
    else record s {
      db = record s.db {
        watches = s.db.watches ++ auto_watch now auto_watch_days account s.db.next_watch_id ∷ [];
        next_watch_id = s.db.next_watch_id + 1;
      };
    }

pub defer : Poll → Poll
defer s = record s { summary = record s.summary { deferred = true } }

-- `accounts[0].get("created_at") or cursor_raw`
newest_cursor : Option ℕ → Option ℕ → Option ℕ
newest_cursor none old = old
newest_cursor (some t) old = some t

-- The first run only establishes the cursor.
bootstrap : Poll → List Account → Poll
unfolding newest_cursor
bootstrap s [] = record s { summary = record s.summary { bootstrapped = true } }
bootstrap s (newest ∷ older) = record s {
  db = record s.db { new_account_cursor = newest_cursor newest.created_at s.db.new_account_cursor };
  summary = record s.summary { bootstrapped = true };
}

-- The cursor is stored and the accounts are handed to the welcomes.
discovered : Option ℕ → List Account → Poll → Poll
discovered cursor accounts s = record s {
  db = record s.db { new_account_cursor = cursor };
  summary = record s.summary { new_accounts = accounts };
}

pub on_reply : (List Account → Poll) → Poll → Api (List Account) → Poll × Option Failure
on_reply f s (answer accounts) = (f accounts, none)
on_reply f s (api_error e) = (s, some e)

module _ (u : Unicode) (client : Client) (now : ℕ) (settings : WatchSettings) where
  pub announce : Account → Poll → Poll
  unfolding alert add_watch
  announce account s =
      add_watch now settings.auto_watch_days account (alert u now new_account account none true s)

  pub announce_all : List Account → Poll → Poll
  unfolding announce
  announce_all [] s = s
  announce_all (account ∷ rest) s = announce_all rest (announce account s)

  pub found : Option ℕ → Poll → List Account → Poll
  unfolding discovered announce_all newest_cursor
  found cursor s [] = s
  found cursor s (newest ∷ older) =
      discovered (newest_cursor newest.created_at cursor) (reverse (newest ∷ older))
        (announce_all (reverse (newest ∷ older)) s)

  pub discover_from : Option ℕ → Poll → Poll × Option Failure
  unfolding on_reply bootstrap found
  discover_from none s = on_reply (bootstrap s) s client.newest_accounts
  discover_from (some since) s = on_reply (found (some since) s) s (client.accounts_since since)

  -- `_discover_new_accounts`; the failure is the one that it raises.
  unfoldable pub discover_new_accounts : Poll → Poll × Option Failure
  unfolding discover_from defer
  discover_new_accounts s =
      if not client.discover_budget_ok
      then (defer s, none)
      else discover_from s.db.new_account_cursor s
