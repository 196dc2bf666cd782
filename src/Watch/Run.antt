-- ===== src/Watch/Run.antt =====
-- core/moderation_watch.py, `run_watch_poll`: the steps of a poll in their order. A rate limit ends the
-- run; every other failure is noted and the next step is taken.
pub mod Sound
use mstdnca_proxmox_tool.Base.{
  ℕ, ◌+◌, Bool, true, false, not, Option, none, some, List, [], ◌∷◌, ◌++◌, if◌then◌else◌, String,
}
use mstdnca_proxmox_tool.Base.Text.{Text, Unicode}
use mstdnca_proxmox_tool.Watch.{
  Account, Failure, step_failed, Db, Summary, Poll, Client, Bot, WatchSettings,
}
use mstdnca_proxmox_tool.Watch.Check.{prune, check_watched, is_rate_limit}
use mstdnca_proxmox_tool.Watch.Signups.{discover_new_accounts}
use mstdnca_proxmox_tool.Watch.Signups.Welcome.{has_accounts, send_welcomes}
use mstdnca_proxmox_tool.Watch.Silent.{scan_silent_logins}

-- The summary that a run starts from.
unfoldable pub no_summary : Summary
no_summary = record {
  checked = 0;
  watch_total = 0;
  watched_post_alerts = 0;
  new_account_alerts = 0;
  silent_login_alerts = 0;
  deferred = false;
  bootstrapped = false;
  backoff_until = none;
  errors = [];
  removed = [];
  new_accounts = [];
  welcomed = 0;
}

unfoldable pub begin : Db → Poll
unfolding no_summary
begin db = record { db = db; summary = no_summary; notified = []; posted = [] }

-- `exc.retry_after if ... is not None else 60`
pub retry_seconds : Option ℕ → ℕ
retry_seconds none = 60
retry_seconds (some seconds) = seconds

-- `_note_error`: the state, and whether the run is aborted.
note_error : ℕ → String → Failure → Poll → Poll × Bool
unfolding is_rate_limit retry_seconds
note_error now step e s =
    let noted : Summary = record s.summary {
      errors = s.summary.errors ++ step_failed step e ∷ [];
    } in
    if is_rate_limit e
    then (
      record s {
        summary = record noted { backoff_until = some (now + retry_seconds e.retry_after) };
      },
      true,
    )
    else (record s { summary = noted }, false)

-- The `except` of a step.
settle : ℕ → String → Poll × Option Failure → Poll × Bool
unfolding note_error
settle now step (s, none) = (s, false)
settle now step (s, some e) = note_error now step e s

-- `if not aborted:`
step : (Poll → Poll × Bool) → Poll × Bool → Poll × Bool
step f (s, aborted) = if aborted then (s, true) else f s

-- The welcomes, where there are a bot, new accounts and the setting.
welcome_step : Option Bot → Bool → ℕ → Poll → Poll
unfolding has_accounts send_welcomes
welcome_step none enabled now s = s
welcome_step (some bot) enabled now s =
    if not (has_accounts s.summary.new_accounts)
    then s
    else if enabled
    then send_welcomes bot now s.summary.new_accounts s
    else s

module _ (u : Unicode) (client : Client) (bot : Option Bot) (welcomes_enabled : Bool) (now : ℕ)
    (settings : WatchSettings) (excerpt : Account → Text) where
  check_step : Poll → Poll × Bool
  unfolding settle check_watched
  check_step s = settle now "check_watched" (check_watched u client now s)

  discover_step : Poll → Poll × Bool
  unfolding settle discover_new_accounts
  discover_step s =
      settle now "discover_new_accounts" (discover_new_accounts u client now settings s)

  greet_step : Poll → Poll × Bool
  unfolding welcome_step
  greet_step s = (welcome_step bot welcomes_enabled now s, false)

  scan_step : Poll → Poll × Bool
  unfolding settle scan_silent_logins
  scan_step s = settle now "scan_silent_logins" (scan_silent_logins u client now settings excerpt s)

  -- The steps after `_prune`.
  run_steps : Poll → Poll × Bool
  unfolding step check_step discover_step greet_step scan_step
  run_steps s = step scan_step (step greet_step (step discover_step (check_step s)))

  -- `run_watch_poll`
  unfoldable pub run_watch_poll : Db → Poll
  unfolding run_steps prune begin
  run_watch_poll db = (run_steps (prune now settings.log_retention_days (begin db))).0
