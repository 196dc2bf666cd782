-- ===== src/Tests/Watch.antt =====
-- core/moderation_watch.py and core/mastodon_admin.py at a poll of three watched accounts, one of which
-- is gone, and of two new accounts.
use mstdnca_proxmox_tool.Base.{
  ℕ, ◌+◌, ◌≤◌, ◌==◌, ◌≡◌, ◌≢◌, ◌⊎◌, refl, inl, inr, true, false, Option, none, some, List, [], ◌∷◌,
  ◌++◌, length, take, keep, any, In, All, if◌then◌else◌,
}
use mstdnca_proxmox_tool.Base.Text.{Text, codes}
use mstdnca_proxmox_tool.Tests.Data.{ascii}
use mstdnca_proxmox_tool.Watch.{
  AlertRow, watched_post, new_account, silent_login, WatchRow, Account, MastodonStatus, Failure,
  Api, answer, api_error, Db, Poll, Client, Bot, WatchSettings, step_failed, same_key,
}
use mstdnca_proxmox_tool.Watch.Alerts.{alert, key_of}
use mstdnca_proxmox_tool.Watch.Alerts.Distinct.{Distinct, alert_count}
use mstdnca_proxmox_tool.Watch.Alerts.Present.{Present}
use mstdnca_proxmox_tool.Watch.Check.{check_watched, watch_queue, prune, is_rate_limit}
use mstdnca_proxmox_tool.Watch.Check.Rotation.{check_watched-Seen}
use mstdnca_proxmox_tool.Watch.Signups.{discover_new_accounts, watched}
use mstdnca_proxmox_tool.Watch.Signups.Covers.{discover_new_accounts_complete}
use mstdnca_proxmox_tool.Watch.Signups.Welcome.{send_welcomes, is_welcomed, verified_id}
use mstdnca_proxmox_tool.Watch.Signups.Welcome.Sent.{Unique, Listed}
use mstdnca_proxmox_tool.Watch.Signups.Welcome.Once.{send_welcomes_once}
use mstdnca_proxmox_tool.Watch.Silent.{scan_silent_logins, scanned_recently}
use mstdnca_proxmox_tool.Watch.Silent.Exact.{IsSilent, Flagged, scan_silent_logins_exact}
use mstdnca_proxmox_tool.Watch.Notice.{Request, Notices, already_notified, send_report_notice}
use mstdnca_proxmox_tool.Watch.Notice.Sent.{send_report_notice_once}
use mstdnca_proxmox_tool.Mastodon.StatusLimit.{get_status_limit, compose_direct}
use mstdnca_proxmox_tool.Watch.Run.{begin, retry_seconds, run_watch_poll}
use mstdnca_proxmox_tool.Watch.Run.Sound.{run_watch_poll_sound, run_watch_poll_rate_limited}

abbrev row : ℕ → Option ℕ → Option ℕ → WatchRow
row id last checked = record {
  id = id;
  account_id = id + 100;
  acct = codes "ada";
  last_status_id = last;
  last_checked_at = checked;
  expires_at = none;
  auto_added = false;
}

abbrev status : ℕ → MastodonStatus
status id = record {
  id = id;
  url = some (codes "https://example.org/1");
  excerpt = none;
  account_acct = none;
}

-- Created a day after the cursor, or long ago; the second account never posted and has logged in.
abbrev account : ℕ → ℕ → Account
account id created = record {
  id = id;
  acct = codes "bob";
  created_at = some created;
  last_login_at = some 9000000;
  statuses_count = 0;
  excerpt = none;
}

abbrev failure : ℕ → Failure
failure code = record { http_status = some code; retry_after = none; message = codes "no" }

abbrev first_answers : ℕ → Api (List MastodonStatus)
first_answers id = if id == 102 then api_error (failure 404) else answer (status 5 ∷ [])

abbrev later_answers : ℕ → ℕ → Api (List MastodonStatus)
later_answers _ _ = answer (status 9 ∷ status 8 ∷ [])

abbrev client : Client
client = record {
  watch_budget_ok = λ i. true;
  discover_budget_ok = true;
  scan_budget_ok = true;
  first_status = first_answers;
  statuses_since = later_answers;
  newest_accounts = answer [];
  accounts_since = λ t. answer (account 301 8000001 ∷ account 300 8000000 ∷ []);
  accounts_in_window = λ t. answer (account 301 8000001 ∷ account 200 1000 ∷ []);
}

abbrev limited : Client
limited = record client { first_status = λ id. api_error (failure 429) }

abbrev old_alert : AlertRow
old_alert = record {
  key = record { kind = watched_post; account_id = 103; status_id = some 8 };
  acct = codes "ada";
  status_url = none;
  excerpt = none;
  created_at = 8999000;
  acknowledged_at = none;
}

abbrev db : Db
db = record {
  watches = row 1 none none ∷ row 2 none none ∷ row 3 (some 7) (some 50) ∷ [];
  alerts = old_alert ∷ [];
  welcomes =
      record {
        account_id = 301;
        acct = codes "bob";
        sent_at = 1;
        sent_by_user_id = none;
        status_id = none;
      }
      ∷ [];
  new_account_cursor = some 7000000;
  silent_last_scan_at = none;
  next_watch_id = 4;
}

abbrev settings : WatchSettings
settings = record {
  auto_watch_days = 7;
  silent_login_days = 7;
  silent_min_age_days = 14;
  silent_scan_window_days = 90;
  log_retention_days = 90;
}

abbrev bot : Bot
bot = record {
  verify = answer (some 999);
  welcome_budget_ok = λ i. true;
  render = λ a. some (codes "welcome");
  post_direct = λ id text. answer (some 77);
}

abbrev at_start : Poll
at_start = begin db

abbrev clock : ℕ
clock = 9000000

abbrev checked_row : WatchRow
checked_row = row 3 (some 9) (some clock)

-- Watch 3, which was checked last before, is checked now.
check_watched-Seen_example : checked_row.last_checked_at ≡ some clock
unfolding check_watched watch_queue begin take keep any same_key ascii alert
check_watched-Seen_example =
    check_watched-Seen ascii client clock at_start checked_row refl refl (inr (inl refl))
      (inr (inr (inl refl)))

abbrev after_run : Poll
after_run = run_watch_poll ascii client (some bot) true clock settings (λ a. codes "silent") db

run_watch_poll_sound_example :
    Distinct after_run.db.alerts
    × (length after_run.db.alerts
        ≡ length (prune clock settings.log_retention_days (begin db)).db.alerts
          + alert_count after_run.summary)
    × All
        (λ a. In a after_run.db.alerts)
        (prune clock settings.log_retention_days (begin db)).db.alerts
run_watch_poll_sound_example =
    run_watch_poll_sound ascii client (some bot) true clock settings (λ a. codes "silent") db
      (tt, tt)

abbrev limited_at : Poll
limited_at =
    (check_watched ascii limited clock (prune clock settings.log_retention_days (begin db))).0

run_watch_poll_rate_limited_example :
    run_watch_poll ascii limited (some bot) true clock settings (λ a. codes "silent") db
    ≡ record limited_at {
      summary = record limited_at.summary {
        errors = limited_at.summary.errors ++ step_failed "check_watched" (failure 429) ∷ [];
        backoff_until = some (clock + retry_seconds none);
      };
    }
unfolding take keep
run_watch_poll_rate_limited_example =
    run_watch_poll_rate_limited ascii limited (some bot) true clock settings (λ a. codes "silent")
      db (failure 429) limited_at (unfold check_watched watch_queue prune begin in refl)
      (unfold is_rate_limit in refl)

abbrev new_ones : List Account
new_ones = account 300 8000000 ∷ account 301 8000001 ∷ []

send_welcomes_once_example :
    (length (send_welcomes bot clock new_ones at_start).posted ≤ 20)
    × Unique (send_welcomes bot clock new_ones at_start).posted
    × Listed 300 new_ones
    × (is_welcomed 300 at_start.db.welcomes ≡ false)
    × (verified_id bot.verify ≢ some 300)
unfolding any
send_welcomes_once_example =
    send_welcomes_once bot clock new_ones at_start 300 (unfold begin in refl)
      (unfold send_welcomes begin in inl refl)

discover_new_accounts_complete_example :
    Present
      (key_of new_account (account 300 8000000) none)
      (discover_new_accounts ascii client clock settings at_start).0
    × (watched 300 (discover_new_accounts ascii client clock settings at_start).0.db.watches ≡ true)
    × In
        (account 300 8000000)
        (discover_new_accounts ascii client clock settings at_start).0.summary.new_accounts
discover_new_accounts_complete_example =
    discover_new_accounts_complete ascii client clock settings at_start 7000000
      (account 301 8000001 ∷ account 300 8000000 ∷ []) (account 300 8000000) refl
      (unfold begin in refl) refl refl (inr (inl refl))

abbrev after_scan : Poll
after_scan = (scan_silent_logins ascii client clock settings (λ a. codes "silent") at_start).0

scan_silent_logins_exact_example :
    (after_scan.db.silent_last_scan_at ≡ some clock)
    × All (λ a. In a after_scan.db.alerts) at_start.db.alerts
    × All
        (λ a.
          In a at_start.db.alerts
          ⊎ Flagged clock settings (account 301 8000001 ∷ account 200 1000 ∷ []) a)
        after_scan.db.alerts
    × All
        (λ account.
          (¬ IsSilent clock settings account)
          ⊎ Present (key_of silent_login account none) after_scan)
        (account 301 8000001 ∷ account 200 1000 ∷ [])
scan_silent_logins_exact_example =
    scan_silent_logins_exact ascii client clock settings (λ a. codes "silent") at_start
      (account 301 8000001 ∷ account 200 1000 ∷ []) (unfold begin scanned_recently in refl) refl
      refl

-- The notice of report 5, sent from the template, and again with a moderator's own text.
abbrev notice : Request
notice = record {
  report_id = 5;
  reporter = record { id = some 300; acct = codes "bob@example.org" };
  text = none;
  sent_by_user_id = some 1;
  now = 100;
  stored_limit = none;
  rendered = some (codes "Thanks for report #5.");
  post = λ text. answer (some 78);
}

abbrev no_notices : Notices
no_notices = record { rows = []; posted = [] }

send_report_notice_once_example :
    ((full : Text) × ((send_report_notice ascii false notice no_notices).0.posted ≡ [] ++ full ∷ [])
      × (length full ≤ get_status_limit ascii none)
      × (length full ≤ 25000))
    × (send_report_notice ascii false
          (record notice { text = some (codes "Thank you") })
          (send_report_notice ascii false notice no_notices).0
        ≡ ((send_report_notice ascii false notice no_notices).0, some already_notified))
unfolding send_report_notice get_status_limit compose_direct any
send_report_notice_once_example =
    send_report_notice_once ascii false notice (record notice { text = some (codes "Thank you") })
      no_notices (send_report_notice ascii false notice no_notices).0 refl refl
