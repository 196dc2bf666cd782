-- ===== src/Watch.antt =====
-- core/moderation_watch.py: the poll that watches Mastodon accounts. This file has its data: the rows
-- of the tables it writes, the summary of a run, and Mastodon's answers during one run. An instant
-- is in seconds and stands for its ISO text; an id is a number.
pub mod Alerts
pub mod Check
pub mod Signups
pub mod Silent
pub mod Run
pub mod Notice
use mstdnca_proxmox_tool.Base.{
  ℕ, suc, ◌+◌, ◌*◌, ◌≡◌, ◌↔◌, Bool, true, false, ◌&&◌, Option, none, some, List, [], ◌∷◌, ◌==◌,
  arith, String,
}
use mstdnca_proxmox_tool.Base.Text.{Text}

-- `ModerationAlert.KINDS`
pub data Kind : Type 0 where
  watched_post new_account silent_login : Kind

-- `ModerationAlert.make_dedupe_key`: what its text is made of.
pub record Key : Type 0 where
  pub kind : Kind
  pub account_id : ℕ
  pub status_id : Option ℕ

pub record AlertRow : Type 0 where
  pub key : Key
  pub acct : Text
  pub status_url : Option Text
  pub excerpt : Option Text
  pub created_at : ℕ
  pub acknowledged_at : Option ℕ

pub record WatchRow : Type 0 where
  pub id : ℕ
  pub account_id : ℕ
  pub acct : Text
  pub last_status_id : Option ℕ
  pub last_checked_at : Option ℕ
  pub expires_at : Option ℕ
  pub auto_added : Bool

pub record WelcomeRow : Type 0 where
  pub account_id : ℕ
  pub acct : Text
  pub sent_at : ℕ
  pub sent_by_user_id : Option ℕ
  pub status_id : Option ℕ

-- An account and a status, as core/mastodon_admin.py hands them over.
pub record Account : Type 0 where
  pub id : ℕ
  pub acct : Text
  pub created_at : Option ℕ
  pub last_login_at : Option ℕ
  pub statuses_count : ℕ
  pub excerpt : Option Text

pub record MastodonStatus : Type 0 where
  pub id : ℕ
  pub url : Option Text
  pub excerpt : Option Text
  pub account_acct : Option Text

-- A `MastodonAPIError`.
pub record Failure : Type 0 where
  pub http_status : Option ℕ
  pub retry_after : Option ℕ
  pub message : Text

pub data Api {ℓ} (A : Type ℓ) : Type ℓ where
  answer : A → Api A
  api_error : Failure → Api A

-- An entry of `result["errors"]`.
pub data Problem : Type 0 where
  watch_failed : Text → ℕ → Failure → Problem
  step_failed : String → Failure → Problem
  welcome_failed : Text → Problem

-- The tables and settings that a run reads and writes.
pub record Db : Type 0 where
  pub watches : List WatchRow
  pub alerts : List AlertRow
  pub welcomes : List WelcomeRow
  pub new_account_cursor : Option ℕ
  pub silent_last_scan_at : Option ℕ
  pub next_watch_id : ℕ

-- The summary that `run_watch_poll` returns.
pub record Summary : Type 0 where
  pub checked : ℕ
  pub watch_total : ℕ
  pub watched_post_alerts : ℕ
  pub new_account_alerts : ℕ
  pub silent_login_alerts : ℕ
  pub deferred : Bool
  pub bootstrapped : Bool
  pub backoff_until : Option ℕ
  pub errors : List Problem
  pub removed : List WatchRow
  pub new_accounts : List Account
  pub welcomed : ℕ

-- A run so far: `notified` are the keys whose alert was sent out, `posted` the accounts that were
-- sent a direct message.
pub record Poll : Type 0 where
  pub db : Db
  pub summary : Summary
  pub notified : List Key
  pub posted : List ℕ

-- What Mastodon answers during one run; `budget_ok` says at each request whether the rate limit has
-- room for it.
pub record Client : Type 0 where
  pub watch_budget_ok : ℕ → Bool
  pub discover_budget_ok : Bool
  pub scan_budget_ok : Bool
  pub first_status : ℕ → Api (List MastodonStatus)
  pub statuses_since : ℕ → ℕ → Api (List MastodonStatus)
  pub newest_accounts : Api (List Account)
  pub accounts_since : ℕ → Api (List Account)
  pub accounts_in_window : ℕ → Api (List Account)

-- The welcome bot. `render` is `render_welcome` on the stored template; `none` is its error.
pub record Bot : Type 0 where
  pub verify : Api (Option ℕ)
  pub welcome_budget_ok : ℕ → Bool
  pub render : Account → Option Text
  pub post_direct : ℕ → Text → Api (Option ℕ)

-- What `get_watch_settings` returns of what the steps use.
pub record WatchSettings : Type 0 where
  pub auto_watch_days : ℕ
  pub silent_login_days : ℕ
  pub silent_min_age_days : ℕ
  pub silent_scan_window_days : ℕ
  pub log_retention_days : ℕ

abbrev pub days : ℕ → ℕ
days n = n * 86400

kind_code : Kind → ℕ
kind_code watched_post = 0
kind_code new_account = 1
kind_code silent_login = 2

id_code : Option ℕ → ℕ
id_code none = 0
id_code (some n) = suc n

-- Equality of the keys' texts.
unfoldable pub same_key : Key → Key → Bool
unfolding kind_code id_code
same_key a b =
    (kind_code a.kind == kind_code b.kind)
    && ((a.account_id == b.account_id) && (id_code a.status_id == id_code b.status_id))

pub same_key_iff : (a b : Key) → (same_key a b ≡ true) ↔ (a ≡ b)
unfolding same_key
same_key_iff a b = ground arith
