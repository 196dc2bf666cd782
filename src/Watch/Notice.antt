-- ===== src/Watch/Notice.antt =====
-- core/moderation_watch.py, `send_report_notice`: the direct message to the reporter of a report. The
-- idempotency key of the post is left out.
pub mod Sent
use mstdnca_proxmox_tool.Base.{
  ℕ, ◌+◌, ◌==◌, ltb, Bool, true, false, not, ◌&&◌, Option, none, some, List, [], ◌∷◌, ◌++◌, any,
  length, if◌then◌else◌,
}
use mstdnca_proxmox_tool.Base.Text.{Text, Unicode, strip}
use mstdnca_proxmox_tool.Watch.{Failure, Api, answer, api_error}
use mstdnca_proxmox_tool.Mastodon.StatusLimit.{get_status_limit, compose_direct}

pub record NoticeRow : Type 0 where
  pub report_id : ℕ
  pub reporter_account_id : Option ℕ
  pub reporter_acct : Text
  pub sent_at : ℕ
  pub sent_by_user_id : Option ℕ
  pub status_id : Option ℕ

-- The table, and the messages that went out.
pub record Notices : Type 0 where
  pub rows : List NoticeRow
  pub posted : List Text

pub record Reporter : Type 0 where
  pub id : Option ℕ
  pub acct : Text

pub data NoticeError : Type 0 where
  already_notified not_rendered : NoticeError
  too_long : ℕ → ℕ → NoticeError
  post_failed : Text → NoticeError

-- The arguments of a call, with the clock, the stored limit, and the bot: `post` is `post_direct`,
-- `rendered` the body that the stored template renders to, `none` on its errors.
pub record Request : Type 0 where
  pub report_id : ℕ
  pub reporter : Reporter
  pub text : Option Text
  pub sent_by_user_id : Option ℕ
  pub now : ℕ
  pub stored_limit : Option Text
  pub rendered : Option Text
  pub post : Text → Api (Option ℕ)

-- `report_notice_record`: whether there is a row.
unfoldable pub is_notified : ℕ → List NoticeRow → Bool
is_notified report_id rows = any (λ r. r.report_id == report_id) rows

replace_notice : NoticeRow → List NoticeRow → List NoticeRow
replace_notice new [] = []
replace_notice new (r ∷ rows) =
    let rest = replace_notice new rows in
    if r.report_id == new.report_id then new ∷ rows else r ∷ rest

store_notice : NoticeRow → List NoticeRow → List NoticeRow
unfolding is_notified replace_notice
store_notice new rows =
    if is_notified new.report_id rows then replace_notice new rows else rows ++ new ∷ []

notice_row : Request → Option ℕ → NoticeRow
notice_row r status_id = record {
  report_id = r.report_id;
  reporter_account_id = r.reporter.id;
  reporter_acct = r.reporter.acct;
  sent_at = r.now;
  sent_by_user_id = r.sent_by_user_id;
  status_id = status_id;
}

-- The message, or why there is none.
pub data Composed : Type 0 where
  message : Text → Composed
  refused : NoticeError → Composed

edited : Text → Text → ℕ → Composed
edited mention body limit =
    let full = 64 ∷ mention ++ 32 ∷ body in
    if ltb limit (length full) then refused (too_long (length full) limit) else message full

from_template : Option Text → Composed
from_template none = refused not_rendered
from_template (some full) = message full

templated : Text → Option Text → ℕ → Composed
unfolding from_template compose_direct
templated mention none limit = refused not_rendered
templated mention (some body) limit = from_template (compose_direct mention body limit)

composed : Unicode → Request → Composed
unfolding edited templated get_status_limit
composed u r = elim r.text [
  | some text ↦ edited r.reporter.acct (strip u text) (get_status_limit u r.stored_limit)
  | none ↦ templated r.reporter.acct r.rendered (get_status_limit u r.stored_limit)
]

after_post : Request → Text → Notices → Api (Option ℕ) → Notices × Option NoticeError
unfolding store_notice notice_row
after_post r full s (answer status_id) = (
  record { rows = store_notice (notice_row r status_id) s.rows; posted = s.posted ++ full ∷ [] },
  none,
)
after_post r full s (api_error e) = (s, some (post_failed e.message))

deliver : Request → Notices → Composed → Notices × Option NoticeError
unfolding after_post
deliver r s (refused e) = (s, some e)
deliver r s (message full) = after_post r full s (r.post full)

-- `send_report_notice`: the new state and the error.
unfoldable pub send_report_notice :
    Unicode → Bool → Request → Notices → Notices × Option NoticeError
unfolding is_notified deliver composed
send_report_notice u force r s =
    if is_notified r.report_id s.rows && not force
    then (s, some already_notified)
    else deliver r s (composed u r)
