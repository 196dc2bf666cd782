-- ===== src/Watch/Alerts.antt =====
-- core/moderation_watch.py, `record_alert`: an alert is recorded at most once. The insertion that fails
-- because another process added the key in the meantime returns as if the key had been there.
pub mod Distinct
pub mod Present
use mstdnca_proxmox_tool.Base.{
  ℕ, ◌+◌, ◌==◌, ltb, leb, Bool, true, false, not, ◌&&◌, ◌||◌, Option, none, some, List, [], ◌∷◌,
  ◌++◌, any, length, map, if◌then◌else◌,
}
use mstdnca_proxmox_tool.Base.Text.{Text, Unicode, codes, strip, after_prefix}
use mstdnca_proxmox_tool.Watch.{
  Kind, watched_post, new_account, silent_login, Key, AlertRow, Account, MastodonStatus, Db,
  Summary, Poll, same_key,
}

has : Option Text → Bool
has none = false
has (some rest) = true

-- A character that `_http_url_or_none` rejects: one of ` "'<>\` or a control character.
bad_url_char : ℕ → Bool
bad_url_char c =
    ltb c 32 || ((c == 32) || ((c == 34) || ((c == 39) || ((c == 60) || ((c == 62) || (c == 92))))))

excerpt_of : Account → Option MastodonStatus → Option Text
excerpt_of account none = account.excerpt
excerpt_of account (some status) = status.excerpt

id_of : Option MastodonStatus → Option ℕ
id_of none = none
id_of (some status) = some status.id

unfoldable pub key_of : Kind → Account → Option MastodonStatus → Key
unfolding id_of
key_of kind account status = record {
  kind = kind;
  account_id = account.id;
  status_id = id_of status;
}

unfoldable pub recorded : Key → List AlertRow → Bool
recorded key alerts = any (λ a. same_key key a.key) alerts

-- `result["alerts"][kind] += 1`
count_alert : Kind → Summary → Summary
count_alert watched_post r = record r { watched_post_alerts = r.watched_post_alerts + 1 }
count_alert new_account r = record r { new_account_alerts = r.new_account_alerts + 1 }
count_alert silent_login r = record r { silent_login_alerts = r.silent_login_alerts + 1 }

counted : Kind → Poll × Bool → Poll
unfolding count_alert
counted kind (s, new) = if new then record s { summary = count_alert kind s.summary } else s

module _ (u : Unicode) where
  is_http : Text → Bool
  unfolding has
  is_http value =
      has (after_prefix (codes "http://") (map u.to_lower value))
      || has (after_prefix (codes "https://") (map u.to_lower value))

  -- `_http_url_or_none` on a string.
  unfoldable pub http_url_or_none : Text → Option Text
  unfolding is_http bad_url_char
  http_url_or_none raw =
      let value = strip u raw in
      if ltb 512 (length value) || not (is_http value)
      then none
      else if any bad_url_char value
      then none
      else some value

  url_of : Option Text → Option Text
  unfolding http_url_or_none
  url_of none = none
  url_of (some raw) = http_url_or_none raw

  status_url_of : Option MastodonStatus → Option Text
  unfolding url_of
  status_url_of none = none
  status_url_of (some status) = url_of status.url

  new_alert : ℕ → Kind → Account → Option MastodonStatus → AlertRow
  unfolding key_of status_url_of excerpt_of
  new_alert now kind account status = record {
    key = key_of kind account status;
    acct = account.acct;
    status_url = status_url_of status;
    excerpt = excerpt_of account status;
    created_at = now;
    acknowledged_at = none;
  }

  -- `record_alert`: the new state, and whether a row was inserted.
  unfoldable pub record_alert :
      ℕ → Kind → Account → Option MastodonStatus → Bool → Poll → Poll × Bool
  unfolding recorded new_alert
  record_alert now kind account status notify s =
      if recorded (key_of kind account status) s.db.alerts then (s, false) else (
        record s {
          db = record s.db { alerts = s.db.alerts ++ new_alert now kind account status ∷ [] };
          notified = if notify then s.notified ++ key_of kind account status ∷ [] else s.notified;
        },
        true,
      )

  -- The call and the counting of what it inserts, as each step has them.
  unfoldable pub alert : ℕ → Kind → Account → Option MastodonStatus → Bool → Poll → Poll
  unfolding counted record_alert
  alert now kind account status notify s =
      counted kind (record_alert now kind account status notify s)
