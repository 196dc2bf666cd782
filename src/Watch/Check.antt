-- ===== src/Watch/Check.antt =====
-- core/moderation_watch.py, `_prune` and `_check_watched`: the first two steps of a poll.
pub mod Rotation
pub mod Growth
use mstdnca_proxmox_tool.Base.{
  ℕ, zero, suc, ◌+◌, ◌-◌, ◌==◌, ltb, leb, Bool, true, false, not, ◌&&◌, ◌||◌, Option, none, some,
  List, [], ◌∷◌, ◌++◌, keep, length, map, take, if◌then◌else◌,
}
use mathlib.Core.List.{reverse}
use mstdnca_proxmox_tool.Base.Text.{Text, Unicode}
use mstdnca_proxmox_tool.Watch.{
  watched_post, AlertRow, WatchRow, Account, MastodonStatus, Failure, Api, answer, api_error,
  watch_failed, Db, Summary, Poll, Client, days,
}
use mstdnca_proxmox_tool.Watch.Alerts.{alert}

before : Option ℕ → ℕ → Bool
before none limit = false
before (some t) limit = ltb t limit

-- The watch has expired.
expired : ℕ → WatchRow → Bool
unfolding before
expired now w = before w.expires_at now

-- The alert was acknowledged more than 90 days ago, or never, and is older than the log's retention.
outdated : ℕ → ℕ → AlertRow → Bool
outdated now retention a = elim a.acknowledged_at [
  | none ↦ ltb (a.created_at + days retention) now
  | some t ↦ ltb (t + days 90) now
]

-- `_prune`
unfoldable pub prune : ℕ → ℕ → Poll → Poll
unfolding expired outdated
prune now retention s = record s {
  db = record s.db {
    watches = keep (λ w. not (expired now w)) s.db.watches;
    alerts = keep (λ a. not (outdated now retention a)) s.db.alerts;
  };
}

-- `last_checked_at IS NULL` first, then by `last_checked_at`, then by id.
rank : Option ℕ → ℕ
rank none = 0
rank (some t) = suc t

checked_before : WatchRow → WatchRow → Bool
unfolding rank
checked_before v w =
    ltb (rank v.last_checked_at) (rank w.last_checked_at)
    || ((rank v.last_checked_at == rank w.last_checked_at) && ltb v.id w.id)

insert_watch : WatchRow → List WatchRow → List WatchRow
unfolding checked_before
insert_watch w [] = w ∷ []
insert_watch w (v ∷ vs) =
    let rest = insert_watch w vs in if checked_before v w then v ∷ rest else w ∷ v ∷ vs

order_watches : List WatchRow → List WatchRow
unfolding insert_watch
order_watches [] = []
order_watches (w ∷ ws) = insert_watch w (order_watches ws)

-- `MAX_WATCH_REQUESTS_PER_RUN`
abbrev pub max_watch_requests : ℕ
max_watch_requests = 100

unfoldable pub watch_queue : List WatchRow → List WatchRow
unfolding order_watches
watch_queue watches = take max_watch_requests (order_watches watches)

chosen_acct : Option Text → Text → Text
chosen_acct none old = old
chosen_acct (some []) old = old
chosen_acct (some (c ∷ s)) old = c ∷ s

watched_account : WatchRow → MastodonStatus → Account
unfolding chosen_acct
watched_account w status = record {
  id = w.account_id;
  acct = chosen_acct status.account_acct w.acct;
  created_at = none;
  last_login_at = none;
  statuses_count = 0;
  excerpt = none;
}

renamed : WatchRow → MastodonStatus → WatchRow
unfolding chosen_acct
renamed w status = record w { acct = chosen_acct status.account_acct w.acct }

seeded : WatchRow → Poll → List MastodonStatus → WatchRow × Poll
unfolding renamed
seeded w s [] = (w, s)
seeded w s (status ∷ rest) = (record (renamed w status) { last_status_id = some status.id }, s)

pub on_answer {ℓ κ} : {A : Type ℓ} {B : Type κ} → (A → B) → Api A → Api B
on_answer f (answer a) = answer (f a)
on_answer f (api_error e) = api_error e

-- A row replaced by its new version; a deleted row.
unfoldable pub put_watch : WatchRow → List WatchRow → List WatchRow
put_watch w [] = []
put_watch w (v ∷ vs) = (if v.id == w.id then w else v) ∷ put_watch w vs

unfoldable pub delete_watch : ℕ → List WatchRow → List WatchRow
delete_watch id watches = keep (λ v. not (v.id == id)) watches

status_is : ℕ → Failure → Bool
status_is code e = elim e.http_status [ none ↦ false | some c ↦ c == code ]

unfoldable pub is_rate_limit : Failure → Bool
unfolding status_is
is_rate_limit e = status_is 429 e

unfoldable pub is_gone : Failure → Bool
unfolding status_is
is_gone e = status_is 404 e || status_is 410 e

-- `watch.last_checked_at = now`
mark : ℕ → WatchRow → Poll → Poll
unfolding put_watch
mark now w s = record s {
  db = record s.db { watches = put_watch (record w { last_checked_at = some now }) s.db.watches };
}

-- The account is gone: its watch is deleted and noted.
drop_watch : WatchRow → Poll → Poll
unfolding delete_watch
drop_watch w s = record s {
  db = record s.db { watches = delete_watch w.id s.db.watches };
  summary = record s.summary {
    removed = s.summary.removed ++ w ∷ [];
    watch_total = s.summary.watch_total - 1;
  };
}

blame : WatchRow → Failure → Poll → Poll
blame w e s = record s {
  summary = record s.summary {
    errors = s.summary.errors ++ watch_failed w.acct w.account_id e ∷ [];
  };
}

finish : ℕ → Poll → Poll
finish checked s = record s { summary = record s.summary { checked = checked } }

module _ (u : Unicode) (client : Client) (now : ℕ) where
  -- The loop of `_poll_watch` over the new statuses, the oldest first.
  alert_statuses : List MastodonStatus → WatchRow → Poll → WatchRow × Poll
  unfolding renamed watched_account
  alert_statuses [] w s = (w, s)
  alert_statuses (status ∷ rest) w s =
      alert_statuses rest (renamed w status)
        (alert u now watched_post (watched_account w status) (some status) true s)

  raised : WatchRow → Poll → List MastodonStatus → WatchRow × Poll
  unfolding alert_statuses
  raised w s [] = (w, s)
  raised w s (newest ∷ older) =
      let (w', s') = alert_statuses (reverse (newest ∷ older)) w s in
      (record w' { last_status_id = some newest.id }, s')

  poll_since : Option ℕ → WatchRow → Poll → Api (WatchRow × Poll)
  unfolding seeded raised on_answer
  poll_since none w s = on_answer (seeded w s) (client.first_status w.account_id)
  poll_since (some id) w s = on_answer (raised w s) (client.statuses_since w.account_id id)

  -- `_poll_watch`: the row as the session has it then, and the state.
  unfoldable pub poll_watch : WatchRow → Poll → Api (WatchRow × Poll)
  unfolding poll_since
  poll_watch w s = poll_since w.last_status_id w s

  -- The body of the loop of `_check_watched`; `next` is the rest of the loop.
  after_poll :
      WatchRow
      → ℕ
      → (ℕ → Poll → Poll × Option Failure)
      → Poll
      → Api (WatchRow × Poll)
      → Poll × Option Failure
  unfolding mark drop_watch blame is_rate_limit is_gone
  after_poll w checked next s (answer (w', s')) = next (checked + 1) (mark now w' s')
  after_poll w checked next s (api_error e) =
      if is_rate_limit e
      then (s, some e)
      else if is_gone e
      then next checked (drop_watch w s)
      else next (checked + 1) (mark now w (blame w e s))

  -- `i` counts the requests; a failure that is returned is the one that the step raises.
  check_from : List WatchRow → ℕ → ℕ → Poll → Poll × Option Failure
  unfolding after_poll finish poll_watch
  check_from [] i checked s = (finish checked s, none)
  check_from (w ∷ ws) i checked s =
      if not (client.watch_budget_ok i)
      then (finish checked (record s { summary = record s.summary { deferred = true } }), none)
      else after_poll w checked (λ c t. check_from ws (i + 1) c t) s (poll_watch w s)

  -- `_check_watched`
  unfoldable pub check_watched : Poll → Poll × Option Failure
  unfolding check_from watch_queue
  check_watched s =
      check_from (watch_queue s.db.watches) 0 0
        (record s { summary = record s.summary { watch_total = length s.db.watches } })
