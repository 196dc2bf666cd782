-- ===== src/Watch/Check/Growth.antt =====
-- core/moderation_watch.py, `_check_watched`: what it does to the alerts.
use mstdnca_proxmox_tool.Base.{
  ℕ, ◌+◌, ◌≡◌, ◌∙◌, length, refl, true, Option, none, some, List, [], ◌∷◌, Bool-cases, inl, inr,
}
use mathlib.Core.List.{reverse}
use mstdnca_proxmox_tool.Base.Text.{Unicode}
use mstdnca_proxmox_tool.Watch.{
  WatchRow, MastodonStatus, Failure, Api, answer, api_error, Poll, Client, watched_post,
}
use mstdnca_proxmox_tool.Watch.Alerts.{alert}
use mstdnca_proxmox_tool.Watch.Alerts.Distinct.{
  Extends, Extends-refl, Extends-trans, alert-Extends, watches-alert,
}
use mstdnca_proxmox_tool.Watch.Check.{
  on_answer, seeded, raised, alert_statuses, poll_since, poll_watch, after_poll, check_from,
  check_watched, renamed, watched_account, mark, drop_watch, blame, finish, is_rate_limit, is_gone,
  watch_queue,
}

pub on_answer-eq-answer {ℓ κ} :
    {A : Type ℓ} {B : Type κ} (f : A → B) (x : Api A) (b : B)
    → on_answer f x ≡ answer b
    → (a : A) × (x ≡ answer a) × (f a ≡ b)
unfolding on_answer
on_answer-eq-answer f (answer a) b h = (a, refl, cc h)
on_answer-eq-answer f (api_error e) b h = cc h

-- One watched account was polled: the alerts are extended, the table of watches is as it was, and
-- the row is still the one of this watch.
pub record Polled (w : WatchRow) (s : Poll) (r : WatchRow × Poll) : Type 0 where
  pub extends : Extends s r.1
  pub same_rows : r.1.db.watches ≡ s.db.watches
  pub same_id : r.0.id ≡ w.id

module _ (u : Unicode) (client : Client) (now : ℕ) where
  alert_statuses-Polled :
      (statuses : List MastodonStatus) (w : WatchRow) (s : Poll)
      → Polled w s (alert_statuses u client now statuses w s)
  unfolding alert_statuses renamed
  alert_statuses-Polled [] w s = record {
    extends = Extends-refl s s refl refl;
    same_rows = refl;
    same_id = refl;
  }
  alert_statuses-Polled (status ∷ rest) w s =
      let t : Poll = alert u now watched_post (watched_account w status) (some status) true s in
      let ih = alert_statuses-Polled rest (renamed w status) t in
      record {
        extends =
            Extends-trans s t (alert_statuses u client now rest (renamed w status) t).1
              (alert-Extends u now watched_post (watched_account w status) (some status) true s)
              ih.extends;
        same_rows =
            ih.same_rows
            ∙ watches-alert u now watched_post (watched_account w status) (some status) true s;
        same_id = ih.same_id;
      }

  seeded-Polled :
      (w : WatchRow) (s : Poll) (statuses : List MastodonStatus) → Polled w s (seeded w s statuses)
  unfolding seeded renamed
  seeded-Polled w s [] = record {
    extends = Extends-refl s s refl refl;
    same_rows = refl;
    same_id = refl;
  }
  seeded-Polled w s (status ∷ rest) = record {
    extends = Extends-refl s s refl refl;
    same_rows = refl;
    same_id = refl;
  }

  raised-Polled :
      (w : WatchRow) (s : Poll) (statuses : List MastodonStatus)
      → Polled w s (raised u client now w s statuses)
  unfolding raised
  raised-Polled w s [] = record {
    extends = Extends-refl s s refl refl;
    same_rows = refl;
    same_id = refl;
  }
  raised-Polled w s (newest ∷ older) =
      let p = alert_statuses-Polled (reverse (newest ∷ older)) w s in
      record { extends = p.extends; same_rows = p.same_rows; same_id = p.same_id }

  poll_since-Polled :
      (o : Option ℕ) (w : WatchRow) (s : Poll) (r : WatchRow × Poll)
      → poll_since u client now o w s ≡ answer r
      → Polled w s r
  unfolding poll_since
  poll_since-Polled none w s r h =
      let (statuses, e, p) =
        on_answer-eq-answer (seeded w s) (client.first_status w.account_id) r h in
      rw (← p) (seeded-Polled w s statuses)
  poll_since-Polled (some id) w s r h =
      let (statuses, e, p) =
        on_answer-eq-answer (raised u client now w s) (client.statuses_since w.account_id id) r h in
      rw (← p) (raised-Polled w s statuses)

  pub poll_watch-Polled :
      (w : WatchRow) (s : Poll) (r : WatchRow × Poll)
      → poll_watch u client now w s ≡ answer r
      → Polled w s r
  unfolding poll_watch
  poll_watch-Polled w s r h = poll_since-Polled w.last_status_id w s r h

  after_poll-Extends :
      (w : WatchRow) (checked : ℕ) (next : ℕ → Poll → Poll × Option Failure) (s : Poll)
      (reply : Api (WatchRow × Poll))
      → ((c : ℕ) (t : Poll) → Extends t (next c t).0)
      → ((r : WatchRow × Poll) → reply ≡ answer r → Polled w s r)
      → Extends s (after_poll u client now w checked next s reply).0
  unfolding after_poll
  after_poll-Extends w checked next s (answer (w', s')) rest polled =
      let p = polled (w', s') refl in
      let t : Poll = mark now w' s' in
      Extends-trans s s' (next (checked + 1) t).0 p.extends (
        Extends-trans s' t (next (checked + 1) t).0 (unfold mark in Extends-refl s' t refl refl)
          (rest (checked + 1) t))
  after_poll-Extends w checked next s (api_error e) rest polled =
      elim (Bool-cases (is_rate_limit e)) [
        | inl a ↦ rw a (Extends-refl s s refl refl)
        | inr a ↦ elim (Bool-cases (is_gone e)) [
          | inl b ↦
              let t : Poll = drop_watch w s in
              rw (a, b)
                (Extends-trans s t (next checked t).0
                  (unfold drop_watch in Extends-refl s t refl refl) (rest checked t))
          | inr b ↦
              let t : Poll = mark now w (blame w e s) in
              rw (a, b)
                (Extends-trans s t (next (checked + 1) t).0
                  (unfold mark blame in Extends-refl s t refl refl) (rest (checked + 1) t))
        ]
      ]

  check_from-Extends :
      (ws : List WatchRow) (i checked : ℕ) (s : Poll)
      → Extends s (check_from u client now ws i checked s).0
  unfolding check_from finish
  check_from-Extends [] i checked s = Extends-refl s (finish checked s) refl refl
  check_from-Extends (w ∷ ws) i checked s = elim (Bool-cases (client.watch_budget_ok i)) [
    | inr e ↦ rw e (
        Extends-refl s
          (finish checked (record s { summary = record s.summary { deferred = true } })) refl refl)
    | inl e ↦ rw e (
        after_poll-Extends w checked (λ c t. check_from u client now ws (i + 1) c t) s
          (poll_watch u client now w s) (λ c t. check_from-Extends ws (i + 1) c t)
          (poll_watch-Polled w s))
  ]

  pub check_watched-Extends : (s : Poll) → Extends s (check_watched u client now s).0
  unfolding check_watched
  check_watched-Extends s =
      let t : Poll = record s {
        summary = record s.summary { watch_total = length s.db.watches };
      } in
      Extends-trans s t (check_watched u client now s).0 (Extends-refl s t refl refl)
        (check_from-Extends (watch_queue s.db.watches) 0 0 t)
