-- ===== src/Watch/Run/Sound.antt =====
-- core/moderation_watch.py, `run_watch_poll`: a whole run.
use mstdnca_proxmox_tool.Base.{
  ℕ, ◌+◌, ◌≡◌, refl, ap, ◌∙◌, Bool, true, false, not, Option, none, some, [], ◌∷◌, ◌++◌, In, All,
  All-intro, length, Bool-cases, inl, inr, if◌then◌else◌, arith, String,
}
use mstdnca_proxmox_tool.Base.Text.{Text, Unicode}
use mstdnca_proxmox_tool.Watch.{Account, Failure, Db, Poll, Client, Bot, WatchSettings, step_failed}
use mstdnca_proxmox_tool.Watch.Alerts.Distinct.{
  Distinct, Distinct-keep, Extends, Extends-refl, Extends-trans, alert_count,
}
use mstdnca_proxmox_tool.Watch.Check.{prune, check_watched, is_rate_limit}
use mstdnca_proxmox_tool.Watch.Check.Growth.{check_watched-Extends}
use mstdnca_proxmox_tool.Watch.Signups.{discover_new_accounts}
use mstdnca_proxmox_tool.Watch.Signups.Growth.{discover_new_accounts-Extends}
use mstdnca_proxmox_tool.Watch.Signups.Welcome.{send_welcomes, has_accounts}
use mstdnca_proxmox_tool.Watch.Signups.Welcome.Once.{send_welcomes-Sent}
use mstdnca_proxmox_tool.Watch.Silent.{scan_silent_logins}
use mstdnca_proxmox_tool.Watch.Silent.Exact.{scan_silent_logins-Extends}
use mstdnca_proxmox_tool.Watch.Run.{
  begin, no_summary, retry_seconds, note_error, settle, step, welcome_step, check_step,
  discover_step, greet_step, scan_step, run_steps, run_watch_poll,
}

note_error-Extends :
    (now : ℕ) (name : String) (e : Failure) (s : Poll) → Extends s (note_error now name e s).0
unfolding note_error
note_error-Extends now name e s = elim (Bool-cases (is_rate_limit e)) [
  | inl k ↦ rw k (Extends-refl s _ refl refl)
  | inr k ↦ rw k (Extends-refl s _ refl refl)
]

note_error_stops :
    (now : ℕ) (name : String) (e : Failure) (s : Poll)
    → is_rate_limit e ≡ true
    → note_error now name e s ≡ (
      record s {
        summary = record s.summary {
          errors = s.summary.errors ++ step_failed name e ∷ [];
          backoff_until = some (now + retry_seconds e.retry_after);
        };
      },
      true,
    )
unfolding note_error
note_error_stops now name e s r = rw r refl

settle-Extends :
    (now : ℕ) (name : String) (s : Poll) (r : Poll × Option Failure)
    → Extends s r.0
    → Extends s (settle now name r).0
unfolding settle
settle-Extends now name s (t, none) h = h
settle-Extends now name s (t, some e) h = Extends-trans s t _ h (note_error-Extends now name e t)

step-Extends :
    (f : Poll → Poll × Bool) (s : Poll) (r : Poll × Bool)
    → Extends s r.0
    → ((t : Poll) → Extends t (f t).0)
    → Extends s (step f r).0
unfolding step
step-Extends f s (t, true) h k = h
step-Extends f s (t, false) h k = Extends-trans s t _ h (k t)

Extends-pick :
    (test : Bool) (s x y : Poll) → Extends s x → Extends s y → Extends s (if test then x else y)
Extends-pick true s x y p q = p
Extends-pick false s x y p q = q

welcome_step-Extends :
    (bot : Option Bot) (enabled : Bool) (now : ℕ) (s : Poll)
    → Extends s (welcome_step bot enabled now s)
unfolding welcome_step
welcome_step-Extends none enabled now s = Extends-refl s s refl refl
welcome_step-Extends (some bot) enabled now s =
    Extends-pick (not (has_accounts s.summary.new_accounts)) s s
      (if enabled then send_welcomes bot now s.summary.new_accounts s else s)
      (Extends-refl s s refl refl)
      (Extends-pick enabled s (send_welcomes bot now s.summary.new_accounts s) s
        (send_welcomes-Sent bot now s.summary.new_accounts s).extends (Extends-refl s s refl refl))

module _ (u : Unicode) (client : Client) (bot : Option Bot) (welcomes_enabled : Bool) (now : ℕ)
    (settings : WatchSettings) (excerpt : Account → Text) where
  run_steps-Extends :
      (s : Poll) → Extends s (run_steps u client bot welcomes_enabled now settings excerpt s).0
  unfolding run_steps
  run_steps-Extends s =
      let a : Poll × Bool = check_step u client bot welcomes_enabled now settings excerpt s in
      let b : Poll × Bool =
        step (discover_step u client bot welcomes_enabled now settings excerpt) a in
      let c : Poll × Bool =
        step (greet_step u client bot welcomes_enabled now settings excerpt) b in
      step-Extends (scan_step u client bot welcomes_enabled now settings excerpt) s c
        (step-Extends (greet_step u client bot welcomes_enabled now settings excerpt) s b
          (step-Extends (discover_step u client bot welcomes_enabled now settings excerpt) s a
            (unfold check_step in
              settle-Extends now "check_watched" s (check_watched u client now s)
                (check_watched-Extends u client now s))
            (λ t.
              unfold discover_step in
              settle-Extends now "discover_new_accounts" t
                (discover_new_accounts u client now settings t)
                (discover_new_accounts-Extends u client now settings t)))
          (λ t. unfold greet_step in welcome_step-Extends bot welcomes_enabled now t))
        (λ t.
          unfold scan_step in
          settle-Extends now "scan_silent_logins" t
            (scan_silent_logins u client now settings excerpt t)
            (scan_silent_logins-Extends u client now settings excerpt t))

  -- A run from a table without two alerts of one key ends with such a table, its summary counts
  -- exactly the rows that it added to those that the pruning left, and those rows are all kept.
  pub run_watch_poll_sound :
      (db : Db)
      → Distinct db.alerts
      → Distinct (run_watch_poll u client bot welcomes_enabled now settings excerpt db).db.alerts
        × (length (run_watch_poll u client bot welcomes_enabled now settings excerpt db).db.alerts
            ≡ length (prune now settings.log_retention_days (begin db)).db.alerts
              + alert_count
                  (run_watch_poll u client bot welcomes_enabled now settings excerpt db).summary)
        × All
            (λ a.
              In a (run_watch_poll u client bot welcomes_enabled now settings excerpt db).db.alerts)
            (prune now settings.log_retention_days (begin db)).db.alerts
  unfolding run_watch_poll
  run_watch_poll_sound db d =
      let s : Poll = prune now settings.log_retention_days (begin db) in
      let e = run_steps-Extends s in
      let z : alert_count s.summary ≡ 0 = unfold prune begin no_summary in refl in
      (
        e.distinct (unfold prune begin in Distinct-keep _ db.alerts d),
        omega (arith, e.counted, z),
        All-intro _ s.db.alerts e.kept,
      )

  -- A rate limit in the step of the watches ends the run: its only further effects are the noted
  -- error and the back-off until the time that Mastodon asks for, 60 seconds where it names none. No
  -- account is discovered, welcomed or scanned.
  pub run_watch_poll_rate_limited :
      (db : Db) (e : Failure) (t : Poll)
      → check_watched u client now (prune now settings.log_retention_days (begin db)) ≡ (t, some e)
      → is_rate_limit e ≡ true
      → run_watch_poll u client bot welcomes_enabled now settings excerpt db ≡ record t {
        summary = record t.summary {
          errors = t.summary.errors ++ step_failed "check_watched" e ∷ [];
          backoff_until = some (now + retry_seconds e.retry_after);
        };
      }
  unfolding run_watch_poll run_steps step
  run_watch_poll_rate_limited db e t h r =
      let noted =
        (unfold check_step settle in ap (settle now "check_watched") h)
        ∙ note_error_stops now "check_watched" e t r in
      ap
        (λ x.
          (step (scan_step u client bot welcomes_enabled now settings excerpt) (
            step (greet_step u client bot welcomes_enabled now settings excerpt)
              (step (discover_step u client bot welcomes_enabled now settings excerpt) x))).0)
        noted
