-- ===== src/Watch/Signups/Growth.antt =====
-- core/moderation_watch.py, `_discover_new_accounts`: what it does to the alerts.
use mstdnca_proxmox_tool.Base.{
  ℕ, refl, true, Option, none, some, List, [], ◌∷◌, Bool-cases, inl, inr, ltb, not,
}
use mathlib.Core.List.{reverse}
use mstdnca_proxmox_tool.Base.Text.{Unicode}
use mstdnca_proxmox_tool.Watch.{
  Account, Api, answer, api_error, Poll, Client, WatchSettings, new_account,
}
use mstdnca_proxmox_tool.Watch.Alerts.{alert}
use mstdnca_proxmox_tool.Watch.Alerts.Distinct.{
  Extends, Extends-if, Extends-refl, Extends-trans, alert-Extends,
}
use mstdnca_proxmox_tool.Watch.Signups.{
  watched, add_watch, announce, announce_all, bootstrap, discovered, found, newest_cursor, on_reply,
  discover_from, discover_new_accounts, defer,
}

pub add_watch-Extends :
    (now d : ℕ) (account : Account) (s : Poll) → Extends s (add_watch now d account s)
unfolding add_watch
add_watch-Extends now d account s = elim (Bool-cases (ltb 0 d)) [
  | inr e ↦ rw e (Extends-refl s s refl refl)
  | inl e ↦ elim (Bool-cases (watched account.id s.db.watches)) [
    | inl f ↦ rw (e, f) (Extends-refl s s refl refl)
    | inr f ↦ rw (e, f) (Extends-refl s _ refl refl)
  ]
]

bootstrap-Extends : (s : Poll) (accounts : List Account) → Extends s (bootstrap s accounts)
unfolding bootstrap
bootstrap-Extends s [] = Extends-refl s _ refl refl
bootstrap-Extends s (newest ∷ older) = Extends-refl s _ refl refl

module _ (u : Unicode) (client : Client) (now : ℕ) (settings : WatchSettings) where
  pub announce-Extends :
      (account : Account) (s : Poll) → Extends s (announce u client now settings account s)
  unfolding announce
  announce-Extends account s =
      let t : Poll = alert u now new_account account none true s in
      Extends-trans s t (add_watch now settings.auto_watch_days account t)
        (alert-Extends u now new_account account none true s)
        (add_watch-Extends now settings.auto_watch_days account t)

  pub announce_all-Extends :
      (accounts : List Account) (s : Poll)
      → Extends s (announce_all u client now settings accounts s)
  unfolding announce_all
  announce_all-Extends [] s = Extends-refl s s refl refl
  announce_all-Extends (account ∷ rest) s =
      let t : Poll = announce u client now settings account s in
      Extends-trans s t (announce_all u client now settings rest t) (announce-Extends account s)
        (announce_all-Extends rest t)

  found-Extends :
      (cursor : Option ℕ) (s : Poll) (accounts : List Account)
      → Extends s (found u client now settings cursor s accounts)
  unfolding found
  found-Extends cursor s [] = Extends-refl s s refl refl
  found-Extends cursor s (newest ∷ older) =
      let t : Poll = announce_all u client now settings (reverse (newest ∷ older)) s in
      Extends-trans s t
        (discovered (newest_cursor newest.created_at cursor) (reverse (newest ∷ older)) t)
        (announce_all-Extends (reverse (newest ∷ older)) s)
        (unfold discovered in
          Extends-refl t
            (discovered (newest_cursor newest.created_at cursor) (reverse (newest ∷ older)) t) refl
            refl)

  on_reply-Extends :
      (f : List Account → Poll) (s : Poll) (reply : Api (List Account))
      → ((accounts : List Account) → Extends s (f accounts))
      → Extends s (on_reply f s reply).0
  unfolding on_reply
  on_reply-Extends f s (answer accounts) h = h accounts
  on_reply-Extends f s (api_error e) h = Extends-refl s s refl refl

  discover_from-Extends :
      (cursor : Option ℕ) (s : Poll) → Extends s (discover_from u client now settings cursor s).0
  unfolding discover_from
  discover_from-Extends none s =
      on_reply-Extends (bootstrap s) s client.newest_accounts (bootstrap-Extends s)
  discover_from-Extends (some since) s =
      on_reply-Extends (found u client now settings (some since) s) s (client.accounts_since since)
        (found-Extends (some since) s)

  pub discover_new_accounts-Extends :
      (s : Poll) → Extends s (discover_new_accounts u client now settings s).0
  unfolding discover_new_accounts defer
  discover_new_accounts-Extends s =
      Extends-if (not client.discover_budget_ok) s (defer s, none)
        (discover_from u client now settings s.db.new_account_cursor s) (Extends-refl s _ refl refl)
        (discover_from-Extends s.db.new_account_cursor s)
