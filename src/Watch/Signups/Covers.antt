-- ===== src/Watch/Signups/Covers.antt =====
-- core/moderation_watch.py, `_discover_new_accounts`: every account that Mastodon lists has its alert
-- and, where it is configured, its watch.
use mstdnca_proxmox_tool.Base.{
  ℕ, ◌==◌, ◌≡◌, refl, ap, ◌∙◌, true, not, Option, none, some, List, [], ◌∷◌, ◌++◌, any-intro,
  any-elim, In, In-append_left, In-append_right, Bool-cases, inl, inr, ltb, if◌then◌else◌, arith,
}
use mathlib.Core.List.{reverse, reverse-cons}
use mstdnca_proxmox_tool.Base.Text.{Unicode}
use mstdnca_proxmox_tool.Watch.{Account, WatchRow, answer, Poll, Client, WatchSettings, new_account}
use mstdnca_proxmox_tool.Watch.Alerts.{alert, key_of}
use mstdnca_proxmox_tool.Watch.Alerts.Distinct.{watches-alert}
use mstdnca_proxmox_tool.Watch.Alerts.Present.{Present, Present-Extends, alert-Present}
use mstdnca_proxmox_tool.Watch.Signups.{
  watched, add_watch, auto_watch, announce, announce_all, defer, discovered, found, on_reply,
  discover_from, discover_new_accounts,
}
use mstdnca_proxmox_tool.Watch.Signups.Growth.{add_watch-Extends, announce_all-Extends}

pub In-reverse : {A : Type 0} (a : A) (xs : List A) → In a xs → In a (reverse xs)
In-reverse a [] i = absurd i
In-reverse a (x ∷ xs) (inl e) =
    rw (reverse-cons x xs) (In-append_right a (reverse xs) (x ∷ []) (inl e))
In-reverse a (x ∷ xs) (inr i) =
    rw (reverse-cons x xs) (In-append_left a (reverse xs) (x ∷ []) (In-reverse a xs i))

watched-append :
    (id : ℕ) (rows more : List WatchRow) → watched id rows ≡ true → watched id (rows ++ more) ≡ true
unfolding watched
watched-append id rows more h =
    let (a, i, t) = any-elim (λ (w : WatchRow). w.account_id == id) rows h in
    any-intro (λ (w : WatchRow). w.account_id == id) a (rows ++ more) (In-append_left a rows more i)
      t

watched_snoc :
    (id : ℕ) (rows : List WatchRow) (w : WatchRow)
    → w.account_id ≡ id
    → watched id (rows ++ w ∷ []) ≡ true
unfolding watched
watched_snoc id rows w h =
    any-intro (λ (v : WatchRow). v.account_id == id) w (rows ++ w ∷ [])
      (In-append_right w rows (w ∷ []) (inl refl)) (ground arith)

watched-add_watch :
    (now d id : ℕ) (account : Account) (s : Poll)
    → watched id s.db.watches ≡ true
    → watched id (add_watch now d account s).db.watches ≡ true
unfolding add_watch
watched-add_watch now d id account s h = elim (Bool-cases (ltb 0 d)) [
  | inr e ↦ rw e h
  | inl e ↦ elim (Bool-cases (watched account.id s.db.watches)) [
    | inl f ↦ rw (e, f) h
    | inr f ↦ rw (e, f) (watched-append id s.db.watches _ h)
  ]
]

add_watch-watched :
    (now d : ℕ) (account : Account) (s : Poll)
    → ltb 0 d ≡ true
    → watched account.id (add_watch now d account s).db.watches ≡ true
unfolding add_watch
add_watch-watched now d account s e = elim (Bool-cases (watched account.id s.db.watches)) [
  | inl f ↦ rw (e, f) f
  | inr f ↦
      rw (e, f)
        (watched_snoc account.id s.db.watches (auto_watch now d account s.db.next_watch_id)
          (unfold auto_watch in refl))
]

module _ (u : Unicode) (client : Client) (now : ℕ) (settings : WatchSettings) where
  announce-Present :
      (account : Account) (s : Poll)
      → Present (key_of new_account account none) (announce u client now settings account s)
  unfolding announce
  announce-Present account s =
      let t : Poll = alert u now new_account account none true s in
      Present-Extends (key_of new_account account none) t
        (add_watch now settings.auto_watch_days account t)
        (add_watch-Extends now settings.auto_watch_days account t)
        (alert-Present u now new_account account none true s)

  announce-watched :
      (account : Account) (s : Poll)
      → ltb 0 settings.auto_watch_days ≡ true
      → watched account.id (announce u client now settings account s).db.watches ≡ true
  unfolding announce
  announce-watched account s e = add_watch-watched now settings.auto_watch_days account _ e

  announce_all-keeps-watched :
      (accounts : List Account) (id : ℕ) (s : Poll)
      → watched id s.db.watches ≡ true
      → watched id (announce_all u client now settings accounts s).db.watches ≡ true
  unfolding announce_all announce
  announce_all-keeps-watched [] id s h = h
  announce_all-keeps-watched (account ∷ rest) id s h = announce_all-keeps-watched rest id _ (
      watched-add_watch now settings.auto_watch_days id account _
        (rw (watches-alert u now new_account account none true s) h))

  announce_all-Present :
      (accounts : List Account) (account : Account) (s : Poll)
      → In account accounts
      → Present (key_of new_account account none) (announce_all u client now settings accounts s)
  unfolding announce_all
  announce_all-Present [] account s i = absurd i
  announce_all-Present (x ∷ rest) account s (inl e) =
      let t : Poll = announce u client now settings x s in
      let (a, i, k) =
        Present-Extends (key_of new_account x none) t (announce_all u client now settings rest t)
          (announce_all-Extends u client now settings rest t) (announce-Present x s) in
      (a, i, k ∙ ap (λ y. key_of new_account y none) e)
  announce_all-Present (x ∷ rest) account s (inr i) =
      announce_all-Present rest account (announce u client now settings x s) i

  announce_all-watched :
      (accounts : List Account) (account : Account) (s : Poll)
      → ltb 0 settings.auto_watch_days ≡ true
      → In account accounts
      → watched account.id (announce_all u client now settings accounts s).db.watches ≡ true
  unfolding announce_all
  announce_all-watched [] account s d i = absurd i
  announce_all-watched (x ∷ rest) account s d (inl e) = rw (← e) (
      announce_all-keeps-watched rest x.id (announce u client now settings x s)
        (announce-watched x s d))
  announce_all-watched (x ∷ rest) account s d (inr i) =
      announce_all-watched rest account (announce u client now settings x s) d i

  found-covers :
      (cursor : Option ℕ) (s : Poll) (accounts : List Account) (account : Account)
      → ltb 0 settings.auto_watch_days ≡ true
      → In account accounts
      → Present (key_of new_account account none) (found u client now settings cursor s accounts)
        × (watched account.id (found u client now settings cursor s accounts).db.watches ≡ true)
        × In account (found u client now settings cursor s accounts).summary.new_accounts
  unfolding found discovered
  found-covers cursor s [] account d i = absurd i
  found-covers cursor s (newest ∷ older) account d i =
      let j = In-reverse account (newest ∷ older) i in
      (
        announce_all-Present (reverse (newest ∷ older)) account s j,
        announce_all-watched (reverse (newest ∷ older)) account s d j,
        j,
      )

  discover_new_accounts-found :
      (s : Poll) (since : ℕ) (accounts : List Account)
      → client.discover_budget_ok ≡ true
      → s.db.new_account_cursor ≡ some since
      → client.accounts_since since ≡ answer accounts
      → discover_new_accounts u client now settings s
        ≡ (found u client now settings (some since) s accounts, none)
  unfolding discover_new_accounts discover_from on_reply
  discover_new_accounts-found s since accounts b c a =
      ap
        (λ t.
          if not t
          then (defer s, none)
          else discover_from u client now settings s.db.new_account_cursor s)
        b
      ∙ (ap (λ o. discover_from u client now settings o s) c
          ∙ ap (on_reply (found u client now settings (some since) s) s) a)

  -- Where the automatic watch is on and there are budget, a cursor and an answer of Mastodon's,
  -- each listed account has a `new_account` alert and a watch, and is handed to the welcomes.
  pub discover_new_accounts_complete :
      (s : Poll) (since : ℕ) (accounts : List Account) (account : Account)
      → client.discover_budget_ok ≡ true
      → s.db.new_account_cursor ≡ some since
      → client.accounts_since since ≡ answer accounts
      → ltb 0 settings.auto_watch_days ≡ true
      → In account accounts
      → Present (key_of new_account account none) (discover_new_accounts u client now settings s).0
        × (watched account.id (discover_new_accounts u client now settings s).0.db.watches ≡ true)
        × In account (discover_new_accounts u client now settings s).0.summary.new_accounts
  discover_new_accounts_complete s since accounts account b c a d i =
      rw (discover_new_accounts-found s since accounts b c a)
        (found-covers (some since) s accounts account d i)
