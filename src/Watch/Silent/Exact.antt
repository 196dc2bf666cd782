-- ===== src/Watch/Silent/Exact.antt =====
-- core/moderation_watch.py, `_scan_silent_logins`: the alerts it adds are those of the accounts that
-- meet its conditions.
use mstdnca_proxmox_tool.Base.{
  ℕ, ◌+◌, ◌-◌, ◌*◌, ◌≤◌, ◌==◌, ◌&&◌, arith, ◌↔◌, ◌≡◌, ◌⊎◌, inl, inr, refl, ap, ◌∙◌, Bool, true,
  false, not, Option, none, some, List, [], ◌∷◌, In, All, All-intro, sym, Bool-cases, if◌then◌else◌,
}
use mstdnca_proxmox_tool.Base.Text.{Text, Unicode}
use mstdnca_proxmox_tool.Watch.{
  Account, AlertRow, Api, answer, api_error, Poll, Client, WatchSettings, silent_login, days,
}
use mstdnca_proxmox_tool.Watch.Alerts.{key_of}
use mstdnca_proxmox_tool.Watch.Alerts.Distinct.{
  Extends, Extends-refl, Extends-trans, alert-Extends, alert-added,
}
use mstdnca_proxmox_tool.Watch.Alerts.Present.{alert-Present, Present, Present-Extends}
use mstdnca_proxmox_tool.Watch.Silent.{
  scanned_recently, old_and_back, is_silent, flag_silent, flag_all, scanned, after_listing,
  scan_silent_logins,
}

-- The account never posted, is old enough, and has logged in since.
abbrev pub IsSilent : ℕ → WatchSettings → Account → Type 0
IsSilent now settings account =
    (account.statuses_count ≡ 0)
    × (created_at : ℕ) × (last_login : ℕ) × (account.created_at ≡ some created_at)
    × (account.last_login_at ≡ some last_login)
    × (created_at + settings.silent_min_age_days * 86400 ≤ now)
    × (now ≤ last_login + settings.silent_login_days * 86400)

old_and_back_iff :
    (now : ℕ) (settings : WatchSettings) (created_at last_login : ℕ)
    → (old_and_back now settings (some created_at) (some last_login) ≡ true) ↔ (
        (created_at + settings.silent_min_age_days * 86400 ≤ now)
        × (now ≤ last_login + settings.silent_login_days * 86400))
unfolding old_and_back
old_and_back_iff now settings c l = (λ h. (ground arith, ground arith), λ h. ground arith)

old_and_back-elim :
    (now : ℕ) (settings : WatchSettings) (created last : Option ℕ)
    → old_and_back now settings created last ≡ true
    → (c : ℕ) × (l : ℕ) × (created ≡ some c)
      × (last ≡ some l)
      × (c + settings.silent_min_age_days * 86400 ≤ now)
      × (now ≤ l + settings.silent_login_days * 86400)
old_and_back-elim now settings none last h = let k : false ≡ true = unfold old_and_back in h in cc k
old_and_back-elim now settings (some c) none h =
    let k : false ≡ true = unfold old_and_back in h in cc k
old_and_back-elim now settings (some c) (some l) h =
    let (a, b) = (old_and_back_iff now settings c l).0 h in (c, l, refl, refl, a, b)

and_split : (a b : Bool) → a && b ≡ true → (a ≡ true) × (b ≡ true)
and_split true b h = (refl, h)
and_split false b h = cc h

is_silent-IsSilent :
    (now : ℕ) (settings : WatchSettings) (account : Account)
    → is_silent now settings account ≡ true
    → IsSilent now settings account
unfolding is_silent
is_silent-IsSilent now settings account h =
    let (z, k) =
      and_split (account.statuses_count == 0)
        (old_and_back now settings account.created_at account.last_login_at) h in
    let (c, l, ec, el, a, b) =
      old_and_back-elim now settings account.created_at account.last_login_at k in
    (ground arith, c, l, ec, el, a, b)

IsSilent-is_silent :
    (now : ℕ) (settings : WatchSettings) (account : Account)
    → IsSilent now settings account
    → is_silent now settings account ≡ true
unfolding is_silent
IsSilent-is_silent now settings account (z, c, l, ec, el, a, b) =
    let k = (old_and_back_iff now settings c l).1 (a, b) in rw (ec, el, z) k

-- The row has the key of a listed account that meets the conditions.
abbrev pub Flagged : ℕ → WatchSettings → List Account → AlertRow → Type 0
Flagged now settings accounts a =
    (account : Account) × In account accounts
    × IsSilent now settings account
    × (a.key ≡ key_of silent_login account none)

module _ (u : Unicode) (client : Client) (now : ℕ) (settings : WatchSettings)
    (excerpt : Account → Text) where
  flag_silent-Extends :
      (account : Account) (s : Poll)
      → Extends s (flag_silent u client now settings excerpt account s)
  unfolding flag_silent
  flag_silent-Extends account s = elim (Bool-cases (is_silent now settings account)) [
    | inl e ↦ rw e (
        alert-Extends u now silent_login (record account { excerpt = some (excerpt account) }) none
          false s)
    | inr e ↦ rw e (Extends-refl s s refl refl)
  ]

  flag_all-Extends :
      (accounts : List Account) (s : Poll)
      → Extends s (flag_all u client now settings excerpt accounts s)
  unfolding flag_all
  flag_all-Extends [] s = Extends-refl s s refl refl
  flag_all-Extends (account ∷ rest) s =
      let t : Poll = flag_silent u client now settings excerpt account s in
      Extends-trans s t (flag_all u client now settings excerpt rest t)
        (flag_silent-Extends account s) (flag_all-Extends rest t)

  after_listing-Extends :
      (s : Poll) (reply : Api (List Account))
      → Extends s (after_listing u client now settings excerpt s reply).0
  unfolding after_listing scanned
  after_listing-Extends s (answer accounts) =
      let t : Poll = flag_all u client now settings excerpt accounts s in
      Extends-trans s t (scanned u client now settings excerpt t) (flag_all-Extends accounts s)
        (Extends-refl t _ refl refl)
  after_listing-Extends s (api_error e) = Extends-refl s s refl refl

  pub scan_silent_logins-Extends :
      (s : Poll) → Extends s (scan_silent_logins u client now settings excerpt s).0
  unfolding scan_silent_logins
  scan_silent_logins-Extends s = elim (Bool-cases (scanned_recently now s.db.silent_last_scan_at)) [
    | inl e ↦ rw e (Extends-refl s s refl refl)
    | inr e ↦ elim (Bool-cases client.scan_budget_ok) [
      | inl f ↦
          rw (e, f)
            (after_listing-Extends s
              (client.accounts_in_window (now - days settings.silent_scan_window_days)))
      | inr f ↦ rw (e, f) (Extends-refl s _ refl refl)
    ]
  ]

  -- A row that the scan adds is the one of a listed account that meets the conditions.
  flag_all-added :
      (accounts : List Account) (s : Poll) (a : AlertRow)
      → In a (flag_all u client now settings excerpt accounts s).db.alerts
      → In a s.db.alerts ⊎ Flagged now settings accounts a
  unfolding flag_all flag_silent
  flag_all-added [] s a i = inl i
  flag_all-added (account ∷ rest) s a i = elim (flag_all-added rest _ a i) [
    | inr (b, j, t, k) ↦ inr (b, inr j, t, k)
    | inl j ↦ elim (Bool-cases (is_silent now settings account)) [
      | inr e ↦ inl (rw e at j)
      | inl e ↦
          elim (alert-added u now silent_login (record account { excerpt = some (excerpt account) })
            none false s a (rw e at j)) [
              | inl m ↦ inl m
              | inr m ↦ inr (account, inl refl, is_silent-IsSilent now settings account e, m)
            ]
    ]
  ]

  flag_all-Present :
      (accounts : List Account) (account : Account) (s : Poll)
      → is_silent now settings account ≡ true
      → In account accounts
      → Present
          (key_of silent_login account none)
          (flag_all u client now settings excerpt accounts s)
  unfolding flag_all flag_silent
  flag_all-Present [] account s h i = absurd i
  flag_all-Present (x ∷ rest) account s h (inl e) =
      let t : Poll = flag_silent u client now settings excerpt x s in
      let p : Present (key_of silent_login x none) t =
        rw (rw (← e) at h) (
          alert-Present u now silent_login (record x { excerpt = some (excerpt x) }) none false
            s) in
      let (a, i, k) =
        Present-Extends (key_of silent_login x none) t
          (flag_all u client now settings excerpt rest t) (flag_all-Extends rest t) p in
      (a, i, k ∙ ap (λ y. key_of silent_login y none) e)
  flag_all-Present (x ∷ rest) account s h (inr i) =
      flag_all-Present rest account (flag_silent u client now settings excerpt x s) h i

  scan_silent_logins_listed :
      (s : Poll) (accounts : List Account)
      → scanned_recently now s.db.silent_last_scan_at ≡ false
      → client.scan_budget_ok ≡ true
      → client.accounts_in_window (now - days settings.silent_scan_window_days) ≡ answer accounts
      → scan_silent_logins u client now settings excerpt s ≡ (
        scanned u client now settings excerpt (flag_all u client now settings excerpt accounts s),
        none,
      )
  unfolding scan_silent_logins after_listing
  scan_silent_logins_listed s accounts r b a = rw r (
      ap
        (λ t.
          if not t
          then (record s { summary = record s.summary { deferred = true } }, none)
          else after_listing u client now settings excerpt s
              (client.accounts_in_window (now - days settings.silent_scan_window_days)))
        b
      ∙ ap (after_listing u client now settings excerpt s) a)

  scan_silent_logins_covers :
      (s : Poll) (accounts : List Account) (account : Account)
      → In account accounts
      → (is_silent now settings account ≡ false)
        ⊎ Present
            (key_of silent_login account none)
            (flag_all u client now settings excerpt accounts s)
  scan_silent_logins_covers s accounts account j =
      elim (Bool-cases (is_silent now settings account)) [
        | inl e ↦ inr (flag_all-Present accounts account s e j)
        | inr e ↦ inl e
      ]

  not-IsSilent :
      (account : Account) → is_silent now settings account ≡ false → ¬ IsSilent now settings account
  not-IsSilent account e h = let k = IsSilent-is_silent now settings account h in cc (sym k ∙ e)

  -- A scan that is due, has budget and is answered stores its time, keeps the rows that there were,
  -- and adds an alert for exactly the listed accounts that never posted, are old enough and have
  -- logged in since: every row that is new has the key of one, and each of them has its row.
  pub scan_silent_logins_exact :
      (s : Poll) (accounts : List Account)
      → scanned_recently now s.db.silent_last_scan_at ≡ false
      → client.scan_budget_ok ≡ true
      → client.accounts_in_window (now - days settings.silent_scan_window_days) ≡ answer accounts
      → ((scan_silent_logins u client now settings excerpt s).0.db.silent_last_scan_at ≡ some now)
        × All
            (λ a. In a (scan_silent_logins u client now settings excerpt s).0.db.alerts)
            s.db.alerts
        × All
            (λ a. In a s.db.alerts ⊎ Flagged now settings accounts a)
            (scan_silent_logins u client now settings excerpt s).0.db.alerts
        × All
            (λ account.
              (¬ IsSilent now settings account)
              ⊎ Present
                  (key_of silent_login account none)
                  (scan_silent_logins u client now settings excerpt s).0)
            accounts
  unfolding scanned
  scan_silent_logins_exact s accounts r b h =
      let e = scan_silent_logins_listed s accounts r b h in
      let t : Poll = flag_all u client now settings excerpt accounts s in
      rw e (
        refl,
        All-intro (λ a. In a t.db.alerts) s.db.alerts (flag_all-Extends accounts s).kept,
        All-intro (λ a. In a s.db.alerts ⊎ Flagged now settings accounts a) t.db.alerts
            (flag_all-added accounts s),
        All-intro
            (λ account.
              (¬ IsSilent now settings account) ⊎ Present (key_of silent_login account none) t)
            accounts
            (λ account i. elim (scan_silent_logins_covers s accounts account i) [
              | inl n ↦ inl (not-IsSilent account n)
              | inr p ↦ inr p
            ]),
      )
