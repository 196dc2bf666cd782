-- ===== src/Watch/Alerts/Present.antt =====
-- core/moderation_watch.py, `record_alert`: after it there is a row with its key.
use mstdnca_proxmox_tool.Base.{
  ℕ, ◌≡◌, refl, sym, Bool, Option, any-elim, In, In-append_right, Bool-cases, inl, inr,
}
use mstdnca_proxmox_tool.Base.Text.{Unicode}
use mstdnca_proxmox_tool.Watch.{
  Kind, Key, AlertRow, Account, MastodonStatus, Poll, same_key, same_key_iff,
}
use mstdnca_proxmox_tool.Watch.Alerts.{key_of, recorded, record_alert, new_alert, alert, counted}
use mstdnca_proxmox_tool.Watch.Alerts.Distinct.{Extends}

-- A row of the table has the key.
abbrev pub Present : Key → Poll → Type 0
Present key s = (a : AlertRow) × In a s.db.alerts × (a.key ≡ key)

pub Present-Extends : (key : Key) (s t : Poll) → Extends s t → Present key s → Present key t
Present-Extends key s t e (a, i, k) = (a, e.kept a i, k)

pub alert-Present :
    (u : Unicode) (now : ℕ) (kind : Kind) (account : Account) (status : Option MastodonStatus)
    (notify : Bool) (s : Poll)
    → Present (key_of kind account status) (alert u now kind account status notify s)
unfolding alert record_alert counted
alert-Present u now kind account status notify s =
    elim (Bool-cases (recorded (key_of kind account status) s.db.alerts)) [
      | inl e ↦
          let (a, i, t) =
            any-elim (λ (b : AlertRow). same_key (key_of kind account status) b.key) s.db.alerts
              (unfold recorded in e) in
          rw e (a, i, sym ((same_key_iff (key_of kind account status) a.key).0 t))
      | inr e ↦ rw e (
        new_alert u now kind account status,
        In-append_right _ s.db.alerts _ (inl refl),
        (unfold new_alert in refl),
      )
    ]
