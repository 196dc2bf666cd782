-- ===== src/Watch/Alerts/Distinct.antt =====
-- core/moderation_watch.py, `record_alert`: the keys stay distinct, and every row that was there stays.
use mstdnca_proxmox_tool.Base.{
  ℕ, ◌+◌, ◌≡◌, ◌≢◌, ◌⊎◌, inl, inr, refl, ap, sym, ◌∙◌, Bool, true, false, Option, List, [], ◌∷◌,
  ◌++◌, any, keep, length, length-append, In, In-append-elim, In-append_left, Bool-cases, arith,
  if◌then◌else◌,
}
use mstdnca_proxmox_tool.Base.Text.{Unicode}
use mstdnca_proxmox_tool.Watch.{
  Kind, watched_post, new_account, silent_login, Key, AlertRow, Account, MastodonStatus, Summary,
  Poll, same_key, same_key_iff,
}
use mstdnca_proxmox_tool.Watch.Alerts.{
  key_of, recorded, record_alert, new_alert, alert, counted, count_alert,
}

-- No row of the list has the key.
abbrev pub Fresh : Key → List AlertRow → Type 0
Fresh key [] = Unit
Fresh key (a ∷ alerts) = (a.key ≢ key) × Fresh key alerts

-- No two rows have one key.
abbrev pub Distinct : List AlertRow → Type 0
Distinct [] = Unit
Distinct (a ∷ alerts) = Fresh a.key alerts × Distinct alerts

Fresh-keep :
    (test : AlertRow → Bool) (key : Key) (alerts : List AlertRow)
    → Fresh key alerts
    → Fresh key (keep test alerts)
unfolding keep
Fresh-keep test key [] h = tt
Fresh-keep test key (a ∷ alerts) h = elim (Bool-cases (test a)) [
  | inl e ↦ rw e (h.0, Fresh-keep test key alerts h.1)
  | inr e ↦ rw e (Fresh-keep test key alerts h.1)
]

pub Distinct-keep :
    (test : AlertRow → Bool) (alerts : List AlertRow)
    → Distinct alerts
    → Distinct (keep test alerts)
unfolding keep
Distinct-keep test [] h = tt
Distinct-keep test (a ∷ alerts) h = elim (Bool-cases (test a)) [
  | inl e ↦ rw e (Fresh-keep test a.key alerts h.0, Distinct-keep test alerts h.1)
  | inr e ↦ rw e (Distinct-keep test alerts h.1)
]

Fresh-snoc :
    (key : Key) (alerts : List AlertRow) (b : AlertRow)
    → Fresh key alerts
    → b.key ≢ key
    → Fresh key (alerts ++ b ∷ [])
Fresh-snoc key [] b h n = (n, tt)
Fresh-snoc key (a ∷ alerts) b h n = (h.0, Fresh-snoc key alerts b h.1 n)

Distinct-snoc :
    (alerts : List AlertRow) (b : AlertRow)
    → Distinct alerts
    → Fresh b.key alerts
    → Distinct (alerts ++ b ∷ [])
Distinct-snoc [] b d f = (tt, tt)
Distinct-snoc (a ∷ alerts) b d f =
    (Fresh-snoc a.key alerts b d.0 (λ e. f.0 (sym e)), Distinct-snoc alerts b d.1 f.1)

abbrev pub alert_count : Summary → ℕ
alert_count r = r.watched_post_alerts + r.new_account_alerts + r.silent_login_alerts

alert_count-count_alert :
    (kind : Kind) (r : Summary) → alert_count (count_alert kind r) ≡ alert_count r + 1
unfolding count_alert
alert_count-count_alert watched_post r = omega arith
alert_count-count_alert new_account r = omega arith
alert_count-count_alert silent_login r = omega arith

-- What a step of the poll does to the alerts: the keys stay distinct, the summary counts the rows
-- that are added, and no row is lost.
pub record Extends (s t : Poll) : Type 0 where
  pub distinct : Distinct s.db.alerts → Distinct t.db.alerts
  pub counted :
      length t.db.alerts + alert_count s.summary ≡ length s.db.alerts + alert_count t.summary
  pub kept : (a : AlertRow) → In a s.db.alerts → In a t.db.alerts

pub Extends-refl :
    (s t : Poll)
    → t.db.alerts ≡ s.db.alerts
    → alert_count t.summary ≡ alert_count s.summary
    → Extends s t
Extends-refl s t e c = record {
  distinct = λ d. rw e d;
  counted = rw (e, c) refl;
  kept = λ a i. rw e i;
}

pub Extends-trans : (s t v : Poll) → Extends s t → Extends t v → Extends s v
Extends-trans s t v p q = record {
  distinct = λ d. q.distinct (p.distinct d);
  counted = omega (arith, p.counted, q.counted);
  kept = λ a i. q.kept a (p.kept a i);
}

pub Extends-if {ℓ} :
    {A : Type ℓ} (test : Bool) (s : Poll) (x y : Poll × A)
    → Extends s x.0
    → Extends s y.0
    → Extends s (if test then x else y).0
Extends-if true s x y p q = p
Extends-if false s x y p q = q

module _ (u : Unicode) where
  recorded-Fresh :
      (key : Key) (alerts : List AlertRow) → recorded key alerts ≡ false → Fresh key alerts
  unfolding recorded any
  recorded-Fresh key [] h = tt
  recorded-Fresh key (a ∷ alerts) h = elim (Bool-cases (same_key key a.key)) [
    | inl e ↦ let k = rw e at h in cc k
    | inr e ↦ (
      (λ p. let k = (same_key_iff key a.key).1 (sym p) in cc (sym k ∙ e)),
      recorded-Fresh key alerts (rw e at h),
    )
  ]

  alert-distinct :
      (now : ℕ) (kind : Kind) (account : Account) (status : Option MastodonStatus) (notify : Bool)
      (s : Poll)
      → Distinct s.db.alerts
      → Distinct (alert u now kind account status notify s).db.alerts
  unfolding alert record_alert counted
  alert-distinct now kind account status notify s d =
      elim (Bool-cases (recorded (key_of kind account status) s.db.alerts)) [
        | inl e ↦ rw e d
        | inr e ↦ rw e (
            Distinct-snoc s.db.alerts (new_alert u now kind account status) d
              (unfold new_alert in recorded-Fresh (key_of kind account status) s.db.alerts e))
      ]

  alert-counted :
      (now : ℕ) (kind : Kind) (account : Account) (status : Option MastodonStatus) (notify : Bool)
      (s : Poll)
      → length (alert u now kind account status notify s).db.alerts + alert_count s.summary
        ≡ length s.db.alerts + alert_count (alert u now kind account status notify s).summary
  unfolding alert record_alert counted
  alert-counted now kind account status notify s =
      elim (Bool-cases (recorded (key_of kind account status) s.db.alerts)) [
        | inl e ↦ rw e refl
        | inr e ↦ rw e (
            omega (
              arith,
              length-append s.db.alerts (new_alert u now kind account status ∷ []),
              alert_count-count_alert kind s.summary,
            ))
      ]

  alert-kept :
      (now : ℕ) (kind : Kind) (account : Account) (status : Option MastodonStatus) (notify : Bool)
      (s : Poll) (a : AlertRow)
      → In a s.db.alerts
      → In a (alert u now kind account status notify s).db.alerts
  unfolding alert record_alert counted
  alert-kept now kind account status notify s a i =
      elim (Bool-cases (recorded (key_of kind account status) s.db.alerts)) [
        | inl e ↦ rw e i
        | inr e ↦ rw e (In-append_left a s.db.alerts (new_alert u now kind account status ∷ []) i)
      ]

  pub alert-Extends :
      (now : ℕ) (kind : Kind) (account : Account) (status : Option MastodonStatus) (notify : Bool)
      (s : Poll)
      → Extends s (alert u now kind account status notify s)
  alert-Extends now kind account status notify s = record {
    distinct = alert-distinct now kind account status notify s;
    counted = alert-counted now kind account status notify s;
    kept = alert-kept now kind account status notify s;
  }

  single-key : (key : Key) (a b : AlertRow) → b.key ≡ key → In a (b ∷ []) → a.key ≡ key
  single-key key a b e (inl p) = ap (λ (x : AlertRow). x.key) (sym p) ∙ e
  single-key key a b e (inr k) = absurd k

  -- A row that `alert` adds has the key it was called with.
  pub alert-added :
      (now : ℕ) (kind : Kind) (account : Account) (status : Option MastodonStatus) (notify : Bool)
      (s : Poll) (a : AlertRow)
      → In a (alert u now kind account status notify s).db.alerts
      → In a s.db.alerts ⊎ (a.key ≡ key_of kind account status)
  unfolding alert record_alert counted
  alert-added now kind account status notify s a i =
      elim (Bool-cases (recorded (key_of kind account status) s.db.alerts)) [
        | inl e ↦ inl (rw e at i)
        | inr e ↦
            elim (In-append-elim a s.db.alerts (new_alert u now kind account status ∷ [])
              (rw e at i)) [
                | inl j ↦ inl j
                | inr j ↦ inr (
                    single-key (key_of kind account status) a (new_alert u now kind account status)
                      (unfold new_alert in refl) j)
              ]
      ]

  pub watches-alert :
      (now : ℕ) (kind : Kind) (account : Account) (status : Option MastodonStatus) (notify : Bool)
      (s : Poll)
      → (alert u now kind account status notify s).db.watches ≡ s.db.watches
  unfolding alert record_alert counted
  watches-alert now kind account status notify s =
      elim (Bool-cases (recorded (key_of kind account status) s.db.alerts)) [
        | inl e ↦ rw e refl
        | inr e ↦ rw e refl
      ]
