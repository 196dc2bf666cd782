-- ===== src/Notify/Push/Delivery.antt =====
-- core/push_notifier.py, `dispatch_push_alerts`: what holds of a webhook that is called.
use mstdnca_proxmox_tool.Base.{
  ◌≡◌, refl, ap, sym, ◌∙◌, Bool, true, false, ◌&&◌, ◌||◌, Option, none, some, List, [], ◌∷◌, In,
  Bool-cases, inl, inr,
}
use mstdnca_proxmox_tool.Base.Text.{Text, Unicode}
use mstdnca_proxmox_tool.Access.{User, Guest, is_super_admin, share_tag, can_access_guest}
use mstdnca_proxmox_tool.Safety.Outbound.{
  Network, Verdict, safe, url_required, malformed, bad_scheme, has_credentials, no_hostname,
  host_not_allowed, port_not_allowed, unresolved, not_public,
}
use mstdnca_proxmox_tool.Access.Guests.{can_access_guest-tag}
use mstdnca_proxmox_tool.Notify.Push.{
  PushWebhook, valid_events, is_event, is_subscribed, is_subscribed?, may_hear, has_tags, is_safe,
  validate_webhook_url, chosen, dispatch_from, dispatch_push_alerts,
}

and_split : (a b : Bool) → a && b ≡ true → (a ≡ true) × (b ≡ true)
and_split true b h = (refl, h)
and_split false b h = cc h

-- The webhook may be called for the event.
abbrev pub Delivered : Unicode → Network → Guest → Text → PushWebhook → Type 0
Delivered u net guest event wh =
    ((events : List Text) × (wh.events ≡ some events) × (is_subscribed event events ≡ true))
    × ((user : User) × (wh.user ≡ some user)
        × (user.is_active_user ≡ true)
        × (can_access_guest user guest ≡ true))
    × (validate_webhook_url u net wh.url ≡ safe)

subscribed-elim :
    (event : Text) (events : Option (List Text))
    → is_subscribed? event events ≡ true
    → (es : List Text) × (events ≡ some es) × (is_subscribed event es ≡ true)
unfolding is_subscribed?
subscribed-elim event none h = cc h
subscribed-elim event (some es) h = (es, refl, h)

reaches :
    (guest : Guest) (v : User)
    → is_super_admin v || (has_tags guest && share_tag v.allowed_tags guest.tags) ≡ true
    → can_access_guest v guest ≡ true
reaches guest v h = elim (Bool-cases (is_super_admin v)) [
  | inl s ↦ unfold can_access_guest in rw s refl
  | inr s ↦ can_access_guest-tag v guest (and_split (has_tags guest) _ (rw s at h)).1
]

may_hear-elim :
    (guest : Guest) (user : Option User)
    → may_hear guest user ≡ true
    → (v : User) × (user ≡ some v) × (v.is_active_user ≡ true) × (can_access_guest v guest ≡ true)
unfolding may_hear
may_hear-elim guest none h = cc h
may_hear-elim guest (some v) h =
    let (a, r) = and_split v.is_active_user _ h in (v, refl, a, reaches guest v r)

is_safe-elim : (v : Verdict) → is_safe v ≡ true → v ≡ safe
unfolding is_safe
is_safe-elim safe h = refl
is_safe-elim url_required h = cc h
is_safe-elim malformed h = cc h
is_safe-elim bad_scheme h = cc h
is_safe-elim has_credentials h = cc h
is_safe-elim no_hostname h = cc h
is_safe-elim host_not_allowed h = cc h
is_safe-elim port_not_allowed h = cc h
is_safe-elim unresolved h = cc h
is_safe-elim not_public h = cc h

module _ (u : Unicode) (net : Network) where
  chosen-Delivered :
      (guest : Guest) (event : Text) (wh : PushWebhook)
      → chosen u net guest event wh ≡ true
      → Delivered u net guest event wh
  unfolding chosen
  chosen-Delivered guest event wh h =
      let (a, r) = and_split (is_subscribed? event wh.events) _ h in
      let (b, c) = and_split (may_hear guest wh.user) _ r in
      (
        subscribed-elim event wh.events a,
        may_hear-elim guest wh.user b,
        is_safe-elim (validate_webhook_url u net wh.url) c,
      )

  dispatch_from-In :
      (guest : Guest) (event : Text) (webhooks : List PushWebhook) (wh : PushWebhook)
      → In wh (dispatch_from u net guest event webhooks)
      → In wh webhooks × (chosen u net guest event wh ≡ true)
  unfolding dispatch_from
  dispatch_from-In guest event [] wh i = absurd i
  dispatch_from-In guest event (x ∷ rest) wh i = elim (Bool-cases (chosen u net guest event x)) [
    | inr e ↦ let (j, c) = dispatch_from-In guest event rest wh (rw e at i) in (inr j, c)
    | inl e ↦
        head_or_rest guest event x rest wh e (dispatch_from-In guest event rest wh) (rw e at i)
  ]
    where
      head_or_rest :
          (guest : Guest) (event : Text) (x : PushWebhook) (rest : List PushWebhook)
          (wh : PushWebhook)
          → chosen u net guest event x ≡ true
          → (In wh (dispatch_from u net guest event rest)
              → In wh rest × (chosen u net guest event wh ≡ true))
          → In wh (x ∷ dispatch_from u net guest event rest)
          → In wh (x ∷ rest) × (chosen u net guest event wh ≡ true)
      head_or_rest guest event x rest wh e f (inl p) =
          (inl p, ap (λ y. chosen u net guest event y) (sym p) ∙ e)
      head_or_rest guest event x rest wh e f (inr j) = let (k, c) = f j in (inr k, c)

  -- A webhook that is called for an event of a guest is a registered one, the event is a known one that
  -- it subscribes to, its account is active and may see the guest, and its URL passes the guard of the
  -- outbound URLs at that moment.
  pub dispatch_push_alerts_sound :
      (guest : Guest) (event : Text) (webhooks : List PushWebhook) (wh : PushWebhook)
      → In wh (dispatch_push_alerts u net guest event webhooks)
      → In wh webhooks × (is_event event valid_events ≡ true) × Delivered u net guest event wh
  unfolding dispatch_push_alerts
  dispatch_push_alerts_sound guest event webhooks wh i =
      elim (Bool-cases (is_event event valid_events)) [
        | inr e ↦ let k : In wh [] = rw e at i in absurd k
        | inl e ↦
            let (j, c) = dispatch_from-In guest event webhooks wh (rw e at i) in
            (j, e, chosen-Delivered guest event wh c)
      ]
