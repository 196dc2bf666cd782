-- ===== src/Notify/Push.antt =====
-- core/push_notifier.py, `dispatch_push_alerts`: which registered webhooks are called for an event.
pub mod Delivery
use mstdnca_proxmox_tool.Base.{
  ℕ, Bool, true, false, not, ◌&&◌, ◌||◌, Option, none, some, List, [], ◌∷◌, ◌++◌, any,
  if◌then◌else◌,
}
use mstdnca_proxmox_tool.Base.Text.{Text, Unicode, codes, text_eq}
use mstdnca_proxmox_tool.Access.{User, Guest, is_super_admin, share_tag}
use mstdnca_proxmox_tool.Safety.Outbound.{
  Network, Verdict, safe, webhook_policy, validate_outbound_url,
}

-- `events` is the stored JSON array, `none` where it cannot be read; `user` is the account of the
-- registration.
pub record PushWebhook : Type 0 where
  pub id : ℕ
  pub url : Text
  pub events : Option (List Text)
  pub user : Option User

-- `PushWebhook.VALID_EVENTS`
abbrev pub valid_events : List Text
valid_events =
    codes "security_update"
    ∷ codes "service_down"
    ∷ codes "service_failed"
    ∷ codes "service_recovered"
    ∷ codes "reboot_required"
    ∷ codes "guest_error"
    ∷ []

pub is_event : Text → List Text → Bool
is_event event events = any (λ e. text_eq e event) events

-- `_EVENT_ALIASES.get(event_type)`
alias_of : Text → Option Text
alias_of event =
    if text_eq event (codes "service_failed") then some (codes "service_down") else none

unfoldable pub is_subscribed : Text → List Text → Bool
unfolding is_event alias_of
is_subscribed event events =
    is_event event events
    || elim (alias_of event) [ none ↦ false | some alias ↦ is_event alias events ]

is_subscribed? : Text → Option (List Text) → Bool
unfolding is_subscribed
is_subscribed? event none = false
is_subscribed? event (some events) = is_subscribed event events

has_tags : Guest → Bool
has_tags g = elim g.tags [ [] ↦ false | t ∷ ts ↦ true ]

-- The account is active and reaches the guest: the super admin, or one that shares a tag with it.
may_hear : Guest → Option User → Bool
unfolding has_tags is_super_admin share_tag
may_hear guest none = false
may_hear guest (some user) =
    user.is_active_user
    && (is_super_admin user || (has_tags guest && share_tag user.allowed_tags guest.tags))

is_safe : Verdict → Bool
is_safe safe = true
is_safe _ = false

module _ (u : Unicode) (net : Network) where
  -- `validate_webhook_url`
  unfoldable pub validate_webhook_url : Text → Verdict
  unfolding validate_outbound_url webhook_policy
  validate_webhook_url url = validate_outbound_url u net webhook_policy url

  chosen : Guest → Text → PushWebhook → Bool
  unfolding is_subscribed? may_hear is_safe validate_webhook_url
  chosen guest event wh =
      is_subscribed? event wh.events
      && (may_hear guest wh.user && is_safe (validate_webhook_url wh.url))

  dispatch_from : Guest → Text → List PushWebhook → List PushWebhook
  unfolding chosen
  dispatch_from guest event [] = []
  dispatch_from guest event (wh ∷ rest) =
      let others = dispatch_from guest event rest in
      if chosen guest event wh then wh ∷ others else others

  -- `dispatch_push_alerts`: the webhooks that are posted to, in their order. What a post answers is
  -- only logged.
  unfoldable pub dispatch_push_alerts : Guest → Text → List PushWebhook → List PushWebhook
  unfolding dispatch_from is_event
  dispatch_push_alerts guest event webhooks =
      if not (is_event event valid_events) then [] else dispatch_from guest event webhooks
