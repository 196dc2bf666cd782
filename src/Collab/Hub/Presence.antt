-- ===== src/Collab/Hub/Presence.antt =====
-- core/collaboration.py `CollaborationHub.get_online_users`: what one viewer learns of the others.
use mstdnca_proxmox_tool.Base.{
  ℕ, ◌-◌, ◌<◌, ◌≡◌, refl, subst, Bool, true, false, Option, none, some, List, [], ◌∷◌, ltb, ◌⊎◌,
  inl, inr, In, Bool-cases, ltb→lt,
}
use mstdnca_proxmox_tool.Access.Guests.{CommonTag, share_tag-CommonTag}
use mstdnca_proxmox_tool.Collab.Hub.{
  UserEntry, OnlineUser, presence_timeout, page_visible, is_viewer, online_user, get_online_users,
}

-- When a viewer may be told where a user is.
abbrev pub PageAllowed : Option (List ℕ) → Bool → List ℕ → Bool → Type 0
PageAllowed none admin tags self = Unit
PageAllowed (some page_tags) admin tags self =
    (admin ≡ true) ⊎ ((self ≡ true) ⊎ CommonTag page_tags tags)

page_visible-PageAllowed :
    (page_tags : Option (List ℕ)) (admin : Bool) (tags : List ℕ) (self : Bool)
    → page_visible page_tags admin tags self ≡ true
    → PageAllowed page_tags admin tags self
unfolding page_visible
page_visible-PageAllowed none admin tags self h = tt
page_visible-PageAllowed (some page_tags) true tags self h = inl refl
page_visible-PageAllowed (some page_tags) false tags true h = inr (inl refl)
page_visible-PageAllowed (some page_tags) false tags false h =
    inr (inr (share_tag-CommonTag page_tags tags h))

-- The listed user `o` is the connection `uid`, `u`, seen in time; its page is given only if the
-- viewer may know it, and is "/" otherwise.
abbrev pub Shows : ℕ → Bool → List ℕ → Option ℕ → OnlineUser → ℕ × UserEntry → Type 0
Shows now admin tags viewer o x =
    (o.username ≡ x.1.username)
    × (now - x.1.last_seen < presence_timeout)
    × ((o.page ≡ "/")
        ⊎ ((o.page ≡ x.1.page) × PageAllowed x.1.page_tag_ids admin tags (is_viewer x.0 viewer)))

module _ (now : ℕ) (admin : Bool) (tags : List ℕ) (viewer : Option ℕ) where
  online_user-Shows :
      (uid : ℕ) (u : UserEntry)
      → now - u.last_seen < presence_timeout
      → Shows now admin tags viewer (online_user admin tags viewer uid u) (uid, u)
  unfolding online_user
  online_user-Shows uid u fresh =
      elim (Bool-cases (page_visible u.page_tag_ids admin tags (is_viewer uid viewer))) [
        | inl v ↦ (refl, fresh, inr (rw v, page_visible-PageAllowed u.page_tag_ids admin tags _ v))
        | inr v ↦ (refl, fresh, inl (rw v))
      ]

  here :
      (uid : ℕ) (u : UserEntry) (users : List (ℕ × UserEntry)) (o : OnlineUser)
      → now - u.last_seen < presence_timeout
      → (In o (get_online_users now admin tags viewer users)
          → (x : ℕ × UserEntry) × In x users × Shows now admin tags viewer o x)
      → (online_user admin tags viewer uid u ≡ o)
        ⊎ In o (get_online_users now admin tags viewer users)
      → (x : ℕ × UserEntry) × In x ((uid, u) ∷ users) × Shows now admin tags viewer o x
  here uid u users o fresh rest (inl e) = (
    (uid, u),
    inl refl,
    subst (λ o. Shows now admin tags viewer o (uid, u)) e (online_user-Shows uid u fresh),
  )
  here uid u users o fresh rest (inr j) = let (x, k, s) = rest j in (x, inr k, s)

  -- Whoever is listed is connected and was seen less than 90 seconds ago, and the page that the
  -- viewer is given is "/" unless it is about no guest, or the viewer is an admin, is that user,
  -- or holds a tag of the page's guest.
  pub get_online_users_redacted :
      (users : List (ℕ × UserEntry)) (o : OnlineUser)
      → In o (get_online_users now admin tags viewer users)
      → (x : ℕ × UserEntry) × In x users × Shows now admin tags viewer o x
  unfolding get_online_users
  get_online_users_redacted [] o i = absurd i
  get_online_users_redacted ((uid, u) ∷ users) o i =
      elim (Bool-cases (ltb (now - u.last_seen) presence_timeout)) [
        | inl f ↦ here uid u users o (ltb→lt _ _ f) (get_online_users_redacted users o) (rw f at i)
        | inr f ↦ let (x, j, s) = get_online_users_redacted users o (rw f at i) in (x, inr j, s)
      ]
