-- ===== src/Moderation/Check/Bans.antt =====
-- core/moderation.py: whom `run_moderation_check` asks PeerTube to block.
use mstdnca_proxmox_tool.Base.{
  ℕ, ◌≡◌, refl, Bool, true, false, List, [], ◌∷◌, Bool-cases, inl, inr, In, ◌⊎◌, In-append-elim,
}
use mstdnca_proxmox_tool.Base.Text.{Text}
use mstdnca_proxmox_tool.Moderation.{
  PeertubeUser, fetched, is_staff, is_registered, compare_user, compare_users, Progress,
  handle_unmatched,
}
use mstdnca_proxmox_tool.Moderation.Check.{Inputs, auto_bans, no_emails, run_moderation_check}
use mstdnca_proxmox_tool.Moderation.Check.Cases.{run_cases, start_of}

module _ (ban : ℕ → Bool) where
  -- What justifies a block request.
  abbrev pub Justified : Inputs → ℕ → Type 0
  Justified inputs id =
      (auto_bans inputs ≡ true)
      × ((users : List PeertubeUser) × (emails : List Text) × (user : PeertubeUser) × (inputs.users
            ≡ fetched users)
          × (inputs.emails ≡ fetched emails)
          × In user users
          × (user.id ≡ id)
          × (is_staff user ≡ false)
          × (is_registered emails user ≡ false)
          × (no_emails emails ≡ false))

  Banned : Bool → List Text → List PeertubeUser → ℕ → Type 0
  Banned auto_ban emails users id =
      (auto_ban ≡ true)
      × ((user : PeertubeUser) × In user users
          × (user.id ≡ id)
          × (is_staff user ≡ false)
          × (is_registered emails user ≡ false))

  compare_user-calls :
      (auto_ban : Bool) (emails : List Text) (user : PeertubeUser) (p : Progress) (id : ℕ)
      → In id (compare_user ban auto_ban emails user p).ban_calls
      → In id p.ban_calls
        ⊎ ((auto_ban ≡ true)
            × (user.id ≡ id)
            × (is_staff user ≡ false)
            × (is_registered emails user ≡ false))
  unfolding compare_user handle_unmatched
  compare_user-calls auto_ban emails user p id i = elim (Bool-cases (is_staff user)) [
    | inl s ↦ inl (rw s at i)
    | inr s ↦ elim (Bool-cases (is_registered emails user)) [
      | inl r ↦ inl (rw (s, r) at i)
      | inr r ↦ elim (Bool-cases auto_ban) [
        | inr a ↦ inl (rw (s, r, a) at i)
        | inl a ↦ elim (In-append-elim id p.ban_calls (user.id ∷ []) (rw (s, r, a) at i)) [
          | inl j ↦ inl j
          | inr j ↦ elim j [ inl e ↦ inr (a, e, s, r) | inr k ↦ absurd k ]
        ]
      ]
    ]
  ]

  widen :
      (auto_ban : Bool) (emails : List Text) (user : PeertubeUser) (users : List PeertubeUser)
      (id : ℕ)
      → Banned auto_ban emails users id
      → Banned auto_ban emails (user ∷ users) id
  unfolding Banned
  widen auto_ban emails user users id (a, (v, i, e, s, r)) = (a, (v, inr i, e, s, r))

  compare_users-calls :
      (auto_ban : Bool) (emails : List Text) (users : List PeertubeUser) (p : Progress) (id : ℕ)
      → In id (compare_users ban auto_ban emails users p).ban_calls
      → In id p.ban_calls ⊎ Banned auto_ban emails users id
  unfolding compare_users Banned
  compare_users-calls auto_ban emails [] p id i = inl i
  compare_users-calls auto_ban emails (user ∷ users) p id i =
      elim (compare_users-calls auto_ban emails users (compare_user ban auto_ban emails user p) id
        i) [
          | inr b ↦ inr (widen auto_ban emails user users id b)
          | inl j ↦ elim (compare_user-calls auto_ban emails user p id j) [
            | inl k ↦ inl k
            | inr (a, e, s, r) ↦ inr (a, (user, inl refl, e, s, r))
          ]
        ]

  -- Every block request is for a user whom PeerTube listed, who is not on its staff, and whose
  -- address is not among Mastodon's, with the automatic ban switched on, and never from an empty set
  -- of addresses.
  pub run_moderation_check-Justified :
      (inputs : Inputs) (id : ℕ)
      → In id (run_moderation_check ban inputs).1.ban_calls
      → Justified inputs id
  unfolding Banned
  run_moderation_check-Justified inputs id i = elim (run_cases ban inputs) [
    | inr (f, n) ↦ absurd (rw n at i)
    | inl (users, emails, u, m, g, e) ↦
        elim (compare_users-calls (auto_bans inputs) emails users (start_of ban emails users) id
          (rw e at i)) [
            | inl k ↦ absurd k
            | inr (a, (user, j, h, s, r)) ↦ (a, (users, emails, user, u, m, j, h, s, r, rw a at g))
          ]
  ]
