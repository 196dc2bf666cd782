-- ===== src/Collab/Hub/Fanout.antt =====
-- core/collaboration.py `CollaborationHub.broadcast`: who receives an event.
use mstdnca_proxmox_tool.Base.{
  ℕ, ◌≡◌, ◌≢◌, refl, ◌∙◌, true, false, Option, none, some, List, [], ◌∷◌, ◌++◌, ◌==◌, ==_iff, ltb,
  if◌then◌else◌, arith, ◌⊎◌, inl, inr, In, Bool-cases, length,
}
use mstdnca_proxmox_tool.Base.Dict.{Dict, get, get-put}
use mstdnca_proxmox_tool.Access.Guests.{CommonTag, share_tag-CommonTag, CommonTag-share_tag}
use mstdnca_proxmox_tool.Collab.{put_nowait}
use mstdnca_proxmox_tool.Collab.Hub.{
  UserEntry, Event, Delivery, activity, Hub, hub_queue_size, waiting, offer, skipped, send_each,
  broadcast, outside,
}

-- A recipient of an event about a guest is an admin or holds one of the guest's tags.
abbrev pub GuestAllowed : Option (List ℕ) → UserEntry → Type 0
GuestAllowed none u = Unit
GuestAllowed (some tags) u = (u.is_admin ≡ true) ⊎ CommonTag tags u.tag_ids

abbrev pub Allowed : Event → UserEntry → Type 0
Allowed event u =
    GuestAllowed event.guest_tag_ids u × (event.moderators_only ≡ true → u.can_moderate ≡ true)

outside-GuestAllowed :
    (tags : Option (List ℕ)) (u : UserEntry) → outside tags u ≡ false → GuestAllowed tags u
unfolding outside
outside-GuestAllowed none u h = tt
outside-GuestAllowed (some tags) u h = elim (Bool-cases u.is_admin) [
  | inl a ↦ inl a
  | inr a ↦ inr (share_tag-CommonTag tags u.tag_ids (ground arith))
]

skipped-Allowed : (event : Event) (u : UserEntry) → skipped event u ≡ false → Allowed event u
unfolding skipped
skipped-Allowed event u h =
    (outside-GuestAllowed event.guest_tag_ids u (ground arith), λ m. ground arith)

GuestAllowed-outside :
    (tags : Option (List ℕ)) (u : UserEntry) → GuestAllowed tags u → outside tags u ≡ false
unfolding outside
GuestAllowed-outside none u h = refl
GuestAllowed-outside (some tags) u (inl a) = rw a
GuestAllowed-outside (some tags) u (inr c) = ground (arith, CommonTag-share_tag tags u.tag_ids c)

-- A connection of `users` that holds the queue `q` and may see the event.
abbrev pub Recipient : Event → ℕ → Dict UserEntry → Type 0
Recipient event q users =
    (uid : ℕ) × (u : UserEntry) × In (uid, u) users × (u.queue ≡ q) × Allowed event u

pub get-offer_ne :
    (p q : ℕ) (item : Delivery) (queues : Dict (List Delivery))
    → (p == q) ≡ false
    → get q (offer p item queues) ≡ get q queues
unfolding offer
get-offer_ne p q item queues e = rw (get-put, e)

pub get-offer_self :
    (q : ℕ) (item : Delivery) (queues : Dict (List Delivery))
    → get q (offer q item queues) ≡ some (put_nowait hub_queue_size item (waiting (get q queues)))
unfolding offer
get-offer_self q item queues = rw get-put (ground arith)

widen :
    {A : Type 0} (event : Event) (q uid : ℕ) (u : UserEntry) (users : Dict UserEntry)
    → A ⊎ Recipient event q users
    → A ⊎ Recipient event q ((uid, u) ∷ users)
widen event q uid u users (inl a) = inl a
widen event q uid u users (inr (id, v, i, e, m)) = inr (id, v, inr i, e, m)

send_each-get :
    (event : Event) (q : ℕ) (users : Dict UserEntry) (queues : Dict (List Delivery))
    → (get q (send_each event users queues) ≡ get q queues) ⊎ Recipient event q users
unfolding send_each
send_each-get event q [] queues = inl refl
send_each-get event q ((uid, u) ∷ users) queues = elim (Bool-cases (skipped event u)) [
  | inl s ↦ rw s (widen event q uid u users (send_each-get event q users queues))
  | inr s ↦ elim (Bool-cases (u.queue == q)) [
    | inl e ↦ inr (uid, u, inl refl, (==_iff u.queue q).0 e, skipped-Allowed event u s)
    | inr e ↦
        let queues' = offer u.queue (activity event.body) queues in
        rw s (
          rw (get-offer_ne u.queue q (activity event.body) queues e) at
            (widen event q uid u users (send_each-get event q users queues')))
  ]
]

-- A broadcast changes no queue but those of connections that may see the event: for an event about
-- a guest, an admin's or one with a tag of the guest; for a moderators' event, a moderator's. The
-- connections themselves do not change.
pub broadcast_confidential :
    (event : Event) (q : ℕ) (hub : Hub)
    → ((get q (broadcast event hub).queues ≡ get q hub.queues) ⊎ Recipient event q hub.users)
      × ((broadcast event hub).users ≡ hub.users)
unfolding broadcast
broadcast_confidential event q hub = (send_each-get event q hub.users hub.queues, refl)

-- No connection of `users` holds the queue `q`.
abbrev pub NoQueue : ℕ → Dict UserEntry → Type 0
NoQueue q [] = Unit
NoQueue q ((uid, u) ∷ users) = (u.queue ≢ q) × NoQueue q users

send_each-NoQueue :
    (event : Event) (q : ℕ) (users : Dict UserEntry) (queues : Dict (List Delivery))
    → NoQueue q users
    → get q (send_each event users queues) ≡ get q queues
unfolding send_each
send_each-NoQueue event q [] queues n = refl
send_each-NoQueue event q ((uid, u) ∷ users) queues n = elim (Bool-cases (skipped event u)) [
  | inl s ↦ rw s (send_each-NoQueue event q users queues n.1)
  | inr s ↦ rw s (
      send_each-NoQueue event q users (offer u.queue (activity event.body) queues) n.1
      ∙ get-offer_ne u.queue q (activity event.body) queues (ground (arith, n.0)))
]

Allowed-skipped : (event : Event) (u : UserEntry) → Allowed event u → skipped event u ≡ false
unfolding skipped
Allowed-skipped event u a =
    let o : outside event.guest_tag_ids u ≡ false =
      GuestAllowed-outside event.guest_tag_ids u a.0 in
    rw o (ground (arith, a.1))

send_each_self :
    (event : Event) (uid : ℕ) (u : UserEntry) (before after : Dict UserEntry)
    (queues : Dict (List Delivery))
    → NoQueue u.queue before
    → NoQueue u.queue after
    → Allowed event u
    → get u.queue (send_each event (before ++ (uid, u) ∷ after) queues)
      ≡ some (put_nowait hub_queue_size (activity event.body) (waiting (get u.queue queues)))
unfolding send_each
send_each_self event uid u [] after queues nb na a =
    rw (Allowed-skipped event u a, send_each)
      (send_each-NoQueue event u.queue after (offer u.queue (activity event.body) queues) na
        ∙ get-offer_self u.queue (activity event.body) queues)
send_each_self event uid u ((id, v) ∷ before) after queues nb na a =
    elim (Bool-cases (skipped event v)) [
      | inl s ↦ rw (s, send_each) (send_each_self event uid u before after queues nb.1 na a)
      | inr s ↦
          rw (s, send_each)
            (send_each_self event uid u before after (offer v.queue (activity event.body) queues)
                nb.1 na a
              ∙ rw (
                  get-offer_ne v.queue u.queue (activity event.body) queues (ground (arith, nb.0))))
    ]

-- A connection that may see the event, and alone holds its queue, finds the event's body at the end
-- of it, unless 200 items were waiting there: then the queue is as it was.
pub broadcast_delivers :
    (event : Event) (hub : Hub) (uid : ℕ) (u : UserEntry) (before after : Dict UserEntry)
    → hub.users ≡ before ++ (uid, u) ∷ after
    → NoQueue u.queue before
    → NoQueue u.queue after
    → Allowed event u
    → get u.queue (broadcast event hub).queues ≡ (
        let items = waiting (get u.queue hub.queues) in
        some
          (if ltb (length items) hub_queue_size then items ++ activity event.body ∷ [] else items))
unfolding broadcast
broadcast_delivers event hub uid u before after e nb na a =
    rw e (send_each_self event uid u before after hub.queues nb na a ∙ unfold put_nowait in refl)
