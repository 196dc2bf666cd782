-- ===== src/Collab/Hub/Connection.antt =====
-- core/collaboration.py, `connect`, `disconnect` and `update_presence`: which connections are there.
use mstdnca_proxmox_tool.Base.{
  ℕ, ◌≡◌, refl, fun_ext, ◌∙◌, String, Bool, Option, none, some, List, [], ◌∷◌, ◌==◌, if◌then◌else◌,
  arith, inl, inr, Bool-cases, Option-cases,
}
use mstdnca_proxmox_tool.Base.Dict.{get, get-put, get-pop}
use mstdnca_proxmox_tool.Collab.Hub.{
  UserEntry, Hub, connect, disconnect, disconnect_entry, push_presence, update_presence, moved,
}

-- The queue that a user's events go to.
abbrev pub queue_of : Option UserEntry → Option ℕ
queue_of none = none
queue_of (some u) = some u.queue

-- The specification: a map from users to the queue of their current connection. A disconnect that
-- names a queue only counts while that queue is the current one.
abbrev pub Current : Type 0
Current = ℕ → Option ℕ

abbrev pub leave : Option ℕ → Option ℕ → Option ℕ
leave none now = none
leave (some q) none = none
leave (some q) (some p) = if p == q then none else some p

pub data Call : Type 0 where
  connects : ℕ → ℕ → ℕ → String → String → String → Bool → List ℕ → Bool → Option (List ℕ) → Call
  disconnects : ℕ → ℕ → Option ℕ → Call
  moves : ℕ → ℕ → String → Option String → Option (List ℕ) → Call

abbrev pub abstract_step : Current → Call → Current
abstract_step m (connects now q user name display page admin tags moderates page_tags) j =
    if user == j then some q else m j
abstract_step m (disconnects now user event_queue) j =
    if user == j then leave event_queue (m j) else m j
abstract_step m (moves now user page following page_tags) j = m j

abbrev pub abstract_run : Current → List Call → Current
abstract_run m [] = m
abstract_run m (c ∷ cs) = abstract_run (abstract_step m c) cs

step : Hub → Call → Hub
step hub (connects now q user name display page admin tags moderates page_tags) =
    connect now q user name display page admin tags moderates page_tags hub
step hub (disconnects now user event_queue) = disconnect now user event_queue hub
step hub (moves now user page following page_tags) =
    update_presence now user page following page_tags hub

unfoldable pub run : Hub → List Call → Hub
unfolding step
run hub [] = hub
run hub (c ∷ cs) = run (step hub c) cs

abbrev pub current : Hub → Current
current hub j = queue_of (get j hub.users)

current-disconnect_entry :
    (now user : ℕ) (event_queue : Option ℕ) (found : Option UserEntry) (hub : Hub) (j : ℕ)
    → get user hub.users ≡ found
    → current (disconnect_entry now user event_queue found hub) j
      ≡ (if user == j then leave event_queue (current hub j) else current hub j)
unfolding disconnect_entry push_presence
current-disconnect_entry now user event_queue none hub j e = ground arith
current-disconnect_entry now user none (some entry) hub j e = rw get-pop (ground arith)
current-disconnect_entry now user (some q) (some entry) hub j e =
    elim (Bool-cases (entry.queue == q)) [
      | inl h ↦ rw (h, get-pop) (ground arith)
      | inr h ↦ rw h (ground arith)
    ]

current-step :
    (hub : Hub) (c : Call) (j : ℕ) → current (step hub c) j ≡ abstract_step (current hub) c j
unfolding step
current-step hub (connects now q user name display page admin tags moderates page_tags) j =
    unfold connect push_presence in rw get-put (ground arith)
current-step hub (disconnects now user event_queue) j =
    unfold disconnect in
    current-disconnect_entry now user event_queue (get user hub.users) hub j refl
current-step hub (moves now user page following page_tags) j =
    unfold update_presence push_presence in
    elim (Option-cases (get user hub.users)) [
      | inl e ↦ rw (e, moved)
      | inr (u, e) ↦ rw (e, moved, get-put) (ground arith)
    ]

abstract_run-ext :
    (m n : Current) (cs : List Call)
    → ((j : ℕ) → m j ≡ n j)
    → (j : ℕ) → abstract_run m cs j ≡ abstract_run n cs j
abstract_run-ext m n cs h j = rw (fun_ext h)

-- Over any calls, the hub's connections are the specification's: the newest connection of a user
-- counts, a disconnect for an older one changes nothing, and updates of a page touch none.
pub run-current :
    (hub : Hub) (cs : List Call) (j : ℕ) → current (run hub cs) j ≡ abstract_run (current hub) cs j
unfolding run
run-current hub [] j = refl
run-current hub (c ∷ cs) j =
    run-current (step hub c) cs j ∙ abstract_run-ext _ _ cs (current-step hub c) j
