-- ===== src/Tests/Collab.antt =====
-- core/collaboration.py at concrete sessions and connections.
use mstdnca_proxmox_tool.Base.{
  ℕ, ◌≡◌, ◌⊎◌, refl, inl, inr, Bool, false, none, some, List, [], ◌∷◌, ◌++◌, length, ltb,
  if◌then◌else◌, arith,
}
use mstdnca_proxmox_tool.Base.Text.{codes}
use mstdnca_proxmox_tool.Base.Dict.{get}
use mstdnca_proxmox_tool.Collab.Terminal.{
  Step, appends, new_session, perform_steps, broadcast_output,
}
use mstdnca_proxmox_tool.Collab.Terminal.Buffer.{IsValid, appended, buffer_is_longest_fit}
use mstdnca_proxmox_tool.Collab.Hub.{
  UserEntry, Event, OnlineUser, Hub, activity, waiting, hub_queue_size, broadcast,
}
use mstdnca_proxmox_tool.Collab.Hub.Fanout.{Recipient, broadcast_confidential, broadcast_delivers}
use mstdnca_proxmox_tool.Collab.Hub.Connection.{
  connects, disconnects, run, current, abstract_run, run-current,
}

-- One broadcast is over; of the next, only the append has taken place.
abbrev half_way : List Step
half_way = broadcast_output (codes "ls") ++ appends (codes "bin") ∷ []

buffer_is_longest_fit_example :
    IsValid (codes "ls" ∷ codes "bin" ∷ []) (perform_steps half_way new_session)
unfolding broadcast_output appended
buffer_is_longest_fit_example = buffer_is_longest_fit half_way

abbrev entry : ℕ → Bool → List ℕ → UserEntry
entry q admin tags = record {
  username = "olga";
  display_name = "Olga";
  page = "/guests/10";
  page_tag_ids = some (7 ∷ []);
  following = none;
  last_seen = 100;
  queue = q;
  is_admin = admin;
  tag_ids = tags;
  can_moderate = false;
}

abbrev hub : Hub
hub = record { users = (2, entry 20 false (7 ∷ [])) ∷ (3, entry 30 false []) ∷ []; queues = [] }

abbrev guest_event : Event
guest_event = record { guest_tag_ids = some (7 ∷ []); moderators_only = false; body = "scan done" }

broadcast_confidential_example :
    ((get 30 (broadcast guest_event hub).queues ≡ get 30 hub.queues)
      ⊎ Recipient guest_event 30 hub.users)
    × ((broadcast guest_event hub).users ≡ hub.users)
broadcast_confidential_example = broadcast_confidential guest_event 30 hub

broadcast_delivers_example : get 20 (broadcast guest_event hub).queues ≡ (
    let items = waiting (get 20 hub.queues) in
    some (
      if ltb (length items) hub_queue_size then items ++ activity guest_event.body ∷ [] else items))
broadcast_delivers_example =
    broadcast_delivers guest_event hub 2 (entry 20 false (7 ∷ [])) [] ((3, entry 30 false []) ∷ [])
      refl tt (omega arith, tt) (inr (7, inl refl, inl refl), λ h. cc h)

abbrev listed : OnlineUser
listed = record { username = "olga"; display_name = "Olga"; page = "/"; following = none }

run-current_example :
    current
      (run hub (
        connects 100 21 2 "olga" "Olga" "/" false [] false none ∷ disconnects 101 2 (some 20) ∷ []))
      2
    ≡ abstract_run
        (current hub)
        (connects 100 21 2 "olga" "Olga" "/" false [] false none ∷ disconnects 101 2 (some 20) ∷ [])
        2
run-current_example =
    run-current hub
      (connects 100 21 2 "olga" "Olga" "/" false [] false none ∷ disconnects 101 2 (some 20) ∷ []) 2
