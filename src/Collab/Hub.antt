-- ===== src/Collab/Hub.antt =====
-- core/collaboration.py, `CollaborationHub`. An event queue is an object of its own: entries hold its
-- identity, and `queues` what waits in it. Times are seconds of `time.time()`.
pub mod Fanout
pub mod Presence
pub mod Connection
use mstdnca_proxmox_tool.Base.{
  ℕ, ◌-◌, String, Bool, true, false, not, ◌&&◌, ◌||◌, Option, none, some, List, [], ◌∷◌, ◌++◌, ◌==◌,
  ltb, if◌then◌else◌, str_eq,
}
use mstdnca_proxmox_tool.Base.Dict.{Dict, get, put, pop}
use mstdnca_proxmox_tool.Access.{share_tag}
use mstdnca_proxmox_tool.Collab.{put_nowait}

pub record UserEntry : Type 0 where
  pub username : String
  pub display_name : String
  pub page : String
  pub page_tag_ids : Option (List ℕ)
  pub following : Option String
  pub last_seen : ℕ
  pub queue : ℕ
  pub is_admin : Bool
  pub tag_ids : List ℕ
  pub can_moderate : Bool

-- An event to broadcast: its routing keys, and the rest of the dict.
pub record Event : Type 0 where
  pub guest_tag_ids : Option (List ℕ)
  pub moderators_only : Bool
  pub body : String

pub record OnlineUser : Type 0 where
  pub username : String
  pub display_name : String
  pub page : String
  pub following : Option String

-- What a queue carries: an event without its routing keys, or a presence list.
pub data Delivery : Type 0 where
  activity : String → Delivery
  presence : List OnlineUser → Delivery

pub record Hub : Type 0 where
  pub users : Dict UserEntry
  pub queues : Dict (List Delivery)

abbrev pub presence_timeout : ℕ
presence_timeout = 90

abbrev pub hub_queue_size : ℕ
hub_queue_size = 200

pub waiting : Option (List Delivery) → List Delivery
waiting none = []
waiting (some items) = items

-- `q.put_nowait(item)` with `queue.Full` caught.
unfoldable pub offer : ℕ → Delivery → Dict (List Delivery) → Dict (List Delivery)
unfolding waiting
offer q item queues = put q (put_nowait hub_queue_size item (waiting (get q queues))) queues

unfoldable pub page_visible : Option (List ℕ) → Bool → List ℕ → Bool → Bool
page_visible none viewer_is_admin viewer_tag_ids is_self = true
page_visible (some tags) viewer_is_admin viewer_tag_ids is_self =
    if viewer_is_admin || is_self then true else share_tag tags viewer_tag_ids

pub is_viewer : ℕ → Option ℕ → Bool
is_viewer uid none = false
is_viewer uid (some viewer) = uid == viewer

pub online_user : Bool → List ℕ → Option ℕ → ℕ → UserEntry → OnlineUser
unfolding is_viewer
online_user viewer_is_admin viewer_tag_ids viewer uid u = record {
  username = u.username;
  display_name = u.display_name;
  page =
      if page_visible u.page_tag_ids viewer_is_admin viewer_tag_ids (is_viewer uid viewer)
      then u.page
      else "/";
  following = u.following;
}

unfoldable pub get_online_users : ℕ → Bool → List ℕ → Option ℕ → Dict UserEntry → List OnlineUser
unfolding online_user
get_online_users now admin tags viewer [] = []
get_online_users now admin tags viewer ((uid, u) ∷ users) =
    let rest = get_online_users now admin tags viewer users in
    if ltb (now - u.last_seen) presence_timeout
    then online_user admin tags viewer uid u ∷ rest
    else rest

-- The loop of `_push_presence` over its targets; `all` is the whole of `_users`.
push_each : ℕ → Dict UserEntry → Dict UserEntry → Dict (List Delivery) → Dict (List Delivery)
push_each now all [] queues = queues
push_each now all ((uid, u) ∷ targets) queues =
    push_each now all targets
      (offer u.queue (presence (get_online_users now u.is_admin u.tag_ids (some uid) all)) queues)

unfoldable pub push_presence : ℕ → Hub → Hub
unfolding push_each
push_presence now hub = record hub { queues = push_each now hub.users hub.users hub.queues }

or_name : String → String → String
or_name display username = if str_eq display "" then username else display

-- `q` is the queue that the call makes and returns.
unfoldable pub connect :
    ℕ → ℕ → ℕ → String → String → String → Bool → List ℕ → Bool → Option (List ℕ) → Hub → Hub
unfolding or_name
connect now q user_id username display page admin tags moderates page_tags hub =
    push_presence now (record hub {
      users =
          put user_id
            (record {
              username = username;
              display_name = or_name display username;
              page = page;
              page_tag_ids = page_tags;
              following = none;
              last_seen = now;
              queue = q;
              is_admin = admin;
              tag_ids = tags;
              can_moderate = moderates;
            })
            hub.users;
      queues = put q [] hub.queues;
    })

-- `event_queue is not None and entry["queue"] is not event_queue`
superseded : Option ℕ → UserEntry → Bool
superseded none entry = false
superseded (some q) entry = not (entry.queue == q)

disconnect_entry : ℕ → ℕ → Option ℕ → Option UserEntry → Hub → Hub
unfolding superseded
disconnect_entry now user_id event_queue none hub = hub
disconnect_entry now user_id event_queue (some entry) hub =
    if superseded event_queue entry
    then hub
    else push_presence now (record hub { users = pop user_id hub.users })

unfoldable pub disconnect : ℕ → ℕ → Option ℕ → Hub → Hub
unfolding disconnect_entry
disconnect now user_id event_queue hub =
    disconnect_entry now user_id event_queue (get user_id hub.users) hub

moved :
    ℕ
    → ℕ
    → String
    → Option String
    → Option (List ℕ)
    → Option UserEntry
    → Dict UserEntry
    → Dict UserEntry
moved now user_id page following page_tags none users = users
moved now user_id page following page_tags (some u) users =
    put user_id
      (record u { page = page; page_tag_ids = page_tags; following = following; last_seen = now })
      users

unfoldable pub update_presence : ℕ → ℕ → String → Option String → Option (List ℕ) → Hub → Hub
unfolding moved
update_presence now user_id page following page_tags hub = push_presence now (record hub {
  users = moved now user_id page following page_tags (get user_id hub.users) hub.users;
})

outside : Option (List ℕ) → UserEntry → Bool
outside none u = false
outside (some tags) u = not u.is_admin && not (share_tag tags u.tag_ids)

-- The two `continue`s of `broadcast`.
unfoldable pub skipped : Event → UserEntry → Bool
unfolding outside
skipped event u = outside event.guest_tag_ids u || (event.moderators_only && not u.can_moderate)

send_each : Event → Dict UserEntry → Dict (List Delivery) → Dict (List Delivery)
send_each event [] queues = queues
send_each event ((uid, u) ∷ targets) queues =
    send_each event targets
      (if skipped event u then queues else offer u.queue (activity event.body) queues)

unfoldable pub broadcast : Event → Hub → Hub
unfolding send_each
broadcast event hub = record hub { queues = send_each event hub.users hub.queues }
