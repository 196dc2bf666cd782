-- ===== src/Collab/Terminal.antt =====
-- core/collaboration.py, `TerminalSession`: SSH output with a bounded catch-up buffer, fanned out to
-- the queues of the connected WebSockets. The JSON of a message stands as `output` or `control`.
-- A `Step` is what a thread does without another of the session's threads between: a method that
-- takes the lock twice is two of them.
pub mod Buffer
pub mod LateJoin
use mstdnca_proxmox_tool.Base.{
  ℕ, zero, suc, ◌+◌, ◌-◌, ◌*◌, Bool, true, false, Option, none, some, List, [], ◌∷◌, ◌++◌, map, ltb,
  max, if◌then◌else◌, length,
}
use mstdnca_proxmox_tool.Base.Text.{Text}
use mstdnca_proxmox_tool.Base.Dict.{Dict, get, put, pop}
use mstdnca_proxmox_tool.Collab.{put_nowait}

pub data Message : Type 0 where
  output control : Text → Message

-- The part of a session that changes. `queues` is keyed by the identity of the WebSocket.
pub record TerminalSession : Type 0 where
  pub queues : Dict (List Message)
  pub buffer_chunks : List Text
  pub buffer_size : ℕ

abbrev pub max_buffer : ℕ
max_buffer = 100 * 1024

abbrev pub queue_size : ℕ
queue_size = 500

abbrev pub new_session : TerminalSession
new_session = record { queues = []; buffer_chunks = []; buffer_size = 0 }

-- `"".join(chunks)`
unfoldable pub join : List Text → Text
join [] = []
join (c ∷ cs) = c ++ join cs

-- The `while` loop of `_append`.
unfoldable pub trim : ℕ → List Text → ℕ × List Text
trim size [] = (size, [])
trim size (c ∷ cs) =
    let rest = trim (size - length c) cs in if ltb max_buffer size then rest else (size, c ∷ cs)

unfoldable pub append : Text → TerminalSession → TerminalSession
append text s =
    let (size, chunks) = trim (s.buffer_size + length text) (s.buffer_chunks ++ text ∷ []) in
    record s { buffer_size = size; buffer_chunks = chunks }

unfoldable pub snapshot : TerminalSession → Text
snapshot s = join s.buffer_chunks

unfoldable pub enqueue_all : Message → Dict (List Message) → Dict (List Message)
enqueue_all m [] = []
enqueue_all m ((ws, q) ∷ qs) = (ws, put_nowait queue_size m q) ∷ enqueue_all m qs

-- The queue that `add_subscriber` makes from the snapshot `catchup`.
unfoldable pub subscriber_queue : Text → List Message
subscriber_queue [] = []
subscriber_queue (c ∷ text) = output (c ∷ text) ∷ []

-- The second half of `add_subscriber`: other threads may run between the snapshot and this.
unfoldable pub register : ℕ → Text → TerminalSession → TerminalSession
register ws catchup s = record s { queues = put ws (subscriber_queue catchup) s.queues }

unfoldable pub add_subscriber : ℕ → TerminalSession → TerminalSession
add_subscriber ws s = register ws (snapshot s) s

unfoldable pub remove_subscriber : ℕ → TerminalSession → TerminalSession
remove_subscriber ws s = record s { queues = pop ws s.queues }

-- The second half of `broadcast_output`: the queues listed under the lock, and `data` put in each.
-- The puts follow the release of the lock: what another thread registers or removes by then is in the
-- list as it was, and one thread alone broadcasts, so that no other output comes between.
unfoldable pub fan_out : Text → TerminalSession → TerminalSession
fan_out text s = record s { queues = enqueue_all (output text) s.queues }

unfoldable pub send_control : Text → TerminalSession → TerminalSession
send_control msg s = record s { queues = enqueue_all (control msg) s.queues }

unfoldable pub follower_count : TerminalSession → ℕ
follower_count s = max 0 (length s.queues - 1)

pub data Step : Type 0 where
  appends fans_out : Text → Step
  registers : ℕ → Text → Step
  removes : ℕ → Step
  controls : Text → Step

unfoldable pub perform : Step → TerminalSession → TerminalSession
perform (appends text) s = append text s
perform (fans_out text) s = fan_out text s
perform (registers ws catchup) s = register ws catchup s
perform (removes ws) s = remove_subscriber ws s
perform (controls msg) s = send_control msg s

-- Steps of all threads, in the order in which they take place.
unfoldable pub perform_steps : List Step → TerminalSession → TerminalSession
perform_steps [] s = s
perform_steps (step ∷ steps) s = perform_steps steps (perform step s)

-- `broadcast_output` appends under the lock, releases it, and takes it again to list the queues.
unfoldable pub broadcast_output : Text → List Step
broadcast_output text = appends text ∷ fans_out text ∷ []
