-- ===== src/Collab.antt =====
-- core/collaboration.py: presence and activity fan-out, and shared terminal sessions.
pub mod Hub
pub mod Terminal
pub mod Cursor
pub mod Registry
use mstdnca_proxmox_tool.Base.{ℕ, List, [], ◌∷◌, ◌++◌, ltb, if◌then◌else◌, length}

-- `put_nowait` on a queue of `maxsize`, where `queue.Full` is caught and the item dropped.
unfoldable pub put_nowait {ℓ} : {A : Type ℓ} → ℕ → A → List A → List A
put_nowait maxsize item items = if ltb (length items) maxsize then items ++ item ∷ [] else items
