-- ===== src/Collab/Registry.antt =====
-- core/collaboration.py, `TerminalSessionRegistry`: the shared terminals by their ids. A fresh id of
-- `create` is an argument.
use mstdnca_proxmox_tool.Base.{ℕ, ◌==◌, ◌≡◌, Option, none, List, [], ◌∷◌, if◌then◌else◌}
use mstdnca_proxmox_tool.Base.Text.{Text}
use mstdnca_proxmox_tool.Base.Dict.{Dict, get, put, pop, get-pop}
use mstdnca_proxmox_tool.Collab.Terminal.{TerminalSession, new_session}

pub record SharedTerminal : Type 0 where
  pub session_id : ℕ
  pub guest_id : ℕ
  pub guest_name : Text
  pub owner_user_id : ℕ
  pub owner_username : Text
  pub session : TerminalSession

unfoldable pub create_terminal : ℕ → ℕ → Text → ℕ → Text → Dict SharedTerminal → Dict SharedTerminal
create_terminal id guest_id guest_name owner_user_id owner_username sessions =
    put id
      (record {
        session_id = id;
        guest_id = guest_id;
        guest_name = guest_name;
        owner_user_id = owner_user_id;
        owner_username = owner_username;
        session = new_session;
      })
      sessions

unfoldable pub find_terminal : ℕ → Dict SharedTerminal → Option SharedTerminal
find_terminal id sessions = get id sessions

unfoldable pub remove_terminal : ℕ → Dict SharedTerminal → Dict SharedTerminal
remove_terminal id sessions = pop id sessions

unfoldable pub all_terminals : Dict SharedTerminal → List SharedTerminal
all_terminals [] = []
all_terminals ((id, t) ∷ sessions) = t ∷ all_terminals sessions

-- A terminal that is removed is not found again, and the others are where they were.
pub find-remove_terminal :
    (id other : ℕ) (sessions : Dict SharedTerminal)
    → find_terminal other (remove_terminal id sessions)
      ≡ (if id == other then none else find_terminal other sessions)
unfolding find_terminal remove_terminal
find-remove_terminal id other sessions = get-pop id other sessions
