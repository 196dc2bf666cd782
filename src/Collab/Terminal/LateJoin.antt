-- ===== src/Collab/Terminal/LateJoin.antt =====
-- core/collaboration.py `TerminalSession.add_subscriber`: what a late joiner receives.
use mstdnca_proxmox_tool.Base.{ℕ, ◌≡◌, ◌≢◌, some, List, [], ◌∷◌, ◌++◌}
use mstdnca_proxmox_tool.Base.Text.{Text}
use mstdnca_proxmox_tool.Base.Dict.{Dict, get}
use mstdnca_proxmox_tool.Collab.Terminal.{
  TerminalSession, Message, output, control, join, Step, fans_out, registers, removes,
  perform_steps,
}

-- The terminal output among the messages of a queue, joined.
abbrev pub shown : List Message → Text
shown [] = []
shown (output t ∷ ms) = t ++ shown ms
shown (control t ∷ ms) = shown ms

-- The chunks that the steps put in the queues, and the steps that neither register nor remove `ws`.
unfoldable pub fanned : List Step → List Text
fanned [] = []
fanned (fans_out text ∷ steps) = text ∷ fanned steps
fanned (_ ∷ steps) = fanned steps

abbrev pub Spares : ℕ → Step → Type 0
Spares ws (registers j catchup) = j ≢ ws
Spares ws (removes j) = j ≢ ws
Spares ws _ = Unit

-- What `ws` holds in the end, where it holds `q` now.
Holds : ℕ → List Step → List Message → TerminalSession → Type 0
Holds ws steps q s =
    (r : List Message) × (get ws (perform_steps steps s).queues ≡ some r)
    × (shown r ≡ shown q ++ join (fanned steps))
