-- ===== src/Scanner/Services/Alerts.antt =====
-- core/scanner.py: an alert goes out for a change of status, and only once.
use mstdnca_proxmox_tool.Base.{
  ℕ, ◌≡◌, ◌≢◌, refl, Bool, false, Bool-cases, String, Option, none, some, List, [], ◌∷◌, arith, inl,
  inr, ◌⊎◌, In, In-append-elim,
}
use mstdnca_proxmox_tool.Scanner.Services.{
  ServiceStatus, running, stopped, failed, unknown, GuestService, Notice, service_failed,
  service_recovered, map_systemctl_status, notify_service_transition, check_each, any_unsafe,
  after_command, check_service_statuses,
}

-- Nothing is sent while the status stays what it was.
notify_unchanged :
    (unit : String) (status : ServiceStatus)
    → notify_service_transition unit (some status) status ≡ []
unfolding notify_service_transition
notify_unchanged unit running = refl
notify_unchanged unit stopped = refl
notify_unchanged unit failed = refl
notify_unchanged unit unknown = refl

check_each_again :
    (now later : ℕ) (lines : List String) (services : List GuestService)
    → (check_each later lines (check_each now lines services).0).1 ≡ []
unfolding check_each
check_each_again now later lines [] = refl
check_each_again now later [] (s ∷ services) =
    rw (notify_unchanged s.unit_name unknown) (check_each_again now later [] services)
check_each_again now later (line ∷ lines) (s ∷ services) =
    rw (notify_unchanged s.unit_name (map_systemctl_status line))
      (check_each_again now later lines services)

-- Why a notice was sent: the unit's service changed into "failed", or from "failed" to "running".
abbrev pub Explains : Notice → ServiceStatus → ServiceStatus → String → Type 0
Explains (service_failed unit) old new name = (unit ≡ name) × (new ≡ failed) × (old ≢ failed)
Explains (service_recovered unit) old new name = (unit ≡ name) × (new ≡ running) × (old ≡ failed)

notify-Explains :
    (n : Notice) (unit : String) (old new : ServiceStatus)
    → In n (notify_service_transition unit (some old) new)
    → Explains n old new unit
unfolding notify_service_transition
notify-Explains (service_failed name) unit old new i = ground arith
notify-Explains (service_recovered name) unit old new i = ground arith

-- The service at one place of the list before and after a check.
abbrev pub Pair : Type 0
Pair = GuestService × GuestService

abbrev pub pairs : List GuestService → List GuestService → List Pair
pairs [] ts = []
pairs (s ∷ ss) [] = []
pairs (s ∷ ss) (t ∷ ts) = (s, t) ∷ pairs ss ts

-- The statement for one notice, over the lists before and after.
abbrev pub Explained : Notice → List GuestService → List GuestService → Type 0
Explained n before after =
    (p : Pair) × In p (pairs before after) × Explains n p.0.status p.1.status p.0.unit_name

explain_next :
    (n : Notice) (s : GuestService) (new : ServiceStatus) (now : ℕ)
    (before after : List GuestService)
    → In n (notify_service_transition s.unit_name (some s.status) new) ⊎ Explained n before after
    → Explained n (s ∷ before) (record s { status = new; last_checked = now } ∷ after)
explain_next n s new now before after (inl i) = (
  (s, record s { status = new; last_checked = now }),
  inl refl,
  notify-Explains n s.unit_name s.status new i,
)
explain_next n s new now before after (inr (p, i, e)) = (p, inr i, e)

later_notice : {A B C : Type 0} → (B → C) → A ⊎ B → A ⊎ C
later_notice f (inl a) = inl a
later_notice f (inr b) = inr (f b)

check_each-Explained :
    (now : ℕ) (lines : List String) (services : List GuestService) (n : Notice)
    → In n (check_each now lines services).1
    → Explained n services (check_each now lines services).0
unfolding check_each
check_each-Explained now lines [] n i = absurd i
check_each-Explained now [] (s ∷ services) n i =
    explain_next n s unknown now services (check_each now [] services).0 (
      later_notice (check_each-Explained now [] services n)
        (In-append-elim n (notify_service_transition s.unit_name (some s.status) unknown) _ i))
check_each-Explained now (line ∷ lines) (s ∷ services) n i =
    explain_next n s (map_systemctl_status line) now services (check_each now lines services).0 (
      later_notice (check_each-Explained now lines services n) (
        In-append-elim n
          (notify_service_transition s.unit_name (some s.status) (map_systemctl_status line)) _ i))

-- A check of the same lines sends nothing where one without the test of the names sends nothing.
silent-check :
    (word : ℕ → Bool) (later : ℕ) (lines : Option (List String)) (services : List GuestService)
    → (after_command later lines services).1 ≡ []
    → (check_service_statuses word later lines services).1 ≡ []
unfolding check_service_statuses
silent-check word later lines services h = elim (Bool-cases (any_unsafe word services)) [
  | inl e ↦ rw e refl
  | inr e ↦ rw e h
]

-- Each notice of a check is about a service that the check moved into "failed" from another status,
-- or from "failed" to "running"; and the same check made again sends nothing. A check that an unsafe
-- unit name ends sends nothing, and changes no row.
pub check_service_statuses-notices :
    (word : ℕ → Bool) (now later : ℕ) (lines : Option (List String)) (services : List GuestService)
    → let (after, notices, raised) = check_service_statuses word now lines services in
      ((n : Notice) → In n notices → Explained n services after)
      × ((check_service_statuses word later lines after).1 ≡ [])
      × ((raised ≡ false) ⊎ ((notices ≡ []) × (after ≡ services)))
unfolding check_service_statuses after_command
check_service_statuses-notices word now later lines services =
    elim (Bool-cases (any_unsafe word services)) [
      | inl e ↦ rw e (λ n i. absurd i, rw e refl, inr (refl, refl))
      | inr e ↦ rw e (checked lines)
    ]
  where
    checked :
        (found : Option (List String))
        → let (after, notices, raised) = after_command now found services in
          ((n : Notice) → In n notices → Explained n services after)
          × ((check_service_statuses word later found after).1 ≡ [])
          × ((raised ≡ false) ⊎ ((notices ≡ []) × (after ≡ services)))
    checked none = (λ n i. absurd i, silent-check word later none services refl, inl refl)
    checked (some ls) = (
      check_each-Explained now ls services,
      silent-check word later (some ls) (check_each now ls services).0
          (check_each_again now later ls services),
      inl refl,
    )
