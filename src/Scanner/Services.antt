-- ===== src/Scanner/Services.antt =====
-- core/scanner.py, service statuses: `_map_systemctl_status`, `_notify_service_transition`,
-- `_upsert_service`, `_safe_unit_name` and `check_service_statuses`. What systemctl prints is an input.
pub mod Alerts
use mstdnca_proxmox_tool.Base.{
  ℕ, zero, suc, String, Bool, true, false, not, ◌&&◌, ◌||◌, Option, none, some, List, [], ◌∷◌, ◌++◌,
  ◌==◌, any, if◌then◌else◌, str_eq,
}
use mstdnca_proxmox_tool.Base.Text.{Text, codes}

pub data ServiceStatus : Type 0 where
  running stopped failed unknown : ServiceStatus

-- `_map_systemctl_status`, which `check_service_statuses` repeats.
unfoldable pub map_systemctl_status : String → ServiceStatus
map_systemctl_status text =
    if str_eq text "active"
    then running
    else if str_eq text "inactive"
    then stopped
    else if str_eq text "failed"
    then failed
    else unknown

pub record GuestService : Type 0 where
  pub guest_id : ℕ
  pub service_name : String
  pub unit_name : String
  pub status : ServiceStatus
  pub last_checked : ℕ

-- The two events that `_notify_service_transition` sends, with the unit they are about.
pub data Notice : Type 0 where
  service_failed service_recovered : String → Notice

is_failed : Option ServiceStatus → Bool
is_failed (some failed) = true
is_failed _ = false

is_running : ServiceStatus → Bool
is_running running = true
is_running _ = false

-- `_notify_service_transition`; no old status is the None of a service that was not known.
unfoldable pub notify_service_transition :
    String → Option ServiceStatus → ServiceStatus → List Notice
unfolding is_failed is_running
notify_service_transition unit old new =
    if is_failed (some new) && not (is_failed old)
    then service_failed unit ∷ []
    else if is_running new && is_failed old
    then service_recovered unit ∷ []
    else []

-- The row of a unit, if the guest has one.
unfoldable pub find_service : ℕ → String → List GuestService → Option GuestService
find_service guest unit [] = none
find_service guest unit (s ∷ services) =
    if (s.guest_id == guest) && str_eq s.unit_name unit
    then some s
    else find_service guest unit services

with_status : ServiceStatus → ℕ → ℕ → String → List GuestService → List GuestService
with_status status now guest unit [] = []
with_status status now guest unit (s ∷ services) =
    if (s.guest_id == guest) && str_eq s.unit_name unit
    then record s { status = status; last_checked = now } ∷ services
    else s ∷ with_status status now guest unit services

record_live :
    ℕ
    → String
    → String
    → ServiceStatus
    → ℕ
    → Option GuestService
    → List GuestService
    → List GuestService × List Notice
unfolding with_status
record_live guest key unit status now (some s) services = (
  with_status status now guest unit services,
  notify_service_transition unit (some s.status) status,
)
record_live guest key unit status now none services = (
  services
      ++ record {
        guest_id = guest;
        service_name = key;
        unit_name = unit;
        status = status;
        last_checked = now;
      }
        ∷ [],
  notify_service_transition unit none status,
)

-- `_upsert_service`; `valid` is whether `_safe_unit_name` accepts the unit.
unfoldable pub upsert_service :
    Bool
    → ℕ
    → String
    → String
    → ServiceStatus
    → ℕ
    → List GuestService
    → List GuestService × List Notice
unfolding record_live
upsert_service false guest key unit status now services = (services, [])
upsert_service true guest key unit running now services =
    record_live guest key unit running now (find_service guest unit services) services
upsert_service true guest key unit failed now services =
    record_live guest key unit failed now (find_service guest unit services) services
upsert_service true guest key unit stopped now services =
    (with_status stopped now guest unit services, [])
upsert_service true guest key unit unknown now services = (services, [])

-- The loop of `check_service_statuses` over the guest's services and the lines of systemctl, and the
-- alerts it sends after the commit: one for each service whose status changed.
unfoldable pub check_each : ℕ → List String → List GuestService → List GuestService × List Notice
check_each now lines [] = ([], [])
check_each now [] (s ∷ services) =
    let (rest, notices) = check_each now [] services in
    (
      record s { status = unknown; last_checked = now } ∷ rest,
      notify_service_transition s.unit_name (some s.status) unknown ++ notices,
    )
check_each now (line ∷ lines) (s ∷ services) =
    let status = map_systemctl_status line in
    let (rest, notices) = check_each now lines services in
    (
      record s { status = status; last_checked = now } ∷ rest,
      notify_service_transition s.unit_name (some s.status) status ++ notices,
    )

-- `_VALID_UNIT_RE`, `^[\w.\-@*]+$`, where `word` is the class `\w` and `$` lets a final line break be.
unit_char : (ℕ → Bool) → ℕ → Bool
unit_char word c = word c || ((c == 46) || ((c == 45) || ((c == 64) || (c == 42))))

is_end : Text → Bool
is_end [] = true
is_end (c ∷ s) = false

unit_rest : (ℕ → Bool) → Text → Bool
unfolding unit_char is_end
unit_rest word [] = true
unit_rest word (c ∷ s) = (unit_char word c && unit_rest word s) || ((c == 10) && is_end s)

unit_text : (ℕ → Bool) → Text → Bool
unfolding unit_char unit_rest
unit_text word [] = false
unit_text word (c ∷ s) = unit_char word c && unit_rest word s

-- `_safe_unit_name`: false is its ValueError.
unfoldable pub safe_unit_name : (ℕ → Bool) → String → Bool
unfolding unit_text
safe_unit_name word name = unit_text word (codes name)

any_unsafe : (ℕ → Bool) → List GuestService → Bool
unfolding any
any_unsafe word services = any (λ s. not (safe_unit_name word s.unit_name)) services

after_command :
    ℕ → Option (List String) → List GuestService → List GuestService × List Notice × Bool
after_command now none services = (services, [], false)
after_command now (some lines) services =
    let (rows, notices) = check_each now lines services in (rows, notices, false)

-- `check_service_statuses`: the rows, the alerts, and whether it ended with the ValueError of an
-- unsafe unit name. `lines` are the stripped lines of systemctl, or None where the command failed
-- without output and the check gives up.
unfoldable pub check_service_statuses :
    (ℕ → Bool)
    → ℕ
    → Option (List String)
    → List GuestService
    → List GuestService × List Notice × Bool
unfolding any_unsafe after_command
check_service_statuses word now lines services =
    if any_unsafe word services then (services, [], true) else after_command now lines services
