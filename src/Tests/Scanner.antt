-- ===== src/Tests/Scanner.antt =====
-- core/scanner.py at concrete outputs of apt and systemctl.
use mstdnca_proxmox_tool.Base.{◌≡◌, ◌⊎◌, refl, any, Bool, false, none, some, List, [], ◌∷◌, map, In}
use mstdnca_proxmox_tool.Base.Text.{Text, codes}
use mstdnca_proxmox_tool.Scanner.Upgradable.{parse_upgradable}
use mstdnca_proxmox_tool.Scanner.Scan.{
  Store, unknown, output, scan_guest, new_row, text_or_empty, reconcile_applied_updates,
}
use mstdnca_proxmox_tool.Scanner.Scan.Counts.{IsScanned, scan_guest-IsScanned}
use mstdnca_proxmox_tool.Scanner.Services.{
  GuestService, failed, running, Notice, service_failed, service_recovered, check_each,
  safe_unit_name, map_systemctl_status, notify_service_transition, check_service_statuses,
}
use mstdnca_proxmox_tool.Scanner.Services.Alerts.{Explained, check_service_statuses-notices}
use mstdnca_proxmox_tool.Apps.Validate.{ascii_word}
use mstdnca_proxmox_tool.Tests.Data.{ascii}

abbrev apt_list : Text
apt_list = codes "curl/stable-security 7.88-2 amd64 [upgradable from: 7.88-1]"

abbrev before_scan : Store
before_scan = record {
  status = unknown;
  reboot = false;
  last_scan = none;
  packages = [];
  results = [];
  alerts = [];
}

scan_guest-IsScanned_example :
    IsScanned ascii 4 100
      (map (new_row ascii 4 100 none) (parse_upgradable ascii (text_or_empty (some apt_list))))
      before_scan
      (scan_guest ascii 4 100 (output (some apt_list) none) none before_scan)
scan_guest-IsScanned_example =
    scan_guest-IsScanned ascii 4 100 (some apt_list) none none before_scan

abbrev scanned : Store
scanned = scan_guest ascii 4 100 (output (some apt_list) none) none before_scan

abbrev reconciled : Store
reconciled = reconcile_applied_updates ascii 4 200 (some (codes "")) scanned

abbrev services : List GuestService
services =
    record {
      guest_id = 4;
      service_name = "web";
      unit_name = "nginx";
      status = failed;
      last_checked = 0;
    }
    ∷ record {
      guest_id = 4;
      service_name = "db";
      unit_name = "postgresql";
      status = running;
      last_checked = 0;
    }
    ∷ []

abbrev checked : List GuestService × List Notice × Bool
checked = check_service_statuses ascii_word 100 (some ("active" ∷ "failed" ∷ [])) services

check_service_statuses-notices_example :
    ((n : Notice) → In n checked.1 → Explained n services checked.0)
    × ((check_service_statuses ascii_word 200 (some ("active" ∷ "failed" ∷ [])) checked.0).1 ≡ [])
    × ((checked.2 ≡ false) ⊎ ((checked.1 ≡ []) × (checked.0 ≡ services)))
check_service_statuses-notices_example =
    check_service_statuses-notices ascii_word 100 200 (some ("active" ∷ "failed" ∷ [])) services

-- No name is unsafe here, and the failure of the second service is told.
checked_notices : checked.1 ≡ service_recovered "nginx" ∷ service_failed "postgresql" ∷ []
unfolding check_service_statuses check_each ascii_word safe_unit_name map_systemctl_status
    notify_service_transition any
checked_notices = refl
