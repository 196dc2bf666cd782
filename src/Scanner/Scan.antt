-- ===== src/Scanner/Scan.antt =====
-- core/scanner.py, `_scan_guest_locked` and `_reconcile_applied_updates`, on the table of pending and
-- applied packages. What the guest answers over SSH or the agent is an input.
pub mod Counts
use mstdnca_proxmox_tool.Base.{
  ℕ, zero, suc, Bool, true, false, not, ◌&&◌, Option, none, some, List, [], ◌∷◌, ◌++◌, map, any,
  keep, length, ◌==◌, ltb, if◌then◌else◌,
}
use mstdnca_proxmox_tool.Base.Text.{Text, Unicode, text_eq}
use mstdnca_proxmox_tool.Scanner.Upgradable.{Package, parse_upgradable, is_critical}

-- A row of `update_packages`; `applied_at` is set exactly when its status is "applied".
pub record UpdatePackage : Type 0 where
  pub guest_id : ℕ
  pub package_name : Text
  pub current_version : Text
  pub available_version : Text
  pub critical : Bool
  pub discovered_at : ℕ
  pub applied_at : Option ℕ

pub data Status : Type 0 where
  unknown error up_to_date updates_available : Status

pub record ScanResult : Type 0 where
  pub guest_id : ℕ
  pub scanned_at : ℕ
  pub total_updates : ℕ
  pub security_updates : ℕ
  pub failed : Bool

pub data Alert : Type 0 where
  guest_error reboot_required : Alert
  security_update : ℕ → Alert

-- The scanned guest, the whole package table, the results added, and the alerts dispatched.
pub record Store : Type 0 where
  pub status : Status
  pub reboot : Bool
  pub last_scan : Option ℕ
  pub packages : List UpdatePackage
  pub results : List ScanResult
  pub alerts : List Alert

-- What `_execute_on_guest` returns: an error, or the two outputs, either of which may be missing.
pub data Output : Type 0 where
  failure : Output
  output : Option Text → Option Text → Output

is_none : Option ℕ → Bool
is_none none = true
is_none (some t) = false

unfoldable pub is_pending : ℕ → UpdatePackage → Bool
unfolding is_none
is_pending guest p = (p.guest_id == guest) && is_none p.applied_at

-- `guest.pending_updates()`
unfoldable pub pending_updates : ℕ → List UpdatePackage → List UpdatePackage
pending_updates guest packages = keep (is_pending guest) packages

unfoldable pub count_critical : List UpdatePackage → ℕ
count_critical [] = 0
count_critical (p ∷ ps) = let n = count_critical ps in if p.critical then suc n else n

pub text_or_empty : Option Text → Text
text_or_empty none = []
text_or_empty (some t) = t

status_of : List Package → Status
status_of [] = up_to_date
status_of (p ∷ ps) = updates_available

-- `check_reboot_required`: the flag changes only if the check answered.
with_reboot : Option Bool → Store → Store
with_reboot none s = s
with_reboot (some b) s = record s { reboot = b }

push_alerts : ℕ → Store → Store
push_alerts security_count s = record s {
  alerts =
      (s.alerts ++ (if ltb 0 security_count then security_update security_count ∷ [] else []))
      ++ (if s.reboot then reboot_required ∷ [] else []);
}

module _ (u : Unicode) (guest now : ℕ) where
  unfoldable pub new_row : Option Text → Package → UpdatePackage
  new_row security p = record {
    guest_id = guest;
    package_name = p.name;
    current_version = p.current_version;
    available_version = p.available_version;
    critical = is_critical u p.name security;
    discovered_at = now;
    applied_at = none;
  }

  record_scan : Option Text → List Package → Store → Store
  unfolding status_of
  record_scan security found s =
      let rows = map (new_row security) found in
      record s {
        packages = keep (λ p. not (is_pending guest p)) s.packages ++ rows;
        results =
            s.results
            ++ record {
              guest_id = guest;
              scanned_at = now;
              total_updates = length found;
              security_updates = count_critical rows;
              failed = false;
            }
              ∷ [];
        status = status_of found;
        last_scan = some now;
      }

  -- `reboot` is what the reboot check answers; service detection is in Services.
  unfoldable pub scan_guest : Output → Option Bool → Store → Store
  unfolding record_scan with_reboot push_alerts text_or_empty
  scan_guest failure reboot s = record s {
    status = error;
    last_scan = some now;
    results =
        s.results
        ++ record {
          guest_id = guest;
          scanned_at = now;
          total_updates = 0;
          security_updates = 0;
          failed = true;
        }
          ∷ [];
    alerts = s.alerts ++ guest_error ∷ [];
  }
  scan_guest (output upgradable security) reboot s =
      let found = parse_upgradable u (text_or_empty upgradable) in
      let rows = map (new_row security) found in
      push_alerts (count_critical rows) (with_reboot reboot (record_scan security found s))

  unfoldable pub still_listed : List Package → UpdatePackage → Bool
  still_listed found p = any (λ q. text_eq q.name p.package_name) found

  retire : List Package → List UpdatePackage → List UpdatePackage
  retire found [] = []
  retire found (p ∷ ps) =
      (if is_pending guest p && not (still_listed found p)
        then record p { applied_at = some now }
        else p)
      ∷ retire found ps

  kept_back_status : List UpdatePackage → Status
  kept_back_status [] = up_to_date
  kept_back_status (p ∷ ps) = updates_available

  -- `upgradable` is the re-read list, or None if the check could not be run.
  unfoldable pub reconcile_applied_updates : Option Text → Store → Store
  unfolding retire kept_back_status
  reconcile_applied_updates none s = s
  reconcile_applied_updates (some upgradable) s =
      let found = parse_upgradable u upgradable in
      record s {
        packages = retire found s.packages;
        status = kept_back_status (keep (still_listed found) (pending_updates guest s.packages));
      }
