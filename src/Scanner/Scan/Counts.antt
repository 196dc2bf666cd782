-- ===== src/Scanner/Scan/Counts.antt =====
-- core/scanner.py: what a scan and a reconciliation leave in the package table, and that counts,
-- statuses and rows agree.
use mathlib.Core.List.{append-nil}
use mstdnca_proxmox_tool.Base.{
  ℕ, suc, ◌≡◌, refl, ap, ◌↔◌, Bool, false, not, Option, none, some, List, [], ◌∷◌, ◌++◌, map, keep,
  keep-append, length, arith, Bool-cases, inl, inr,
}
use mstdnca_proxmox_tool.Base.Text.{Text, Unicode}
use mstdnca_proxmox_tool.Scanner.Upgradable.{Package, parse_upgradable}
use mstdnca_proxmox_tool.Scanner.Scan.{
  UpdatePackage, up_to_date, Store, output, is_pending, pending_updates, count_critical, new_row,
  scan_guest, record_scan, still_listed, retire, reconcile_applied_updates, status_of,
  kept_back_status, text_or_empty,
}

-- Rows that are not pending updates of the guest: other guests' rows, and what was applied.
abbrev pub others : ℕ → List UpdatePackage → List UpdatePackage
others guest packages = keep (λ p. not (is_pending guest p)) packages

pending-others :
    (guest : ℕ) (ps : List UpdatePackage) → pending_updates guest (others guest ps) ≡ []
unfolding pending_updates keep
pending-others guest [] = refl
pending-others guest (p ∷ ps) = ground (arith, pending-others guest ps)

others-others :
    (guest : ℕ) (ps : List UpdatePackage) → others guest (others guest ps) ≡ others guest ps
unfolding keep
others-others guest [] = refl
others-others guest (p ∷ ps) = ground (arith, others-others guest ps)

length-map_rows : (f : Package → UpdatePackage) (ps : List Package) → length (map f ps) ≡ length ps
length-map_rows f [] = refl
length-map_rows f (p ∷ ps) = ap suc (length-map_rows f ps)

module _ (u : Unicode) (guest now : ℕ) where
  pending-rows :
      (security : Option Text) (found : List Package)
      → pending_updates guest (map (new_row u guest now security) found)
        ≡ map (new_row u guest now security) found
  unfolding pending_updates keep new_row is_pending
  pending-rows security [] = refl
  pending-rows security (p ∷ found) = ground (arith, pending-rows security found)

  others-rows :
      (security : Option Text) (found : List Package)
      → others guest (map (new_row u guest now security) found) ≡ []
  unfolding keep new_row is_pending
  others-rows security [] = refl
  others-rows security (p ∷ found) = ground (arith, others-rows security found)

  -- What a successful scan promises of the guest's store.
  pub record IsScanned (rows : List UpdatePackage) (s s' : Store) : Type 0 where
    pub pending_right : pending_updates guest s'.packages ≡ rows
    pub others_kept : others guest s'.packages ≡ others guest s.packages
    pub status_right : (s'.status ≡ up_to_date) ↔ (pending_updates guest s'.packages ≡ [])
    pub result_right :
        s'.results
        ≡ s.results
          ++ record {
            guest_id = guest;
            scanned_at = now;
            total_updates = length (pending_updates guest s'.packages);
            security_updates = count_critical (pending_updates guest s'.packages);
            failed = false;
          }
            ∷ []

  status_of-rows :
      (security : Option Text) (found : List Package)
      → (status_of found ≡ up_to_date) ↔ (map (new_row u guest now security) found ≡ [])
  unfolding status_of
  status_of-rows security [] = (λ e. refl, λ e. refl)
  status_of-rows security (p ∷ found) = (λ e. cc, λ e. cc)

  scanned_pending :
      (security : Option Text) (found : List Package) (packages : List UpdatePackage)
      → pending_updates guest (others guest packages ++ map (new_row u guest now security) found)
        ≡ map (new_row u guest now security) found
  unfolding pending_updates
  scanned_pending security found packages =
      let none_left : keep (is_pending guest) (others guest packages) ≡ [] =
        pending-others guest packages in
      rw (keep-append, none_left) (pending-rows security found)

  scanned_others :
      (security : Option Text) (found : List Package) (packages : List UpdatePackage)
      → others guest (others guest packages ++ map (new_row u guest now security) found)
        ≡ others guest packages
  scanned_others security found packages =
      rw (keep-append, others-others guest packages, others-rows security found)
        (append-nil (others guest packages))

  record_scan-IsScanned :
      (security : Option Text) (found : List Package) (s : Store)
      → IsScanned
          (map (new_row u guest now security) found)
          s
          (record_scan u guest now security found s)
  unfolding record_scan
  record_scan-IsScanned security found s =
      let rows = map (new_row u guest now security) found in
      let e = scanned_pending security found s.packages in
      record {
        pending_right = e;
        others_kept = scanned_others security found s.packages;
        status_right = rw e (status_of-rows security found);
        result_right = rw (e, length-map_rows (new_row u guest now security) found);
      }

  -- After a successful scan the guest's pending rows are one for each package that apt listed, all
  -- other rows are as they were, the guest is up to date exactly when no row is pending, and the
  -- recorded totals are the numbers of pending rows and of critical ones.
  pub scan_guest-IsScanned :
      (upgradable security : Option Text) (reboot : Option Bool) (s : Store)
      → IsScanned
          (map (new_row u guest now security) (parse_upgradable u (text_or_empty upgradable)))
          s
          (scan_guest u guest now (output upgradable security) reboot s)
  scan_guest-IsScanned upgradable security none s =
      unfold scan_guest in
      let v = record_scan-IsScanned security (parse_upgradable u (text_or_empty upgradable)) s in
      record {
        pending_right = v.pending_right;
        others_kept = v.others_kept;
        status_right = v.status_right;
        result_right = v.result_right;
      }
  scan_guest-IsScanned upgradable security (some b) s =
      unfold scan_guest in
      let v = record_scan-IsScanned security (parse_upgradable u (text_or_empty upgradable)) s in
      record {
        pending_right = v.pending_right;
        others_kept = v.others_kept;
        status_right = v.status_right;
        result_right = v.result_right;
      }

  applied_row : (p : UpdatePackage) → is_pending guest (record p { applied_at = some now }) ≡ false
  unfolding is_pending
  applied_row p = ground arith

  retire-pending :
      (found : List Package) (ps : List UpdatePackage)
      → pending_updates guest (retire u guest now found ps)
        ≡ keep (still_listed u guest now found) (pending_updates guest ps)
  unfolding pending_updates retire keep
  retire-pending found [] = refl
  retire-pending found (p ∷ ps) = elim (Bool-cases (is_pending guest p)) [
    | inl a ↦ elim (Bool-cases (still_listed u guest now found p)) [
      | inl l ↦ rw (a, l, a, keep) (ap (λ x. p ∷ x) (retire-pending found ps))
      | inr l ↦ rw (a, l, applied_row p, keep) (retire-pending found ps)
    ]
    | inr a ↦ rw (a, a) (retire-pending found ps)
  ]

  kept_back_status_lem :
      (ps : List UpdatePackage) → (kept_back_status u guest now ps ≡ up_to_date) ↔ (ps ≡ [])
  unfolding kept_back_status
  kept_back_status_lem [] = (λ e. refl, λ e. refl)
  kept_back_status_lem (p ∷ ps) = (λ e. cc, λ e. cc)

  -- After a reconciliation against a re-read list the pending rows of the guest are exactly those
  -- pending before that the list still names, and the guest is up to date exactly when none is left;
  -- and if the list could not be re-read, nothing at all has changed.
  pub reconcile_applied_updates-pending :
      (upgradable : Text) (s : Store)
      → let s' = reconcile_applied_updates u guest now (some upgradable) s in
        (pending_updates guest s'.packages
          ≡ keep
              (still_listed u guest now (parse_upgradable u upgradable))
              (pending_updates guest s.packages))
        × ((s'.status ≡ up_to_date) ↔ (pending_updates guest s'.packages ≡ []))
        × (reconcile_applied_updates u guest now none s ≡ s)
  unfolding reconcile_applied_updates
  reconcile_applied_updates-pending upgradable s =
      let found = parse_upgradable u upgradable in
      let e = retire-pending found s.packages in (e, rw e (kept_back_status_lem _), refl)
