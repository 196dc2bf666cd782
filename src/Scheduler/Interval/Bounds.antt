-- ===== src/Scheduler/Interval/Bounds.antt =====
-- core/scheduler.py: an interval setting is in range whatever is stored, and what the settings page
-- accepts is what the jobs read.
use mstdnca_proxmox_tool.Base.{ℕ, ◌≤◌, ◌≡◌, String, Option, none, some, arith}
use mstdnca_proxmox_tool.Base.Int.{ℤ, pos, negsuc}
use mstdnca_proxmox_tool.Base.Text.{Text, Unicode, strip, parse_int}
use mstdnca_proxmox_tool.Scheduler.Interval.{
  Range, accepted, interval_bounds, or_any, check_range, clamp, setting_value, read_setting,
  parse_interval, interval_setting,
}

abbrev pub InRange : Range → ℕ → Type 0
InRange r n = (r.low ≤ n) × (n ≤ r.high)

-- Every key's default is one of its allowed values.
interval_bounds-InRange :
    (key : String) (r : Range) → interval_bounds key ≡ some r → InRange r r.default
unfolding interval_bounds
interval_bounds-InRange key r h = ground arith

clamp-InRange : (r : Range) (o : Option ℤ) → InRange r r.default → InRange r (clamp r o)
unfolding clamp
clamp-InRange r none d = d
clamp-InRange r (some (negsuc n)) d = omega arith
clamp-InRange r (some (pos n)) d = ground arith

module _ (u : Unicode) where
  setting_value-InRange :
      (r : Range) (stored : Option Text)
      → InRange r r.default
      → InRange r (setting_value u r stored)
  unfolding setting_value
  setting_value-InRange r none d = d
  setting_value-InRange r (some raw) d = clamp-InRange r (parse_int u (strip u raw)) d

  -- For a key of the table, the setting reads as a number within the key's bounds, whatever text is
  -- stored and whether one is.
  pub interval_setting-InRange :
      (key : String) (stored : Option Text) (r : Range)
      → interval_bounds key ≡ some r
      → (n : ℕ) × (interval_setting u key stored ≡ some n) × InRange r n
  unfolding interval_setting
  interval_setting-InRange key stored r h = (
    setting_value u r stored,
    rw (h, read_setting),
    setting_value-InRange r stored (interval_bounds-InRange key r h),
  )

  check_range-clamp :
      (r : Range) (o : Option ℤ) (n : ℕ)
      → check_range r o ≡ accepted n
      → InRange r n × (clamp r o ≡ n)
  unfolding check_range clamp
  check_range-clamp r none n h = cc
  check_range-clamp r (some (negsuc k)) n h = cc
  check_range-clamp r (some (pos k)) n h = ground arith

  -- A text that the settings page accepts for a key of the table is within the key's bounds, and
  -- the jobs then read it as the very number that was accepted.
  pub parse_interval-interval_setting :
      (key : String) (raw : Text) (r : Range) (n : ℕ)
      → interval_bounds key ≡ some r
      → parse_interval u key raw ≡ accepted n
      → InRange r n × (interval_setting u key (some raw) ≡ some n)
  unfolding parse_interval interval_setting
  parse_interval-interval_setting key raw r n h p =
      let (i, e) = check_range-clamp r (parse_int u (strip u raw)) n (rw (h, or_any) at p) in
      (i, rw (h, read_setting, setting_value, e))
