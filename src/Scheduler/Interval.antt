-- ===== src/Scheduler/Interval.antt =====
-- core/scheduler.py, `parse_interval` and `interval_setting`.
pub mod Bounds
use mstdnca_proxmox_tool.Base.{
  ℕ, String, Bool, true, false, ◌||◌, Option, none, some, ltb, if◌then◌else◌, str_eq, max, min,
}
use mstdnca_proxmox_tool.Base.Int.{ℤ, pos, negsuc, lt_nat, gt_nat}
use mstdnca_proxmox_tool.Base.Text.{Text, Unicode, strip, parse_int}

pub record Range : Type 0 where
  pub low : ℕ
  pub high : ℕ
  pub default : ℕ

abbrev range : ℕ → ℕ → ℕ → Option Range
range low high default = some (record { low = low; high = high; default = default })

-- `INTERVAL_BOUNDS`
unfoldable pub interval_bounds : String → Option Range
interval_bounds key =
    if str_eq key "scan_interval"
    then range 1 168 6
    else if str_eq key "discovery_interval"
    then range 1 168 4
    else if str_eq key "service_check_interval"
    then range 1 1440 5
    else if str_eq key "unifi_api_poll_interval"
    then range 1 1440 5
    else if str_eq key "prometheus_collect_interval"
    then range 10 86400 60
    else if str_eq key "moderation_check_interval_hours"
    then range 1 8760 24
    else if str_eq key "moderation_watch_poll_minutes"
    then range 1 1440 5
    else if str_eq key "moderation_log_retention_days"
    then range 30 3650 365
    else none

-- The answer of `parse_interval`: a value, or one of its two messages with the bounds it names.
pub data Parsed : Type 0 where
  accepted : ℕ → Parsed
  not_whole_number out_of_range : ℕ → ℕ → Parsed

or_any : Option Range → Range
or_any none = record { low = 1; high = 100000; default = 1 }
or_any (some r) = r

-- A value that passes both tests is not negative, so the last clause of `int_part` is not reached.
int_part : ℤ → ℕ
int_part (pos n) = n
int_part (negsuc n) = 0

check_range : Range → Option ℤ → Parsed
unfolding int_part
check_range r none = not_whole_number r.low r.high
check_range r (some value) =
    if lt_nat value r.low || gt_nat value r.high
    then out_of_range r.low r.high
    else accepted (int_part value)

clamp : Range → Option ℤ → ℕ
clamp r none = r.default
clamp r (some (negsuc n)) = max r.low (min r.high 0)
clamp r (some (pos n)) = if ltb n r.low || ltb r.high n then max r.low (min r.high n) else n

-- `int(str(default))` is the default.
setting_value : Unicode → Range → Option Text → ℕ
unfolding clamp
setting_value u r none = r.default
setting_value u r (some raw) = clamp r (parse_int u (strip u raw))

read_setting : Unicode → Option Text → Option Range → Option ℕ
unfolding setting_value
read_setting u stored none = none
read_setting u stored (some r) = some (setting_value u r stored)

module _ (u : Unicode) where
  unfoldable pub parse_interval : String → Text → Parsed
  unfolding or_any check_range
  parse_interval key raw = check_range (or_any (interval_bounds key)) (parse_int u (strip u raw))

  -- `stored` is the value of the setting, if it has one; `none` is the `KeyError` of a key that is
  -- not in `INTERVAL_BOUNDS`.
  unfoldable pub interval_setting : String → Option Text → Option ℕ
  unfolding read_setting
  interval_setting key stored = read_setting u stored (interval_bounds key)
