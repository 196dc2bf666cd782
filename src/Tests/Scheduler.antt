-- ===== src/Tests/Scheduler.antt =====
-- core/scheduler.py at concrete settings, windows and runs.
use mstdnca_proxmox_tool.Base.{◌≡◌, refl, inl, true, false, none, some, [], ◌∷◌}
use mstdnca_proxmox_tool.Base.Text.{Text, codes, strip, drop_spaces, isdigit}
use mstdnca_proxmox_tool.Scheduler.Interval.{Range}
use mstdnca_proxmox_tool.Scheduler.Window.{
  value_error, parse_window_time, MaintenanceWindow, in_maintenance_window, or_empty,
}
use mstdnca_proxmox_tool.Scheduler.Window.Times.{parse_window_time_raises}
use mstdnca_proxmox_tool.Scheduler.Stretch.{WatchJob, Run}
use mstdnca_proxmox_tool.Tests.Data.{ascii}

abbrev scan_range : Range
scan_range = record { low = 1; high = 168; default = 6 }

-- A start time with a superscript two.
abbrev odd_time : Text
odd_time = 178 ∷ 49 ∷ 58 ∷ 48 ∷ 48 ∷ []

abbrev odd_window : MaintenanceWindow
odd_window = record {
  day_of_week = some (codes "daily");
  start_time = some odd_time;
  end_time = some (codes "05:00");
  enabled = true;
  update_type = "all";
}

parse_window_time_raises_example :
    (parse_window_time ascii (some odd_time) ≡ value_error)
    × (in_maintenance_window ascii odd_window 0 0 ≡ value_error)
unfolding strip drop_spaces ascii or_empty isdigit
parse_window_time_raises_example =
    parse_window_time_raises ascii odd_window odd_time 178 49 48 48 0 0 refl refl (inl refl) refl
      (inl refl)

abbrev short_answer : Run
short_answer = record {
  alerts_enabled = true;
  now = 100;
  client_built = true;
  deferred = true;
  result_backoff = some 900;
  configured = 5;
}

abbrev early : Run
early = record {
  alerts_enabled = true;
  now = 400;
  client_built = true;
  deferred = false;
  result_backoff = none;
  configured = 5;
}

abbrev started : WatchJob
started = record { consecutive_short = 0; factor = 1; backoff_until = none; minutes = 5 }
