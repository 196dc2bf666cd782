-- ===== src/Scheduler/Window/Membership.antt =====
-- core/scheduler.py: a maintenance window, wrapping past midnight or not, is one interval of the
-- clock face.
use mstdnca_proxmox_tool.Base.{ℕ, ◌+◌, ◌-◌, ◌*◌, ◌%◌, ◌≤◌, ◌<◌, ◌≡◌, true, some, arith, ◌↔◌}
use mstdnca_proxmox_tool.Scheduler.Window.{between, minute_of_time}

abbrev pub day_length : ℕ
day_length = 1440 * minute_of_time

-- How far `t` is after `start`, going round the clock.
abbrev pub after : ℕ → ℕ → ℕ
after start t = (t + day_length - start) % day_length

-- A time of day is in the window exactly when, going round the clock from the start, it is reached
-- no later than the end is; so a window that wraps past midnight has no gap there.
pub between_clockwise :
    (start end current : ℕ)
    → start < day_length
    → end < day_length
    → current < day_length
    → (between (some start) (some end) current ≡ true) ↔ (after start current ≤ after start end)
unfolding between
between_clockwise start end current s e c = (λ h. ground arith, λ h. ground arith)
