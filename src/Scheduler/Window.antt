-- ===== src/Scheduler/Window.antt =====
-- core/scheduler.py, `parse_window_time` and `_in_maintenance_window`. A time of day is microseconds
-- from midnight; a weekday counts from Monday, 0. `calendar.day_name` is that of the C locale.
pub mod Times
pub mod Membership
use mstdnca_proxmox_tool.Base.{
  ℕ, zero, suc, ◌+◌, ◌*◌, String, Bool, true, false, not, ◌&&◌, ◌||◌, Option, none, some, List, [],
  ◌∷◌, map, ◌==◌, ltb, leb, if◌then◌else◌,
}
use mstdnca_proxmox_tool.Base.Text.{Text, Unicode, codes, text_eq, strip, isdigit, parse_digits}

-- A Python computation that may raise `ValueError`.
pub data Outcome {ℓ} (A : Type ℓ) : Type ℓ where
  returns : A → Outcome A
  value_error : Outcome A

infixl 5 ◌>>=◌
abbrev pub ◌>>=◌ {ℓ κ} : {A : Type ℓ} {B : Type κ} → Outcome A → (A → Outcome B) → Outcome B
returns a >>= f = f a
value_error >>= f = value_error

abbrev pub minute_of_time : ℕ
minute_of_time = 60 * 1000000

int_of : Option ℕ → Outcome ℕ
int_of none = value_error
int_of (some n) = returns n

-- `dtime(hour, minute)`
clock_time : ℕ → ℕ → Option ℕ
clock_time hour minute =
    if ltb 23 hour || ltb 59 minute then none else some ((hour * 60 + minute) * minute_of_time)

unfoldable pub or_empty : Option Text → Text
or_empty none = []
or_empty (some text) = text

module _ (u : Unicode) where
  parse_hh_mm : Text → Outcome (Option ℕ)
  unfolding int_of clock_time
  parse_hh_mm (a ∷ b ∷ c ∷ d ∷ e ∷ []) =
      if not (c == 58) || not (isdigit u (a ∷ b ∷ []) && isdigit u (d ∷ e ∷ []))
      then returns none
      else do
        hour ← int_of (parse_digits u (a ∷ b ∷ []))
        minute ← int_of (parse_digits u (d ∷ e ∷ []))
        returns (clock_time hour minute)
  parse_hh_mm text = returns none

  unfoldable pub parse_window_time : Option Text → Outcome (Option ℕ)
  unfolding parse_hh_mm or_empty
  parse_window_time value = parse_hh_mm (strip u (or_empty value))

pub record MaintenanceWindow : Type 0 where
  pub enabled : Bool
  pub day_of_week : Option Text
  pub start_time : Option Text
  pub end_time : Option Text
  pub update_type : String

unfoldable pub day_name : ℕ → Text
day_name zero = codes "monday"
day_name (suc zero) = codes "tuesday"
day_name (suc (suc zero)) = codes "wednesday"
day_name (suc (suc (suc zero))) = codes "thursday"
day_name (suc (suc (suc (suc zero)))) = codes "friday"
day_name (suc (suc (suc (suc (suc zero))))) = codes "saturday"
day_name _ = codes "sunday"

-- The last lines of `_in_maintenance_window`, on the parsed times.
unfoldable pub between : Option ℕ → Option ℕ → ℕ → Bool
between none end current = false
between (some start) none current = false
between (some start) (some end) current =
    if leb start end
    then leb start current && leb current end
    else leb start current || leb current end

unfoldable pub in_maintenance_window : Unicode → MaintenanceWindow → ℕ → ℕ → Outcome Bool
unfolding or_empty
in_maintenance_window u window weekday current =
    let day = map u.to_lower (strip u (or_empty window.day_of_week)) in
    if not (text_eq day (codes "daily")) && not (text_eq day (day_name weekday))
    then returns false
    else do
      start ← parse_window_time u window.start_time
      end ← parse_window_time u window.end_time
      returns (between start end current)
