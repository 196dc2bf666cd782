-- ===== src/Scheduler/Stretch.antt =====
-- core/scheduler.py, `_run_moderation_watch_poll`: when the poll runs, and how its interval is
-- stretched. The poll itself (core/moderation_watch.py) and the clients it needs are inputs.
pub mod Factor
use mstdnca_proxmox_tool.Base.{
  ℕ, ◌+◌, ◌*◌, Bool, true, false, not, ◌||◌, Option, none, some, ◌==◌, ltb, leb, min, if◌then◌else◌,
}

-- `_watch_stretch`, the setting `moderation_watch_backoff_until` (as the instant that
-- `fromisoformat` reads from it, if any), and the interval the job is scheduled at, in minutes.
pub record WatchJob : Type 0 where
  pub consecutive_short : ℕ
  pub factor : ℕ
  pub backoff_until : Option ℕ
  pub minutes : ℕ

abbrev pub stretch_max_factor : ℕ
stretch_max_factor = 6

abbrev pub stretch_threshold : ℕ
stretch_threshold = 2

-- What the job meets on one run: the settings, the clock, whether a client could be built, and the
-- summary of the poll. `configured` is `interval_setting("moderation_watch_poll_minutes")`.
pub record Run : Type 0 where
  pub alerts_enabled : Bool
  pub now : ℕ
  pub client_built : Bool
  pub deferred : Bool
  pub result_backoff : Option ℕ
  pub configured : ℕ

is_some : Option ℕ → Bool
is_some none = false
is_some (some x) = true

held_back : Option ℕ → ℕ → Bool
held_back none now = false
held_back (some until) now = ltb now until

-- The early returns: whether `run_watch_poll` is called.
unfoldable pub polls : Run → WatchJob → Bool
unfolding held_back
polls r s =
    if not r.alerts_enabled
    then false
    else if held_back s.backoff_until r.now
    then false
    else r.client_built

unfoldable pub short_run : Run → Bool
unfolding is_some
short_run r = r.deferred || is_some r.result_backoff

after_short : Run → WatchJob → WatchJob
after_short r s =
    let count = s.consecutive_short + 1 in
    let new_factor = min stretch_max_factor (s.factor * 2) in
    if leb stretch_threshold count
    then if new_factor == s.factor then record s { consecutive_short = count } else record s {
      consecutive_short = count;
      factor = new_factor;
      minutes = r.configured * new_factor;
    }
    else record s { consecutive_short = count }

after_clean : Run → WatchJob → WatchJob
after_clean r s =
    if s.factor == 1
    then record s { consecutive_short = 0 }
    else record s { consecutive_short = 0; factor = 1; minutes = r.configured }

-- What follows the call of `run_watch_poll`.
after_poll : Run → WatchJob → WatchJob
unfolding after_short after_clean
after_poll r s = if short_run r then after_short r s else after_clean r s

unfoldable pub run_moderation_watch_poll : Run → WatchJob → WatchJob
unfolding after_poll
run_moderation_watch_poll r s =
    if polls r s then after_poll r (record s { backoff_until = r.result_backoff }) else s
