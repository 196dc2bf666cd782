-- ===== src/Scheduler/Stretch/Factor.antt =====
-- core/scheduler.py, `_run_moderation_watch_poll`: how far the interval is stretched, and that a
-- rate limit is honoured.
use mstdnca_proxmox_tool.Base.{ℕ, zero, suc, ◌*◌, ◌<◌, ◌≡◌, refl, true, some, List, [], ◌∷◌, arith}
use mstdnca_proxmox_tool.Scheduler.Stretch.{WatchJob, Run, polls, run_moderation_watch_poll}

unfoldable pub run_all : List Run → WatchJob → WatchJob
run_all [] s = s
run_all (r ∷ rs) s = run_all rs (run_moderation_watch_poll r s)

-- The factor that belongs to a number of short runs in a row.
abbrev pub factor_after : ℕ → ℕ
factor_after zero = 1
factor_after (suc zero) = 1
factor_after (suc (suc zero)) = 2
factor_after (suc (suc (suc zero))) = 4
factor_after _ = 6

-- With `configured` minutes set throughout: the factor is the one of the short runs in a row, and
-- the job is scheduled at that many times the configured interval.
pub record IsStretched (configured : ℕ) (s : WatchJob) : Type 0 where
  pub factor_right : s.factor ≡ factor_after s.consecutive_short
  pub scheduled : s.minutes ≡ configured * s.factor

abbrev pub Configured : ℕ → List Run → Type 0
Configured c [] = Unit
Configured c (r ∷ rs) = (r.configured ≡ c) × Configured c rs

abbrev pub AllBefore : ℕ → List Run → Type 0
AllBefore until [] = Unit
AllBefore until (r ∷ rs) = (r.now < until) × AllBefore until rs

told :
    (r : Run) (until : ℕ) (s : WatchJob)
    → polls r s ≡ true
    → r.result_backoff ≡ some until
    → (run_moderation_watch_poll r s).backoff_until ≡ some until
unfolding run_moderation_watch_poll
told r until s p b = ground arith

idle_step :
    (until : ℕ) (r : Run) (s : WatchJob)
    → s.backoff_until ≡ some until
    → r.now < until
    → run_moderation_watch_poll r s ≡ s
unfolding run_moderation_watch_poll polls
idle_step until r s b h = ground arith

idle :
    (until : ℕ) (rs : List Run) (s : WatchJob)
    → s.backoff_until ≡ some until
    → AllBefore until rs
    → run_all rs s ≡ s
unfolding run_all
idle until [] s b h = refl
idle until (r ∷ rs) s b h = rw (idle_step until r s b h.0) (idle until rs s b h.1)

-- A 429 is honoured: after a poll that was told to hold back until `until`, any runs of the job
-- before that instant call nothing and change nothing.
pub backs_off :
    (r : Run) (until : ℕ) (s : WatchJob) (rs : List Run)
    → polls r s ≡ true
    → r.result_backoff ≡ some until
    → AllBefore until rs
    → run_all rs (run_moderation_watch_poll r s) ≡ run_moderation_watch_poll r s
backs_off r until s rs p b h = idle until rs (run_moderation_watch_poll r s) (told r until s p b) h
