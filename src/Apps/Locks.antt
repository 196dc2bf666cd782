-- ===== src/Apps/Locks.antt =====
-- apps/utils.py, the upgrade locks: a lock for each application, and the jobs that take it. Manual
-- upgrades and the scheduled ones take the same lock.
pub mod Exclusive
use mstdnca_proxmox_tool.Base.{
  ℕ, ◌==◌, ◌≡◌, ◌≢◌, suc, Bool, true, false, not, ◌&&◌, Option, none, some, List, [], ◌∷◌, keep,
  any, if◌then◌else◌,
}

-- An entry of `_UPGRADE_LOCKS`: the application, and whether its lock is held.
pub record Entry : Type 0 where
  pub app : ℕ
  pub held : Bool

-- `_get_upgrade_lock(app).locked()`: an application without an entry has a new, free lock.
unfoldable pub is_held : ℕ → List Entry → Bool
is_held app [] = false
is_held app (e ∷ es) = let rest = is_held app es in if e.app == app then e.held else rest

-- The entry of the application, created on its first use, with the lock as it is now.
unfoldable pub set_held : ℕ → Bool → List Entry → List Entry
set_held app held [] = record { app = app; held = held } ∷ []
set_held app held (e ∷ es) =
    let rest = set_held app held es in
    if e.app == app then record e { held = held } ∷ es else e ∷ rest

-- `acquire_upgrade_lock`, without blocking.
unfoldable pub acquire_upgrade_lock : ℕ → List Entry → List Entry × Bool
unfolding is_held set_held
acquire_upgrade_lock app locks =
    if is_held app locks then (locks, false) else (set_held app true locks, true)

-- `release_upgrade_lock`: releasing a free lock raises, which is swallowed.
unfoldable pub release_upgrade_lock : ℕ → List Entry → List Entry
unfolding set_held
release_upgrade_lock app locks = set_held app false locks

-- The locks, and the application of every job that runs.
pub record Jobs : Type 0 where
  pub locks : List Entry
  pub running : List ℕ

unfoldable pub count : ℕ → List ℕ → ℕ
count app [] = 0
count app (a ∷ running) = let rest = count app running in if a == app then suc rest else rest

-- `with upgrade_lock(app) as acquired`: a job that is not given the lock does not run.
unfoldable pub start_job : ℕ → Jobs → Jobs
unfolding acquire_upgrade_lock
start_job app s =
    let (locks, acquired) = acquire_upgrade_lock app s.locks in
    record { locks = locks; running = if acquired then app ∷ s.running else s.running }

end_job : ℕ → List ℕ → List ℕ
end_job app [] = []
end_job app (a ∷ running) = let rest = end_job app running in if a == app then running else a ∷ rest

-- A job that runs ends, and gives its lock back.
unfoldable pub finish_job : ℕ → Jobs → Jobs
unfolding release_upgrade_lock end_job
finish_job app s = record {
  locks = release_upgrade_lock app s.locks;
  running = end_job app s.running;
}

-- What any number of jobs, manual or scheduled, can bring about. Only a job that runs ends.
pub data Reachable : Jobs → Type 0 where
  none_yet : Reachable (record { locks = []; running = [] })
  started : {s : Jobs} (app : ℕ) → Reachable s → Reachable (start_job app s)
  finished :
      {s : Jobs} (app : ℕ) → Reachable s → count app s.running ≢ 0 → Reachable (finish_job app s)
