-- ===== src/Apps/Locks/Exclusive.antt =====
-- apps/utils.py, the upgrade locks: at most one upgrade of an application runs.
use mstdnca_proxmox_tool.Base.{
  ℕ, ◌-◌, ◌==◌, ◌≡◌, ◌≢◌, refl, ap, Bool, true, false, List, [], ◌∷◌, if◌then◌else◌, Bool-cases,
  ==_iff, inl, inr, arith,
}
use mstdnca_proxmox_tool.Apps.Locks.{
  Entry, is_held, set_held, acquire_upgrade_lock, release_upgrade_lock, Jobs, count, start_job,
  end_job, finish_job, Reachable, none_yet, started, finished,
}

is_held-set_held :
    (a b : ℕ) (h : Bool) (locks : List Entry)
    → is_held a (set_held b h locks) ≡ (if b == a then h else is_held a locks)
unfolding is_held set_held
is_held-set_held a b h [] = refl
is_held-set_held a b h (e ∷ es) = ground (arith, is_held-set_held a b h es)

count-end_job :
    (a b : ℕ) (running : List ℕ)
    → count b running ≢ 0
    → count a (end_job b running) ≡ (if b == a then count a running - 1 else count a running)
unfolding count end_job
count-end_job a b [] n = absurd (n refl)
count-end_job a b (c ∷ running) n = elim (Bool-cases (c == b)) [
  | inl e ↦ rw e (ground arith)
  | inr e ↦
      let ih = count-end_job a b running (rw e at n) in rw e (unfold count in ground (arith, ih))
]

start_job-count :
    (b app : ℕ) (t : Jobs)
    → count b t.running ≡ (if is_held b t.locks then 1 else 0)
    → count app t.running ≡ (if is_held app t.locks then 1 else 0)
    → count app (start_job b t).running ≡ (if is_held app (start_job b t).locks then 1 else 0)
unfolding start_job acquire_upgrade_lock count
start_job-count b app t own h = elim (Bool-cases (is_held b t.locks)) [
  | inl e ↦ rw e h
  | inr e ↦
      let k = is_held-set_held app b true t.locks in
      let free : count b t.running ≡ 0 = rw e at own in
      rw (e, k)
        (elim (Bool-cases (b == app)) [
          | inl p ↦
              let q : count b t.running ≡ count app t.running =
                ap (λ x. count x t.running) ((==_iff b app).0 p) in
              rw p (omega (arith, q, free))
          | inr p ↦ rw p h
        ])
]

finish_job-count :
    (b app : ℕ) (t : Jobs)
    → count b t.running ≢ 0
    → count app t.running ≡ (if is_held app t.locks then 1 else 0)
    → count app (finish_job b t).running ≡ (if is_held app (finish_job b t).locks then 1 else 0)
unfolding finish_job release_upgrade_lock
finish_job-count b app t n h =
    let k = is_held-set_held app b false t.locks in
    let c = count-end_job app b t.running n in
    rw (k, c) (elim (Bool-cases (b == app)) [ inr p ↦ rw p h | inl p ↦ rw p (ground (arith, h)) ])

-- Whatever jobs have been started and have ended, the lock of an application is held exactly when
-- one upgrade of it runs, and never do two.
pub one_upgrade_at_a_time :
    (s : Jobs) (app : ℕ)
    → Reachable s
    → count app s.running ≡ (if is_held app s.locks then 1 else 0)
one_upgrade_at_a_time s app none_yet = unfold count is_held in refl
one_upgrade_at_a_time s app (started {s = t} b r) =
    start_job-count b app t (one_upgrade_at_a_time t b r) (one_upgrade_at_a_time t app r)
one_upgrade_at_a_time s app (finished {s = t} b r n) =
    finish_job-count b app t n (one_upgrade_at_a_time t app r)
