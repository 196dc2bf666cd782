-- ===== src/Auth/RateLimit/Lockout.antt =====
-- auth/jwt_auth.py: the pruned table decides as the full log of the failed logins would.
use mstdnca_proxmox_tool.Base.{
  ℕ, ◌+◌, ◌≤◌, ◌==◌, leb, ◌≡◌, refl, ap, ◌∙◌, false, ◌&&◌, List, [], ◌∷◌, ◌++◌, keep, if◌then◌else◌,
  arith,
}
use mstdnca_proxmox_tool.Base.Dict.{Dict, get, put}
use mstdnca_proxmox_tool.Auth.RateLimit.{
  recent, active_entry, attempts, store_recent, check_api_rate_limit, record_api_failed_login,
}
use mstdnca_proxmox_tool.Auth.RateLimit.Buckets.{
  recents, recents-keep, recents_append, Rising-snoc, Rising-keep, Past-keep, Keys-put,
  attempts-put,
}
use mstdnca_proxmox_tool.Auth.RateLimit.Tracks.{
  logged, Roomy, Tracks, Past-later, Past-snoc, prune_attempts-Roomy, prune-Tracks, attempts-store,
  Keys-store, replace-Tracks, later-Tracks,
}

-- A history of the two operations: the table, the log of the failed logins, the newest first, and
-- the time of the last operation.
pub data Run : Dict (List ℕ) → List (ℕ × ℕ) → ℕ → Type 0 where
  no_calls : Run [] [] 0
  failed :
      {d : Dict (List ℕ)} {log : List (ℕ × ℕ)} {clock : ℕ} (now later ip : ℕ)
      → Run d log clock
      → clock ≤ now
      → now ≤ later
      → Roomy later (put ip (attempts ip d ++ now ∷ []) d)
      → Run (record_api_failed_login now later ip d) ((ip, now) ∷ log) later
  checked :
      {d : Dict (List ℕ)} {log : List (ℕ × ℕ)} {clock : ℕ} (now ip : ℕ)
      → Run d log clock
      → clock ≤ now
      → Roomy now d
      → Run (check_api_rate_limit now ip d).0 log now

check-Tracks :
    (clock now ip : ℕ) (d : Dict (List ℕ)) (log : List (ℕ × ℕ))
    → clock ≤ now
    → Roomy now d
    → Tracks clock d log
    → Tracks now (check_api_rate_limit now ip d).0 log
unfolding check_api_rate_limit
check-Tracks clock now ip d log l room t =
    let kept = keep (active_entry now) d in
    let p = prune-Tracks clock now d log l t in
    let v = keep (recent now) (attempts ip kept) in
    let s =
      replace-Tracks now ip v kept (store_recent ip v kept) log log p (Keys-store ip v kept p.keys)
        (λ j. attempts-store ip j v kept) (Rising-keep now (attempts ip kept) (p.rising ip))
        (Past-keep now now (attempts ip kept) (p.rising ip) (p.past ip))
        (λ later k. recents-keep now later (attempts ip kept) k ∙ p.counted ip later k)
        (λ j later e. refl) in
    rw (prune_attempts-Roomy now d room) s

counts_new :
    (next now ip m n : ℕ)
    → m ≡ n
    → m + (if recent next now then 1 else 0) ≡ n + (if (ip == ip) && recent next now then 1 else 0)
unfolding recent
counts_new next now ip m n h = ground (arith, h)

counts_other :
    (next now ip j n : ℕ)
    → (ip == j) ≡ false
    → n ≡ n + (if (ip == j) && recent next now then 1 else 0)
counts_other next now ip j n e = rw e (omega arith)

record-Tracks :
    (clock now later ip : ℕ) (d : Dict (List ℕ)) (log : List (ℕ × ℕ))
    → clock ≤ now
    → now ≤ later
    → Roomy later (put ip (attempts ip d ++ now ∷ []) d)
    → Tracks clock d log
    → Tracks later (record_api_failed_login now later ip d) ((ip, now) ∷ log)
unfolding record_api_failed_login logged
record-Tracks clock now later ip d log l k room t =
    let v = attempts ip d ++ now ∷ [] in
    let with_new =
      replace-Tracks now ip v d (put ip v d) log ((ip, now) ∷ log)
        (later-Tracks clock now d log l t) (Keys-put ip v d t.keys) (λ j. attempts-put ip j v d)
        (Rising-snoc now (attempts ip d) (t.rising ip)
          (Past-later clock now (attempts ip d) l (t.past ip)))
        (Past-snoc now now (attempts ip d) (omega arith))
        (λ next m.
          recents_append next now (attempts ip d)
          ∙ counts_new next now ip (recents next (attempts ip d)) (logged ip next log)
              (t.counted ip next (omega (arith, l, m))))
        (λ j next e. counts_other next now ip j (logged j next log) e) in
    rw (prune_attempts-Roomy later (put ip v d) room)
      (prune-Tracks now later (put ip v d) ((ip, now) ∷ log) k with_new)

Tracks-Run :
    {d : Dict (List ℕ)} {log : List (ℕ × ℕ)} {clock : ℕ} → Run d log clock → Tracks clock d log
Tracks-Run no_calls =
    unfold attempts get keep logged in
    record { keys = tt; rising = λ ip. tt; past = λ ip. tt; counted = λ ip now l. refl }
Tracks-Run (failed {d} {log} {clock} now later ip r l k room) =
    record-Tracks clock now later ip d log l k room (Tracks-Run r)
Tracks-Run (checked {d} {log} {clock} now ip r l room) =
    check-Tracks clock now ip d log l room (Tracks-Run r)

-- After any history of the two operations in which the clock did not run backwards and at each of
-- them at most 4096 addresses had recent failures, an address is locked out exactly when the full
-- log has at least five failures of it in the last 300 seconds.
pub check_api_rate_limit_log :
    {d : Dict (List ℕ)} {log : List (ℕ × ℕ)} {clock : ℕ} (now ip : ℕ)
    → Run d log clock
    → clock ≤ now
    → Roomy now d
    → (check_api_rate_limit now ip d).1 ≡ leb 5 (logged ip now log)
unfolding check_api_rate_limit
check_api_rate_limit_log {d} {log} {clock} now ip r l room =
    let t = Tracks-Run r in
    let p = prune-Tracks clock now d log l t in
    rw (prune_attempts-Roomy now d room) (ap (λ n. leb 5 n) (p.counted ip now (omega arith)))
