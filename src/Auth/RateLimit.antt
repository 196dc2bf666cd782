-- ===== src/Auth/RateLimit.antt =====
-- auth/jwt_auth.py: the lockout of an address after failed logins of the mobile API. An address is a
-- number; `time.time()` is an argument, in a unit of which `window` is 300 seconds.
pub mod Buckets
pub mod Tracks
pub mod Lockout
pub mod Cap
use mstdnca_proxmox_tool.Base.{
  ℕ, ◌+◌, ◌-◌, ◌*◌, ◌==◌, ltb, leb, Bool, true, false, not, Option, none, some, List, [], ◌∷◌, ◌++◌,
  keep, length, take, if◌then◌else◌,
}
use mstdnca_proxmox_tool.Base.Dict.{Dict, get, put, pop}

-- `_API_FAIL_WINDOW` in microseconds, `_API_FAIL_LIMIT` and `_API_FAIL_MAX_KEYS`
abbrev pub window : ℕ
window = 300 * 1000000

abbrev pub fail_limit : ℕ
fail_limit = 5

abbrev pub max_keys : ℕ
max_keys = 4096

-- `t > now - _API_FAIL_WINDOW`
unfoldable pub recent : ℕ → ℕ → Bool
recent now t = ltb now (t + window)

-- `v[-1]` of the bucket `t ∷ v`
unfoldable pub last_of : ℕ → List ℕ → ℕ
last_of t [] = t
last_of t (s ∷ v) = last_of s v

-- The bucket is neither empty nor out of date.
unfoldable pub is_active : ℕ → List ℕ → Bool
unfolding recent last_of
is_active now [] = false
is_active now (t ∷ v) = recent now (last_of t v)

pub active_entry : ℕ → ℕ × List ℕ → Bool
unfolding is_active
active_entry now (ip, v) = is_active now v

-- `sorted(..., key=lambda k: attempts[k][-1])`, which keeps the order of equals.
newest : List ℕ → ℕ
newest [] = 0
newest (t ∷ v) = last_of t v

pub insert_entry : ℕ × List ℕ → Dict (List ℕ) → Dict (List ℕ)
unfolding newest
insert_entry (ip, v) [] = (ip, v) ∷ []
insert_entry (ip, v) ((j, w) ∷ d) =
    let rest = insert_entry (ip, v) d in
    if ltb (newest w) (newest v) then (j, w) ∷ rest else (ip, v) ∷ (j, w) ∷ d

pub least_recent_first : Dict (List ℕ) → Dict (List ℕ)
unfolding insert_entry
least_recent_first [] = []
least_recent_first (e ∷ d) = insert_entry e (least_recent_first d)

pub delete_all : Dict (List ℕ) → Dict (List ℕ) → Dict (List ℕ)
delete_all [] d = d
delete_all ((ip, v) ∷ stale) d = delete_all stale (pop ip d)

-- `_prune_api_failed_attempts`, with the cutoff of `now`.
unfoldable pub prune_attempts : ℕ → Dict (List ℕ) → Dict (List ℕ)
unfolding active_entry least_recent_first delete_all
prune_attempts now d =
    let kept = keep (active_entry now) d in
    if ltb max_keys (length kept)
    then delete_all (take (length kept - max_keys) (least_recent_first kept)) kept
    else kept

pub bucket : Option (List ℕ) → List ℕ
bucket none = []
bucket (some v) = v

-- `attempts.get(ip, [])`
unfoldable pub attempts : ℕ → Dict (List ℕ) → List ℕ
unfolding bucket
attempts ip d = bucket (get ip d)

pub store_recent : ℕ → List ℕ → Dict (List ℕ) → Dict (List ℕ)
store_recent ip [] d = pop ip d
store_recent ip (t ∷ v) d = put ip (t ∷ v) d

-- `check_api_rate_limit`: the new table, and whether the address is locked out.
unfoldable pub check_api_rate_limit : ℕ → ℕ → Dict (List ℕ) → Dict (List ℕ) × Bool
unfolding prune_attempts attempts store_recent recent
check_api_rate_limit now ip d =
    let pruned = prune_attempts now d in
    let recents = keep (recent now) (attempts ip pruned) in
    (store_recent ip recents pruned, leb fail_limit (length recents))

-- `record_api_failed_login`; `later` is the second reading of the clock.
unfoldable pub record_api_failed_login : ℕ → ℕ → ℕ → Dict (List ℕ) → Dict (List ℕ)
unfolding prune_attempts attempts
record_api_failed_login now later ip d = prune_attempts later (put ip (attempts ip d ++ now ∷ []) d)
