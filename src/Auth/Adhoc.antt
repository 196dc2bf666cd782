-- ===== src/Auth/Adhoc.antt =====
-- core/adhoc_credentials.py: one-off SSH credentials behind single-use tokens. A token is a number;
-- `none` is the empty or missing token. The clock is `time.monotonic()` in any unit.
pub mod Cap
pub mod Single
pub mod RoundTrip
use mstdnca_proxmox_tool.Base.{
  ℕ, zero, suc, ◌+◌, String, Bool, true, false, not, ◌||◌, Option, none, some, List, [], ◌∷◌, ◌==◌,
  ltb, leb, if◌then◌else◌, length, keep,
}
use mstdnca_proxmox_tool.Base.Dict.{Dict, get, put, pop}

pub record Entry : Type 0 where
  pub user_id : ℕ
  pub guest_id : ℕ
  pub username : String
  pub password : String
  pub expires_at : ℕ

-- `TTL_SECONDS` and `_MAX_ENTRIES`
abbrev pub ttl_seconds : ℕ
ttl_seconds = 300

abbrev pub max_entries : ℕ
max_entries = 256

-- `min(_entries, key=...)`: the first of the entries that expire soonest.
unfoldable pub oldest : ℕ × Entry → Dict Entry → ℕ × Entry
oldest best [] = best
oldest best (e ∷ d) = oldest (if ltb e.1.expires_at best.1.expires_at then e else best) d

pub pop_oldest : Dict Entry → Dict Entry
pop_oldest [] = []
pop_oldest (e ∷ d) = pop (oldest e d).0 (e ∷ d)

-- The `while` loop; each round drops an entry, so the number of entries is enough fuel.
pub drop_to_cap : ℕ → Dict Entry → Dict Entry
drop_to_cap zero d = d
drop_to_cap (suc fuel) d =
    let rest = drop_to_cap fuel (pop_oldest d) in if ltb max_entries (length d) then rest else d

live : ℕ → Dict Entry → Dict Entry
live now d = keep (λ e. not (leb e.1.expires_at now)) d

unfoldable pub prune : ℕ → Dict Entry → Dict Entry
unfolding live drop_to_cap pop_oldest
prune now d = let d' = live now d in drop_to_cap (length d') d'

-- `token` is the fresh random token.
unfoldable pub store_credentials : ℕ → ℕ → ℕ → ℕ → String → String → Dict Entry → Dict Entry
store_credentials token now user_id guest_id username password d =
    put token
      (record {
        user_id = user_id;
        guest_id = guest_id;
        username = username;
        password = password;
        expires_at = now + ttl_seconds;
      })
      (prune now d)

-- The checks on the entry that was popped.
release : ℕ → ℕ → ℕ → Option Entry → Option (String × String)
release now user_id guest_id none = none
release now user_id guest_id (some e) =
    if leb e.expires_at now
    then none
    else if not (e.user_id == user_id) || not (e.guest_id == guest_id)
    then none
    else some (e.username, e.password)

unfoldable pub take_credentials :
    Option ℕ → ℕ → ℕ → ℕ → Dict Entry → Dict Entry × Option (String × String)
unfolding release
take_credentials none now user_id guest_id d = (d, none)
take_credentials (some token) now user_id guest_id d =
    let d' = prune now d in (pop token d', release now user_id guest_id (get token d'))

unfoldable pub discard : Option ℕ → Dict Entry → Dict Entry
discard none d = d
discard (some token) d = pop token d

unfoldable pub clear : Dict Entry → Dict Entry
clear d = []
