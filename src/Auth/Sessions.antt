-- ===== src/Auth/Sessions.antt =====
-- auth/session_manager.py: a row of `user_sessions` behind each browser login. A raw session id is a
-- number; `hash` is SHA-256. Times are seconds.
pub mod Enforce
pub mod Lifecycle
use mstdnca_proxmox_tool.Base.{
  ℕ, zero, suc, ◌+◌, ◌-◌, Bool, true, false, not, ◌||◌, Option, none, some, List, [], ◌∷◌, ◌++◌,
  ◌==◌, leb, if◌then◌else◌,
}
use mstdnca_proxmox_tool.Base.Text.{Text, codes, after_prefix}

-- What the signed cookie holds: Flask-Login's user id, the tracking key, and the two flags.
pub record Cookie : Type 0 where
  pub login : Option ℕ
  pub session_key : Option ℕ
  pub local_bypass : Bool
  pub safety_mode : Bool

abbrev pub empty_cookie : Cookie
empty_cookie = record {
  login = none;
  session_key = none;
  local_bypass = false;
  safety_mode = false;
}

pub record UserSession : Type 0 where
  pub user_id : ℕ
  pub session_id_hash : ℕ
  pub revoked : Bool
  pub last_seen_at : Option ℕ

-- `_LAST_SEEN_THROTTLE`
abbrev pub last_seen_throttle : ℕ
last_seen_throttle = 60

holds : Option Text → Bool
holds none = false
holds (some rest) = true

unfoldable pub starts_with : Text → Text → Bool
unfolding holds
starts_with prefix path = holds (after_prefix prefix path)

-- `request.path.startswith(("/static/", "/api/v1/"))`
unfoldable pub untracked_path : Text → Bool
untracked_path path = starts_with (codes "/api/v1/") path || starts_with (codes "/static/") path

-- `UserSession.query.filter_by(session_id_hash=...).first()`
unfoldable pub find_session : ℕ → List UserSession → Option UserSession
find_session h [] = none
find_session h (row ∷ rows) = if row.session_id_hash == h then some row else find_session h rows

update_first : ℕ → (UserSession → UserSession) → List UserSession → List UserSession
update_first h f [] = []
update_first h f (row ∷ rows) =
    if row.session_id_hash == h then f row ∷ rows else row ∷ update_first h f rows

-- The throttle's test on `last_seen_at`.
due : ℕ → Option ℕ → Bool
due now none = true
due now (some last) = leb (last + last_seen_throttle) now

module _ (hash : ℕ → ℕ) where
  -- `raw` is the fresh random id; `last_seen_at` starts at the insertion.
  unfoldable pub start_session : ℕ → ℕ → ℕ → Cookie → List UserSession → Cookie × List UserSession
  start_session now raw user cookie rows = (
    record cookie { session_key = some raw },
    rows
        ++ record {
          user_id = user;
          session_id_hash = hash raw;
          revoked = false;
          last_seen_at = some now;
        }
          ∷ [],
  )

  found_by : Option ℕ → List UserSession → Option UserSession
  found_by none rows = none
  found_by (some raw) rows = find_session (hash raw) rows

  unfoldable pub current_session_record : Cookie → List UserSession → Option UserSession
  unfolding found_by
  current_session_record cookie rows = found_by cookie.session_key rows

  revoke_found : Option ℕ → List UserSession → List UserSession
  revoke_found none rows = rows
  revoke_found (some raw) rows = update_first (hash raw) (λ row. record row { revoked = true }) rows

  unfoldable pub revoke_current_session : Cookie → List UserSession → List UserSession
  unfolding revoke_found update_first
  revoke_current_session cookie rows = revoke_found cookie.session_key rows

  refresh : ℕ → ℕ → UserSession → List UserSession → List UserSession
  unfolding due update_first
  refresh now raw row rows =
      if due now row.last_seen_at
      then update_first (hash raw) (λ row. record row { last_seen_at = some now }) rows
      else rows

  enforce_row : ℕ → ℕ → Option UserSession → Cookie → List UserSession → Cookie × List UserSession
  unfolding refresh
  enforce_row now raw none cookie rows = (record cookie { login = none; session_key = none }, rows)
  enforce_row now raw (some row) cookie rows =
      if row.revoked
      then (record cookie { login = none; session_key = none }, rows)
      else (cookie, refresh now raw row rows)

  enforce_key : ℕ → Option ℕ → Cookie → List UserSession → Cookie × List UserSession
  unfolding enforce_row
  enforce_key now none cookie rows = (record cookie { login = none }, rows)
  enforce_key now (some raw) cookie rows =
      enforce_row now raw (find_session (hash raw) rows) cookie rows

  enforce_login : ℕ → Option ℕ → Cookie → List UserSession → Cookie × List UserSession
  unfolding enforce_key
  enforce_login now none cookie rows = (cookie, rows)
  enforce_login now (some user) cookie rows = enforce_key now cookie.session_key cookie rows

  -- The `before_request` hook `_enforce_session_state`.
  unfoldable pub enforce_session_state :
      ℕ → Text → Cookie → List UserSession → Cookie × List UserSession
  unfolding enforce_login
  enforce_session_state now path cookie rows =
      if untracked_path path then (cookie, rows) else enforce_login now cookie.login cookie rows
