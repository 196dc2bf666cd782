-- ===== src/Tests/Auth.antt =====
-- auth/jwt_auth.py, auth/session_manager.py and core/adhoc_credentials.py at concrete inputs.
use mstdnca_proxmox_tool.Base.{
  ℕ, ◌+◌, ◌≡◌, ◌&&◌, refl, true, false, none, some, List, [], ◌∷◌, ◌++◌, ◌==◌, ltb, arith, any,
  if◌then◌else◌,
}
use mstdnca_proxmox_tool.Base.Text.{Text, codes, after_prefix}
use mstdnca_proxmox_tool.Base.Dict.{Dict, get}
use mstdnca_proxmox_tool.Access.{User, set_password}
use mstdnca_proxmox_tool.Auth.Tokens.{
  Payload, payload, token_revoked, find_user, token_predates_password_change, seconds,
  create_access_token, jwt_required, is_token_revoked, revoke_token,
}
use mstdnca_proxmox_tool.Auth.Tokens.Epoch.{once}
use mstdnca_proxmox_tool.Auth.Tokens.Check.{
  access_token_accepted, access_token_revoked, jwt_required_sound,
}
use mstdnca_proxmox_tool.Auth.Tokens.Revocation.{stays_revoked, revoke, prune, PrunedBy}
use mstdnca_proxmox_tool.Auth.Tokens.Revocation as Revocation
use mstdnca_proxmox_tool.Auth.Adhoc.{Entry, ttl_seconds, store_credentials, take_credentials}
use mstdnca_proxmox_tool.Auth.Adhoc as Adhoc
use mstdnca_proxmox_tool.Auth.Adhoc.Single.{single_use, store, take}
use mstdnca_proxmox_tool.Auth.Adhoc.Single as Single
use mstdnca_proxmox_tool.Auth.Adhoc.RoundTrip.{take-store_credentials}
use mstdnca_proxmox_tool.Auth.Sessions.{
  Cookie, UserSession, empty_cookie, untracked_path, start_session, enforce_session_state,
  starts_with, find_session, revoke_current_session,
}
use mstdnca_proxmox_tool.Auth.Sessions.Lifecycle.{session_lifecycle}
use mstdnca_proxmox_tool.Auth.Sessions.Enforce.{Tracked, enforce-Tracked}
use mstdnca_proxmox_tool.Tests.Data.{operator}
use mstdnca_proxmox_tool.Tests.Jwt.{test_jwt}

abbrev bearer : Text → Text
bearer token = codes "Bearer " ++ token

abbrev rekeyed : User
rekeyed = set_password (λ s. s) 7000000 "new" operator

access_token_revoked_example :
    jwt_required test_jwt
      (rekeyed ∷ [])
      100000000
      (bearer (create_access_token test_jwt 5000000 operator))
    ≡ token_revoked
unfolding find_user set_password
access_token_revoked_example =
    access_token_revoked test_jwt (rekeyed ∷ []) (λ s. s) 5000000 100000000 operator rekeyed
      (once 7000000 "new") refl refl (omega arith) (omega arith)

jwt_required_sound_example :
    (token : Text) × (p : Payload) × (after_prefix
        (codes "Bearer ")
        (bearer (create_access_token test_jwt 5000000 operator))
      ≡ some token)
    × (test_jwt.decode (seconds 100000000) token ≡ payload p)
    × (p.kind ≡ codes "access")
    × (find_user p.sub (operator ∷ []) ≡ some operator)
    × (operator.is_active_user ≡ true)
    × (token_predates_password_change operator p ≡ false)
unfolding find_user
jwt_required_sound_example =
    jwt_required_sound test_jwt (operator ∷ []) 100000000
      (bearer (create_access_token test_jwt 5000000 operator)) operator
      (access_token_accepted test_jwt (operator ∷ []) 5000000 100000000 operator refl refl
        (omega arith) (omega arith))

stays_revoked_example :
    is_token_revoked 77
      (Revocation.run (revoke_token 77 900 []) (prune 800 ∷ revoke 78 20 ∷ prune 900 ∷ []))
    ≡ true
unfolding is_token_revoked any
stays_revoked_example =
    stays_revoked 77 900 [] (prune 800 ∷ revoke 78 20 ∷ prune 900 ∷ []) refl
      (omega arith, (omega arith, tt))

abbrev one_entry : Dict Entry
one_entry =
    (5, record { user_id = 1; guest_id = 2; username = "root"; password = "pw"; expires_at = 310 })
    ∷ []

single_use_example :
    (take_credentials (some 5) 20 1 2 (
      Single.run
        (take_credentials (some 5) 15 9 2 one_entry).0
        (store 6 16 1 2 "root" "pw" ∷ take (some 6) 17 1 2 ∷ []))).1
    ≡ none
single_use_example =
    single_use 5 15 9 2 20 1 2 one_entry (store 6 16 1 2 "root" "pw" ∷ take (some 6) 17 1 2 ∷ [])
      ((λ h. cc h), tt)

take-store_credentials_example :
    (take_credentials (some 6) 100 1 3 (store_credentials 6 50 1 3 "root" "pw" one_entry)).1
    ≡ (if ltb 100 (50 + ttl_seconds) && (1 == 1 && 3 == 3) then some ("root", "pw") else none)
unfolding get
take-store_credentials_example =
    take-store_credentials 6 50 1 3 100 1 3 "root" "pw" one_entry refl (omega arith, tt)

abbrev hash : ℕ → ℕ
hash raw = raw + 1000

abbrev logged_in : Cookie × List UserSession
logged_in = start_session hash 10 42 2 (record empty_cookie { login = some 2 }) []

enforce-Tracked_example :
    ((enforce_session_state hash 20 (codes "/guests/1") logged_in.0 logged_in.1).0 ≡ logged_in.0)
    × Tracked hash logged_in.0 logged_in.1
unfolding enforce_session_state untracked_path start_session after_prefix starts_with find_session
enforce-Tracked_example =
    enforce-Tracked hash 20 2 (codes "/guests/1") logged_in.0 logged_in.1 refl refl

session_lifecycle_example :
    ((enforce_session_state hash 20 (codes "/guests/1") logged_in.0 logged_in.1).0 ≡ logged_in.0)
    × ((enforce_session_state hash 20
          (codes "/guests/1")
          logged_in.0
          (revoke_current_session hash logged_in.0 logged_in.1)).0.login
        ≡ none)
unfolding untracked_path after_prefix starts_with find_session
session_lifecycle_example =
    session_lifecycle hash 10 20 2 42 (codes "/guests/1") empty_cookie [] refl refl
