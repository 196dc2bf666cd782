-- ===== src/Auth/Sessions/Lifecycle.antt =====
-- auth/session_manager.py: a login from its start to its revocation.
use mstdnca_proxmox_tool.Base.{
  ℕ, ◌≡◌, refl, ap, true, false, none, some, List, [], ◌∷◌, ◌++◌, ◌==◌, ==_iff, Bool-cases, inl,
  inr,
}
use mstdnca_proxmox_tool.Base.Text.{Text}
use mstdnca_proxmox_tool.Auth.Sessions.{
  Cookie, UserSession, untracked_path, find_session, start_session, revoke_current_session,
  enforce_session_state, update_first, revoke_found, enforce_login, enforce_key, enforce_row,
}

find_session-last :
    (rows : List UserSession) (row : UserSession)
    → find_session row.session_id_hash rows ≡ none
    → find_session row.session_id_hash (rows ++ row ∷ []) ≡ some row
unfolding find_session
find_session-last [] row h =
    let e : (row.session_id_hash == row.session_id_hash) ≡ true =
      (==_iff row.session_id_hash row.session_id_hash).1 refl in
    rw e refl
find_session-last (r ∷ rows) row h = elim (Bool-cases (r.session_id_hash == row.session_id_hash)) [
  | inl e ↦ let k = rw e at h in cc k
  | inr e ↦ rw e (find_session-last rows row (rw e at h))
]

revoked_row : UserSession → UserSession
revoked_row row = record row { revoked = true }

find_session-update_first :
    (key : ℕ) (rows : List UserSession) (row : UserSession)
    → find_session key rows ≡ some row
    → find_session key (update_first key revoked_row rows) ≡ some (revoked_row row)
unfolding find_session update_first revoked_row
find_session-update_first key [] row h = cc h
find_session-update_first key (r ∷ rows) row h = elim (Bool-cases (r.session_id_hash == key)) [
  | inl e ↦ let k : r ≡ row = cc (rw e at h) in rw (e, e) (ap (λ x. some (revoked_row x)) k)
  | inr e ↦ rw (e, e) (find_session-update_first key rows row (rw e at h))
]

module _ (hash : ℕ → ℕ) where
  enforce-live :
      (now user raw : ℕ) (path : Text) (cookie : Cookie) (rows : List UserSession)
      (row : UserSession)
      → untracked_path path ≡ false
      → find_session (hash raw) rows ≡ some row
      → row.revoked ≡ false
      → let c = record cookie { login = some user; session_key = some raw } in
        (enforce_session_state hash now path c rows).0 ≡ c
  unfolding enforce_session_state enforce_login enforce_key enforce_row
  enforce-live now user raw path cookie rows row p f r = rw (p, f, r) refl

  enforce-dead :
      (now user raw : ℕ) (path : Text) (cookie : Cookie) (rows : List UserSession)
      (row : UserSession)
      → untracked_path path ≡ false
      → find_session (hash raw) rows ≡ some row
      → row.revoked ≡ true
      → (enforce_session_state hash now path
          (record cookie { login = some user; session_key = some raw })
          rows).0.login
        ≡ none
  unfolding enforce_session_state enforce_login enforce_key enforce_row
  enforce-dead now user raw path cookie rows row p f r = rw (p, f, r) refl

  -- A login that is started with an id whose hash no row has is kept as it is by the next request
  -- for a page of the web interface; once it is revoked, the next such request logs it out.
  pub session_lifecycle :
      (now later user raw : ℕ) (path : Text) (cookie : Cookie) (rows : List UserSession)
      → untracked_path path ≡ false
      → find_session (hash raw) rows ≡ none
      → let s = start_session hash now raw user (record cookie { login = some user }) rows in
        ((enforce_session_state hash later path s.0 s.1).0 ≡ s.0)
        × ((enforce_session_state hash later path s.0 (revoke_current_session hash s.0 s.1)).0.login
            ≡ none)
  unfolding start_session revoke_current_session revoke_found revoked_row
  session_lifecycle now later user raw path cookie rows p f =
      let row : UserSession = record {
        user_id = user;
        session_id_hash = hash raw;
        revoked = false;
        last_seen_at = some now;
      } in
      let found = find_session-last rows row f in
      (
        enforce-live later user raw path cookie (rows ++ row ∷ []) row p found refl,
        enforce-dead later user raw path cookie
            (update_first (hash raw) revoked_row (rows ++ row ∷ [])) (revoked_row row) p
            (find_session-update_first (hash raw) (rows ++ row ∷ []) row found) refl,
      )
