-- ===== src/Auth/Sessions/Enforce.antt =====
-- auth/session_manager.py, `_enforce_session_state`: no login outlives its row.
use mstdnca_proxmox_tool.Base.{
  ℕ, ◌≡◌, refl, sym, ◌∙◌, false, Option, none, some, List, Bool-cases, inl, inr,
}
use mstdnca_proxmox_tool.Base.Text.{Text}
use mstdnca_proxmox_tool.Auth.Sessions.{
  Cookie, UserSession, untracked_path, find_session, current_session_record, enforce_session_state,
  found_by, enforce_login, enforce_key, enforce_row,
}

module _ (hash : ℕ → ℕ) where
  -- A tracked login: the cookie's key leads to a row that is not revoked.
  abbrev pub Tracked : Cookie → List UserSession → Type 0
  Tracked cookie rows =
      (row : UserSession) × (current_session_record hash cookie rows ≡ some row)
      × (row.revoked ≡ false)

  row-Tracked :
      (now user raw : ℕ) (found : Option UserSession) (cookie : Cookie) (rows : List UserSession)
      → (enforce_row hash now raw found cookie rows).0.login ≡ some user
      → ((enforce_row hash now raw found cookie rows).0 ≡ cookie)
        × ((row : UserSession) × (found ≡ some row) × (row.revoked ≡ false))
  unfolding enforce_row
  row-Tracked now user raw none cookie rows h = cc h
  row-Tracked now user raw (some row) cookie rows h = elim (Bool-cases row.revoked) [
    | inl e ↦ let k = rw e at h in cc k
    | inr e ↦ (rw e refl, (row, refl, e))
  ]

  key-Tracked :
      (now user : ℕ) (key : Option ℕ) (cookie : Cookie) (rows : List UserSession)
      → (enforce_key hash now key cookie rows).0.login ≡ some user
      → ((enforce_key hash now key cookie rows).0 ≡ cookie)
        × ((row : UserSession) × (found_by hash key rows ≡ some row) × (row.revoked ≡ false))
  unfolding enforce_key found_by
  key-Tracked now user none cookie rows h = cc h
  key-Tracked now user (some raw) cookie rows h =
      row-Tracked now user raw (find_session (hash raw) rows) cookie rows h

  login-Tracked :
      (now user : ℕ) (login : Option ℕ) (cookie : Cookie) (rows : List UserSession)
      → cookie.login ≡ login
      → (enforce_login hash now login cookie rows).0.login ≡ some user
      → ((enforce_login hash now login cookie rows).0 ≡ cookie) × Tracked cookie rows
  unfolding enforce_login current_session_record
  login-Tracked now user none cookie rows e h = cc (sym e ∙ h)
  login-Tracked now user (some u) cookie rows e h =
      key-Tracked now user cookie.session_key cookie rows h

  -- After the hook has run for a page of the web interface, a browser that is still logged in has
  -- the cookie it came with, and that leads to a row which was there and not revoked.
  pub enforce-Tracked :
      (now user : ℕ) (path : Text) (cookie : Cookie) (rows : List UserSession)
      → untracked_path path ≡ false
      → (enforce_session_state hash now path cookie rows).0.login ≡ some user
      → ((enforce_session_state hash now path cookie rows).0 ≡ cookie) × Tracked cookie rows
  unfolding enforce_session_state
  enforce-Tracked now user path cookie rows p h =
      rw p (login-Tracked now user cookie.login cookie rows refl (rw p at h))
