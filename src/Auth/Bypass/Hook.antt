-- ===== src/Auth/Bypass/Hook.antt =====
-- auth/local_network.py, the hook `_local_network_bypass`: who is logged in by it, and how long.
use mstdnca_proxmox_tool.Base.{
  ℕ, ◌≡◌, inl, inr, refl, sym, subst, ◌∙◌, Bool, true, false, not, Option, none, some, List, [],
  ◌∷◌, if◌then◌else◌, arith, Bool-cases, In,
}
use mstdnca_proxmox_tool.Base.Text.{Unicode}
use mstdnca_proxmox_tool.Access.{User}
use mstdnca_proxmox_tool.Auth.Sessions.{
  Cookie, UserSession, empty_cookie, untracked_path, start_session, revoke_current_session,
}
use mstdnca_proxmox_tool.Auth.Bypass.{
  IpLib, Request, Settings, bypass_session_still_valid, bypass_enabled, came_through_cloudflare,
  is_trusted, get_client_ip, get_trusted_networks, find_admin, is_local_admin,
}

-- The browser's cookie, the table of sessions, and `g.local_bypass`.
pub record State : Type 0 where
  pub cookie : Cookie
  pub rows : List UserSession
  pub flagged : Bool

module _ {Addr Net : Type 0} (ip : IpLib Addr Net) (u : Unicode) (hash : ℕ → ℕ) where
  -- `login_user`, `start_session` and the mark, in a cleared cookie that keeps the safety mode. `raw`
  -- is the fresh session id.
  logged_in : ℕ → ℕ → User → State → State
  unfolding start_session
  logged_in now raw admin s =
      let (c, rows) =
        start_session hash now raw admin.id
          (record empty_cookie { login = some admin.id; safety_mode = s.cookie.safety_mode })
          s.rows in
      record { cookie = record c { local_bypass = true }; rows = rows; flagged = true }

  login_admin : ℕ → ℕ → Option User → State → State
  unfolding logged_in
  login_admin now raw none s = s
  login_admin now raw (some admin) s = if admin.is_active_user then logged_in now raw admin s else s

  recheck : Settings → Request → State → State
  unfolding bypass_session_still_valid revoke_current_session
  recheck settings req s =
      if not s.cookie.local_bypass
      then s
      else if bypass_session_still_valid ip u settings req
      then record s { flagged = true }
      else record s { cookie = empty_cookie; rows = revoke_current_session hash s.cookie s.rows }

  on_login : ℕ → ℕ → List User → Settings → Request → Option ℕ → State → State
  unfolding recheck login_admin bypass_enabled came_through_cloudflare is_trusted get_client_ip
      get_trusted_networks find_admin
  on_login now raw users settings req (some user) s = recheck settings req s
  on_login now raw users settings req none s =
      if not (bypass_enabled settings)
      then s
      else if came_through_cloudflare req
      then s
      else if not (is_trusted ip u (get_client_ip ip u req) (get_trusted_networks ip u settings))
      then s
      else login_admin now raw (find_admin users) s

  -- `_local_network_bypass`
  unfoldable pub local_network_bypass : ℕ → ℕ → List User → Settings → Request → State → State
  unfolding untracked_path on_login
  local_network_bypass now raw users settings req s =
      if untracked_path req.path then s else on_login now raw users settings req s.cookie.login s

  abbrev pub Conditions : Settings → Request → Type 0
  Conditions settings req =
      (bypass_enabled settings ≡ true)
      × (came_through_cloudflare req ≡ false)
      × (is_trusted ip u (get_client_ip ip u req) (get_trusted_networks ip u settings) ≡ true)

  still_valid :
      (settings : Settings) (req : Request)
      → bypass_session_still_valid ip u settings req ≡ true
      → Conditions settings req
  unfolding bypass_session_still_valid
  still_valid settings req h = ground arith

  recheck-Valid :
      (user : ℕ) (settings : Settings) (req : Request) (s : State)
      → (recheck settings req s).cookie.login ≡ some user
      → (recheck settings req s).cookie.local_bypass ≡ true
      → Conditions settings req
  unfolding recheck
  recheck-Valid user settings req s h k = elim (Bool-cases s.cookie.local_bypass) [
    | inr e ↦ let l = rw e at k in cc l
    | inl e ↦ elim (Bool-cases (bypass_session_still_valid ip u settings req)) [
      | inl v ↦ still_valid settings req v
      | inr v ↦ let l = rw (e, v) at h in cc l
    ]
  ]

  on_login-Valid :
      (now raw user : ℕ) (users : List User) (settings : Settings) (req : Request)
      (login : Option ℕ) (s : State)
      → s.cookie.login ≡ login
      → (on_login now raw users settings req login s).cookie.login ≡ some user
      → (on_login now raw users settings req login s).cookie.local_bypass ≡ true
      → Conditions settings req
  unfolding on_login
  on_login-Valid now raw user users settings req (some l) s e h k =
      recheck-Valid user settings req s h k
  on_login-Valid now raw user users settings req none s e h k =
      elim (Bool-cases (bypass_enabled settings)) [
        | inr a ↦ let l = rw a at h in cc (sym e ∙ l)
        | inl a ↦ elim (Bool-cases (came_through_cloudflare req)) [
          | inl b ↦ let l = rw (a, b) at h in cc (sym e ∙ l)
          | inr b ↦
              elim (Bool-cases
                (is_trusted ip u (get_client_ip ip u req) (get_trusted_networks ip u settings))) [
                  | inl c ↦ (a, b, c)
                  | inr c ↦ let l = rw (a, b, c) at h in cc (sym e ∙ l)
                ]
        ]
      ]

  -- After the hook has run for a page of the web interface, a browser that is logged in with the
  -- bypass's mark came from a trusted address, not through Cloudflare, with the bypass switched on.
  pub local_network_bypass-Valid :
      (now raw user : ℕ) (users : List User) (settings : Settings) (req : Request) (s : State)
      → untracked_path req.path ≡ false
      → (local_network_bypass now raw users settings req s).cookie.login ≡ some user
      → (local_network_bypass now raw users settings req s).cookie.local_bypass ≡ true
      → Conditions settings req
  unfolding local_network_bypass
  local_network_bypass-Valid now raw user users settings req s p h k =
      on_login-Valid now raw user users settings req s.cookie.login s refl (rw p at h) (rw p at k)

  find_admin-In :
      (users : List User) (admin : User)
      → find_admin users ≡ some admin
      → In admin users × (is_local_admin admin ≡ true)
  unfolding find_admin
  find_admin-In [] admin h = cc h
  find_admin-In (user ∷ users) admin h = elim (Bool-cases (is_local_admin user)) [
    | inl e ↦
        let k = rw e at h in
        let i : user ≡ admin = cc k in (inl i, subst (λ x. is_local_admin x ≡ true) i e)
    | inr e ↦ let (i, l) = find_admin-In users admin (rw e at h) in (inr i, l)
  ]

  abbrev ByAdmin : ℕ → List User → State → Type 0
  ByAdmin user users t =
      (t.cookie.local_bypass ≡ true)
      × ((admin : User) × In admin users
          × (admin.id ≡ user)
          × (is_local_admin admin ≡ true)
          × (admin.is_active_user ≡ true))

  login_admin-ByAdmin :
      (now raw user : ℕ) (users : List User) (found : Option User) (s : State)
      → s.cookie.login ≡ none
      → find_admin users ≡ found
      → (login_admin now raw found s).cookie.login ≡ some user
      → ByAdmin user users (login_admin now raw found s)
  unfolding login_admin logged_in
  login_admin-ByAdmin now raw user users none s e f h = cc (sym e ∙ h)
  login_admin-ByAdmin now raw user users (some admin) s e f h =
      elim (Bool-cases admin.is_active_user) [
        | inl a ↦
            let (i, l) = find_admin-In users admin f in
            let k = rw a at h in rw a (refl, (admin, i, cc k, l, a))
        | inr a ↦ let k = rw a at h in cc (sym e ∙ k)
      ]

  on_login-ByAdmin :
      (now raw user : ℕ) (users : List User) (settings : Settings) (req : Request) (s : State)
      → s.cookie.login ≡ none
      → (on_login now raw users settings req none s).cookie.login ≡ some user
      → ByAdmin user users (on_login now raw users settings req none s)
  unfolding on_login
  on_login-ByAdmin now raw user users settings req s e h =
      elim (Bool-cases (bypass_enabled settings)) [
        | inr a ↦ let l = rw a at h in cc (sym e ∙ l)
        | inl a ↦ elim (Bool-cases (came_through_cloudflare req)) [
          | inl b ↦ let l = rw (a, b) at h in cc (sym e ∙ l)
          | inr b ↦
              elim (Bool-cases
                (is_trusted ip u (get_client_ip ip u req) (get_trusted_networks ip u settings))) [
                  | inl c ↦
                      rw (a, b, c)
                        (login_admin-ByAdmin now raw user users (find_admin users) s e refl
                          (rw (a, b, c) at h))
                  | inr c ↦ let l = rw (a, b, c) at h in cc (sym e ∙ l)
                ]
        ]
      ]

  on_login-none :
      (now raw user : ℕ) (users : List User) (settings : Settings) (req : Request) (s : State)
      (login : Option ℕ)
      → s.cookie.login ≡ login
      → login ≡ none
      → (on_login now raw users settings req login s).cookie.login ≡ some user
      → ByAdmin user users (on_login now raw users settings req login s)
  on_login-none now raw user users settings req s none e z h =
      on_login-ByAdmin now raw user users settings req s e h
  on_login-none now raw user users settings req s (some l) e z h = cc z

  -- A login that the hook makes for a page of the web interface is that of an active account named
  -- `admin` with the role `admin` or `super_admin`, and is marked, so that later requests check it
  -- again.
  pub local_network_bypass-ByAdmin :
      (now raw user : ℕ) (users : List User) (settings : Settings) (req : Request) (s : State)
      → untracked_path req.path ≡ false
      → s.cookie.login ≡ none
      → (local_network_bypass now raw users settings req s).cookie.login ≡ some user
      → ((local_network_bypass now raw users settings req s).cookie.local_bypass ≡ true)
        × ((admin : User) × In admin users
            × (admin.id ≡ user)
            × (is_local_admin admin ≡ true)
            × (admin.is_active_user ≡ true))
  unfolding local_network_bypass
  local_network_bypass-ByAdmin now raw user users settings req s p e h =
      rw p (on_login-none now raw user users settings req s s.cookie.login refl e (rw p at h))
