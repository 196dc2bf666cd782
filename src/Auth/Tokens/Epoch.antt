-- ===== src/Auth/Tokens/Epoch.antt =====
-- models.py `User.set_password` and auth/jwt_auth.py `credential_epoch`: a password change starts a
-- new generation of credentials.
use mstdnca_proxmox_tool.Base.{
  ℕ, ◌<◌, ◌≡◌, refl, String, true, Option, none, some, arith, Option-cases, inl, inr,
}
use mstdnca_proxmox_tool.Access.{User, set_password}
use mstdnca_proxmox_tool.Auth.Tokens.{Payload, credential_epoch, token_predates_password_change}

-- The order of generations: `none` (the password was never changed) comes first.
abbrev pub Before : Option ℕ → Option ℕ → Type 0
Before a none = ⊥
Before none (some n) = Unit
Before (some m) (some n) = m < n

pub Before-trans : (a b c : Option ℕ) → Before a b → Before b c → Before a c
Before-trans a b none p q = absurd q
Before-trans none b (some n) p q = tt
Before-trans (some k) none (some n) p q = absurd p
Before-trans (some k) (some m) (some n) p q = omega arith

module _ (generate : String → String) where
  -- One password change or more, at any instants, in any order of the clock.
  pub data Changed (u : User) : User → Type 0 where
    once : (now : ℕ) (password : String) → Changed u (set_password generate now password u)
    again :
        (v : User) (now : ℕ) (password : String)
        → Changed u v
        → Changed u (set_password generate now password v)

  stamp_grows :
      (u : User) (now : ℕ) (password : String)
      → Before (credential_epoch u) (credential_epoch (set_password generate now password u))
  unfolding credential_epoch set_password
  stamp_grows u now password = elim (Option-cases u.tokens_valid_after) [
    | inl e ↦ rw (e, credential_epoch) tt
    | inr (p, e) ↦ rw (e, credential_epoch, set_password) (ground arith)
  ]

  -- However often the password was changed, and whatever the clock said, the epoch has moved up.
  pub Changed-Before : {u v : User} → Changed u v → Before (credential_epoch u) (credential_epoch v)
  Changed-Before {u} (once now password) = stamp_grows u now password
  Changed-Before {u} (again v now password c) =
      Before-trans (credential_epoch u) (credential_epoch v) _ (Changed-Before c)
        (stamp_grows v now password)

  pub id-Changed : {u v : User} → Changed u v → v.id ≡ u.id
  unfolding set_password
  id-Changed (once now password) = refl
  id-Changed (again v now password c) = id-Changed c

  pub is_active_user-Changed : {u v : User} → Changed u v → v.is_active_user ≡ u.is_active_user
  unfolding set_password
  is_active_user-Changed (once now password) = refl
  is_active_user-Changed (again v now password c) = is_active_user-Changed c

  -- A token or remember-me marker minted under one epoch predates every later change.
  pub predates-Changed :
      (u v : User) (p : Payload)
      → Changed u v
      → p.pwd ≡ credential_epoch u
      → token_predates_password_change v p ≡ true
  unfolding token_predates_password_change
  predates-Changed u v p c e = ground (arith, Changed-Before c)
