-- ===== src/Auth/Tokens/Check.antt =====
-- auth/jwt_auth.py `jwt_required`: which requests reach a handler, and as whom.
use mstdnca_proxmox_tool.Base.{
  ℕ, ◌+◌, ◌≤◌, ◌<◌, ◌≡◌, ◌≢◌, refl, ◌∙◌, String, true, false, some, List, [], ◌∷◌, ◌++◌, arith,
  Option-cases, inl, inr, ◌⊎◌,
}
use native.Mathlib.Decide.{dec_lt}
use mstdnca_proxmox_tool.Base.Text.{Text, codes, after_prefix, text_eq, text_eq-elim}
use mstdnca_proxmox_tool.Access.{User}
use mstdnca_proxmox_tool.Auth.Tokens.{
  Jwt, Payload, Decoded, payload, authorised, token_expired, not_access_token, token_revoked,
  find_user, check_decoded, check_header, credential_epoch, token_predates_password_change, seconds,
  access_payload, refresh_payload, create_access_token, create_refresh_token, jwt_required,
  access_token_expires, refresh_token_expires,
}
use mstdnca_proxmox_tool.Auth.Tokens.Epoch.{Changed, predates-Changed}

after_prefix_lem : (p s : Text) → after_prefix p (p ++ s) ≡ some s
unfolding after_prefix
after_prefix_lem [] s = refl
after_prefix_lem (c ∷ p) s = ground (arith, after_prefix_lem p s)

self_epoch :
    (u : User) (p : Payload)
    → p.pwd ≡ credential_epoch u
    → token_predates_password_change u p ≡ false
unfolding token_predates_password_change
self_epoch u p e = ground arith

abbrev bearer : Text → Text
bearer token = codes "Bearer " ++ token

Decoded-cases :
    (d : Decoded)
    → ((p : Payload) × (d ≡ payload p))
      ⊎ ((u : User) (users : List User) → check_decoded users d ≢ authorised u)
Decoded-cases (payload p) = inl (p, refl)
Decoded-cases Decoded.expired = inr (λ u users e. unfold check_decoded in cc e)
Decoded-cases Decoded.invalid = inr (λ u users e. unfold check_decoded in cc e)

-- What a payload that authorises `u` is like.
abbrev Authorises : List User → Payload → User → Type 0
Authorises users p u =
    (p.kind ≡ codes "access")
    × (find_user p.sub users ≡ some u)
    × (u.is_active_user ≡ true)
    × (token_predates_password_change u p ≡ false)

payload-Authorises :
    (users : List User) (p : Payload) (u : User)
    → check_decoded users (payload p) ≡ authorised u
    → Authorises users p u
unfolding check_decoded
payload-Authorises users p u h = ground (arith, text_eq-elim p.kind (codes "access"))

module _ (jwt : Jwt) (users : List User) where
  in_date :
      (now : ℕ) (p : Payload)
      → p.iat ≤ seconds now
      → seconds now < p.exp
      → jwt_required jwt users now (bearer (jwt.encode p)) ≡ check_decoded users (payload p)
  unfolding jwt_required
  in_date now p le lt =
      rw (after_prefix_lem (codes "Bearer "))
        (unfold check_header in rw (jwt.decode-encode (seconds now) p le lt))

  out_of_date :
      (now : ℕ) (p : Payload)
      → p.iat ≤ seconds now
      → p.exp ≤ seconds now
      → jwt_required jwt users now (bearer (jwt.encode p)) ≡ token_expired
  unfolding jwt_required check_decoded
  out_of_date now p le ge =
      rw (after_prefix_lem (codes "Bearer "))
        (unfold check_header in rw (jwt.decode-expired (seconds now) p le ge))

  -- While a token of an active account is in date, and the account's row is the one it was issued
  -- for, it authorises that account.
  pub access_token_accepted :
      (issued now : ℕ) (u : User)
      → find_user u.id users ≡ some u
      → u.is_active_user ≡ true
      → seconds issued ≤ seconds now
      → seconds now < seconds (issued + access_token_expires)
      → jwt_required jwt users now (bearer (create_access_token jwt issued u)) ≡ authorised u
  unfolding create_access_token
  access_token_accepted issued now u found active le lt =
      in_date now (access_payload issued u) (unfold access_payload in le)
        (unfold access_payload in lt)
      ∙ (unfold check_decoded access_payload text_eq in
          ground (arith, found, active, self_epoch u (access_payload issued u) refl))

  -- Once the password has been changed, even in the second of issue and whatever the clock said, a
  -- token that is still in date is refused as revoked, for an account that is active.
  pub access_token_revoked :
      (generate : String → String) (issued now : ℕ) (u v : User)
      → Changed generate u v
      → find_user u.id users ≡ some v
      → v.is_active_user ≡ true
      → seconds issued ≤ seconds now
      → seconds now < seconds (issued + access_token_expires)
      → jwt_required jwt users now (bearer (create_access_token jwt issued u)) ≡ token_revoked
  unfolding create_access_token
  access_token_revoked generate issued now u v c found active le lt =
      in_date now (access_payload issued u) (unfold access_payload in le)
        (unfold access_payload in lt)
      ∙ (unfold check_decoded access_payload text_eq in
          ground
            (arith, found, active, predates-Changed generate u v (access_payload issued u) c refl))

  -- A refresh token opens no handler, in date or not.
  pub refresh_token_refused :
      (issued now jti : ℕ) (u : User)
      → seconds issued ≤ seconds now
      → (jwt_required jwt users now (bearer (create_refresh_token jwt issued jti u))
          ≡ not_access_token)
        ⊎ (jwt_required jwt users now (bearer (create_refresh_token jwt issued jti u))
            ≡ token_expired)
  unfolding create_refresh_token
  refresh_token_refused issued now jti u le =
      elim (dec_lt (seconds now) (seconds (issued + refresh_token_expires))) [
        | yes lt ↦ inl (
            in_date now (refresh_payload issued jti u) (unfold refresh_payload in le)
              (unfold refresh_payload in lt)
            ∙ (unfold check_decoded refresh_payload text_eq in refl))
        | no ge ↦ inr (
            out_of_date now (refresh_payload issued jti u) (unfold refresh_payload in le)
              (unfold refresh_payload in omega arith))
      ]

  sound_token :
      (now : ℕ) (token : Text) (u : User)
      → check_decoded users (jwt.decode (seconds now) token) ≡ authorised u
      → (p : Payload) × (jwt.decode (seconds now) token ≡ payload p)
        × (p.kind ≡ codes "access")
        × (find_user p.sub users ≡ some u)
        × (u.is_active_user ≡ true)
        × (token_predates_password_change u p ≡ false)
  sound_token now token u h = elim (Decoded-cases (jwt.decode (seconds now) token)) [
    | inl (p, e) ↦ let (k, f, a, t) = payload-Authorises users p u (rw e at h) in (p, e, k, f, a, t)
    | inr never ↦ absurd (never u users h)
  ]

  -- A handler that runs has an `Authorization` header that starts with `Bearer ` and carries a
  -- token which decodes, is an access token, names the account, and is not older than the
  -- account's last password change; and the account is active.
  pub jwt_required_sound :
      (now : ℕ) (header : Text) (u : User)
      → jwt_required jwt users now header ≡ authorised u
      → (token : Text) × (p : Payload) × (after_prefix (codes "Bearer ") header ≡ some token)
        × (jwt.decode (seconds now) token ≡ payload p)
        × (p.kind ≡ codes "access")
        × (find_user p.sub users ≡ some u)
        × (u.is_active_user ≡ true)
        × (token_predates_password_change u p ≡ false)
  unfolding jwt_required
  jwt_required_sound now header u h = elim (Option-cases (after_prefix (codes "Bearer ") header)) [
    | inl e ↦ cc (rw (e, check_header) at h)
    | inr (token, e) ↦
        let (p, d, k, f, a, t) = sound_token now token u (rw (e, check_header) at h) in
        (token, p, e, d, k, f, a, t)
  ]
