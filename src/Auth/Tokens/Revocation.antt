-- ===== src/Auth/Tokens/Revocation.antt =====
-- auth/jwt_auth.py `revoke_token` and core/scheduler.py `_prune_revoked_tokens`: the revocation
-- table under any sequence of revocations and prunings.
use mstdnca_proxmox_tool.Base.{
  ℕ, ◌≤◌, ◌≡◌, refl, true, false, not, List, [], ◌∷◌, ◌++◌, ◌==◌, ltb, arith, inl, inr, ==_iff, In,
  In-append_left, any-intro, In-keep-intro, Bool-cases, In-append_right,
}
use mstdnca_proxmox_tool.Auth.Tokens.{
  RevokedToken, is_token_revoked, revoke_token, prune_revoked_tokens,
}

pub data Event : Type 0 where
  revoke : ℕ → ℕ → Event
  prune : ℕ → Event

apply : List RevokedToken → Event → List RevokedToken
apply rows (revoke jti expires_at) = revoke_token jti expires_at rows
apply rows (prune now) = prune_revoked_tokens now rows

unfoldable pub run : List RevokedToken → List Event → List RevokedToken
unfolding apply
run rows [] = rows
run rows (e ∷ es) = run (apply rows e) es

-- Every pruning among the events happens while the token is not past its expiry.
abbrev pub PrunedBy : ℕ → List Event → Type 0
PrunedBy expires_at [] = Unit
PrunedBy expires_at (revoke jti other ∷ es) = PrunedBy expires_at es
PrunedBy expires_at (prune now ∷ es) = (now ≤ expires_at) × PrunedBy expires_at es

module _ (jti expires_at : ℕ) where
  apply-In :
      (rows : List RevokedToken) (e : Event)
      → PrunedBy expires_at (e ∷ [])
      → In (jti, expires_at) rows
      → In (jti, expires_at) (apply rows e)
  apply-In rows (revoke j x) h i =
      unfold apply revoke_token in
      elim (Bool-cases (is_token_revoked j rows)) [
        | inl e ↦ rw e i
        | inr e ↦ rw e (In-append_left (jti, expires_at) rows ((j, x) ∷ []) i)
      ]
  apply-In rows (prune now) h i =
      unfold apply prune_revoked_tokens in
      In-keep-intro (λ (r : RevokedToken). not (ltb r.1 now)) (jti, expires_at) rows i
        (ground arith)

  run-In :
      (rows : List RevokedToken) (es : List Event)
      → PrunedBy expires_at es
      → In (jti, expires_at) rows
      → In (jti, expires_at) (run rows es)
  unfolding run
  run-In rows [] h i = i
  run-In rows (revoke j x ∷ es) h i =
      run-In (apply rows (revoke j x)) es h (apply-In rows (revoke j x) tt i)
  run-In rows (prune now ∷ es) h i =
      run-In (apply rows (prune now)) es h.1 (apply-In rows (prune now) (h.0, tt) i)

  In-is_token_revoked :
      (rows : List RevokedToken) → In (jti, expires_at) rows → is_token_revoked jti rows ≡ true
  unfolding is_token_revoked
  In-is_token_revoked rows i =
      any-intro (λ (r : RevokedToken). r.0 == jti) (jti, expires_at) rows i
        ((==_iff jti jti).1 refl)

  -- A refresh token that has been revoked once stays revoked, through any further revocations and
  -- any prunings that happen no later than its expiry.
  pub stays_revoked :
      (rows : List RevokedToken) (es : List Event)
      → is_token_revoked jti rows ≡ false
      → PrunedBy expires_at es
      → is_token_revoked jti (run (revoke_token jti expires_at rows) es) ≡ true
  unfolding revoke_token
  stays_revoked rows es new h = rw new (
      In-is_token_revoked _ (
        run-In (rows ++ (jti, expires_at) ∷ []) es h
          (In-append_right (jti, expires_at) rows _ (inl refl))))
