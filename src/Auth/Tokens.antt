-- ===== src/Auth/Tokens.antt =====
-- auth/jwt_auth.py: access and refresh tokens, and when they stop being valid. PyJWT is a parameter.
-- Instants are microseconds; the times inside a token are whole seconds, as PyJWT writes them.
pub mod Epoch
pub mod Check
pub mod Revocation
use mstdnca_proxmox_tool.Base.{
  ℕ, zero, suc, ◌+◌, ◌*◌, ◌/◌, ◌≤◌, ◌<◌, ◌≡◌, String, Bool, true, false, not, Option, none, some,
  List, [], ◌∷◌, ◌++◌, ◌==◌, ltb, if◌then◌else◌, str_eq, any, keep,
}
use mstdnca_proxmox_tool.Base.Text.{Text, codes, after_prefix, text_eq}
use mstdnca_proxmox_tool.Access.{Role, User}

-- What is signed. `pwd` is the password epoch at the time of issue; `jti` names a refresh token.
pub record Payload : Type 0 where
  pub sub : ℕ
  pub role : Option Text
  pub kind : Text
  pub jti : Option ℕ
  pub pwd : Option ℕ
  pub iat : ℕ
  pub exp : ℕ

pub data Decoded : Type 0 where
  payload : Payload → Decoded
  expired invalid : Decoded

-- PyJWT under the application's secret key: a token that was encoded decodes to what it carries
-- until it expires, and is reported as expired from then on.
pub record Jwt : Type 0 where
  pub encode : Payload → Text
  pub decode : ℕ → Text → Decoded
  pub decode-encode :
      (now : ℕ) (p : Payload) → p.iat ≤ now → now < p.exp → decode now (encode p) ≡ payload p
  pub decode-expired :
      (now : ℕ) (p : Payload) → p.iat ≤ now → p.exp ≤ now → decode now (encode p) ≡ expired

-- `datetime.timestamp()` cut to whole seconds.
abbrev pub seconds : ℕ → ℕ
seconds t = t / 1000000

-- `ACCESS_TOKEN_EXPIRES` and `REFRESH_TOKEN_EXPIRES`
abbrev pub access_token_expires : ℕ
access_token_expires = 900 * 1000000

abbrev pub refresh_token_expires : ℕ
refresh_token_expires = 2592000 * 1000000

epoch_of : Option ℕ → Option ℕ
epoch_of none = none
epoch_of (some floor) = some (seconds floor)

unfoldable pub credential_epoch : User → Option ℕ
unfolding epoch_of
credential_epoch u = epoch_of u.tokens_valid_after

differs : Option ℕ → ℕ → Bool
differs none epoch = true
differs (some p) epoch = not (p == epoch)

predates : Option ℕ → Option ℕ → Bool
unfolding differs
predates none pwd = false
predates (some epoch) pwd = differs pwd epoch

unfoldable pub token_predates_password_change : User → Payload → Bool
unfolding predates
token_predates_password_change u p = predates (credential_epoch u) p.pwd

-- `User.role`
role_name : Option Role → String
role_name none = "viewer"
role_name (some r) = r.name

unfoldable pub access_payload : ℕ → User → Payload
unfolding role_name
access_payload now u = record {
  sub = u.id;
  role = some (codes (role_name u.role_obj));
  kind = codes "access";
  jti = none;
  pwd = credential_epoch u;
  iat = seconds now;
  exp = seconds (now + access_token_expires);
}

-- `jti` is the UUID that is drawn for the token.
unfoldable pub refresh_payload : ℕ → ℕ → User → Payload
refresh_payload now jti u = record {
  sub = u.id;
  role = none;
  kind = codes "refresh";
  jti = some jti;
  pwd = credential_epoch u;
  iat = seconds now;
  exp = seconds (now + refresh_token_expires);
}

-- The answers of `jwt_required`: the handler runs as this user, or a 401 with its reason.
pub data Answer : Type 0 where
  authorised : User → Answer
  bad_header token_expired invalid_token not_access_token no_such_user token_revoked : Answer

-- `db.session.get(User, id)`
unfoldable pub find_user : ℕ → List User → Option User
find_user id [] = none
find_user id (u ∷ users) = if u.id == id then some u else find_user id users

check_user : Payload → Option User → Answer
check_user p none = no_such_user
check_user p (some u) =
    if not u.is_active_user
    then no_such_user
    else if token_predates_password_change u p
    then token_revoked
    else authorised u

check_decoded : List User → Decoded → Answer
unfolding check_user
check_decoded users expired = token_expired
check_decoded users invalid = invalid_token
check_decoded users (payload p) =
    if not (text_eq p.kind (codes "access"))
    then not_access_token
    else check_user p (find_user p.sub users)

module _ (jwt : Jwt) where
  unfoldable pub create_access_token : ℕ → User → Text
  create_access_token now u = jwt.encode (access_payload now u)

  unfoldable pub create_refresh_token : ℕ → ℕ → User → Text
  create_refresh_token now jti u = jwt.encode (refresh_payload now jti u)

  check_header : List User → ℕ → Option Text → Answer
  unfolding check_decoded
  check_header users now none = bad_header
  check_header users now (some token) = check_decoded users (jwt.decode (seconds now) token)

  -- `jwt_required` at the instant `now`, on the value of the `Authorization` header.
  unfoldable pub jwt_required : List User → ℕ → Text → Answer
  unfolding check_header
  jwt_required users now header = check_header users now (after_prefix (codes "Bearer ") header)

-- A row of `revoked_tokens`: the token's id and when it expires.
abbrev pub RevokedToken : Type 0
RevokedToken = ℕ × ℕ

unfoldable pub is_token_revoked : ℕ → List RevokedToken → Bool
is_token_revoked jti rows = any (λ r. r.0 == jti) rows

unfoldable pub revoke_token : ℕ → ℕ → List RevokedToken → List RevokedToken
revoke_token jti expires_at rows =
    if is_token_revoked jti rows then rows else rows ++ (jti, expires_at) ∷ []

-- core/scheduler.py: `_prune_revoked_tokens`
unfoldable pub prune_revoked_tokens : ℕ → List RevokedToken → List RevokedToken
prune_revoked_tokens now rows = keep (λ r. not (ltb r.1 now)) rows
