-- ===== src/Tests/Jwt.antt =====
-- A token format with the laws that the development asks of PyJWT, without the signature.
use mstdnca_proxmox_tool.Base.{
  ℕ, zero, suc, ◌≤◌, ◌<◌, ◌≡◌, refl, ap, true, false, Option, none, some, [], ◌∷◌, ltb,
  if◌then◌else◌, arith,
}
use mstdnca_proxmox_tool.Base.Text.{Text}
use mstdnca_proxmox_tool.Auth.Tokens.{Jwt, Payload, Decoded, payload}

number : Option ℕ → ℕ
number none = 0
number (some n) = suc n

optional : ℕ → Option ℕ
optional zero = none
optional (suc n) = some n

optional-number : (o : Option ℕ) → optional (number o) ≡ o
unfolding optional number
optional-number none = refl
optional-number (some n) = refl

-- A text that ends itself: each character moved up by one, then a zero.
write : Text → Text → Text
write [] rest = 0 ∷ rest
write (c ∷ s) rest = suc c ∷ write s rest

first : Text → Text
first [] = []
first (zero ∷ s) = []
first (suc c ∷ s) = c ∷ first s

after_first : Text → Text
after_first [] = []
after_first (zero ∷ s) = s
after_first (suc c ∷ s) = after_first s

first-write : (s rest : Text) → first (write s rest) ≡ s
unfolding first write
first-write [] rest = refl
first-write (c ∷ s) rest = ap (λ t. c ∷ t) (first-write s rest)

after_first-write : (s rest : Text) → after_first (write s rest) ≡ rest
unfolding after_first write
after_first-write [] rest = refl
after_first-write (c ∷ s) rest = after_first-write s rest

write_role : Option Text → Text
unfolding write
write_role none = 0 ∷ []
write_role (some role) = 1 ∷ write role []

read_role : Text → Option Text
unfolding first
read_role [] = none
read_role (zero ∷ s) = none
read_role (suc c ∷ s) = some (first s)

read_role-write_role : (role : Option Text) → read_role (write_role role) ≡ role
unfolding read_role write_role
read_role-write_role none = refl
read_role-write_role (some role) = ap some (first-write role [])

test_encode : Payload → Text
unfolding number write write_role
test_encode p =
    p.sub ∷ p.iat ∷ p.exp ∷ number p.jti ∷ number p.pwd ∷ write p.kind (write_role p.role)

test_decode : ℕ → Text → Decoded
unfolding optional first after_first read_role
test_decode now (sub ∷ iat ∷ exp ∷ jti ∷ pwd ∷ rest) =
    if ltb now exp
    then payload (record {
      sub = sub;
      role = read_role (after_first rest);
      kind = first rest;
      jti = optional jti;
      pwd = optional pwd;
      iat = iat;
      exp = exp;
    })
    else Decoded.expired
test_decode now text = Decoded.invalid

decode-encode_lem :
    (now : ℕ) (p : Payload)
    → p.iat ≤ now
    → now < p.exp
    → test_decode now (test_encode p) ≡ payload p
unfolding test_decode test_encode
decode-encode_lem now p l h =
    let e : ltb now p.exp ≡ true = ground arith in
    rw
      (
        e,
        optional-number p.jti,
        optional-number p.pwd,
        first-write p.kind (write_role p.role),
        after_first-write p.kind (write_role p.role),
        read_role-write_role p.role,
      )
      refl

decode-expired_lem :
    (now : ℕ) (p : Payload)
    → p.iat ≤ now
    → p.exp ≤ now
    → test_decode now (test_encode p) ≡ Decoded.expired
unfolding test_decode test_encode
decode-expired_lem now p l h = let e : ltb now p.exp ≡ false = ground arith in rw e refl

unfoldable pub test_jwt : Jwt
unfolding test_encode test_decode decode-encode_lem decode-expired_lem optional-number first-write
    after_first-write read_role-write_role
test_jwt = record {
  encode = test_encode;
  decode = test_decode;
  decode-encode = decode-encode_lem;
  decode-expired = decode-expired_lem;
}
