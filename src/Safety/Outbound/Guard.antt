-- ===== src/Safety/Outbound/Guard.antt =====
-- core/url_safety.py, `validate_outbound_url`: what holds of a URL that it lets through.
use mstdnca_proxmox_tool.Base.{
  ◌≡◌, ◌≢◌, refl, ap, sym, ◌∙◌, Bool, true, false, ◌||◌, Option, none, some, List, [], ◌∷◌, any,
  any-elim, In, map, Bool-cases, Option-cases, any-false-In, inl, inr, arith,
}
use mstdnca_proxmox_tool.Base.Text.{Text, Unicode, strip, text_eq, text_eq-elim}
use mstdnca_proxmox_tool.Safety.Outbound.{
  Parsed, Ip, IpFlags, blocked_flags, mapped, Resolved, addresses, gaierror, unicode_error, Network,
  safe, bad_scheme, has_credentials, host_not_allowed, port_not_allowed, not_public, ip_is_blocked,
  given, text_in, port_allowed, host_allowed, or_zero, check_addresses, Policy, check_host,
  check_parsed, check_url, validate_outbound_url,
}

check_addresses-safe :
    (net : Network) (r : Resolved)
    → check_addresses net r ≡ safe
    → (xs : List Text) × (r ≡ addresses xs)
      × (xs ≢ [])
      × (any (λ x. ip_is_blocked net x) xs ≡ false)
unfolding check_addresses
check_addresses-safe net gaierror h = cc h
check_addresses-safe net unicode_error h = cc h
check_addresses-safe net (addresses []) h = cc h
check_addresses-safe net (addresses (a ∷ rest)) h =
    elim (Bool-cases (any (λ x. ip_is_blocked net x) (a ∷ rest))) [
      | inl e ↦ let k : not_public ≡ safe = rw e at h in cc k
      | inr e ↦ (a ∷ rest, refl, (λ q. cc q), e)
    ]

check_host-safe :
    (u : Unicode) (net : Network) (policy : Policy) (p : Parsed) (scheme : Text)
    (hostname : Option Text)
    → check_host u net policy p scheme hostname ≡ safe
    → (host : Text) × (hostname ≡ some host)
      × (host ≢ [])
      × (host_allowed u policy.allowed_hosts host ≡ true)
      × (port_allowed policy.allowed_ports p.port scheme ≡ true)
      × (check_addresses net (net.resolve host (or_zero p.port)) ≡ safe)
unfolding check_host
check_host-safe u net policy p scheme none h = cc h
check_host-safe u net policy p scheme (some []) h = cc h
check_host-safe u net policy p scheme (some (c ∷ s)) h =
    elim (Bool-cases (host_allowed u policy.allowed_hosts (c ∷ s))) [
      | inr a ↦ let k : host_not_allowed ≡ safe = rw a at h in cc k
      | inl a ↦ elim (Bool-cases (port_allowed policy.allowed_ports p.port scheme)) [
        | inr b ↦ let k : port_not_allowed ≡ safe = rw (a, b) at h in cc k
        | inl b ↦ (c ∷ s, refl, (λ q. cc q), a, b, rw (a, b) at h)
      ]
    ]

or_split : (a b : Bool) → a || b ≡ false → (a ≡ false) × (b ≡ false)
or_split true b h = cc h
or_split false b h = (refl, h)

check_parsed-safe :
    (u : Unicode) (net : Network) (policy : Policy) (p : Parsed)
    → check_parsed u net policy p ≡ safe
    → (text_in (map u.to_lower p.scheme) policy.allowed_schemes ≡ true)
      × (given p.username ≡ false)
      × (given p.password ≡ false)
      × (check_host u net policy p (map u.to_lower p.scheme) p.hostname ≡ safe)
unfolding check_parsed
check_parsed-safe u net policy p h =
    elim (Bool-cases (text_in (map u.to_lower p.scheme) policy.allowed_schemes)) [
      | inr a ↦ let k : bad_scheme ≡ safe = rw a at h in cc k
      | inl a ↦ elim (Bool-cases (given p.username || given p.password)) [
        | inl b ↦ let k : has_credentials ≡ safe = rw (a, b) at h in cc k
        | inr b ↦
            let (x, y) = or_split (given p.username) (given p.password) b in
            (a, x, y, rw (a, b) at h)
      ]
    ]

text_in-In : (x : Text) (xs : List Text) → text_in x xs ≡ true → In x xs
unfolding text_in
text_in-In x xs h =
    let (y, i, e) = any-elim (λ z. text_eq x z) xs h in rw (← text_eq-elim x y e) at i

-- None of the properties that an address must not have, and the one that it must.
abbrev pub PublicFlags : IpFlags → Type 0
PublicFlags f =
    (f.is_private ≡ false)
    × (f.is_loopback ≡ false)
    × (f.is_link_local ≡ false)
    × (f.is_multicast ≡ false)
    × (f.is_reserved ≡ false)
    × (f.is_unspecified ≡ false)
    × (f.is_global ≡ true)

-- The address can be read, and it, or the IPv4 address that it stands for, is a public one.
abbrev pub Public : Network → Text → Type 0
Public net a = (ip : Ip) × (net.ip_address a ≡ some ip) × PublicFlags (mapped ip)

blocked_flags-false : (f : IpFlags) → blocked_flags f ≡ false → PublicFlags f
unfolding blocked_flags
blocked_flags-false f h =
    let (a, r) = or_split f.is_private _ h in
    let (b, r) = or_split f.is_loopback _ r in
    let (c, r) = or_split f.is_link_local _ r in
    let (d, r) = or_split f.is_multicast _ r in
    let (e, r) = or_split f.is_reserved _ r in
    let (g, r) = or_split f.is_unspecified _ r in (a, b, c, d, e, g, ground arith)

ip_is_blocked-false : (net : Network) (a : Text) → ip_is_blocked net a ≡ false → Public net a
unfolding ip_is_blocked
ip_is_blocked-false net a h = elim (Option-cases (net.ip_address a)) [
  | inl e ↦ let k : true ≡ false = rw e at h in cc k
  | inr (ip, e) ↦ (ip, e, blocked_flags-false (mapped ip) (rw e at h))
]

-- For a URL that `validate_outbound_url` lets through, with what the parser makes of it: the
-- scheme is an allowed one, there are no credentials, the host and the port are ones that the
-- policy allows, where a port 0 counts as the default one, and each address that the host resolves
-- to can be read and is a public one, an IPv6 address that maps an IPv4 one by the latter.
pub validate_outbound_url_safe :
    (u : Unicode) (net : Network) (policy : Policy) (url host : Text) (p : Parsed) (xs : List Text)
    (a : Text)
    → validate_outbound_url u net policy url ≡ safe
    → net.parse (strip u url) ≡ some p
    → p.hostname ≡ some host
    → net.resolve host (or_zero p.port) ≡ addresses xs
    → In a xs
    → In (map u.to_lower p.scheme) policy.allowed_schemes
      × (given p.username ≡ false)
      × (given p.password ≡ false)
      × (host_allowed u policy.allowed_hosts host ≡ true)
      × (port_allowed policy.allowed_ports p.port (map u.to_lower p.scheme) ≡ true)
      × Public net a
unfolding validate_outbound_url check_url
validate_outbound_url_safe u net policy [] host p xs a h q n r i = cc h
validate_outbound_url_safe u net policy (c ∷ s) host p xs a h q n r i =
    let parsed : check_parsed u net policy p ≡ safe = rw q at h in
    let (scheme, user, password, rest) = check_parsed-safe u net policy p parsed in
    let (name, e, ne, allowed, port, found) =
      check_host-safe u net policy p (map u.to_lower p.scheme) p.hostname rest in
    let same : name ≡ host = (let k = sym e ∙ n in cc k) in
    let (ys, f, some_, unblocked) =
      check_addresses-safe net (net.resolve name (or_zero p.port)) found in
    let k : addresses ys ≡ addresses xs =
      sym f ∙ (ap (λ x. net.resolve x (or_zero p.port)) same ∙ r) in
    let same_list : ys ≡ xs = cc k in
    (
      text_in-In (map u.to_lower p.scheme) policy.allowed_schemes scheme,
      user,
      password,
      rw same at allowed,
      port,
      ip_is_blocked-false net a
          (any-false-In (λ x. ip_is_blocked net x) xs a (rw same_list at unblocked) i),
    )
