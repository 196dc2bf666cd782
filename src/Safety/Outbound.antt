-- ===== src/Safety/Outbound.antt =====
-- core/url_safety.py, `validate_outbound_url`. The parsers of URLs and of addresses and the resolver of
-- names are parameters.
pub mod Guard
use mstdnca_proxmox_tool.Base.{
  ℕ, ◌==◌, Bool, true, false, not, ◌&&◌, ◌||◌, Option, none, some, List, [], ◌∷◌, any, map,
  if◌then◌else◌,
}
use mstdnca_proxmox_tool.Base.Text.{Text, Unicode, codes, strip, text_eq}

-- What `urlparse` makes of a URL. `hostname` is in lower case.
pub record Parsed : Type 0 where
  pub scheme : Text
  pub username : Option Text
  pub password : Option Text
  pub hostname : Option Text
  pub port : Option ℕ

-- The properties of an `ipaddress` object.
pub record IpFlags : Type 0 where
  pub is_private : Bool
  pub is_loopback : Bool
  pub is_link_local : Bool
  pub is_multicast : Bool
  pub is_reserved : Bool
  pub is_unspecified : Bool
  pub is_global : Bool

pub record Ip : Type 0 where
  pub flags : IpFlags
  pub ipv4_mapped : Option IpFlags

pub data Resolved : Type 0 where
  addresses : List Text → Resolved
  gaierror unicode_error : Resolved

-- The parts of Python's library that the check calls. `parse` is `none` on a `ValueError` of `urlparse`
-- or of `.port`, `ip_address` on one of `ipaddress.ip_address`.
pub record Network : Type 0 where
  pub parse : Text → Option Parsed
  pub ip_address : Text → Option Ip
  pub resolve : Text → ℕ → Resolved

pub data Verdict : Type 0 where
  safe : Verdict
  url_required malformed bad_scheme has_credentials no_hostname host_not_allowed port_not_allowed
        unresolved not_public :
      Verdict

unfoldable pub blocked_flags : IpFlags → Bool
blocked_flags f =
    f.is_private
    || (f.is_loopback
        || (f.is_link_local
            || (f.is_multicast || (f.is_reserved || (f.is_unspecified || not f.is_global)))))

pub mapped : Ip → IpFlags
mapped ip = elim ip.ipv4_mapped [ none ↦ ip.flags | some f ↦ f ]

blocked_ip : Option Ip → Bool
unfolding blocked_flags mapped
blocked_ip none = true
blocked_ip (some ip) = blocked_flags (mapped ip)

-- `_ip_is_blocked`
unfoldable pub ip_is_blocked : Network → Text → Bool
unfolding blocked_ip
ip_is_blocked net address = blocked_ip (net.ip_address address)

-- A missing or empty part of a URL is false in an `if`.
pub given : Option Text → Bool
given none = false
given (some []) = false
given (some (c ∷ s)) = true

text_in : Text → List Text → Bool
text_in x xs = any (λ y. text_eq x y) xs

nat_in : ℕ → List ℕ → Bool
nat_in n ns = any (λ m. n == m) ns

-- `port or _DEFAULT_PORT_FOR_SCHEME.get(scheme)`
default_port : Text → Option ℕ
default_port scheme =
    if text_eq scheme (codes "http")
    then some 80
    else if text_eq scheme (codes "https")
    then some 443
    else none

unfoldable pub effective_port : Option ℕ → Text → Option ℕ
unfolding default_port
effective_port none scheme = default_port scheme
effective_port (some port) scheme = if port == 0 then default_port scheme else some port

pub port_allowed : Option (List ℕ) → Option ℕ → Text → Bool
unfolding effective_port nat_in
port_allowed none port scheme = true
port_allowed (some allowed) port scheme = elim (effective_port port scheme) [
  | none ↦ false
  | some p ↦ nat_in p allowed
]

pub host_allowed : Unicode → Option (List Text) → Text → Bool
unfolding text_in
host_allowed u none hostname = true
host_allowed u (some allowed) hostname = text_in (map u.to_lower hostname) allowed

pub or_zero : Option ℕ → ℕ
or_zero none = 0
or_zero (some p) = p

-- Every address must be one that may be called.
check_addresses : Network → Resolved → Verdict
unfolding ip_is_blocked
check_addresses net gaierror = unresolved
check_addresses net unicode_error = malformed
check_addresses net (addresses []) = unresolved
check_addresses net (addresses (a ∷ rest)) =
    if any (λ x. ip_is_blocked net x) (a ∷ rest) then not_public else safe

-- The keyword arguments.
pub record Policy : Type 0 where
  pub allowed_hosts : Option (List Text)
  pub allowed_schemes : List Text
  pub allowed_ports : Option (List ℕ)

-- The defaults, which `validate_webhook_url` uses.
unfoldable pub webhook_policy : Policy
webhook_policy = record {
  allowed_hosts = none;
  allowed_schemes = codes "https" ∷ codes "http" ∷ [];
  allowed_ports = some (80 ∷ 443 ∷ []);
}

module _ (u : Unicode) (net : Network) (policy : Policy) where
  check_host : Parsed → Text → Option Text → Verdict
  unfolding given host_allowed port_allowed check_addresses or_zero
  check_host p scheme none = no_hostname
  check_host p scheme (some []) = no_hostname
  check_host p scheme (some (c ∷ s)) =
      if not (host_allowed u policy.allowed_hosts (c ∷ s))
      then host_not_allowed
      else if not (port_allowed policy.allowed_ports p.port scheme)
      then port_not_allowed
      else check_addresses net (net.resolve (c ∷ s) (or_zero p.port))

  check_parsed : Parsed → Verdict
  unfolding check_host text_in given
  check_parsed p =
      if not (text_in (map u.to_lower p.scheme) policy.allowed_schemes)
      then bad_scheme
      else if given p.username || given p.password
      then has_credentials
      else check_host p (map u.to_lower p.scheme) p.hostname

  check_url : Option Parsed → Verdict
  unfolding check_parsed
  check_url none = malformed
  check_url (some p) = check_parsed p

  -- `validate_outbound_url`
  unfoldable pub validate_outbound_url : Text → Verdict
  unfolding check_url
  validate_outbound_url [] = url_required
  validate_outbound_url (c ∷ s) = check_url (net.parse (strip u (c ∷ s)))
