-- ===== src/Auth/Bypass.antt =====
-- auth/local_network.py and auth/proxy_trust.py: whose forwarded headers count, and the login that
-- a client on a trusted subnet gets without credentials. Python's `ipaddress` and Werkzeug's
-- `ProxyFix` are parameters.
pub mod Peers
pub mod Hook
use mstdnca_proxmox_tool.Base.{
  ℕ, ◌≡◌, Bool, true, false, not, ◌&&◌, ◌||◌, Option, none, some, List, [], ◌∷◌, any, if◌then◌else◌,
  str_eq, String,
}
use mstdnca_proxmox_tool.Base.Text.{Text, Unicode, codes, strip, text_eq}
use mstdnca_proxmox_tool.Base.Split.{split_on}
use mstdnca_proxmox_tool.Access.{User, Role}
use mstdnca_proxmox_tool.Auth.Sessions.{
  Cookie, UserSession, empty_cookie, untracked_path, start_session, revoke_current_session,
}

-- What the program calls of `ipaddress`; `none` is a `ValueError`.
pub record IpLib (Addr Net : Type 0) : Type 0 where
  pub ip_address : Text → Option Addr
  -- `ip_network(entry, strict=False)`
  pub ip_network : Text → Option Net
  -- `addr in net`
  pub contains_addr : Net → Addr → Bool
  -- The embedded address of an IPv4-mapped IPv6 address, any other address itself.
  pub unmap : Addr → Addr
  pub is_loopback : Addr → Bool
  pub is_private : Addr → Bool

-- A request as the WSGI environment has it. `orig` is `werkzeug.proxy_fix.orig`, present when
-- ProxyFix ran, with the address of the TCP peer; `forwarded` is `X-Forwarded-For`.
pub record Request : Type 0 where
  pub path : Text
  pub remote_addr : Option Text
  pub orig : Option (Option Text)
  pub forwarded : Option Text
  pub cf_connecting_ip : Option Text
  pub cf_access_jwt_assertion : Option Text
  pub cf_ray : Option Text
  pub cf_authorization : Option Text

pub record Settings : Type 0 where
  pub local_bypass_enabled : Option String
  pub trusted_subnets : Option Text

-- Python's truth value of an optional text.
unfoldable pub truthy : Option Text → Bool
truthy none = false
truthy (some []) = false
truthy (some (c ∷ s)) = true

unfoldable pub text_of : Option Text → Text
text_of none = []
text_of (some s) = s

unfoldable pub kept : Option Text → Option Text
unfolding truthy
kept s = if truthy s then s else none

-- `_came_through_cloudflare`
unfoldable pub came_through_cloudflare : Request → Bool
unfolding truthy
came_through_cloudflare req =
    truthy req.cf_access_jwt_assertion
    || (truthy req.cf_connecting_ip || (truthy req.cf_ray || truthy req.cf_authorization))

or_false : Option String → String
or_false none = "false"
or_false (some value) = value

-- `_bypass_enabled`
unfoldable pub bypass_enabled : Settings → Bool
unfolding or_false
bypass_enabled settings = not (str_eq (or_false settings.local_bypass_enabled) "false")

module _ {Addr Net : Type 0} (ip : IpLib Addr Net) (u : Unicode) where
  with_network : Option Net → List Net → List Net
  with_network none nets = nets
  with_network (some net) nets = net ∷ nets

  -- The loop over the comma-separated entries, that skips empty and invalid ones.
  unfoldable pub parse_networks : List Text → List Net
  unfolding with_network
  parse_networks [] = []
  parse_networks (entry ∷ entries) =
      let rest = parse_networks entries in
      if truthy (some (strip u entry))
      then with_network (ip.ip_network (strip u entry)) rest
      else rest

  parse_some : Text → Option (List Net)
  unfolding parse_networks truthy
  parse_some raw =
      if truthy (some (strip u raw)) then some (parse_networks (split_on 44 raw)) else none

  -- `parse_trusted_proxy_peers` on an environment value.
  unfoldable pub parse_trusted_proxy_peers : Option Text → Option (List Net)
  unfolding parse_some
  parse_trusted_proxy_peers none = none
  parse_trusted_proxy_peers (some raw) = parse_some raw

  in_policy : Option (List Net) → Addr → Bool
  in_policy none addr = ip.is_loopback addr || ip.is_private addr
  in_policy (some nets) addr = any (λ net. ip.contains_addr net addr) nets

  parsed_in_policy : Option (List Net) → Option Addr → Bool
  unfolding in_policy
  parsed_in_policy peers none = false
  parsed_in_policy peers (some addr) = in_policy peers (ip.unmap addr)

  unfoldable pub peer_is_trusted : Option Text → Option (List Net) → Bool
  unfolding parsed_in_policy truthy text_of
  peer_is_trusted addr peers =
      if truthy addr then parsed_in_policy peers (ip.ip_address (text_of addr)) else false

  -- `TrustedPeerProxyFix.__call__`: the request that the application sees.
  unfoldable pub trusted_peer_proxy_fix :
      (Request → Request) → Option (List Net) → Request → Request
  unfolding peer_is_trusted
  trusted_peer_proxy_fix proxy_fix peers req =
      if not (peer_is_trusted req.remote_addr peers) then req else proxy_fix req

  local_addr : Option Addr → Bool
  local_addr none = false
  local_addr (some addr) = ip.is_loopback addr || ip.is_private addr

  -- `_is_proxy_peer`
  unfoldable pub is_proxy_peer : Option Text → Bool
  unfolding local_addr truthy text_of
  is_proxy_peer addr = if truthy addr then local_addr (ip.ip_address (text_of addr)) else false

  parses : Option Addr → Bool
  parses none = false
  parses (some addr) = true

  through_proxy : Option (Option Text) → Bool
  unfolding is_proxy_peer
  through_proxy none = false
  through_proxy (some peer) = is_proxy_peer peer

  -- `_get_client_ip`
  unfoldable pub get_client_ip : Request → Option Text
  unfolding through_proxy parses truthy text_of kept
  get_client_ip req =
      let cf_ip = strip u (text_of req.cf_connecting_ip) in
      if through_proxy req.orig && (truthy (some cf_ip) && parses (ip.ip_address cf_ip))
      then some cf_ip
      else kept req.remote_addr

  addr_in : Option Addr → List Net → Bool
  addr_in none nets = false
  addr_in (some addr) nets = any (λ net. ip.contains_addr net addr) nets

  -- `_is_trusted`
  unfoldable pub is_trusted : Option Text → List Net → Bool
  unfolding addr_in
  is_trusted none nets = false
  is_trusted (some client_ip) nets = addr_in (ip.ip_address client_ip) nets

  -- `_get_trusted_networks`
  unfoldable pub get_trusted_networks : Settings → List Net
  unfolding parse_networks text_of
  get_trusted_networks settings = parse_networks (split_on 44 (text_of settings.trusted_subnets))

  -- `_bypass_session_still_valid`
  unfoldable pub bypass_session_still_valid : Settings → Request → Bool
  unfolding bypass_enabled came_through_cloudflare is_trusted get_client_ip get_trusted_networks
  bypass_session_still_valid settings req =
      if not (bypass_enabled settings)
      then false
      else if came_through_cloudflare req
      then false
      else is_trusted (get_client_ip req) (get_trusted_networks settings)

unfoldable pub has_admin_role : Option Role → Bool
has_admin_role none = false
has_admin_role (some role) = str_eq role.name "super_admin" || str_eq role.name "admin"

unfoldable pub is_local_admin : User → Bool
unfolding has_admin_role
is_local_admin user = str_eq user.username "admin" && has_admin_role user.role_obj

-- The first row named `admin` with an administrator's role.
unfoldable pub find_admin : List User → Option User
unfolding is_local_admin
find_admin [] = none
find_admin (user ∷ users) = if is_local_admin user then some user else find_admin users
