-- ===== src/Tests/Bypass.antt =====
-- auth/local_network.py and auth/proxy_trust.py at concrete requests. An address is a number.
use mstdnca_proxmox_tool.Base.{
  ℕ, ◌+◌, ◌≡◌, ◌⊎◌, refl, false, Option, none, some, [], ◌∷◌, ◌==◌, any,
}
use mstdnca_proxmox_tool.Base.Text.{Text, codes, after_prefix, strip, drop_spaces}
use mstdnca_proxmox_tool.Base.Split.{split_on}
use mstdnca_proxmox_tool.Auth.Sessions.{empty_cookie, untracked_path, start_session, starts_with}
use mstdnca_proxmox_tool.Auth.Bypass.{
  IpLib, Request, Settings, truthy, kept, parse_networks, parse_trusted_proxy_peers,
  trusted_peer_proxy_fix, get_client_ip, is_trusted, get_trusted_networks, came_through_cloudflare,
  bypass_enabled, find_admin, is_local_admin, has_admin_role,
}
use mstdnca_proxmox_tool.Auth.Bypass.Peers.{TrustedPeer, trusted_peer_proxy_fix-get_client_ip}
use mstdnca_proxmox_tool.Auth.Bypass.Hook.{
  State, Conditions, local_network_bypass, local_network_bypass-Valid,
}
use mstdnca_proxmox_tool.Tests.Data.{ascii, admin}

one_number : Text → Option ℕ
one_number [] = none
one_number (c ∷ s) = some c

no_number : Text → Option ℕ
no_number s = none

-- An address is its first character; a network holds one address; "l" is private.
abbrev test_ip : (Text → Option ℕ) → IpLib ℕ ℕ
test_ip networks = record {
  ip_address = one_number;
  ip_network = networks;
  contains_addr = λ net addr. net == addr;
  unmap = λ addr. addr;
  is_loopback = λ addr. false;
  is_private = λ addr. addr == 108;
}

abbrev request_from : Text → Request
request_from addr = record {
  path = codes "/guests";
  remote_addr = some addr;
  orig = none;
  forwarded = some (codes "l");
  cf_connecting_ip = none;
  cf_access_jwt_assertion = none;
  cf_ray = none;
  cf_authorization = none;
}

abbrev forge : Request → Request
forge req = record req { remote_addr = req.forwarded; orig = some req.remote_addr }

-- The allowlist has the network of "y" only; the forged header of a peer "x" names "l".
trusted_peer_proxy_fix-get_client_ip_example :
    (get_client_ip (test_ip one_number) ascii (
        trusted_peer_proxy_fix
          (test_ip one_number)
          ascii
          forge
          (parse_trusted_proxy_peers (test_ip one_number) ascii (some (codes "y")))
          (request_from (codes "x")))
      ≡ kept (some (codes "x")))
    ⊎ TrustedPeer (test_ip one_number) ascii (some (codes "y")) (some (codes "x"))
trusted_peer_proxy_fix-get_client_ip_example =
    trusted_peer_proxy_fix-get_client_ip (test_ip one_number) ascii forge (some (codes "y"))
      (request_from (codes "x")) refl

abbrev hash : ℕ → ℕ
hash raw = raw + 1000

abbrev test_settings : Settings
test_settings = record { local_bypass_enabled = some "true"; trusted_subnets = some (codes "l") }

abbrev fresh : State
fresh = record { cookie = empty_cookie; rows = []; flagged = false }

abbrev after_hook : State
after_hook =
    local_network_bypass (test_ip one_number) ascii hash 10 42 (admin ∷ []) test_settings
      (request_from (codes "l")) fresh

local_network_bypass-Valid_example :
    Conditions (test_ip one_number) ascii hash test_settings (request_from (codes "l"))
unfolding local_network_bypass untracked_path after_prefix starts_with bypass_enabled
    came_through_cloudflare is_trusted get_client_ip get_trusted_networks find_admin start_session
    one_number split_on strip drop_spaces ascii truthy is_local_admin has_admin_role parse_networks
    kept any
local_network_bypass-Valid_example =
    local_network_bypass-Valid (test_ip one_number) ascii hash 10 42 1 (admin ∷ []) test_settings
      (request_from (codes "l")) fresh refl refl refl
