-- ===== src/Auth/Bypass/Peers.antt =====
-- auth/proxy_trust.py: a client that is not a trusted proxy cannot choose its address.
use mstdnca_proxmox_tool.Base.{
  ◌≡◌, ◌⊎◌, ◌||◌, inl, inr, refl, ap, Bool-cases, Bool, true, false, Option, none, some, List, [],
  ◌∷◌, if◌then◌else◌, arith, In, any, any-elim,
}
use mstdnca_proxmox_tool.Base.Text.{Text, Unicode, strip, drop_spaces}
use mstdnca_proxmox_tool.Base.Split.{split_on}
use mstdnca_proxmox_tool.Auth.Bypass.{
  IpLib, Request, parse_networks, parse_trusted_proxy_peers, peer_is_trusted,
  trusted_peer_proxy_fix, get_client_ip, truthy, kept, in_policy, parsed_in_policy, with_network,
  text_of,
}

module _ {Addr Net : Type 0} (ip : IpLib Addr Net) (u : Unicode) where
  -- The peer is in a network of the allowlist, or the allowlist is blank and it is a loopback or
  -- private address.
  abbrev pub Listed : Text → Addr → Type 0
  Listed raw addr =
      (entry : Text) × (net : Net) × In entry (split_on 44 raw)
      × (ip.ip_network (strip u entry) ≡ some net)
      × (ip.contains_addr net addr ≡ true)

  abbrev pub TrustedPeer : Option Text → Option Text → Type 0
  TrustedPeer raw peer =
      (addr : Addr) × (ip.ip_address (text_of peer) ≡ some addr)
      × (Listed (text_of raw) (ip.unmap addr)
          ⊎ ((truthy (some (strip u (text_of raw))) ≡ false)
              × (ip.is_loopback (ip.unmap addr) || ip.is_private (ip.unmap addr) ≡ true)))

  with_network-In :
      (found : Option Net) (nets : List Net) (net : Net)
      → In net (with_network ip u found nets)
      → (found ≡ some net) ⊎ In net nets
  unfolding with_network
  with_network-In none nets net i = inr i
  with_network-In (some n) nets net (inl e) = inl (ap some e)
  with_network-In (some n) nets net (inr i) = inr i

  -- A parsed network comes from an entry of the list.
  parse_networks-In :
      (entries : List Text) (net : Net)
      → In net (parse_networks ip u entries)
      → (entry : Text) × In entry entries × (ip.ip_network (strip u entry) ≡ some net)
  unfolding parse_networks
  parse_networks-In [] net i = absurd i
  parse_networks-In (entry ∷ entries) net i = elim (Bool-cases (truthy (some (strip u entry)))) [
    | inr e ↦ let (x, j, p) = parse_networks-In entries net (rw e at i) in (x, inr j, p)
    | inl e ↦
        elim (with_network-In (ip.ip_network (strip u entry)) (parse_networks ip u entries) net
          (rw e at i)) [
            | inl p ↦ (entry, inl refl, p)
            | inr k ↦ let (x, j, p) = parse_networks-In entries net k in (x, inr j, p)
          ]
  ]

  in_policy-Listed :
      (raw : Text) (addr : Addr)
      → in_policy ip u (some (parse_networks ip u (split_on 44 raw))) addr ≡ true
      → Listed raw addr
  unfolding in_policy
  in_policy-Listed raw addr h =
      let (net, i, c) =
        any-elim (λ n. ip.contains_addr n addr) (parse_networks ip u (split_on 44 raw)) h in
      let (entry, j, p) = parse_networks-In (split_on 44 raw) net i in (entry, net, j, p, c)

  in_policy-parsed :
      (raw : Option Text) (addr : Addr)
      → in_policy ip u (parse_trusted_proxy_peers ip u raw) addr ≡ true
      → Listed (text_of raw) addr
        ⊎ ((truthy (some (strip u (text_of raw))) ≡ false)
            × (ip.is_loopback addr || ip.is_private addr ≡ true))
  unfolding parse_trusted_proxy_peers text_of
  in_policy-parsed none addr h =
      inr (unfold strip drop_spaces truthy in refl, unfold in_policy in h)
  in_policy-parsed (some raw) addr h = elim (Bool-cases (truthy (some (strip u raw)))) [
    | inl e ↦ inl (in_policy-Listed raw addr (rw e at h))
    | inr e ↦ inr (e, unfold in_policy in rw e at h)
  ]

  parsed_in_policy-TrustedPeer :
      (raw peer : Option Text) (found : Option Addr)
      → ip.ip_address (text_of peer) ≡ found
      → parsed_in_policy ip u (parse_trusted_proxy_peers ip u raw) found ≡ true
      → TrustedPeer raw peer
  unfolding parsed_in_policy
  parsed_in_policy-TrustedPeer raw peer none e k = cc k
  parsed_in_policy-TrustedPeer raw peer (some addr) e k =
      (addr, e, in_policy-parsed raw (ip.unmap addr) k)

  peer_is_trusted-TrustedPeer :
      (raw peer : Option Text)
      → peer_is_trusted ip u peer (parse_trusted_proxy_peers ip u raw) ≡ true
      → TrustedPeer raw peer
  unfolding peer_is_trusted
  peer_is_trusted-TrustedPeer raw peer h = elim (Bool-cases (truthy peer)) [
    | inr e ↦ let k = rw e at h in cc k
    | inl e ↦ parsed_in_policy-TrustedPeer raw peer (ip.ip_address (text_of peer)) refl (rw e at h)
  ]

  -- A request that no ProxyFix has handled before gets, whatever its headers say, the address of its
  -- TCP peer as the client address, unless that peer is in a network of the allowlist, or the
  -- allowlist is blank and the peer is a loopback or private address.
  pub trusted_peer_proxy_fix-get_client_ip :
      (proxy_fix : Request → Request) (raw : Option Text) (req : Request)
      → req.orig ≡ none
      → (get_client_ip ip u
            (trusted_peer_proxy_fix ip u proxy_fix (parse_trusted_proxy_peers ip u raw) req)
          ≡ kept req.remote_addr)
        ⊎ TrustedPeer raw req.remote_addr
  unfolding trusted_peer_proxy_fix get_client_ip
  trusted_peer_proxy_fix-get_client_ip proxy_fix raw req o =
      elim (Bool-cases
        (peer_is_trusted ip u req.remote_addr (parse_trusted_proxy_peers ip u raw))) [
          | inl h ↦ inr (peer_is_trusted-TrustedPeer raw req.remote_addr h)
          | inr h ↦ inl (rw (h, o) refl)
        ]

  parse_networks-invalid :
      (entries : List Text)
      → ((entry : Text) → In entry entries → ip.ip_network (strip u entry) ≡ none)
      → parse_networks ip u entries ≡ []
  unfolding parse_networks
  parse_networks-invalid [] h = refl
  parse_networks-invalid (entry ∷ entries) h =
      rw (h entry (inl refl), parse_networks-invalid entries (λ e i. h e (inr i))) (ground arith)

  trusts_none :
      (present : Bool) (addr : Option Addr)
      → (if present then parsed_in_policy ip u (some []) addr else false) ≡ false
  unfolding parsed_in_policy any
  trusts_none false addr = refl
  trusts_none true none = refl
  trusts_none true (some addr) = refl

  -- An allowlist that is set, but has no valid entry, trusts no peer.
  pub invalid_peers_trust_none :
      (raw : Text) (addr : Option Text)
      → truthy (some (strip u raw)) ≡ true
      → ((entry : Text) → In entry (split_on 44 raw) → ip.ip_network (strip u entry) ≡ none)
      → peer_is_trusted ip u addr (parse_trusted_proxy_peers ip u (some raw)) ≡ false
  unfolding parse_trusted_proxy_peers peer_is_trusted
  invalid_peers_trust_none raw addr t h =
      rw (t, parse_networks-invalid (split_on 44 raw) h)
        (trusts_none (truthy addr) (ip.ip_address (text_of addr)))
