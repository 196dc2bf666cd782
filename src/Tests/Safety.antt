-- ===== src/Tests/Safety.antt =====
-- apps/utils.py, core/url_safety.py, core/local_redirect.py and core/push_notifier.py at concrete values.
use mstdnca_proxmox_tool.Base.{
  ◌≡◌, ◌≢◌, ◌↔◌, refl, inl, inr, true, false, Option, none, some, [], ◌∷◌, map, any, In, arith,
}
use mstdnca_proxmox_tool.Base.Text.{Text, codes, strip, text_eq, after_prefix}
use mstdnca_proxmox_tool.Base.Split.{split_on}
use mstdnca_proxmox_tool.Tests.Data.{ascii, operator, tagged}
use mstdnca_proxmox_tool.Apps.Version.{version_gt}
use mstdnca_proxmox_tool.Apps.Version.Above.{IsAbove}
use mstdnca_proxmox_tool.Apps.Version.Printed.{Printed, print, meaning, IsProper, version_gt-print}
use mstdnca_proxmox_tool.Apps.Validate.{ascii_word, validate_abs_path}
use mstdnca_proxmox_tool.Apps.Validate.Safe.{Plain, validate_abs_path_safe}
use mstdnca_proxmox_tool.Safety.Outbound.{
  Parsed, IpFlags, addresses, Network, webhook_policy, validate_outbound_url, given, host_allowed,
  port_allowed,
}
use mstdnca_proxmox_tool.Safety.Outbound.Guard.{Public, validate_outbound_url_safe}
use mstdnca_proxmox_tool.Safety.Redirect.{
  Parts, Match, endpoint, canonical, Site, foreign, take_query, match_route, resolve_local_url,
}
use mstdnca_proxmox_tool.Safety.Redirect.Local.{AllAllowed, Built, resolve_local_url_local}
use mstdnca_proxmox_tool.Notify.Push.{PushWebhook, is_event, valid_events, dispatch_push_alerts}
use mstdnca_proxmox_tool.Notify.Push.Delivery.{Delivered, dispatch_push_alerts_sound}

-- `v4.6.10+glitch` and `v4.6.10-rc.1`.
abbrev release : Printed
release = record {
  major = (4, []);
  minor = (6, []);
  patch = (1, 0 ∷ []);
  pre = none;
  build = some (codes "glitch");
}

abbrev candidate_of_release : Printed
candidate_of_release = record release { pre = some (codes "rc.1"); build = none }

print-release : print release ≡ codes "v4.6.10+glitch"
print-release = refl

release-IsProper : IsProper release
release-IsProper = ((omega arith, tt), (omega arith, tt), (omega arith, (omega arith, tt)), tt)

candidate_of_release-IsProper : IsProper candidate_of_release
candidate_of_release-IsProper = (
  (omega arith, tt),
  (omega arith, tt),
  (omega arith, (omega arith, tt)),
  (
    (omega arith, omega arith),
    ((omega arith, omega arith), ((omega arith, omega arith), ((omega arith, omega arith), tt))),
  ),
)

version_gt-print_example :
    (version_gt ascii (print release) (print candidate_of_release) ≡ true)
    ↔ IsAbove (meaning release) (meaning candidate_of_release)
unfolding ascii
version_gt-print_example =
    version_gt-print ascii release candidate_of_release refl refl release-IsProper
      candidate_of_release-IsProper

validate_abs_path_safe_example :
    ((rest : Text) × (codes "/opt/peertube" ≡ 47 ∷ rest) × (rest ≢ []))
    × ¬ In (codes "..") (split_on 47 (codes "/opt/peertube"))
    × Plain 111
unfolding validate_abs_path ascii_word split_on text_eq any
validate_abs_path_safe_example =
    validate_abs_path_safe ascii_word (λ c l. refl) (codes "/opt/peertube") 111 refl
      (inr (inl refl)) (omega arith)

-- A host of the documentation's, at a public address.
abbrev parsed : Parsed
parsed = record {
  scheme = codes "https";
  username = none;
  password = none;
  hostname = some (codes "hooks.example");
  port = none;
}

abbrev public_flags : IpFlags
public_flags = record {
  is_private = false;
  is_loopback = false;
  is_link_local = false;
  is_multicast = false;
  is_reserved = false;
  is_unspecified = false;
  is_global = true;
}

abbrev net : Network
net = record {
  parse = λ url. some parsed;
  ip_address = λ a. some (record { flags = public_flags; ipv4_mapped = none });
  resolve = λ host port. addresses (codes "1.1.1.1" ∷ []);
}

abbrev hook_url : Text
hook_url = codes "https://hooks.example/a"

validate_outbound_url_safe_example :
    In (map ascii.to_lower parsed.scheme) webhook_policy.allowed_schemes
    × (given parsed.username ≡ false)
    × (given parsed.password ≡ false)
    × (host_allowed ascii webhook_policy.allowed_hosts (codes "hooks.example") ≡ true)
    × (port_allowed webhook_policy.allowed_ports parsed.port (map ascii.to_lower parsed.scheme)
        ≡ true)
    × Public net (codes "1.1.1.1")
unfolding validate_outbound_url webhook_policy ascii text_eq any strip
validate_outbound_url_safe_example =
    validate_outbound_url_safe ascii net webhook_policy hook_url (codes "hooks.example") parsed
      (codes "1.1.1.1" ∷ []) (codes "1.1.1.1") refl refl refl refl (inl refl)

abbrev split_target : Text → Option Parts
split_target target =
    some (record { scheme = []; netloc = []; path = codes "/guests"; query = codes "tab=services" })

-- The route wants a final slash.
abbrev routes : Text → Match
routes path = elim (text_eq path (codes "/guests/")) [
  | true ↦ endpoint (codes "guests.index") []
  | false ↦ canonical (codes "http://mcat.example/guests/")
]

abbrev site : Site
site = record {
  split = split_target;
  unquote = λ s. s;
  new_path = λ url. codes "/guests/";
  match_path = routes;
  parse_query = λ q.
      record { key = codes "tab"; value = codes "services" }
      ∷ record { key = codes "_external"; value = codes "1" }
      ∷ [];
  build = λ name args. elim args [
    | [] ↦ some (codes "/guests/")
    | a ∷ more ↦ some (codes "/guests/?tab=services")
  ];
  host = codes "mcat.example";
  script_root = [];
}

abbrev here : Parts
here = record { scheme = []; netloc = []; path = codes "/guests"; query = codes "tab=services" }

resolve_local_url_local_example :
    (foreign ascii site here ≡ false)
    × (b : Built site here (codes "/guests/?tab=services")) × AllAllowed b.route.values
        (take_query b.route.values [] (site.parse_query here.query))
unfolding resolve_local_url ascii text_eq any strip match_route after_prefix
resolve_local_url_local_example =
    resolve_local_url_local ascii site (codes "/guests?tab=services&_external=1")
      (codes "/guests/?tab=services") here refl refl

abbrev webhook : PushWebhook
webhook = record {
  id = 1;
  url = hook_url;
  events = some (codes "service_down" ∷ []);
  user = some operator;
}

dispatch_push_alerts_sound_example :
    In webhook (webhook ∷ [])
    × (is_event (codes "service_failed") valid_events ≡ true)
    × Delivered ascii net tagged (codes "service_failed") webhook
unfolding dispatch_push_alerts validate_outbound_url webhook_policy ascii text_eq any strip
dispatch_push_alerts_sound_example =
    dispatch_push_alerts_sound ascii net tagged (codes "service_failed") (webhook ∷ []) webhook
      (inl refl)
