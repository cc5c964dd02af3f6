-- ===== src/Examples/Tunnels.antt =====
-- Tunnels, and the login throttle.
use rc_tunnel.Base.{
  ℕ, zero, suc, ◌≡◌, ◌↔◌, refl, true, false, none, some, List, [], ◌∷◌, ◌++◌, codes, Text, Lacks,
  arith, ok, length,
}
use rc_tunnel.Settings.{Settings, default_settings}
use rc_tunnel.Models.{Tunnel, tcp, http}
use rc_tunnel.Schemas.{unset, given, TunnelCreate, TunnelUpdate}
use rc_tunnel.Tunnels.Labels.{check_subdomain_labels}
use rc_tunnel.Tunnels.Labels.Alphabet.{Spelled, check_subdomain_labels-Spelled}
use rc_tunnel.Tunnels.Ports.{allocate_port}
use rc_tunnel.Tunnels.Allocation.{IsLowest, allocate_port-IsLowest}
use rc_tunnel.Tunnels.Exclusive.{PortsOk}
use rc_tunnel.Tunnels.Exclusive.Histories.{
  posts, patches, deletes, tunnel_requests, tunnel_requests-PortsOk,
}
use rc_tunnel.RateLimit.{Fails, too_many, is_fresh, record_fail}
use rc_tunnel.RateLimit.Table.{AllFresh, record_fail-full}
use rc_tunnel.RateLimit.History.{Call, run, failures, fails, checks, too_many-exact}
use rc_tunnel.Vhosts.{lookup_by_host}
use rc_tunnel.Vhosts.Lookup.{is_found, lookup_by_host-fqdns_of}
use rc_tunnel.Examples.Data.{tested-Lacks, panel, ssh, web, ann, tunnel_of, plain_opts}

abbrev body : TunnelCreate
body = record {
  name = codes "db";
  type = tcp;
  local_port = 5432;
  local_ip = codes "auto";
  remote_port = none;
  subdomain = none;
  custom_domains = none;
  opts = plain_opts;
}

abbrev changes : TunnelUpdate
changes = record {
  enabled = unset;
  local_ip = unset;
  local_port = unset;
  remote_port = given (some 2222);
  subdomain = unset;
  use_encryption = unset;
  use_compression = unset;
  bandwidth_limit = unset;
  health_check_type = unset;
  health_check_path = unset;
  http_user = unset;
  http_password = unset;
  host_header_rewrite = unset;
}

panel-PortsOk : PortsOk panel
panel-PortsOk = record { ids = ((omega arith, tt), (tt, tt)); apart = ((refl, tt), (tt, tt)) }

abbrev db : Tunnel
db = record (tunnel_of 3 tcp (some 10001) none) {
  name = codes "db";
  local_port = 5432;
  created_at = 9;
  last_today_in = 0;
}

tunnel_requests-PortsOk_example : PortsOk (
    tunnel_requests default_settings
      (posts ann 1 body 3 9 ∷ patches ann 1 changes ∷ deletes ann 1 ∷ [])
      panel)
tunnel_requests-PortsOk_example =
    tunnel_requests-PortsOk default_settings
      (posts ann 1 body 3 9 ∷ patches ann 1 changes ∷ deletes ann 1 ∷ []) panel panel-PortsOk

abbrev site : TunnelCreate
site = record body {
  name = codes "site";
  type = http;
  subdomain = some (codes "shop");
  custom_domains = some (codes "shop.example.org");
}

-- a pool of two ports
abbrev small : Settings
small = record default_settings { tcp_port_min = 10000; tcp_port_max = 10001 }

allocate_port-IsLowest_example :
    (allocate_port small panel 1 none none ≡ ok 10001) ↔ IsLowest small panel 1 none 10001
allocate_port-IsLowest_example = allocate_port-IsLowest small panel 1 none 10001

-- with a kelvin sign
abbrev kelvin : Text
kelvin = codes "a.b-2" ++ (8490 ∷ [])

accepted_here : check_subdomain_labels (some kelvin) ≡ ok tt
unfolding check_subdomain_labels rc_tunnel.Tunnels.Labels.labels_of
    rc_tunnel.Tunnels.Labels.label_matches rc_tunnel.Tunnels.Labels.lower_label
accepted_here = refl

check_subdomain_labels-Spelled_example : Spelled kelvin × Lacks b',' kelvin × Lacks b'|' kelvin
check_subdomain_labels-Spelled_example = check_subdomain_labels-Spelled kelvin accepted_here

abbrev ip : Text
ip = codes "10.0.0.1"

abbrev calls : List (ℕ × Call)
calls = (1, fails (some ip)) ∷ (2, fails (some ip)) ∷ (3, checks (some ip)) ∷ []

too_many-exact_example : (too_many 9 (some ip) (run [] calls)).1 ≡ false
unfolding failures
too_many-exact_example =
    too_many-exact 9 b'1' (codes "0.0.0.1") calls (omega arith, (omega arith, (omega arith, tt)))
      (omega arith)

-- a table of so many IPs, each of which failed just now
unfoldable rows : ℕ → Fails
rows zero = []
rows (suc n) = (codes "ip", 0 ∷ []) ∷ rows n

length-rows : (n : ℕ) → length (rows n) ≡ n
unfolding rows
length-rows zero = refl
length-rows (suc n) = omega (arith, length-rows n)

rows-AllFresh : (n : ℕ) → AllFresh 0 (rows n)
unfolding rows is_fresh
rows-AllFresh zero = tt
rows-AllFresh (suc n) = (refl, rows-AllFresh n)

record_fail-full_example : record_fail 0 (some (codes "ip")) (rows 50000) ≡ rows 50000
record_fail-full_example =
    record_fail-full 0 (some (codes "ip")) (rows 50000) (rows-AllFresh 50000)
      (omega (arith, length-rows 50000))

abbrev on_x_io : Settings
on_x_io = record default_settings { public_domain = codes "x.io" }

lookup_by_host-fqdns_of_example :
    is_found (lookup_by_host on_x_io panel (codes "app.acme.x.io")) ≡ true
unfolding rc_tunnel.Protocol.fqdns_of rc_tunnel.Protocol.suffix_of
lookup_by_host-fqdns_of_example =
    lookup_by_host-fqdns_of on_x_io panel web (ssh ∷ []) [] (codes "app.acme.x.io") refl refl refl
      (tested-Lacks b':' (codes "app.acme.x.io") refl)
