-- ===== src/Bundles.antt =====
-- members/nullnet-server/src/nullnet_grpc_impl.rs: what the server tells the proxy, and the hosts'
-- firewalls, of the services that are declared.
pub mod Resolved
mod Tests
use nullnet.Prelude.{
  Bool, List, Option, Text, [], any, eqb, false, if◌then◌else◌, leb, map, none, some, ℕ, ◌&&◌, ◌++◌,
  ◌==◌, ◌∷◌, nat_eq, text_eq,
}
use nullnet.Config.{RouteTarget, RouteEntry, to_service, to_redirect, beq_protocol}
use nullnet.Config.Conflicts.{StackMap, RouteMap}
use nullnet.Routes.{HttpRoute, HttpRedirect, Target, service_name, redirect, slash}
use nullnet.Services.{ServiceProtocol, http, tcp, udp, ServiceInfo, listen_port, protocol, timeout}
use nullnet.Services.Chains.{ServiceMap}
use nullnet.Services.Members.{is_some}

pub record PortMapping : Type 0 where
  pub service_name : Text
  pub protocol : ServiceProtocol
  pub listen_port : ℕ
  pub idle_timeout_secs : ℕ

-- `stacks.values().flat_map(HashMap::iter)`.
unfoldable pub services_of : StackMap → ServiceMap
services_of [] = []
services_of ((stack, services) ∷ m) = services ++ services_of m

abbrev pub unwrap_or_zero : Option ℕ → ℕ
unwrap_or_zero none = 0
unwrap_or_zero (some n) = n

abbrev pub port_mapping : Text → ServiceInfo → Option ℕ → List PortMapping
port_mapping name info none = []
port_mapping name info (some port) =
    (record {
      service_name = name;
      protocol = protocol info;
      listen_port = port;
      idle_timeout_secs = unwrap_or_zero (timeout info);
    })
    ∷ []

unfoldable pub port_mappings : ServiceMap → List PortMapping
port_mappings [] = []
port_mappings ((name, info) ∷ m) = port_mapping name info (listen_port info) ++ port_mappings m

unfoldable pub build_port_mapping_bundle : StackMap → List PortMapping
unfolding services_of port_mappings
build_port_mapping_bundle stacks = port_mappings (services_of stacks)

-- `sort_unstable` of numbers.
unfoldable pub insert_number : ℕ → List ℕ → List ℕ
insert_number n [] = n ∷ []
insert_number n (m ∷ ms) = if leb n m then n ∷ m ∷ ms else m ∷ insert_number n ms

unfoldable pub sort_numbers : List ℕ → List ℕ
unfolding insert_number
sort_numbers [] = []
sort_numbers (n ∷ ns) = insert_number n (sort_numbers ns)

abbrev drop_repeat : ℕ → List ℕ → List ℕ
drop_repeat n [] = n ∷ []
drop_repeat n (m ∷ ms) = if eqb n m then m ∷ ms else n ∷ m ∷ ms

unfoldable pub dedup : List ℕ → List ℕ
dedup [] = []
dedup (n ∷ ns) = drop_repeat n (dedup ns)

abbrev allowed_port : ServiceProtocol → ServiceInfo → Option ℕ → List ℕ
allowed_port p info none = []
allowed_port p info (some port) = if beq_protocol p (protocol info) then port ∷ [] else []

unfoldable pub allowed_ports : ServiceProtocol → ServiceMap → List ℕ
allowed_ports p [] = []
allowed_ports p ((name, info) ∷ m) = allowed_port p info (listen_port info) ++ allowed_ports p m

-- The ports of the settings, and on the proxy those of the services.
unfoldable pub ingress_allow_ports :
    (tcp_settings udp_settings : List ℕ) → StackMap → (proxy : Bool) → List ℕ × List ℕ
unfolding services_of sort_numbers dedup allowed_ports
ingress_allow_ports tcp_settings udp_settings stacks proxy =
    let of_proxy : ServiceProtocol → List ℕ =
      λ p. if proxy then allowed_ports p (services_of stacks) else [] in
    (
      dedup (sort_numbers (tcp_settings ++ of_proxy tcp)),
      dedup (sort_numbers (udp_settings ++ of_proxy udp)),
    )

-- `routes.values().flat_map(...)`.
unfoldable pub entries_of : RouteMap → List RouteEntry
entries_of [] = []
entries_of ((stack, entries) ∷ m) = entries ++ entries_of m

abbrev pub target_of : RouteTarget → Target
target_of (to_service name strip) = service_name name
target_of (to_redirect to status path query) =
    redirect
      (record { to = to; status_code = status; preserve_path = path; preserve_query = query })

abbrev pub strips : RouteTarget → Bool
strips (to_service name strip) = strip
strips (to_redirect to status path query) = false

abbrev pub wire_route : RouteEntry → HttpRoute
wire_route e = record {
  host = e.host;
  path_prefix = e.path;
  strip_prefix = strips e.target;
  target = some (target_of e.target);
}

abbrev pub root_route : Text → HttpRoute
root_route name = record {
  host = name;
  path_prefix = slash ∷ [];
  strip_prefix = false;
  target = some (service_name name);
}

-- `explicit_hosts.contains(host)`.
abbrev pub is_explicit : Text → List RouteEntry → Bool
is_explicit host entries = any (λ e. e.host == host) entries

abbrev pub is_reachable : ServiceInfo → Bool
is_reachable info = beq_protocol (protocol info) http && is_some (timeout info)

-- The services that a host of their own name reaches, where no route names that host.
unfoldable pub implicit_routes : List RouteEntry → ServiceMap → List HttpRoute
implicit_routes entries [] = []
implicit_routes entries ((name, info) ∷ m) =
    let rest = implicit_routes entries m in
    if is_reachable info
    then if is_explicit name entries then rest else root_route name ∷ rest
    else rest

unfoldable pub build_http_route_bundle : StackMap → RouteMap → List HttpRoute
unfolding services_of entries_of implicit_routes
build_http_route_bundle stacks routes =
    let entries = entries_of routes in
    map wire_route entries ++ implicit_routes entries (services_of stacks)
