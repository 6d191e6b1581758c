-- ===== src/Config/Declared.antt =====
-- A stack's services from their declarations: members/nullnet-server/src/services/input.rs.
use nullnet.Prelude.{
  Bool, List, Map, Option, Text, [], all, any, eqb, false, get, if◌then◌else◌, insert, leb, none,
  not, some, true, ℕ, ◌&&◌, ◌++◌, ◌||◌, ◌∷◌, nat_eq, text_eq,
}
use nullnet.Addr.{Ipv4Addr, parse_v4}
use nullnet.Config.{
  ServiceToml, RouteToml, MatchEntry, RouteEntry, bad_host_ip, no_port, pausable_without_container,
  http_with_port, no_listen_port, unreachable_filter, bad_filter, empty_peer, peer_without_port,
  same_peer_port, Result, ok, err, ◌>>=◌, ◌>>◌, guard, declared_protocol, build_route_entries,
}
use nullnet.Filter.{Externals, FilterPolicy, egress, ingress}
use nullnet.Filter.Validation.{InvalidFilter, validate}
use nullnet.Services.{ServiceProtocol, http, tcp, udp, ServiceInfo, new, with_pausable}
use nullnet.Services.Chains.{ServiceMap}
use nullnet.Services.Members.{is_some}

abbrev host_ip_of : Text → Option Text → Result (Option Ipv4Addr)
host_ip_of name none = ok none
host_ip_of name (some ip) = elim (parse_v4 ip) [
  | none ↦ err (bad_host_ip name)
  | some a ↦ ok (some a)
]

abbrev port_of : Text → Option ℕ → Result ℕ
port_of name none = err (no_port name)
port_of name (some port) = ok port

-- Only a service with a key to match is hosted, and it has a port.
unfoldable pub build_match_entries : List ServiceToml → Result (List MatchEntry)
unfolding parse_v4
build_match_entries [] = ok []
build_match_entries (s ∷ ss) = do
  host_ip ← host_ip_of s.name s.host_ip
  entry ←
      if not (is_some s.docker_container) && not (is_some s.process_path)
      then ok []
      else (port_of s.name s.port >>= λ port. ok (
          record {
            name = s.name;
            port = port;
            docker_container = s.docker_container;
            process_path = s.process_path;
            host_ip = host_ip;
          }
          ∷ []))
  rest ← build_match_entries ss
  ok (entry ++ rest)

-- `char::is_whitespace`; `trim` leaves nothing of a text of such characters.
abbrev pub is_whitespace : ℕ → Bool
is_whitespace c =
    leb 9 c && leb c 13
    || eqb c 32
    || eqb c 0x85
    || eqb c 0xA0
    || eqb c 0x1680
    || leb 0x2000 c && leb c 0x200A
    || eqb c 0x2028
    || eqb c 0x2029
    || eqb c 0x202F
    || eqb c 0x205F
    || eqb c 0x3000

abbrev pub is_blank : Text → Bool
is_blank s = all is_whitespace s

-- The port of each service that has one; of services with the same name, the last.
unfoldable pub peer_ports : List ServiceToml → Map Text ℕ → Map Text ℕ
peer_ports [] m = m
peer_ports (s ∷ ss) m = peer_ports ss (elim s.port [ none ↦ m | some port ↦ insert s.name port m ])

-- A service that is only referred to.
unfoldable pub placeholder : ServiceInfo
unfolding new
placeholder = new [] [] none none http none FilterPolicy.none FilterPolicy.none

unfoldable pub add_placeholders : List Text → ServiceMap → ServiceMap
unfolding placeholder
add_placeholders [] m = m
add_placeholders (name ∷ names) m = add_placeholders names (insert name placeholder m)

abbrev flatten_names : List (List Text) → List Text
flatten_names [] = []
flatten_names (xs ∷ xss) = xs ++ flatten_names xss

-- The names that the services depend on, unless a peer is blank.
unfoldable pub dep_names : List ServiceToml → Result (List Text)
dep_names [] = ok []
dep_names (s ∷ ss) = do
  guard (not (any is_blank s.backends)) empty_peer
  rest ← dep_names ss
  ok ((flatten_names s.proxy_dependencies ++ s.backends) ++ rest)

abbrev nonzero : Option ℕ → Option ℕ
nonzero none = none
nonzero (some port) = if eqb port 0 then none else some port

abbrev unused : Text → Text → ℕ → Option Text → Result (Unit {0})
unused service peer port none = ok tt
unused service peer port (some previous) = err (same_peer_port service previous peer port)

abbrev declared_port : Text → Text → Option ℕ → Result ℕ
declared_port service peer none = err (peer_without_port service peer)
declared_port service peer (some port) = ok port

-- The triggers of a service: its peers by their ports.
unfoldable pub build_triggers : Text → Map Text ℕ → List Text → Map ℕ Text → Result (Map ℕ Text)
build_triggers service ports [] triggers = ok triggers
build_triggers service ports (peer ∷ peers) triggers = do
  port ← declared_port service peer (nonzero (get peer ports))
  unused service peer port (get port triggers)
  build_triggers service ports peers (insert port peer triggers)

abbrev check_listen_port : Text → ServiceProtocol → Option ℕ → Result (Unit {0})
check_listen_port name http (some port) = err (http_with_port name)
check_listen_port name http none = ok tt
check_listen_port name tcp none = err (no_listen_port name)
check_listen_port name tcp (some port) = ok tt
check_listen_port name udp none = err (no_listen_port name)
check_listen_port name udp (some port) = ok tt

abbrev validated : Text → FilterPolicy × Option InvalidFilter → Result FilterPolicy
validated name (policy, none) = ok policy
validated name (policy, some e) = err (bad_filter name)

abbrev pub is_unfiltered : FilterPolicy → Bool
is_unfiltered FilterPolicy.none = true
is_unfiltered _ = false

module _ (x : Externals) where
  unfoldable pub declare_service : Map Text ℕ → ServiceToml → Result ServiceInfo
  unfolding build_triggers new validate
  declare_service ports s = do
    guard (not (s.pausable && not (is_some s.docker_container))) (pausable_without_container s.name)
    let protocol = declared_protocol s
    check_listen_port s.name protocol s.listen_port
    egress_policy ← validated s.name (validate x egress s.egress_filter)
    ingress_policy ← validated s.name (validate x ingress s.ingress_filter)
    guard (is_unfiltered ingress_policy || is_some s.timeout) (unreachable_filter s.name)
    triggers ← build_triggers s.name ports s.backends []
    ok (
        with_pausable s.pausable (
          new s.proxy_dependencies triggers s.timeout s.max_networks protocol s.listen_port
            egress_policy ingress_policy))

  unfoldable pub declare_services : Map Text ℕ → List ServiceToml → ServiceMap → Result ServiceMap
  unfolding declare_service
  declare_services ports [] m = ok m
  declare_services ports (s ∷ ss) m = do
    info ← declare_service ports s
    declare_services ports ss (insert s.name info m)

  unfoldable pub services_map : List ServiceToml → Result ServiceMap
  unfolding declare_services dep_names add_placeholders peer_ports
  services_map services = do
    names ← dep_names services
    declare_services (peer_ports services []) services (add_placeholders names [])

  -- What is loaded of a stack: its services, its match entries and its routes.
  unfoldable pub validate_stack :
      List ServiceToml → List RouteToml → Result (ServiceMap × List MatchEntry × List RouteEntry)
  unfolding build_match_entries services_map
  validate_stack services routes = do
    match_entries ← build_match_entries services
    route_entries ← build_route_entries services routes
    info ← services_map services
    ok (info, match_entries, route_entries)
