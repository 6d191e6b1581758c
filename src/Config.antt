-- ===== src/Config.antt =====
-- members/nullnet-server/src/services/input.rs: the declared configuration of a stack. A text is
-- its code points, and an error stands for its message.
pub mod Declared
pub mod Conflicts
pub mod Distinct
pub mod Unambiguous
pub mod Rows
pub mod Store
pub mod Saved
pub mod Loaded
pub mod Tables
pub mod Own
pub mod Orders
pub mod Columns
pub mod RoundTrip
mod Tests
use nullnet.Prelude.{
  Bool, List, Option, Text, [], eqb, false, if◌then◌else◌, none, not, some, true, ℕ, ◌==◌, ◌||◌,
  ◌∷◌, nat_eq, text_eq,
}
use nullnet.Addr.{Ipv4Addr}
use nullnet.Filter.{FilterPolicy}
use nullnet.Services.{ServiceProtocol, http, tcp, udp}
use nullnet.Services.Members.{is_some}

pub data ProtocolToml : Type 0 where
  http_toml tcp_toml udp_toml : ProtocolToml

-- `From<ProtocolToml>`.
abbrev pub protocol_of : ProtocolToml → ServiceProtocol
protocol_of http_toml = http
protocol_of tcp_toml = tcp
protocol_of udp_toml = udp

pub record ServiceToml : Type 0 where
  pub name : Text
  pub docker_container : Option Text
  pub process_path : Option Text
  pub host_ip : Option Text
  pub pausable : Bool
  pub port : Option ℕ
  pub timeout : Option ℕ
  pub proxy_dependencies : List (List Text)
  pub backends : List Text
  pub max_networks : Option ℕ
  pub protocol : Option ProtocolToml
  pub listen_port : Option ℕ
  pub egress_filter : FilterPolicy
  pub ingress_filter : FilterPolicy

pub record RouteToml : Type 0 where
  pub host : Text
  pub path : Text
  pub service : Option Text
  pub strip_prefix : Bool
  pub redirect_to : Option Text
  pub redirect_status : Option ℕ
  pub preserve_path : Bool
  pub preserve_query : Bool

pub record MatchEntry : Type 0 where
  pub name : Text
  pub port : ℕ
  pub docker_container : Option Text
  pub process_path : Option Text
  pub host_ip : Option Ipv4Addr

pub data RouteTarget : Type 0 where
  to_service : (name : Text) → (strip_prefix : Bool) → RouteTarget
  to_redirect : (to : Text) → (status : ℕ) → (preserve_path preserve_query : Bool) → RouteTarget

pub record RouteEntry : Type 0 where
  pub host : Text
  pub path : Text
  pub target : RouteTarget

pub data ConfigError : Type 0 where
  both_targets no_target redirect_flag_on_service service_flag_on_redirect : RouteToml → ConfigError
  not_declared not_http not_reachable : RouteToml → Text → ConfigError
  bad_status : RouteToml → ℕ → ConfigError
  bad_host_ip no_port pausable_without_container http_with_port no_listen_port unreachable_filter :
      Text → ConfigError
  bad_filter : Text → ConfigError
  empty_peer : ConfigError
  peer_without_port : (service peer : Text) → ConfigError
  same_peer_port : (service previous peer : Text) → ℕ → ConfigError

pub data Result {ℓ} (A : Type ℓ) : Type ℓ where
  ok : A → Result A
  err : ConfigError → Result A

-- The `?` of a function that returns a result.
infixl 5 ◌>>=◌
abbrev pub ◌>>=◌ {ℓ κ} : {A : Type ℓ} {B : Type κ} → Result A → (A → Result B) → Result B
ok a >>= f = f a
err e >>= f = err e

abbrev pub guard : Bool → ConfigError → Result (Unit {0})
guard true e = ok tt
guard false e = err e

infixl 5 ◌>>◌
abbrev pub ◌>>◌ {ℓ} : {B : Type ℓ} → Result (Unit {0}) → Result B → Result B
m >> k = m >>= λ _. k

abbrev pub map_or {ℓ} : {A B : Type ℓ} → B → (A → B) → Option A → B
map_or d f none = d
map_or d f (some a) = f a

abbrev pub beq_protocol : ServiceProtocol → ServiceProtocol → Bool
beq_protocol http http = true
beq_protocol tcp tcp = true
beq_protocol udp udp = true
beq_protocol _ _ = false

-- The protocol of a declaration, HTTP if it names none.
abbrev pub declared_protocol : ServiceToml → ServiceProtocol
declared_protocol s = map_or http protocol_of s.protocol

unfoldable pub find_service : Text → List ServiceToml → Option ServiceToml
find_service name [] = none
find_service name (s ∷ ss) = if s.name == name then some s else find_service name ss

abbrev pub is_redirect_status : ℕ → Bool
is_redirect_status n = eqb n 301 || eqb n 302 || eqb n 307 || eqb n 308

abbrev service_route : RouteToml → Text → Option ServiceToml → Result RouteTarget
service_route r name none = err (not_declared r name)
service_route r name (some s) = do
  guard (beq_protocol (declared_protocol s) http) (not_http r name)
  guard (is_some s.timeout) (not_reachable r name)
  ok (to_service name r.strip_prefix)

-- What one route leads to.
unfoldable pub build_target :
    List ServiceToml → RouteToml → (service redirect_to : Option Text) → Result RouteTarget
unfolding find_service
build_target services r (some name) (some to) = err (both_targets r)
build_target services r none none = err (no_target r)
build_target services r (some name) none = do
  guard (not (r.preserve_path || r.preserve_query)) (redirect_flag_on_service r)
  service_route r name (find_service name services)
build_target services r none (some to) = do
  guard (not r.strip_prefix) (service_flag_on_redirect r)
  let status = map_or 301 (λ n. n) r.redirect_status
  guard (is_redirect_status status) (bad_status r status)
  ok (to_redirect to status r.preserve_path r.preserve_query)

unfoldable pub build_route_entries : List ServiceToml → List RouteToml → Result (List RouteEntry)
unfolding build_target
build_route_entries services [] = ok []
build_route_entries services (r ∷ rs) = do
  target ← build_target services r r.service r.redirect_to
  entries ← build_route_entries services rs
  ok (record { host = r.host; path = r.path; target = target } ∷ entries)
