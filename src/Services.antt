-- ===== src/Services.antt =====
-- members/nullnet-server/src/services/service_info.rs: what the server keeps of a service.
pub mod Registry
pub mod Members
pub mod Views
pub mod Chains
pub mod Walks
pub mod Changes
pub mod Teardown
pub mod Apply
pub mod Networks
pub mod Refinement
pub mod Normal
pub mod Sound
pub mod Total
pub mod Triggers
pub mod Applied
pub mod Grown
pub mod Histories
mod Tests
use mathlib.Core.List.{flatten}
use nullnet.Prelude.{
  Bool, List, Map, Option, Text, any, false, none, ℕ, ◌&&◌, ◌==◌, ◌||◌, text_eq, option_eq,
}
use nullnet.Addr.{IpAddr, ip_eq}
use nullnet.Clients.{Clients, default as no_clients}
use nullnet.Filter.{FilterPolicy}

pub data ServiceProtocol : Type 0 where
  http tcp udp : ServiceProtocol

pub record UnregisteredServiceInfo : Type 0 where
  pub proxy_deps : List (List Text)
  pub triggers : Map ℕ Text
  pub timeout : Option ℕ
  pub max_networks : Option ℕ
  pub protocol : ServiceProtocol
  pub listen_port : Option ℕ
  pub egress_policy : FilterPolicy
  pub ingress_policy : FilterPolicy
  pub pausable : Bool

-- `resume` names the channel of a resume under way.
pub record PauseState : Type 0 where
  pub suspended : Bool
  pub resume : Option ℕ

-- Only the task that completes a resume shares `pause`, and it is known by its channel.
pub record Replica : Type 0 where
  pub ip : IpAddr
  pub port : ℕ
  pub docker_container : Option Text
  pub clients : Clients
  pub pause : PauseState

pub record RegisteredServiceInfo : Type 0 where
  pub proxy_deps : List (List Text)
  pub triggers : Map ℕ Text
  pub timeout : Option ℕ
  pub max_networks : Option ℕ
  pub protocol : ServiceProtocol
  pub listen_port : Option ℕ
  pub egress_policy : FilterPolicy
  pub ingress_policy : FilterPolicy
  pub pausable : Bool
  pub replicas : List Replica

pub data ServiceInfo : Type 0 where
  unregistered : UnregisteredServiceInfo → ServiceInfo
  registered : RegisteredServiceInfo → ServiceInfo

unfoldable pub new_replica : IpAddr → ℕ → Option Text → Replica
new_replica ip port docker = record {
  ip = ip;
  port = port;
  docker_container = docker;
  clients = no_clients;
  pause = record { suspended = false; resume = none };
}

-- A replica is identified by its address and its container.
abbrev pub matches_identity : IpAddr → Option Text → Replica → Bool
matches_identity ip docker r = r.ip == ip && r.docker_container == docker

-- `ServiceInfo::new`.
unfoldable pub new :
    List (List Text)
    → Map ℕ Text
    → (timeout max_networks : Option ℕ) → ServiceProtocol
    → (listen_port : Option ℕ) → (egress ingress : FilterPolicy) → ServiceInfo
new deps triggers timeout max_networks protocol listen_port egress ingress = unregistered record {
  proxy_deps = deps;
  triggers = triggers;
  timeout = timeout;
  max_networks = max_networks;
  protocol = protocol;
  listen_port = listen_port;
  egress_policy = egress;
  ingress_policy = ingress;
  pausable = false;
}

abbrev pub with_pausable : Bool → ServiceInfo → ServiceInfo
with_pausable p (unregistered u) = unregistered (record u { pausable = p })
with_pausable p (registered r) = registered (record r { pausable = p })

abbrev pub pausable : ServiceInfo → Bool
pausable (unregistered u) = u.pausable
pausable (registered r) = r.pausable

abbrev pub timeout : ServiceInfo → Option ℕ
timeout (unregistered u) = u.timeout
timeout (registered r) = r.timeout

abbrev pub max_networks : ServiceInfo → Option ℕ
max_networks (unregistered u) = u.max_networks
max_networks (registered r) = r.max_networks

abbrev pub protocol : ServiceInfo → ServiceProtocol
protocol (unregistered u) = u.protocol
protocol (registered r) = r.protocol

abbrev pub listen_port : ServiceInfo → Option ℕ
listen_port (unregistered u) = u.listen_port
listen_port (registered r) = r.listen_port

abbrev pub egress_policy : ServiceInfo → FilterPolicy
egress_policy (unregistered u) = u.egress_policy
egress_policy (registered r) = r.egress_policy

abbrev pub ingress_policy : ServiceInfo → FilterPolicy
ingress_policy (unregistered u) = u.ingress_policy
ingress_policy (registered r) = r.ingress_policy

abbrev pub proxy_deps : ServiceInfo → List (List Text)
proxy_deps (unregistered u) = u.proxy_deps
proxy_deps (registered r) = r.proxy_deps

abbrev pub triggers : ServiceInfo → Map ℕ Text
triggers (unregistered u) = u.triggers
triggers (registered r) = r.triggers

-- Whether a service stands in the dependencies of another.
unfoldable pub deps_contain : Text → ServiceInfo → Bool
deps_contain other si =
    any (any (λ d. d == other)) (proxy_deps si) || any (λ (_, peer). peer == other) (triggers si)
