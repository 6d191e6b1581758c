-- ===== src/Services/Tests.antt =====
-- Runs of the services of a stack, and the theorems at such inputs.
use nullnet.Prelude.{
  All, List, Map, Option, Text, [], any, arith, codes, count, false, get, if◌then◌else◌, insert,
  none, not, refl, remove, some, true, ℕ, ◌&&◌, ◌++◌, ◌↔◌, ◌∷◌, ◌≡◌, nat_eq, text_eq, option_eq,
}
use nullnet.Addr.{IpAddr, v4, ip_eq}
use nullnet.Clients.{remove_client, remove_entry, move_carrier}
use nullnet.Services.Views.{client_replica_live}
use nullnet.Clients.Info.{Client, ClientInfo, client_eq}
use nullnet.Filter.{FilterPolicy}
use nullnet.Services.{
  http, UnregisteredServiceInfo, RegisteredServiceInfo, Replica, unregistered, registered,
}
use nullnet.Services.Chains.{ServiceMap, dep_chain_intact, branches_of, collect_dep_chain_edges}
use nullnet.Services.Changes.{ServiceChange, everyone}
use nullnet.Services.Histories
use nullnet.Services.Histories.{Call, started, stack_total}
use nullnet.Services.Sound.{Returns}
use nullnet.Services.Total.{SoundWorld}
use nullnet.Services.Networks.{nets, rows, chains_walked, uses, networks_freed_once}
use nullnet.Services.Normal.{is_registered, IsUnique, registry_refines}
use nullnet.Services.Refinement.{Change, add, drop, run, spec_run, view, replicas_of}
use nullnet.Services.Registry.{has_replica}
use nullnet.Services.Teardown.{
  Effect, World, teardown_chain, history_closed, proxy_teardowns, is_shared,
}
use nullnet.Services.Walks.{IsConnected, dep_chain_intact_iff}

abbrev node : ℕ → IpAddr
node d = v4 (record { a = 10; b = 0; c = 0; d = d })

abbrev declaration : UnregisteredServiceInfo
declaration = record {
  proxy_deps = (codes "B" ∷ []) ∷ [];
  triggers = [];
  timeout = some 60;
  max_networks = none;
  protocol = http;
  listen_port = none;
  egress_policy = FilterPolicy.none;
  ingress_policy = FilterPolicy.none;
  pausable = false;
}

abbrev history : List Change
history =
    add (node 1) 80 none ∷ add (node 2) 80 none ∷ add (node 1) 81 none ∷ drop (node 2) none ∷ []

moved_to_81 : (spec_run history (view (unregistered declaration))).ports (node 1) none ≡ some 81
moved_to_81 = refl

registry_refines_example :
    (view (run history (unregistered declaration))
      ≡ spec_run history (view (unregistered declaration)))
    × ((i : IpAddr) (d : Option Text)
        → (has_replica i d (run history (unregistered declaration)) ≡ false)
          ↔ ((spec_run history (view (unregistered declaration))).ports i d ≡ none))
    × ((is_registered (run history (unregistered declaration)) ≡ false) ↔ (
        (i : IpAddr) (d : Option Text)
        → (spec_run history (view (unregistered declaration))).ports i d ≡ none))
    × IsUnique (replicas_of (run history (unregistered declaration)))
registry_refines_example = registry_refines history declaration

abbrev visitor : Client
visitor = record { name = codes "9.9.9.9"; proxy = some (node 7); replica = none }

abbrev second_visitor : Client
second_visitor = record { name = codes "8.8.8.8"; proxy = some (node 7); replica = none }

abbrev edge_info : ℕ → ClientInfo
edge_info net_id = record {
  client_ip = node 7;
  client_net = record { a = 172; b = 16; c = 0; d = 1 };
  server_net = record { a = 172; b = 16; c = 0; d = 2 };
  net_id = net_id;
  pool_generation = 0;
  time_ms = 0;
  active_chains = 1;
  open_connections = 0;
  latest = 0;
  created_at = 0;
  docker_container = none;
  policy = false;
  group_carrier = none;
  pending = none;
}

abbrev replica_on : ℕ → Map Client ClientInfo → Replica
replica_on d clients = record {
  ip = node d;
  port = 80;
  docker_container = none;
  clients = record { clients = clients; group_carriers = [] };
  pause = record { suspended = false; resume = none };
}

abbrev service_with : List (List Text) → List Replica → RegisteredServiceInfo
service_with deps replicas = record {
  proxy_deps = deps;
  triggers = [];
  timeout = some 60;
  max_networks = none;
  protocol = http;
  listen_port = none;
  egress_policy = FilterPolicy.none;
  ingress_policy = FilterPolicy.none;
  pausable = false;
  replicas = replicas;
}

-- Two visitors share network 5 of A, and A's replica uses B over network 6.
abbrev front : RegisteredServiceInfo
front =
    service_with ((codes "B" ∷ []) ∷ [])
      (replica_on 1 ((visitor, edge_info 5) ∷ (second_visitor, edge_info 5) ∷ []) ∷ [])

abbrev stack_services : ServiceMap
stack_services =
    (codes "A", registered front)
    ∷ (
      codes "B",
      registered (
          service_with [] (
            replica_on 2 (
              (
                record { name = codes "A"; proxy = none; replica = some (node 1, none) },
                edge_info 6,
              )
              ∷ [])
            ∷ [])),
    )
    ∷ []

abbrev world : World
world = record { services = stack_services; sessions = []; effects = [] }

abbrev or_world : Option World → World
or_world none = world
or_world (some w) = w

abbrev torn : World
torn = or_world (teardown_chain false (codes "A") everyone world)

torn_nets : nets torn.effects ≡ 6 ∷ 5 ∷ []
unfolding teardown_chain get insert remove remove_client remove_entry move_carrier
    client_replica_live
torn_nets = refl

front_found : get (codes "A") world.services ≡ some (registered front)
unfolding get
front_found = refl

torn_down : teardown_chain false (codes "A") everyone world ≡ some torn
unfolding teardown_chain get insert remove remove_client remove_entry move_carrier
    client_replica_live
torn_down = refl

networks_freed_once_example :
    (walked : World) × (freed : List Effect) × (chains_walked
        (codes "A")
        (proxy_teardowns everyone front)
        world
      ≡ some walked)
    × (torn.effects
        ≡ walked.effects ++ (history_closed (codes "A") (proxy_teardowns everyone front) ++ freed))
    × (rows freed ≡ [])
    × ((id : ℕ)
        → count id (nets freed) ≡ (
            if any (uses id) (proxy_teardowns everyone front)
              && not (is_shared id (get (codes "A") torn.services))
            then 1
            else 0))
networks_freed_once_example =
    networks_freed_once false (codes "A") everyone world front {w' = torn} front_found torn_down

dep_chain_intact_iff_example :
    (dep_chain_intact (codes "A") (node 1, none) stack_services ≡ true)
    ↔ All
        (IsConnected stack_services (codes "A") (node 1, none))
        (branches_of (get (codes "A") stack_services))
dep_chain_intact_iff_example = dep_chain_intact_iff (codes "A") (node 1, none) stack_services

intact_chain : dep_chain_intact (codes "A") (node 1, none) stack_services ≡ true
unfolding dep_chain_intact collect_dep_chain_edges get client_replica_live
intact_chain = refl

abbrev calls : List Call
calls =
    Call.registers (codes "A") (node 1) 80 none
    ∷ Call.adds (codes "A") (node 1) none visitor (edge_info 5)
    ∷ Call.opens (codes "A") 1_000 visitor
    ∷ Call.applies true (ServiceChange.removed (codes "A") ∷ []) none
    ∷ []

stack_total_example :
    Returns (SoundWorld 4) (Histories.run calls (started ((codes "A", declaration) ∷ [])))
stack_total_example = stack_total calls ((codes "A", declaration) ∷ []) (omega arith)
