-- ===== src/Timeouts/Tests.antt =====
-- A run of the loop's computation of its sleep: members/nullnet-server/src/timeout.rs.
use nullnet.Prelude.{
  Distinct, [], arith, codes, false, get, ltb, none, not, refl, some, ℕ, ◌&&◌, ◌+◌, ◌||◌, ◌∷◌, ◌≡◌,
  ◌≤◌,
}
use nullnet.Addr.{IpAddr, v4}
use nullnet.Backend.{Sessions, key_eq}
use nullnet.Clients.Info.{Client, ClientInfo}
use nullnet.Egress.{Edges}
use nullnet.Egress.Reports.{nearest_egress_expiry, egress_waits}
use nullnet.Backend.{nearest_backend_expiry, backend_waits}
use nullnet.Filter.{FilterPolicy}
use nullnet.Services.{http, Replica, RegisteredServiceInfo, registered}
use nullnet.Services.Registry.{retain}
use nullnet.Services.Views.{min_by, entries, nearest_proxy_expiry}
use nullnet.Timeouts.{StackMap, max_poll_interval, ingress_sleep, nearest_from, sleep_duration}
use nullnet.Timeouts.Sleep.{backend_due, egress_due, sleeps_until_due}
use nullnet.Timeouts.Ingress.{ingress_due}

abbrev node : ℕ → IpAddr
node d = v4 (record { a = 10; b = 0; c = 0; d = d })

abbrev visitor : Client
visitor = record { name = codes "9.9.9.9"; proxy = some (node 7); replica = none }

abbrev visit : ClientInfo
visit = record {
  client_ip = node 7;
  client_net = record { a = 172; b = 16; c = 0; d = 1 };
  server_net = record { a = 172; b = 16; c = 0; d = 2 };
  net_id = 5;
  pool_generation = 0;
  time_ms = 0;
  active_chains = 1;
  open_connections = 0;
  latest = 500;
  created_at = 0;
  docker_container = none;
  policy = false;
  group_carrier = none;
  pending = none;
}

abbrev replica : Replica
replica = record {
  ip = node 1;
  port = 80;
  docker_container = none;
  clients = record { clients = (visitor, visit) ∷ []; group_carriers = [] };
  pause = record { suspended = false; resume = none };
}

abbrev front : RegisteredServiceInfo
front = record {
  proxy_deps = [];
  triggers = [];
  timeout = some 40;
  max_networks = none;
  protocol = http;
  listen_port = none;
  egress_policy = FilterPolicy.none;
  ingress_policy = FilterPolicy.none;
  pausable = false;
  replicas = replica ∷ [];
}

abbrev stacks : StackMap
stacks = (codes "prod", (codes "A", registered front) ∷ []) ∷ []

abbrev sessions : Sessions
sessions =
    (
      record { service = codes "A"; ip = node 1; docker = none; port = 8080 },
      record {
        generation = 1;
        history_id = some 4;
        building = false;
        stack = codes "prod";
        idle_since = some 1_000;
      },
    )
    ∷ []

abbrev edges : Edges
edges =
    (
      (node 1, none),
      record {
        setup_ms = 3;
        generation = 1;
        net_id = 101;
        stack = codes "prod";
        service = codes "A";
        initiator_ip = node 1;
        initiator_docker = none;
        proxy_ip = node 9;
        destinations = [];
        idle_since = some 1_500;
        reserved_at = 0;
      },
    )
    ∷ []

-- The session is due after 29 s, the edge after 29.5 s and the client after 38.5 s.
asleep : sleep_duration 2_000 stacks edges sessions ≡ 29_000
unfolding sleep_duration nearest_egress_expiry egress_waits nearest_backend_expiry backend_waits
    nearest_from nearest_proxy_expiry entries retain min_by
asleep = refl

alone : Distinct sessions
unfolding get
alone = (refl, tt)

sleeps_until_due_example :
    (sleep_duration 2_000 stacks edges sessions ≤ max_poll_interval)
    × ((ltb 30_000 (2_000 + sleep_duration 2_000 stacks edges sessions)
          && (backend_due 30_000 sessions || egress_due 30_000 edges || ingress_due 30_000 stacks))
        ≡ false)
    × ((ltb (sleep_duration 2_000 stacks edges sessions) (ingress_sleep 2_000 stacks)
          && not (
              backend_due (2_000 + sleep_duration 2_000 stacks edges sessions) sessions
              || egress_due (2_000 + sleep_duration 2_000 stacks edges sessions) edges))
        ≡ false)
sleeps_until_due_example =
    sleeps_until_due 2_000 30_000 stacks sessions edges alone refl refl (omega arith)
