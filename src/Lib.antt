-- ===== src/Lib.antt =====
-- nullnet: verification of the network's core.
--
-- nullnet builds overlay networks between services on demand. A server (members/nullnet-server)
-- decides which edges exist, gives each a network ID, tells the two hosts to set it up, and
-- removes it when it is idle. Clients (members/nullnet-client) run on the hosts and drive the kernel;
-- eBPF programs (ebpf) filter the hosts' packets. A proxy (members/nullnet-proxy) receives requests
-- from outside, and asks the server for an edge to the service of the request's host and path.
--
-- The files, by the code that they are about:
--   Prelude      shared: Boolean tests, lists over native numbers, texts, maps, keys.
--   Addr         the addresses of the standard library.
--   NetIdPool    members/nullnet-server/src/net_id_pool.rs. `allocate` and `free` keep their names;
--                the hash set is its membership test. Leases adds the IDs that are held, and the
--                steps in which an ID is given back by its holder, or once more while nobody holds
--                it; a late teardown of an ID that was allocated again meanwhile
--                (docs/net-id-reuse-races.md) is not among them. Fifo is about the order of reuse.
--   NetExt       members/nullnet-server/src/net.rs, with the messages of members/nullnet-grpc-lib.
--                `setup` and `teardown` keep every field. Subnets is about addresses, Names about
--                device names, Ends about the two ends of one edge. An ID comes from NetIdPool:
--                Subnets joins the two.
--   Clients      members/nullnet-server/src/services/clients.rs. The table and its index of group
--                carriers; Info has the entry of one client. `none` is a panic of an `expect` or
--                of an overflow. A `Notify` is a number, and a call's answer names the one that is
--                woken. Carriers, Moves, Invariant and Histories build up the invariant of the
--                index; Edges and Liveness are about the life of one edge.
--   Congestion   members/nullnet-server/src/congestion.rs. Pressure has `Pressure`, HostRate the
--                token bucket of a host, Controller the operations on the shared state; each runs
--                under the state's lock, so that it is a function of the state. Times are
--                nanoseconds and arguments. Tokens are counted in billionths, so that a rate times
--                nanoseconds is exact; the rounding of `f64` is not modelled. Bounds is about
--                `Pressure`, Buckets about one host, Present, Hosts, Admission, Attempts and
--                RateLimit about the controller. A missing host is a panic, `none`.
--   HostFirewall ebpf/src/main.rs: a run of the two programs is a function of the frame, the
--                settings and the connection tracking. The layout of headers (the crate
--                `network_types`) and the kernel's LRU map are parameters. Peers is the table of
--                peers of members/nullnet-client/src/ebpf/mod.rs, and Ports its allowed ports: they
--                fill the settings' `peers` and `allow_ports`. The BPF maps have their capacities.
--   Policy       ebpf/src/policy.rs with shared/policy.rs: the two programs as one function of the
--                direction. What the kernel does to a packet is a parameter. Established is about
--                sequences of packets, Checks about the guards.
--   Filter       members/nullnet-server/src/services/firewall.rs. Validation has `validate`, which
--                changes the policy in place; Postfix is about the expression that is handed to the
--                crate `rpn_predicate_interpreter`, a parameter with the law that it evaluates
--                postfix expressions. The crate `ipnetwork` and the tables of `to_uppercase` are
--                parameters.
--   Routes       members/nullnet-proxy/src/routes.rs. `from_bundle` and `resolve`; Sorting and
--                Resolving compare them with a search for the longest prefix. Redirects is
--                `resolve_redirect_target` of members/nullnet-proxy/src/main.rs.
--
--   Services     members/nullnet-server/src/services/service_info.rs and changes.rs. A service is
--                `unregistered` or `registered` with its replicas, each with a table of Clients.
--                Registry has the operations on replicas, Members the edges of their clients and
--                Views the queries. Chains walks the dependencies of a service. Changes detects
--                what a new configuration, a new report of a node or a lost node invalidates;
--                Teardown and Apply carry it out on a `World`: the services of one stack, the
--                sessions of Backend, and the list of effects, which are the calls of the
--                orchestrator and of the event log in their order. `none` is a panic. Refinement and
--                Normal are about the replicas as a function of their identity, Walks about the
--                chain as a path, Networks about the network IDs that a teardown gives back. Sound, Total,
--                Triggers, Applied, Grown and Histories follow the tables of clients through all calls.
--   Backend      members/nullnet-server/src/orchestrator.rs: the sessions of backend triggers. An
--                `Instant` is a number and an argument, a `Uuid` a number. Due is about what is
--                taken, Wakes about the time of the next one.
--   Egress       members/nullnet-server/src/orchestrator.rs: the edges of outgoing traffic, one for
--                each replica. Each function is what runs under one lock of the table, so that
--                `ensure_egress_edge` is `reserve_egress_edge`, and then `build_failed` or `promote`.
--                Reports has what clients report and what the loop of timeouts reads. Builds is the
--                system of all builds under way, whose events come in any order; Counts, Balance,
--                Accounts and Interleavings follow each network ID through it.
--   Timeouts     members/nullnet-server/src/timeout.rs: how long the loop of timeouts sleeps, from the
--                clients of proxies of Services, the edges of Egress and the sessions of Backend, and
--                which clients are timed out. The loop itself, which also wakes on a change of the
--                configuration and then calls the reaps, is not modelled. Ingress is about
--                the clients, Sleep about the duration.
--   Config       members/nullnet-server/src/services/input.rs: the declared services and routes,
--                after `toml` has read them. Declared has the checks and the conversion, Conflicts
--                the claims of several stacks; Distinct and Unambiguous are about them. Rows
--                converts to the rows of members/nullnet-server/src/db/models.rs and back, with
--                `serde_json` a parameter; Store has the tables of
--                members/nullnet-server/src/db/stacks.rs as lists, with the counters of
--                AUTOINCREMENT and the UNIQUE constraints; the order in which SQLite answers a SELECT
--                without an ORDER BY is a parameter. Saved, Loaded, Tables, Own, Orders, Columns and
--                RoundTrip follow a configuration into the tables and back.
--   Bundles      members/nullnet-server/src/nullnet_grpc_impl.rs: the ports and the routes that the
--                server sends, made of what Config loaded. Resolved joins the bundle of routes to the
--                proxy's Routes.
--
-- A map is an association list, an integer of w bits a number with its wrap-around written out where
-- the code can wrap, or with the panic of an overflow where the code is checked. No definition runs on
-- fuel but the digits of a number in Prelude.Texts, which gets one more unit than the number.
--
-- A function that runs under a lock is a function of the state that the lock guards; a call of the
-- orchestrator that sends a message or writes the log is an effect in a list.
--
-- Not modelled: the other tables of the database, the HTTP interface, certificates and DNS providers,
-- the commands that drive the kernel, the packet queues, authentication, the building of chains in the
-- orchestrator, and all sockets and streams, which are input and output around the parts above.
pub mod Prelude
pub mod Addr
pub mod NetIdPool
pub mod NetExt
pub mod Clients
pub mod Congestion
pub mod HostFirewall
pub mod Filter
pub mod Routes
pub mod Services
pub mod Backend
pub mod Egress
pub mod Timeouts
pub mod Config
pub mod Bundles
pub mod Policy
