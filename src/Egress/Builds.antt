-- ===== src/Egress/Builds.antt =====
-- Triggers, builds and removals of egress edges in any order, as they interleave between the locks:
-- members/nullnet-server/src/orchestrator.rs.
use nullnet.Prelude.{
  Bool, List, Map, Option, Text, [], get, if◌then◌else◌, insert, none, remove, some, ℕ, ◌++◌, ◌+◌,
  ◌∷◌, pair_eq, text_eq, option_eq, nat_eq,
}
use nullnet.Addr.{Ipv4Addr, IpAddr, ip_eq, v4_eq}
use nullnet.Egress.{
  persist_edge_destinations, EgressKey, DestStat, Edges, Effect, Trigger, reserve_egress_edge,
  build_failed, promote, teardown_egress_edges_for_node,
  teardown_egress_edges_for_missing_containers, reap_idle_egress_edges,
}
use nullnet.Egress.Reports.{record_egress_destination, set_egress_liveness}
use nullnet.NetIdPool.{min_net_id}

-- The builds under way by their generation, with the ID that each was given; `drawn` generations
-- were drawn, each once. `allocated` has the IDs that were given, and `built` those of the builds
-- that became edges.
pub record System : Type 0 where
  pub edges : Edges
  pub builds : Map ℕ (Trigger × Option ℕ)
  pub drawn : ℕ
  pub effects : List Effect
  pub allocated : List ℕ
  pub built : List ℕ

abbrev pub start : System
start = record { edges = []; builds = []; drawn = 0; effects = []; allocated = []; built = [] }

-- `ensure_egress_edge` takes the lock in `triggered`, in `failed` or `completed`, and in
-- `persisted_at`; its wait for an ID ends in `given` or `exhausted`. The pool's IDs are `min_net_id`
-- and more.
pub data Event : Type 0 where
  triggered : (now : ℕ) → (stack service : Text) → IpAddr → Option Text → (proxy : IpAddr) → Event
  given : (generation above : ℕ) → Event
  exhausted failed : (generation : ℕ) → Event
  completed : (now generation : ℕ) → Event
  node_left : IpAddr → Event
  containers_left : IpAddr → (containers : List Text) → Event
  reaped : (now debounce : ℕ) → Event
  contacted : EgressKey → Ipv4Addr → DestStat → Event
  persisted_at : EgressKey → Event
  reported : (now : ℕ) → EgressKey → (active : Bool) → Event

abbrev pub with_edges : Edges × List Effect → System → System
with_edges (m, out) s = record s { edges = m; effects = out ++ s.effects }

abbrev pub start_build : Trigger → Option (Edges × List Effect) → System → System
start_build t none s = record s { drawn = s.drawn + 1 }
start_build t (some r) s = record (with_edges r s) {
  builds = insert t.generation (t, none) s.builds;
  drawn = s.drawn + 1;
}

abbrev pub give : ℕ → ℕ → Option (Trigger × Option ℕ) → System → System
give g id (some (t, none)) s = record s {
  builds = insert g (t, some id) s.builds;
  allocated = id ∷ s.allocated;
}
give g id (some (t, some other)) s = s
give g id none s = s

abbrev pub end_build : ℕ → System → System
end_build g s = record s { builds = remove g s.builds }

abbrev pub exhaust : ℕ → Option (Trigger × Option ℕ) → System → System
exhaust g (some (t, none)) s = with_edges (build_failed t none s.edges) (end_build g s)
exhaust g (some (t, some id)) s = s
exhaust g none s = s

abbrev pub fail : ℕ → Option (Trigger × Option ℕ) → System → System
fail g (some (t, some id)) s = with_edges (build_failed t (some id) s.edges) (end_build g s)
fail g (some (t, none)) s = s
fail g none s = s

abbrev pub finish : ℕ → ℕ → Edges × List Effect × Bool → System → System
finish g id (m, out, is_new) s =
    let s' = with_edges (m, out) (end_build g s) in
    record s' { built = if is_new then id ∷ s.built else s.built }

abbrev pub complete : ℕ → ℕ → Option (Trigger × Option ℕ) → System → System
complete now g (some (t, some id)) s = finish g id (promote now t id s.edges) s
complete now g (some (t, none)) s = s
complete now g none s = s

abbrev pub drawn_trigger : System → (stack service : Text) → IpAddr → Option Text → IpAddr → Trigger
drawn_trigger s stack service ip docker proxy = record {
  generation = s.drawn;
  stack = stack;
  service = service;
  initiator_ip = ip;
  initiator_docker = docker;
  proxy_ip = proxy;
}

unfoldable pub step : Event → System → System
unfolding reserve_egress_edge build_failed promote teardown_egress_edges_for_node
    teardown_egress_edges_for_missing_containers reap_idle_egress_edges persist_edge_destinations
    record_egress_destination set_egress_liveness
step (triggered now stack service ip docker proxy) s =
    let t = drawn_trigger s stack service ip docker proxy in
    start_build t (reserve_egress_edge now t s.edges) s
step (given g above) s = give g (min_net_id + above) (get g s.builds) s
step (exhausted g) s = exhaust g (get g s.builds) s
step (failed g) s = fail g (get g s.builds) s
step (completed now g) s = complete now g (get g s.builds) s
step (node_left ip) s = with_edges (teardown_egress_edges_for_node ip s.edges) s
step (containers_left ip containers) s =
    with_edges (teardown_egress_edges_for_missing_containers ip containers s.edges) s
step (reaped now debounce) s = with_edges (reap_idle_egress_edges now debounce s.edges) s
step (contacted key ip stat) s = with_edges (record_egress_destination key ip stat s.edges) s
step (persisted_at key) s = with_edges (s.edges, persist_edge_destinations key s.edges) s
step (reported now key active) s = record s { edges = set_egress_liveness now key active s.edges }

unfoldable pub run : List Event → System → System
unfolding step
run [] s = s
run (e ∷ es) s = run es (step e s)
