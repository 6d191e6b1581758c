-- ===== src/Egress.antt =====
-- members/nullnet-server/src/orchestrator.rs: the edges of outgoing traffic, one for each replica
-- that starts connections. An `Instant` is a number of milliseconds and a `Uuid` a number; both are
-- arguments where the code draws them. A function here is what runs under one lock of the table, with
-- the messages that are sent just before and after it.
pub mod Reports
pub mod Builds
pub mod Counts
pub mod Balance
pub mod Accounts
pub mod Interleavings
mod Tests
use nullnet.Prelude.{
  Bool, List, Map, Option, Text, [], any, eqb, false, get, if◌then◌else◌, insert, leb, ltb, map,
  none, not, some, true, ℕ, ◌&&◌, ◌++◌, ◌-◌, ◌/◌, ◌==◌, ◌||◌, ◌∷◌, pair_eq, text_eq, option_eq,
  nat_eq,
}
use nullnet.Addr.{Ipv4Addr, IpAddr, ip_eq, v4_eq}
use nullnet.Backend.{Sessions}
use nullnet.Services.Members.{is_some}
use nullnet.Services.Views.{least}

abbrev pub EgressKey : Type 0
EgressKey = IpAddr × Option Text

pub record DestStat : Type 0 where
  pub last_seen : ℕ
  pub count : ℕ
  pub blocked : Bool
  pub active : Bool

-- `net_id` is 0 while the edge is reserved for a build.
pub record EgressEdge : Type 0 where
  pub setup_ms : ℕ
  pub generation : ℕ
  pub net_id : ℕ
  pub stack : Text
  pub service : Text
  pub initiator_ip : IpAddr
  pub initiator_docker : Option Text
  pub proxy_ip : IpAddr
  pub destinations : Map Ipv4Addr DestStat
  pub idle_since : Option ℕ
  pub reserved_at : ℕ

abbrev pub Edges : Type 0
Edges = Map EgressKey EgressEdge

-- What is sent, logged and stored. A teardown is `send_net_teardown` of the initiator and the proxy.
pub data Effect : Type 0 where
  reclaimed : (service : Text) → IpAddr → (seconds : ℕ) → Effect
  setup_timeout : (net_id : ℕ) → (service : Text) → Effect
  net_teardown : IpAddr → Option Text → (proxy : IpAddr) → (net_id : ℕ) → Effect
  close_edge : (net_id : ℕ) → Effect
  destination : EgressEdge → EgressKey → Ipv4Addr → DestStat → Effect

abbrev pub edge_claim_timeout : ℕ
edge_claim_timeout = 90_000

abbrev pub max_dests_per_edge : ℕ
max_dests_per_edge = 256

-- A call of `ensure_egress_edge`.
pub record Trigger : Type 0 where
  pub generation : ℕ
  pub stack : Text
  pub service : Text
  pub initiator_ip : IpAddr
  pub initiator_docker : Option Text
  pub proxy_ip : IpAddr

abbrev pub key_of : Trigger → EgressKey
key_of t = (t.initiator_ip, t.initiator_docker)

abbrev pub reservation : (now : ℕ) → Trigger → EgressEdge
reservation now t = record {
  setup_ms = 0;
  generation = t.generation;
  net_id = 0;
  stack = t.stack;
  service = t.service;
  initiator_ip = t.initiator_ip;
  initiator_docker = t.initiator_docker;
  proxy_ip = t.proxy_ip;
  destinations = [];
  idle_since = none;
  reserved_at = now;
}

-- A live edge, or a build that may still end.
abbrev pub is_claimed : (now : ℕ) → EgressEdge → Bool
is_claimed now e = not (eqb e.net_id 0) || ltb (now - e.reserved_at) edge_claim_timeout

abbrev pub reserve_over :
    (now : ℕ) → Trigger → Option EgressEdge → Edges → Option (Edges × List Effect)
reserve_over now t none m = some (insert (key_of t) (reservation now t) m, [])
reserve_over now t (some e) m =
    if is_claimed now e
    then none
    else some (
      insert (key_of t) (reservation now t) m,
      reclaimed t.service t.initiator_ip ((now - e.reserved_at) / 1000) ∷ [],
    )

-- The slot is taken before the build; `none` is `Ok(false)`, an edge that is there already.
unfoldable pub reserve_egress_edge : (now : ℕ) → Trigger → Edges → Option (Edges × List Effect)
reserve_egress_edge now t m = reserve_over now t (get (key_of t) m) m

unfoldable pub drop_edges : (EgressKey → EgressEdge → Bool) → Edges → Edges
drop_edges p [] = []
drop_edges p ((k, e) ∷ m) = if p k e then drop_edges p m else (k, e) ∷ drop_edges p m

unfoldable pub dropped_edges : (EgressKey → EgressEdge → Bool) → Edges → List EgressEdge
dropped_edges p [] = []
dropped_edges p ((k, e) ∷ m) = if p k e then e ∷ dropped_edges p m else dropped_edges p m

abbrev pub close_rows : EgressEdge → List Effect
close_rows e = if eqb e.net_id 0 then [] else close_edge e.net_id ∷ []

unfoldable pub closed_rows : List EgressEdge → List Effect
closed_rows [] = []
closed_rows (e ∷ es) = close_rows e ++ closed_rows es

-- With the edges that were removed.
unfoldable pub remove_egress_edges :
    (EgressKey → EgressEdge → Bool) → Edges → Edges × List EgressEdge × List Effect
unfolding drop_edges dropped_edges closed_rows
remove_egress_edges p m = (drop_edges p m, dropped_edges p m, closed_rows (dropped_edges p m))

abbrev pub is_build : Trigger → EgressKey → EgressEdge → Bool
is_build t k e = k == key_of t && eqb e.generation t.generation

-- No ID is left, or the setup of `net_id` failed.
unfoldable pub build_failed : Trigger → Option ℕ → Edges → Edges × List Effect
unfolding remove_egress_edges
build_failed t net_id m =
    let (m', gone, rows) = remove_egress_edges (is_build t) m in
    elim net_id [
      | none ↦ (m', rows)
      | some id ↦ (
        m',
        setup_timeout id t.service
            ∷ net_teardown t.initiator_ip t.initiator_docker t.proxy_ip id
            ∷ rows,
      )
    ]

abbrev pub promoted : (now net_id : ℕ) → EgressEdge → EgressEdge
promoted now net_id e = record e { net_id = net_id; setup_ms = now - e.reserved_at }

abbrev pub unwound : Trigger → (net_id : ℕ) → Edges → Edges × List Effect × Bool
unwound t net_id m =
    (m, net_teardown t.initiator_ip t.initiator_docker t.proxy_ip net_id ∷ [], false)

abbrev pub promote_found :
    (now : ℕ) → Trigger → (net_id : ℕ) → Option EgressEdge → Edges → Edges × List Effect × Bool
promote_found now t net_id none m = unwound t net_id m
promote_found now t net_id (some e) m =
    if eqb e.generation t.generation
    then (insert (key_of t) (promoted now net_id e) m, [], true)
    else unwound t net_id m

-- The end of a build whose two ends are set up; `true` is a new edge.
unfoldable pub promote : (now : ℕ) → Trigger → (net_id : ℕ) → Edges → Edges × List Effect × Bool
promote now t net_id m = promote_found now t net_id (get (key_of t) m) m

-- The rows of what was contacted while the edge was reserved.
abbrev pub persisted : EgressKey → Option EgressEdge → List Effect
persisted k none = []
persisted k (some e) =
    if eqb e.net_id 0 then [] else map (λ (ip, stat). destination e k ip stat) e.destinations

unfoldable pub persist_edge_destinations : EgressKey → Edges → List Effect
persist_edge_destinations k m = persisted k (get k m)

abbrev pub teardown_edge : EgressEdge → List Effect
teardown_edge e =
    if eqb e.net_id 0
    then []
    else net_teardown e.initiator_ip e.initiator_docker e.proxy_ip e.net_id ∷ []

unfoldable pub teardowns : List EgressEdge → List Effect
teardowns [] = []
teardowns (e ∷ es) = teardown_edge e ++ teardowns es

unfoldable pub teardown_where : (EgressKey → EgressEdge → Bool) → Edges → Edges × List Effect
unfolding remove_egress_edges teardowns
teardown_where p m = let (m', gone, rows) = remove_egress_edges p m in (m', rows ++ teardowns gone)

abbrev pub is_on_node : IpAddr → EgressKey → EgressEdge → Bool
is_on_node node k e = e.initiator_ip == node || e.proxy_ip == node

unfoldable pub teardown_egress_edges_for_node : IpAddr → Edges → Edges × List Effect
unfolding teardown_where
teardown_egress_edges_for_node node m = teardown_where (is_on_node node) m

abbrev pub is_gone : List Text → Option Text → Bool
is_gone containers none = false
is_gone containers (some c) = not (any (λ d. d == c) containers)

unfoldable pub teardown_egress_edges_for_missing_containers :
    IpAddr → (containers : List Text) → Edges → Edges × List Effect
unfolding teardown_where
teardown_egress_edges_for_missing_containers node containers m =
    teardown_where (λ k e. e.initiator_ip == node && is_gone containers e.initiator_docker) m

abbrev pub idle_for : (now debounce : ℕ) → Option ℕ → Bool
idle_for now debounce none = false
idle_for now debounce (some since) = leb debounce (now - since)

unfoldable pub reap_idle_egress_edges : (now debounce : ℕ) → Edges → Edges × List Effect
unfolding teardown_where
reap_idle_egress_edges now debounce m =
    teardown_where (λ k e. not (eqb e.net_id 0) && idle_for now debounce e.idle_since) m
