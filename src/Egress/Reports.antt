-- ===== src/Egress/Reports.antt =====
-- What the clients report of an edge, and what the loop of timeouts reads of the edges:
-- members/nullnet-server/src/orchestrator.rs.
use nullnet.Prelude.{
  Bool, List, Map, Option, Text, [], any, eqb, get, if◌then◌else◌, insert, leb, length, ltb, none,
  remove, some, ℕ, ◌&&◌, ◌++◌, ◌-◌, ◌==◌, ◌||◌, ◌∷◌, pair_eq, text_eq, option_eq, nat_eq,
}
use nullnet.Addr.{Ipv4Addr, IpAddr, ip_eq, v4_eq}
use nullnet.Backend.{Sessions}
use nullnet.Services.Members.{is_some}
use nullnet.Services.Views.{least}
use nullnet.Egress.{EgressKey, DestStat, EgressEdge, Edges, Effect, destination, max_dests_per_edge}

-- A destination more; the one that was seen least recently makes room for it.
abbrev evict : Option (Ipv4Addr × DestStat) → Map Ipv4Addr DestStat → Map Ipv4Addr DestStat
evict none m = m
evict (some (ip, stat)) m = remove ip m

unfoldable pub with_room : Map Ipv4Addr DestStat → Map Ipv4Addr DestStat
with_room m =
    if leb max_dests_per_edge (length m)
    then evict (least (λ (i, a) (j, b). ltb a.last_seen b.last_seen) m) m
    else m

abbrev pub record_stat :
    Ipv4Addr → DestStat → Option DestStat → Map Ipv4Addr DestStat → Map Ipv4Addr DestStat
record_stat ip stat (some old) m = insert ip stat m
record_stat ip stat none m = insert ip stat (with_room m)

abbrev pub with_stat : Ipv4Addr → DestStat → EgressEdge → EgressEdge
with_stat ip stat e = record e {
  destinations = record_stat ip stat (get ip e.destinations) e.destinations;
}

abbrev pub stored : EgressKey → Ipv4Addr → DestStat → EgressEdge → List Effect
stored key ip stat e = if eqb e.net_id 0 then [] else destination e key ip stat ∷ []

abbrev pub recorded :
    EgressKey → Ipv4Addr → DestStat → Option EgressEdge → Edges → Edges × List Effect
recorded key ip stat none m = (m, [])
recorded key ip stat (some e) m =
    (insert key (with_stat ip stat e) m, stored key ip stat (with_stat ip stat e))

unfoldable pub record_egress_destination :
    EgressKey → Ipv4Addr → DestStat → Edges → Edges × List Effect
unfolding with_room
record_egress_destination key ip stat m = recorded key ip stat (get key m) m

abbrev pub with_liveness : (now : ℕ) → (active : Bool) → EgressEdge → EgressEdge
with_liveness now active e = record e { idle_since = if active then none else some now }

abbrev pub report : (now : ℕ) → EgressKey → Bool → Option EgressEdge → Edges → Edges
report now key active none m = m
report now key active (some e) m = insert key (with_liveness now active e) m

unfoldable pub set_egress_liveness : (now : ℕ) → EgressKey → (active : Bool) → Edges → Edges
set_egress_liveness now key active m = report now key active (get key m) m

abbrev pub waits : (now debounce : ℕ) → EgressEdge → List ℕ
waits now debounce e =
    if eqb e.net_id 0
    then []
    else elim e.idle_since [ none ↦ [] | some since ↦ (debounce - (now - since)) ∷ [] ]

unfoldable pub egress_waits : (now debounce : ℕ) → Edges → List ℕ
egress_waits now debounce [] = []
egress_waits now debounce ((k, e) ∷ m) = waits now debounce e ++ egress_waits now debounce m

unfoldable pub nearest_egress_expiry : (now debounce : ℕ) → Edges → Option ℕ
unfolding egress_waits
nearest_egress_expiry now debounce m = least ltb (egress_waits now debounce m)

-- A session or an edge that keeps its container running.
unfoldable pub has_outgoing_work : IpAddr → (container : Text) → Sessions → Edges → Bool
has_outgoing_work ip container sessions m =
    any (λ (k, s). k.ip == ip && k.docker == some container) sessions
    || is_some (get (ip, some container) m)
