-- ===== src/Egress/Tests.antt =====
-- Runs of the egress edges, and the theorems at such inputs.
use nullnet.Prelude.{
  List, [], codes, count, false, get, insert, none, refl, remove, tally, ℕ, ◌+◌, ◌∷◌, ◌≡◌, pair_eq,
  text_eq, option_eq, nat_eq,
}
use nullnet.Addr.{IpAddr, v4, ip_eq}
use nullnet.Egress.{reserve_egress_edge, promote, teardown_egress_edges_for_node}
use nullnet.Egress.Builds.{
  persisted_at, System, start, Event, triggered, given, completed, node_left, reported, step, run,
}
use nullnet.Egress.Counts.{live, building, torn, closed}
use nullnet.Egress.Interleavings.{ids_accounted}
use nullnet.Egress.Reports.{set_egress_liveness}

abbrev node : ℕ → IpAddr
node d = v4 (record { a = 10; b = 0; c = 0; d = d })

-- The second trigger finds the edge of the first; a third takes another replica, whose node leaves
-- while the build is under way.
abbrev events : List Event
events =
    triggered 0 (codes "prod") (codes "A") (node 1) none (node 9)
    ∷ triggered 10 (codes "prod") (codes "A") (node 1) none (node 9)
    ∷ given 0 0
    ∷ triggered 20 (codes "prod") (codes "B") (node 2) none (node 9)
    ∷ given 2 1
    ∷ completed 30 0
    ∷ persisted_at (node 1, none)
    ∷ reported 40 (node 1, none) false
    ∷ node_left (node 2)
    ∷ completed 50 2
    ∷ []

abbrev final : System
final = run events start

one_live : live 101 final.edges ≡ 1
unfolding run step reserve_egress_edge promote teardown_egress_edges_for_node set_egress_liveness
    get insert remove tally
one_live = refl

one_torn : torn 102 final.effects ≡ 1
unfolding run step reserve_egress_edge promote teardown_egress_edges_for_node set_egress_liveness
    get insert remove tally
one_torn = refl

ids_accounted_example :
    (count 102 final.allocated
      ≡ live 102 final.edges + building 102 final.builds + torn 102 final.effects)
    × (count 102 final.built ≡ live 102 final.edges + closed 102 final.effects)
ids_accounted_example = ids_accounted events 102
