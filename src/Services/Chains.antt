-- ===== src/Services/Chains.antt =====
-- The dependency chains of a service: members/nullnet-server/src/services/changes.rs.
use nullnet.Prelude.{
  Bool, List, Map, Option, Text, [], all, any, eqb, false, get, map, none, some, true, ℕ, ◌&&◌,
  ◌++◌, ◌==◌, ◌>>=◌, ◌∷◌, nat_eq, text_eq, option_eq,
}
use nullnet.Addr.{IpAddr, ip_eq}
use nullnet.Clients.Info.{Client, new_service}
use nullnet.Services.{ServiceInfo, unregistered, registered, proxy_deps, triggers}
use nullnet.Services.Members.{is_some, pending_notify}
use nullnet.Services.Registry.{retain}
use nullnet.Services.Views.{client_replica_live}

-- `HashMap<String, ServiceInfo>`: the services of a stack.
abbrev pub ServiceMap : Type 0
ServiceMap = Map Text ServiceInfo

-- An edge: the client that it makes, and the service that it leads to.
abbrev pub Edge : Type 0
Edge = Client × Text

abbrev pub Identity : Type 0
Identity = IpAddr × Option Text

abbrev pub hop_of : Client → Option ServiceInfo → Option Identity
hop_of client (some (registered reg)) = client_replica_live client reg
hop_of client (some (unregistered u)) = none
hop_of client none = none

abbrev pub live_hop : ServiceMap → Edge → Option Identity
live_hop services (client, dep) = hop_of client (get dep services)

unfoldable pub emit_edge_and_probe_hop :
    List Edge → Text → Identity → Text → ServiceMap → List Edge × Option Identity
unfolding new_service
emit_edge_and_probe_hop edges name (ip, docker) dep services =
    let edge : Edge = (new_service name ip docker, dep) in
    (edges ++ (edge ∷ []), live_hop services edge)

module _ (services : ServiceMap) where
  -- One branch, up to the first hop that is missing, which is emitted too.
  unfoldable pub walk_branch : List Edge → Text → Identity → List Text → List Edge
  unfolding emit_edge_and_probe_hop
  walk_branch edges name at [] = edges
  walk_branch edges name at (dep ∷ deps) =
      let step = emit_edge_and_probe_hop edges name at dep services in
      elim (step.1) [ none ↦ step.0 | some next ↦ walk_branch (step.0) dep next deps ]

  unfoldable pub walk_branches : List Edge → Text → Identity → List (List Text) → List Edge
  unfolding walk_branch
  walk_branches edges name at [] = edges
  walk_branches edges name at (branch ∷ branches) =
      walk_branches (walk_branch edges name at branch) name at branches

abbrev pub branches_of : Option ServiceInfo → List (List Text)
branches_of none = []
branches_of (some si) = proxy_deps si

unfoldable pub collect_dep_chain_edges : Text → Identity → ServiceMap → List Edge
unfolding walk_branches
collect_dep_chain_edges name at services =
    walk_branches services [] name at (branches_of (get name services))

unfoldable pub dep_chain_intact : Text → Identity → ServiceMap → Bool
dep_chain_intact name at services =
    all (λ edge. is_some (live_hop services edge)) (collect_dep_chain_edges name at services)

abbrev pub pending_in : Client → Option ServiceInfo → Bool
pending_in client (some (registered reg)) = is_some (pending_notify client reg)
pending_in client (some (unregistered u)) = false
pending_in client none = false

unfoldable pub dep_chain_has_pending : Text → Identity → ServiceMap → Bool
dep_chain_has_pending name at services =
    any (λ (client, dep). pending_in client (get dep services))
      (collect_dep_chain_edges name at services)

abbrev is_none_or {ℓ} : {A : Type ℓ} → Option A → (A → Bool) → Bool
is_none_or none p = true
is_none_or (some a) p = p a

abbrev pub triggers_of : Option ServiceInfo → Map ℕ Text
triggers_of none = []
triggers_of (some si) = triggers si

-- The triggers of a service that pass both filters.
unfoldable pub matching_triggers :
    Text → (only_through : Option Text) → (only_port : Option ℕ) → ServiceMap → Map ℕ Text
unfolding retain
matching_triggers name only_through only_port services =
    retain
      (λ (port, peer).
        is_none_or only_port (λ p. eqb port p) && is_none_or only_through (λ dep. peer == dep))
      (triggers_of (get name services))

unfoldable pub matching_trigger_ports : Text → Option Text → Option ℕ → ServiceMap → List ℕ
unfolding matching_triggers
matching_trigger_ports name only_through only_port services =
    map (λ (port, peer). port) (matching_triggers name only_through only_port services)

-- `services[name].triggers()[&port]`; `none` is its panic.
abbrev pub trigger_at : Text → ServiceMap → ℕ → Option Text
trigger_at name services port = do si ← get name services; get port (triggers si)

unfoldable pub trigger_edges : Client → Text → ServiceMap → List ℕ → Option (List Edge)
trigger_edges client name services [] = some []
trigger_edges client name services (port ∷ ports) = do
  peer ← trigger_at name services port
  rest ← trigger_edges client name services ports
  some ((client, peer) ∷ rest)

-- One edge for each matching trigger.
unfoldable pub collect_backend_chain_edges :
    Text → Identity → Option Text → Option ℕ → ServiceMap → Option (List Edge)
unfolding matching_trigger_ports trigger_edges new_service
collect_backend_chain_edges name (ip, docker) only_through only_port services =
    trigger_edges (new_service name ip docker) name services
      (matching_trigger_ports name only_through only_port services)
