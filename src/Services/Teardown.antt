-- ===== src/Services/Teardown.antt =====
-- Teardown of chains: members/nullnet-server/src/services/changes.rs. `none` is a panic of a table
-- of clients.
use nullnet.Prelude.{
  Bool, List, Option, Text, [], any, eqb, false, get, if◌then◌else◌, insert, map, none, some, ℕ,
  ◌++◌, ◌>>=◌, ◌∷◌, nat_eq, text_eq, option_eq,
}
use nullnet.Addr.{IpAddr, ip_eq}
use nullnet.Backend.{Sessions}
use nullnet.Clients.Info.{Client, ClientInfo}
use nullnet.Services.{Replica, RegisteredServiceInfo, ServiceInfo, unregistered, registered}
use nullnet.Services.Chains.{ServiceMap, Identity, Edge, collect_dep_chain_edges}
use nullnet.Services.Changes.{ProxyFilter, matches}
use nullnet.Services.Members.{NetTeardown, teardown_of, decrement_chain, remove_client}
use nullnet.Services.Registry.{retain}
use nullnet.Services.Views.{identity, all_clients_owned, has_clients_with_net_id}

-- What the code sends, stores and reports on the way.
pub data Effect : Type 0 where
  net_teardown : NetTeardown → Effect
  close_ingress : (net_id : ℕ) → (service peer : Text) → Effect
  close_backend : (history : Option ℕ) → Effect
  session_torn_down : (net_id : ℕ) → Text → IpAddr → Effect
  service_unregistered : Text → Effect
  service_reachability_toggled : Text → Bool → Effect
  all_replicas_removed : Text → IpAddr → Effect
  proxy_client_timed_out : Text → Client → Effect

-- The services of a stack, the sessions of backend triggers, and the effects so far.
pub record World : Type 0 where
  pub services : ServiceMap
  pub sessions : Sessions
  pub effects : List Effect

abbrev pub emit : List Effect → World → World
emit out w = record w { effects = w.effects ++ out }

abbrev pub set_service : Text → ServiceInfo → World → World
set_service name si w = record w { services = insert name si w.services }

-- A step for each of a list.
unfoldable pub for_each {ℓ} :
    {A : Type ℓ} → (A → World → Option World) → List A → World → Option World
for_each f [] w = some w
for_each f (x ∷ xs) w = f x w >>= for_each f xs

unfoldable pub decrement_at : Edge → Option ServiceInfo → World → Option World
unfolding decrement_chain
decrement_at (client, dep) (some (registered reg)) w = decrement_chain client reg >>= λ (reg', out).
    some (emit (map net_teardown out) (set_service dep (registered reg') w))
decrement_at (client, dep) (some (unregistered u)) w = some w
decrement_at (client, dep) none w = some w

unfoldable pub decrement_edge : Edge → World → Option World
unfolding decrement_at
decrement_edge (client, dep) w = decrement_at (client, dep) (get dep w.services) w

unfoldable pub teardown_dep_chain : Text → Identity → World → Option World
unfolding for_each decrement_edge collect_dep_chain_edges
teardown_dep_chain name at w =
    for_each decrement_edge (collect_dep_chain_edges name at w.services) w

-- The entries that are torn down.
abbrev pub Owned : Type 0
Owned = Client × ClientInfo × Replica

unfoldable pub proxy_teardowns : ProxyFilter → RegisteredServiceInfo → List Owned
unfolding all_clients_owned retain matches
proxy_teardowns filter reg =
    retain (λ (c, ci, r). matches filter c (identity r)) (all_clients_owned reg)

unfoldable pub remove_all : List Owned → RegisteredServiceInfo → Option RegisteredServiceInfo
unfolding remove_client
remove_all [] reg = some reg
remove_all ((c, ci, r) ∷ gone) reg = remove_client c reg >>= remove_all gone

unfoldable pub remove_clients_at : Text → Option ServiceInfo → List Owned → World → Option World
unfolding remove_all
remove_clients_at name (some (registered reg)) gone w =
    remove_all gone reg >>= λ reg'. some (set_service name (registered reg') w)
remove_clients_at name (some (unregistered u)) gone w = some w
remove_clients_at name none gone w = some w

abbrev pub is_shared : ℕ → Option ServiceInfo → Bool
is_shared net_id (some (registered reg)) = has_clients_with_net_id net_id reg
is_shared net_id (some (unregistered u)) = false
is_shared net_id none = false

-- The history rows of the entries, one for each.
unfoldable pub history_closed : Text → List Owned → List Effect
history_closed name gone = map (λ (c, ci, r). close_ingress ci.net_id name c.name) gone

module _ (routine : Bool) (name : Text) where
  unfoldable pub net_effects : Owned → List Effect
  net_effects (c, ci, r) =
      net_teardown (teardown_of ci r)
      ∷ (if routine then session_torn_down ci.net_id name ci.client_ip ∷ [] else [])

  -- The networks of the entries, each once, and none that a client still uses.
  unfoldable pub free_networks : Option ServiceInfo → (seen : List ℕ) → List Owned → List Effect
  unfolding net_effects has_clients_with_net_id
  free_networks si seen [] = []
  free_networks si seen ((c, ci, r) ∷ gone) =
      let rest = free_networks si (ci.net_id ∷ seen) gone in
      if any (λ id. eqb id ci.net_id) seen
      then rest
      else if is_shared ci.net_id si
      then rest
      else net_effects (c, ci, r) ++ rest

  abbrev pub networks_freed : List Owned → World → World
  networks_freed gone w =
      emit (history_closed name gone ++ free_networks (get name w.services) [] gone) w

  unfoldable pub teardown_owned : List Owned → World → Option World
  unfolding for_each teardown_dep_chain remove_clients_at free_networks history_closed
  teardown_owned gone w = do
    walked ← for_each (λ ((c, ci, r) : Owned). teardown_dep_chain name (identity r)) gone w
    cleared ← remove_clients_at name (get name walked.services) gone walked
    some (networks_freed gone cleared)

  unfoldable pub teardown_registered : ProxyFilter → Option ServiceInfo → World → Option World
  unfolding teardown_owned proxy_teardowns
  teardown_registered filter (some (registered reg)) w =
      teardown_owned (proxy_teardowns filter reg) w
  teardown_registered filter (some (unregistered u)) w = some w
  teardown_registered filter none w = some w

unfoldable pub teardown_chain : Bool → Text → ProxyFilter → World → Option World
unfolding teardown_registered
teardown_chain routine name filter w =
    teardown_registered routine name filter (get name w.services) w
