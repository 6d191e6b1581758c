-- ===== src/Services/Apply.antt =====
-- The changes applied to a stack: members/nullnet-server/src/services/changes.rs. `none` is a panic
-- of a table of clients.
use nullnet.Prelude.{
  Bool, List, Option, Text, [], all, eqb, false, get, if◌then◌else◌, insert, length, map, none,
  remove, some, true, ℕ, ◌&&◌, ◌++◌, ◌==◌, ◌>>=◌, ◌||◌, ◌∷◌, nat_eq, text_eq, option_eq,
}
use nullnet.Addr.{IpAddr, ip_eq}
use nullnet.Backend.{BackendKey, Sessions, cancel_backend_build, forget_backend_sessions}
use nullnet.Clients.Info.{Client}
use nullnet.Services.{
  Replica, RegisteredServiceInfo, ServiceInfo, unregistered, registered, deps_contain, new,
  with_pausable, pausable, timeout, max_networks, protocol, listen_port, egress_policy,
  ingress_policy, proxy_deps, triggers,
}
use nullnet.Services.Chains.{
  ServiceMap, Identity, Edge, collect_backend_chain_edges, matching_trigger_ports,
}
use nullnet.Services.Changes.{
  ServiceChange, ProxyFilter, everyone, by_ip, by_client, on_replica, on_ip, has_client_of_proxy,
}
use nullnet.Services.Registry.{retain, remove_replica, remove_replicas_on_ip, update_from_file}
use nullnet.Services.Teardown.{
  Effect, World, emit, set_service, for_each, decrement_edge, teardown_chain,
}
use nullnet.Services.Views.{identity, service_clients_on_ip, service_clients_on_replica}

abbrev pub backend_key : Text → Identity → ℕ → BackendKey
backend_key name at port = record { service = name; ip = at.0; docker = at.1; port = port }

-- The edges of the ports whose build was not cancelled just now; a build that was unwinds itself.
unfoldable pub edges_to_release :
    Text → Identity → Option Text → List ℕ → ServiceMap → Sessions → Option (Sessions × List Edge)
unfolding cancel_backend_build collect_backend_chain_edges
edges_to_release name at only_through [] services sessions = some (sessions, [])
edges_to_release name at only_through (port ∷ ports) services sessions =
    let (sessions', cancelled) = cancel_backend_build (backend_key name at port) sessions in
    let rest = edges_to_release name at only_through ports services sessions' in
    if cancelled then rest else do
      own ← collect_backend_chain_edges name at only_through (some port) services
      (final, edges) ← rest
      some (final, own ++ edges)

abbrev pub set_sessions : Sessions → World → World
set_sessions s w = record w { sessions = s }

abbrev pub forget : Text → Identity → List ℕ → World → World
forget name at ports w =
    let (s, rows) = forget_backend_sessions name (at.0) (at.1) ports w.sessions in
    emit (map Effect.close_backend rows) (set_sessions s w)

unfoldable pub teardown_backend_chain :
    Text → Identity → (only_through : Option Text) → (only_port : Option ℕ) → World → Option World
unfolding edges_to_release matching_trigger_ports for_each decrement_edge forget_backend_sessions
teardown_backend_chain name at only_through only_port w =
    let ports = matching_trigger_ports name only_through only_port w.services in
    do
      (sessions, edges) ← edges_to_release name at only_through ports w.services w.sessions
      w' ← for_each decrement_edge edges (set_sessions sessions w)
      some (forget name at ports w')

-- Any connection that held the chain is gone.
unfoldable pub release_backend_chain : Text → Identity → ℕ → World → Option World
unfolding teardown_backend_chain
release_backend_chain name at port w = teardown_backend_chain name at none (some port) w

abbrev pub replicas_at : Option ServiceInfo → List Replica
replicas_at (some (registered reg)) = reg.replicas
replicas_at (some (unregistered u)) = []
replicas_at none = []

unfoldable pub teardown_all_backend_chains_for : Text → Option Text → World → Option World
unfolding for_each teardown_backend_chain
teardown_all_backend_chains_for name only_through w =
    for_each (λ at. teardown_backend_chain name at only_through none)
      (map identity (replicas_at (get name w.services))) w

abbrev pub is_registered : ServiceInfo → Bool
is_registered (registered reg) = true
is_registered (unregistered u) = false

unfoldable pub services_to_cleanup : Text → ServiceMap → List Text
unfolding retain deps_contain
services_to_cleanup invalidated services =
    map (λ (name, si). name)
      (retain (λ (name, si). invalidated == name || is_registered si && deps_contain invalidated si)
        services)

abbrev pub merged : ServiceInfo → Option ServiceInfo → ServiceInfo
merged loaded none = loaded
merged loaded (some existing) = update_from_file loaded existing

-- The declaration with no replica.
abbrev pub renewed : ServiceInfo → ServiceInfo
renewed si = with_pausable (pausable si) (
    new (proxy_deps si) (triggers si) (timeout si) (max_networks si) (protocol si) (listen_port si)
      (egress_policy si) (ingress_policy si))

abbrev pub reset_failed : Text → Option ServiceInfo → World → World
reset_failed name (some (registered reg)) w = set_service name (renewed (registered reg)) w
reset_failed name (some (unregistered u)) w = w
reset_failed name none w = w

module _ (routine : Bool) where
  unfoldable pub cleanup_service : (invalidated name : Text) → World → Option World
  unfolding teardown_chain teardown_all_backend_chains_for
  cleanup_service invalidated name w =
      teardown_chain routine name everyone w
      >>= teardown_all_backend_chains_for name
          (if name == invalidated then none else some invalidated)

  unfoldable pub teardown_invalidated_service : Text → (is_failed : Bool) → World → Option World
  unfolding for_each cleanup_service services_to_cleanup new
  teardown_invalidated_service invalidated is_failed w =
      for_each (cleanup_service invalidated) (services_to_cleanup invalidated w.services) w
      >>= λ w'.
          some (if is_failed then reset_failed invalidated (get invalidated w'.services) w' else w')

  abbrev pub affected_by : ProxyFilter → RegisteredServiceInfo → List Client
  affected_by (on_ip ip) reg = service_clients_on_ip ip reg
  affected_by (on_replica ip docker) reg = service_clients_on_replica ip docker reg
  affected_by _ reg = []

  abbrev pub teardown_source : Text → Client → Option Identity → World → Option World
  teardown_source name client none w = some w
  teardown_source name client (some (ip, docker)) w =
      teardown_chain routine client.name (on_replica ip docker) w
      >>= teardown_backend_chain client.name (ip, docker) (some name) none

  unfoldable pub partial_at : Text → ProxyFilter → Option ServiceInfo → World → Option World
  unfolding for_each teardown_chain teardown_backend_chain service_clients_on_ip
      service_clients_on_replica
  partial_at name filter (some (registered reg)) w =
      for_each (λ (c : Client). teardown_source name c c.replica) (affected_by filter reg) w
      >>= teardown_chain routine name filter
  partial_at name filter (some (unregistered u)) w = some w
  partial_at name filter none w = some w

  unfoldable pub teardown_partial_replicas : Text → ProxyFilter → World → Option World
  unfolding partial_at
  teardown_partial_replicas name filter w = partial_at name filter (get name w.services) w

  abbrev pub modify : Text → (ServiceInfo → ServiceInfo) → Option ServiceInfo → World → World
  modify name f none w = w
  modify name f (some si) w = set_service name (f si) w

  -- Replicas leave, of which some may be left.
  unfoldable pub leave :
      Text → ProxyFilter → List Identity → (ServiceInfo → ServiceInfo) → World → Option World
  unfolding for_each teardown_backend_chain teardown_partial_replicas
  leave name filter ats drop w = do
    w' ← for_each (λ at. teardown_backend_chain name at none none) ats w
    w'' ← teardown_partial_replicas name filter w'
    some (modify name drop (get name w''.services) w'')

  unfoldable pub drop_replicas : Text → IpAddr → List Replica → Bool → World → Option World
  unfolding retain leave teardown_invalidated_service remove_replicas_on_ip
  drop_replicas name ip replicas true w =
      teardown_invalidated_service name true (emit (Effect.all_replicas_removed name ip ∷ []) w)
  drop_replicas name ip replicas false w =
      leave name (on_ip ip)
        (map (λ r. (ip, r.docker_container)) (retain (λ r. r.ip == ip) replicas))
        (remove_replicas_on_ip ip) w

  abbrev pub all_on : IpAddr → Option ServiceInfo → Bool
  all_on ip (some (registered reg)) = all (λ r. r.ip == ip) reg.replicas
  all_on ip (some (unregistered u)) = false
  all_on ip none = false

  unfoldable pub drop_replica : Text → IpAddr → Option Text → Bool → World → Option World
  unfolding leave teardown_invalidated_service remove_replica
  drop_replica name ip docker true w = teardown_invalidated_service name true w
  drop_replica name ip docker false w =
      leave name (on_replica ip docker) ((ip, docker) ∷ []) (remove_replica ip docker) w

  abbrev pub when_routine : Effect → World → World
  when_routine e w = if routine then emit (e ∷ []) w else w

  unfoldable pub proxy_services : IpAddr → ServiceMap → List Text
  unfolding retain has_client_of_proxy
  proxy_services ip services =
      map (λ (name, si). name) (retain (λ (name, si). has_client_of_proxy ip si) services)

  abbrev single : Option ServiceInfo → Bool
  single si = eqb (length (replicas_at si)) 1

  abbrev pub forget_service : Text → World → World
  forget_service name w = record w { services = remove name w.services }

  unfoldable pub apply_change : ServiceChange → World → Option World
  unfolding teardown_invalidated_service teardown_all_backend_chains_for teardown_chain
      drop_replicas drop_replica proxy_services for_each
  apply_change (ServiceChange.removed name) w =
      teardown_invalidated_service name true (when_routine (Effect.service_unregistered name) w)
      >>= λ w'. some (forget_service name w')
  apply_change (ServiceChange.proxy_deps_changed name) w = teardown_invalidated_service name false w
  apply_change (ServiceChange.triggers_changed name) w = teardown_all_backend_chains_for name none w
  apply_change (ServiceChange.reachability_changed name now_reachable) w =
      teardown_chain routine name everyone
        (emit (Effect.service_reachability_toggled name now_reachable ∷ []) w)
      >>= teardown_all_backend_chains_for name none
  apply_change (ServiceChange.replicas_removed name ip) w =
      let si = get name w.services in drop_replicas name ip (replicas_at si) (all_on ip si) w
  apply_change (ServiceChange.replica_removed name ip docker) w =
      drop_replica name ip docker (single (get name w.services)) w
  apply_change (ServiceChange.proxy_disconnected ip) w =
      for_each (λ (name : Text). teardown_chain routine name (by_ip ip))
        (proxy_services ip w.services) w
  apply_change (ServiceChange.proxy_client_timed_out name client) w =
      teardown_chain routine name (by_client client)
        (when_routine (Effect.proxy_client_timed_out name client) w)
  apply_change (ServiceChange.stale_session_evicted name client) w =
      teardown_chain routine name (by_client client) w
  apply_change (ServiceChange.force_session_teardown name client) w =
      teardown_chain routine name (by_client client) w

  -- A declaration that was loaded updates a service that is there, and is added otherwise.
  unfoldable pub merge_loaded : ServiceMap → ServiceMap → ServiceMap
  unfolding update_from_file
  merge_loaded [] services = services
  merge_loaded ((name, loaded) ∷ rest) services =
      merge_loaded rest (insert name (merged loaded (get name services)) services)

  unfoldable pub apply_changes :
      List ServiceChange → (loaded : Option ServiceMap) → World → Option World
  unfolding apply_change merge_loaded for_each
  apply_changes changes loaded w = for_each apply_change changes w >>= λ w'.
      some
        (elim loaded [ none ↦ w' | some l ↦ record w' { services = merge_loaded l w'.services } ])
