-- ===== src/Services/Registry.antt =====
-- The registration of replicas: members/nullnet-server/src/services/service_info.rs.
use nullnet.Prelude.{
  Bool, List, Option, Text, [], any, false, if◌then◌else◌, none, not, some, ℕ, ◌++◌, ◌==◌, ◌>>=◌,
  ◌∷◌, text_eq, option_eq,
}
use nullnet.Addr.{IpAddr, ip_eq}
use nullnet.Services.{
  Replica, RegisteredServiceInfo, UnregisteredServiceInfo, ServiceInfo, unregistered, registered,
  new_replica, matches_identity, proxy_deps, triggers, timeout, pausable, max_networks, protocol,
  listen_port, egress_policy, ingress_policy,
}

-- `iter_mut().find(p)`, and a change of what it finds; `none` where it finds nothing.
unfoldable pub update_first {ℓ} : {A : Type ℓ} → (A → Bool) → (A → A) → List A → Option (List A)
update_first p f [] = none
update_first p f (x ∷ xs) =
    let rest = update_first p f xs in if p x then some (f x ∷ xs) else rest >>= λ ys. some (x ∷ ys)

unfoldable pub retain {ℓ} : {A : Type ℓ} → (A → Bool) → List A → List A
retain p [] = []
retain p (x ∷ xs) = if p x then x ∷ retain p xs else retain p xs

abbrev pub or_else {ℓ} : {A : Type ℓ} → Option A → A → A
or_else none y = y
or_else (some x) y = x

unfoldable pub register : UnregisteredServiceInfo → List Replica → RegisteredServiceInfo
register u replicas = record {
  proxy_deps = u.proxy_deps;
  triggers = u.triggers;
  timeout = u.timeout;
  max_networks = u.max_networks;
  protocol = u.protocol;
  listen_port = u.listen_port;
  egress_policy = u.egress_policy;
  ingress_policy = u.ingress_policy;
  pausable = u.pausable;
  replicas = replicas;
}

unfoldable pub unregister : RegisteredServiceInfo → UnregisteredServiceInfo
unregister r = record {
  proxy_deps = r.proxy_deps;
  triggers = r.triggers;
  timeout = r.timeout;
  max_networks = r.max_networks;
  protocol = r.protocol;
  listen_port = r.listen_port;
  egress_policy = r.egress_policy;
  ingress_policy = r.ingress_policy;
  pausable = r.pausable;
}

-- A replica that is known gets the port; another is added.
unfoldable pub put_replica : IpAddr → ℕ → Option Text → List Replica → List Replica
unfolding update_first new_replica
put_replica ip port docker replicas =
    or_else (update_first (matches_identity ip docker) (λ r. record r { port = port }) replicas)
      (replicas ++ (new_replica ip port docker ∷ []))

unfoldable pub add_replica : IpAddr → ℕ → Option Text → ServiceInfo → ServiceInfo
unfolding put_replica register new_replica
add_replica ip port docker (unregistered u) =
    registered (register u (new_replica ip port docker ∷ []))
add_replica ip port docker (registered r) =
    registered (record r { replicas = put_replica ip port docker r.replicas })

unfoldable pub has_replica : IpAddr → Option Text → ServiceInfo → Bool
has_replica ip docker (unregistered u) = false
has_replica ip docker (registered r) = any (matches_identity ip docker) r.replicas

-- The service with the replicas that are left, unregistered if there is none.
unfoldable pub with_replicas : RegisteredServiceInfo → List Replica → ServiceInfo
unfolding unregister
with_replicas r [] = unregistered (unregister r)
with_replicas r (x ∷ xs) = registered (record r { replicas = x ∷ xs })

unfoldable pub remove_replicas_on_ip : IpAddr → ServiceInfo → ServiceInfo
unfolding retain with_replicas
remove_replicas_on_ip ip (unregistered u) = unregistered u
remove_replicas_on_ip ip (registered r) =
    with_replicas r (retain (λ x. not (x.ip == ip)) r.replicas)

unfoldable pub remove_replica : IpAddr → Option Text → ServiceInfo → ServiceInfo
unfolding retain with_replicas
remove_replica ip docker (unregistered u) = unregistered u
remove_replica ip docker (registered r) =
    with_replicas r (retain (λ x. not (matches_identity ip docker x)) r.replicas)

unfoldable pub update_from_file : ServiceInfo → ServiceInfo → ServiceInfo
update_from_file loaded (unregistered u) = unregistered (record u {
  proxy_deps = proxy_deps loaded;
  triggers = triggers loaded;
  timeout = timeout loaded;
  pausable = pausable loaded;
  max_networks = max_networks loaded;
  protocol = protocol loaded;
  listen_port = listen_port loaded;
  egress_policy = egress_policy loaded;
  ingress_policy = ingress_policy loaded;
})
update_from_file loaded (registered r) = registered (record r {
  proxy_deps = proxy_deps loaded;
  triggers = triggers loaded;
  timeout = timeout loaded;
  pausable = pausable loaded;
  max_networks = max_networks loaded;
  protocol = protocol loaded;
  listen_port = listen_port loaded;
  egress_policy = egress_policy loaded;
  ingress_policy = ingress_policy loaded;
})
