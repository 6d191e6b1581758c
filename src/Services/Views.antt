-- ===== src/Services/Views.antt =====
-- What is read of the clients of a registered service:
-- members/nullnet-server/src/services/service_info.rs. An `Instant` is a number of milliseconds.
use nullnet.Prelude.{
  Bool, List, Map, Option, Text, [], any, eqb, get, if◌then◌else◌, insert, length, ltb, map, none,
  not, some, ℕ, ◌%◌, ◌&&◌, ◌++◌, ◌+◌, ◌-◌, ◌==◌, ◌>>=◌, ◌^◌, ◌||◌, ◌∷◌, nat_eq, text_eq, option_eq,
}
use nullnet.Addr.{Ipv4Addr, IpAddr, ip_eq, v4_eq}
use nullnet.Clients
use nullnet.Clients.{Clients}
use nullnet.Clients.Info.{Client, ClientInfo, client_eq, is_pending, unspecified, idle_expired}
use nullnet.Services.{Replica, RegisteredServiceInfo, matches_identity}
use nullnet.Services.Registry.{retain}
use nullnet.Services.Members.{is_some, entry, find_map}

abbrev pub identity : Replica → IpAddr × Option Text
identity r = (r.ip, r.docker_container)

unfoldable pub client_replica : Client → RegisteredServiceInfo → Option (IpAddr × Option Text)
unfolding find_map
client_replica client reg =
    find_map (λ r. if is_some (entry client r) then some (identity r) else none) reg.replicas

-- `filter(|ci| !ci.is_pending())`.
abbrev pub live : Option ClientInfo → Option ClientInfo
live none = none
live (some ci) = if is_pending ci then none else some ci

unfoldable pub client_replica_live : Client → RegisteredServiceInfo → Option (IpAddr × Option Text)
unfolding find_map
client_replica_live client reg =
    find_map (λ r. if is_some (live (entry client r)) then some (identity r) else none) reg.replicas

unfoldable pub client_info : Client → RegisteredServiceInfo → Option ClientInfo
unfolding find_map
client_info client reg = find_map (λ r. live (entry client r)) reg.replicas

unfoldable pub client_net_id : Client → RegisteredServiceInfo → Option ℕ
unfolding client_info
client_net_id client reg = client_info client reg >>= λ ci. some ci.net_id

abbrev pub is_proxy : Client → Bool
is_proxy client = is_some client.proxy

-- The entries of all replicas, in order.
unfoldable pub entries : List Replica → List (Client × ClientInfo × Replica)
entries [] = []
entries (r ∷ rs) = map (λ (c, ci). (c, ci, r)) r.clients.clients ++ entries rs

unfoldable pub proxy_clients_count : RegisteredServiceInfo → ℕ
unfolding entries retain
proxy_clients_count reg = length (retain (λ (c, ci, r). is_proxy c) (entries reg.replicas))

unfoldable pub dedicated_proxy_networks_count : RegisteredServiceInfo → ℕ
unfolding entries retain
dedicated_proxy_networks_count reg =
    length (retain (λ (c, ci, r). is_proxy c && not ci.policy) (entries reg.replicas))

-- `min_by_key`: the first of the least.
unfoldable pub min_by {ℓ} : {A : Type ℓ} → (A → A → Bool) → A → List A → A
min_by less best [] = best
min_by less best (x ∷ xs) = min_by less (if less x best then x else best) xs

abbrev pub least {ℓ} : {A : Type ℓ} → (A → A → Bool) → List A → Option A
least less [] = none
least less (x ∷ xs) = some (min_by less x xs)

unfoldable pub pick_replica_least_clients : RegisteredServiceInfo → Option Replica
unfolding min_by
pick_replica_least_clients reg =
    least (λ a b. ltb (length a.clients.clients) (length b.clients.clients)) reg.replicas

-- `*carriers.entry(carrier).or_insert(0) += users`.
unfoldable pub add_users : Map ℕ ℕ → Map ℕ ℕ → Map ℕ ℕ
add_users [] total = total
add_users ((carrier, users) ∷ m) total =
    add_users m (insert carrier ((Clients.or_zero (get carrier total) + users) % 2 ^ 64) total)

unfoldable pub carrier_users : IpAddr → List Replica → Map ℕ ℕ → Map ℕ ℕ
unfolding add_users
carrier_users proxy [] total = total
carrier_users proxy (r ∷ rs) total =
    carrier_users proxy rs
      (add_users (Clients.or_default (get proxy r.clients.group_carriers)) total)

-- Fewer users, and of as many the smaller key.
abbrev pub fewer : ℕ × ℕ → ℕ × ℕ → Bool
fewer (k, m) (l, n) = ltb m n || eqb m n && ltb k l

unfoldable pub group_carrier : IpAddr → RegisteredServiceInfo → Option ℕ
unfolding carrier_users min_by
group_carrier proxy reg =
    least fewer (carrier_users proxy reg.replicas []) >>= λ (carrier, users). some carrier

-- `networks.entry(net_id).or_insert((0, info, replica)).0 += 1`.
abbrev pub join_network :
    Option (ℕ × ClientInfo × Replica) → ClientInfo → Replica → ℕ × ClientInfo × Replica
join_network none info r = (1, info, r)
join_network (some (users, info', r')) info r = ((users + 1) % 2 ^ 64, info', r')

unfoldable pub networks_on :
    IpAddr
    → List (Client × ClientInfo × Replica)
    → Map ℕ (ℕ × ClientInfo × Replica)
    → Map ℕ (ℕ × ClientInfo × Replica)
unfolding unspecified
networks_on proxy [] m = m
networks_on proxy ((c, info, r) ∷ es) m = networks_on proxy es (
    if c.proxy == some proxy && not (info.server_net == unspecified)
    then insert info.net_id (join_network (get info.net_id m) info r) m
    else m)

-- The entry and the replica of the network of a proxy with the fewest clients, from which the
-- upstream, the addresses and the identity are read.
unfoldable pub find_reusable_network_on_proxy :
    IpAddr → RegisteredServiceInfo → Option (ClientInfo × Replica)
unfolding entries networks_on min_by
find_reusable_network_on_proxy proxy reg =
    least (λ (k, (m, x, y)) (l, (n, z, w)). fewer (k, m) (l, n))
      (networks_on proxy (entries reg.replicas) [])
    >>= λ (id, (users, info, r)). some (info, r)

unfoldable pub has_clients_with_net_id : ℕ → RegisteredServiceInfo → Bool
unfolding entries
has_clients_with_net_id net_id reg = any (λ (c, ci, r). ci.net_id == net_id) (entries reg.replicas)

-- The upstream's address, its port and the generation of its pool.
unfoldable pub is_client_setup : Client → RegisteredServiceInfo → Option (Ipv4Addr × ℕ × ℕ)
unfolding find_map
is_client_setup client reg =
    find_map
      (λ r. Clients.is_client_setup client r.clients >>= λ (net, generation).
        some (net, r.port, generation))
      reg.replicas

module _ (now timeout : ℕ) where
  unfoldable pub expired_proxy_clients : RegisteredServiceInfo → List Client
  unfolding entries retain idle_expired
  expired_proxy_clients reg =
      map (λ (c, ci, r). c)
        (retain (λ (c, ci, r). is_proxy c && idle_expired now timeout ci) (entries reg.replicas))

  unfoldable pub proxy_client_expired : Client → RegisteredServiceInfo → Bool
  unfolding client_info idle_expired
  proxy_client_expired client reg =
      is_proxy client
      && is_some
          (client_info client reg >>= λ ci. if idle_expired now timeout ci then some ci else none)

  unfoldable pub nearest_proxy_expiry : RegisteredServiceInfo → Option ℕ
  unfolding entries retain min_by
  nearest_proxy_expiry reg = least ltb (
      map (λ (c, ci, r). timeout - (now - ci.latest))
        (retain (λ (c, ci, r). is_proxy c && not (is_pending ci) && eqb ci.open_connections 0)
          (entries reg.replicas)))

abbrev serves : Client × ClientInfo × Replica → Bool
serves (c, ci, r) = not (is_proxy c) && not (is_pending ci)

unfoldable pub service_clients_on_ip : IpAddr → RegisteredServiceInfo → List Client
unfolding entries retain
service_clients_on_ip ip reg =
    map (λ (c, ci, r). c) (retain serves (entries (retain (λ r. r.ip == ip) reg.replicas)))

unfoldable pub service_clients_on_replica :
    IpAddr → Option Text → RegisteredServiceInfo → List Client
unfolding entries retain
service_clients_on_replica ip docker reg =
    map (λ (c, ci, r). c)
      (retain serves (entries (retain (matches_identity ip docker) reg.replicas)))

unfoldable pub has_replica_on_ip : IpAddr → RegisteredServiceInfo → Bool
has_replica_on_ip ip reg = any (λ r. r.ip == ip) reg.replicas

unfoldable pub all_clients_owned : RegisteredServiceInfo → List (Client × ClientInfo × Replica)
unfolding entries retain
all_clients_owned reg = retain (λ (c, ci, r). not (is_pending ci)) (entries reg.replicas)
