-- ===== src/Services/Members.antt =====
-- The clients of a registered service, over all of its replicas:
-- members/nullnet-server/src/services/service_info.rs. `none` is a panic of the table of clients.
use nullnet.Prelude.{
  Bool, List, Map, Option, Text, [], eqb, false, get, if◌then◌else◌, insert, none, some, true, ℕ,
  ◌==◌, ◌>>=◌, ◌∷◌, nat_eq, text_eq, option_eq,
}
use nullnet.Addr.{IpAddr, ip_eq}
use nullnet.Clients
use nullnet.Clients.{Clients}
use nullnet.Clients.Info.{
  Client, ClientInfo, client_eq, is_pending, add_active_chain, open_connection, close_connection,
  set_latest_now, remove_active_chains,
}
use nullnet.Services.{Replica, RegisteredServiceInfo, matches_identity}

abbrev pub is_some {ℓ} : {A : Type ℓ} → Option A → Bool
is_some none = false
is_some (some a) = true

abbrev pub with_clients : Clients → Replica → Replica
with_clients s r = record r { clients = s }

-- `clients_mut().insert`, behind the index of carriers.
abbrev pub set_clients : Map Client ClientInfo → Clients → Clients
set_clients m s = record s { clients = m }

abbrev pub entry : Client → Replica → Option ClientInfo
entry client r = get client r.clients.clients

abbrev pub put_entry : Client → ClientInfo → Replica → Replica
put_entry client ci r = with_clients (set_clients (insert client ci r.clients.clients) r.clients) r

-- A change of a client's entry on the first replica that has it.
unfoldable pub update_entry : Client → (ClientInfo → ClientInfo) → List Replica → List Replica
update_entry client f [] = []
update_entry client f (r ∷ rs) = elim (entry client r) [
  | none ↦ r ∷ update_entry client f rs
  | some ci ↦ put_entry client (f ci) r ∷ rs
]

abbrev with_entry :
    Client → (ClientInfo → ClientInfo) → RegisteredServiceInfo → RegisteredServiceInfo
with_entry client f reg = record reg { replicas = update_entry client f reg.replicas }

module _ (now : ℕ) (client : Client) (reg : RegisteredServiceInfo) where
  unfoldable pub add_chain : RegisteredServiceInfo
  unfolding add_active_chain update_entry
  add_chain = with_entry client (add_active_chain now) reg

  unfoldable pub renew : RegisteredServiceInfo
  unfolding set_latest_now update_entry
  renew = with_entry client (set_latest_now now) reg

  unfoldable pub connection_opened : RegisteredServiceInfo
  unfolding open_connection update_entry
  connection_opened = with_entry client (open_connection now) reg

  unfoldable pub connection_closed : RegisteredServiceInfo
  unfolding close_connection update_entry
  connection_closed = with_entry client (close_connection now) reg

-- The arguments of `send_net_teardown_kind`.
pub record NetTeardown : Type 0 where
  pub client_ip : IpAddr
  pub client_docker : Option Text
  pub service_ip : IpAddr
  pub service_docker : Option Text
  pub net_id : ℕ
  pub group : Bool

abbrev pub teardown_of : ClientInfo → Replica → NetTeardown
teardown_of ci r = record {
  client_ip = ci.client_ip;
  client_docker = ci.docker_container;
  service_ip = r.ip;
  service_docker = r.docker_container;
  net_id = ci.net_id;
  group = is_some ci.group_carrier;
}

abbrev pub after_last : Replica → Clients × Option ClientInfo → Replica × List NetTeardown
after_last r (s, none) = (with_clients s r, [])
after_last r (s, some gone) = (with_clients s r, teardown_of gone r ∷ [])

-- One chain less on an entry that was found; the edge goes with its last chain.
unfoldable pub decrement_entry : Client → ClientInfo → Replica → Option (Replica × List NetTeardown)
unfolding remove_active_chains
decrement_entry client ci r =
    let less = remove_active_chains 1 ci in
    let r' = put_entry client less r in
    if is_pending ci
    then some (r, [])
    else if eqb less.active_chains 0
    then (Clients.remove_client client r'.clients >>= λ gone. some (after_last r gone))
    else some (r', [])

unfoldable pub decrement_in : Client → List Replica → Option (List Replica × List NetTeardown)
unfolding decrement_entry
decrement_in client [] = some ([], [])
decrement_in client (r ∷ rs) = elim (entry client r) [
  | none ↦ decrement_in client rs >>= λ (rs', out). some (r ∷ rs', out)
  | some ci ↦ decrement_entry client ci r >>= λ (r', out). some (r' ∷ rs, out)
]

unfoldable pub decrement_chain :
    Client → RegisteredServiceInfo → Option (RegisteredServiceInfo × List NetTeardown)
unfolding decrement_in
decrement_chain client reg =
    decrement_in client reg.replicas >>= λ (rs, out). some (record reg { replicas = rs }, out)

abbrev pub after_remove :
    Option ClientInfo → Replica → List Replica → Option (List Replica) → Option (List Replica)
after_remove none r rs rest = rest >>= λ rs'. some (r ∷ rs')
after_remove (some gone) r rs rest = some (r ∷ rs)

unfoldable pub remove_client_in : Client → List Replica → Option (List Replica)
remove_client_in client [] = some []
remove_client_in client (r ∷ rs) = Clients.remove_client client r.clients >>= λ (s, gone).
    after_remove gone (with_clients s r) rs (remove_client_in client rs)

-- `remove_client` of a registered service.
unfoldable pub remove_client : Client → RegisteredServiceInfo → Option RegisteredServiceInfo
unfolding remove_client_in
remove_client client reg =
    remove_client_in client reg.replicas >>= λ rs. some (record reg { replicas = rs })

abbrev pub after_pending :
    Option ℕ
    → Replica
    → List Replica
    → Option (List Replica × Option ℕ)
    → Option (List Replica × Option ℕ)
after_pending none r rs rest = rest >>= λ (rs', woken). some (r ∷ rs', woken)
after_pending (some notify) r rs rest = some (r ∷ rs, some notify)

unfoldable pub remove_pending_in : Client → List Replica → Option (List Replica × Option ℕ)
remove_pending_in client [] = some ([], none)
remove_pending_in client (r ∷ rs) = Clients.remove_pending_client client r.clients >>= λ (s, woken).
    after_pending woken (with_clients s r) rs (remove_pending_in client rs)

-- With the `Notify` whose waiters are woken.
unfoldable pub remove_pending_client :
    Client → RegisteredServiceInfo → Option (RegisteredServiceInfo × Option ℕ)
unfolding remove_pending_in
remove_pending_client client reg = remove_pending_in client reg.replicas >>= λ (rs, woken).
    some (record reg { replicas = rs }, woken)

unfoldable pub find_map {ℓ} : {A B : Type ℓ} → (A → Option B) → List A → Option B
find_map f [] = none
find_map f (x ∷ xs) = elim (f x) [ none ↦ find_map f xs | some y ↦ some y ]

unfoldable pub pending_notify : Client → RegisteredServiceInfo → Option ℕ
unfolding find_map
pending_notify client reg = find_map (λ r. Clients.pending_notify client r.clients) reg.replicas

-- A reservation goes only while `owner` is the one that waits on it.
unfoldable pub remove_pending_client_if :
    Client → (owner : ℕ) → RegisteredServiceInfo → Option (RegisteredServiceInfo × Option ℕ)
unfolding pending_notify remove_pending_client
remove_pending_client_if client owner reg =
    if pending_notify client reg == some owner
    then remove_pending_client client reg
    else some (reg, none)

abbrev pub after_add :
    Option (List Replica × Option ℕ × Bool) → Replica → Option (List Replica × Option ℕ × Bool)
after_add rest r = rest >>= λ (rs, woken, landed). some (r ∷ rs, woken, landed)

-- The answer says whether the replica was there.
unfoldable pub add_client_in :
    IpAddr
    → Option Text
    → Client
    → ClientInfo
    → List Replica
    → Option (List Replica × Option ℕ × Bool)
add_client_in ip docker client info [] = some ([], none, false)
add_client_in ip docker client info (r ∷ rs) =
    let rest = after_add (add_client_in ip docker client info rs) r in
    if matches_identity ip docker r
    then (Clients.add_client client info r.clients >>= λ (s, woken).
        some (with_clients s r ∷ rs, woken, true))
    else rest

unfoldable pub add_client_to_replica :
    IpAddr
    → Option Text
    → Client
    → ClientInfo
    → RegisteredServiceInfo
    → Option (RegisteredServiceInfo × Option ℕ × Bool)
unfolding add_client_in
add_client_to_replica ip docker client info reg =
    add_client_in ip docker client info reg.replicas >>= λ (rs, woken, landed).
    some (record reg { replicas = rs }, woken, landed)
