-- ===== src/Clients.antt =====
-- members/nullnet-server/src/services/clients.rs: the clients of a service, and the index of the
-- group carriers that they use.
pub mod Info
pub mod Carriers
pub mod Moves
pub mod Invariant
pub mod Histories
pub mod Edges
pub mod Liveness
mod Tests
use nullnet.Prelude.{
  Bool, Map, Option, [], eqb, false, get, if◌then◌else◌, insert, none, remove, some, true, ℕ, ◌%◌,
  ◌&&◌, ◌+◌, ◌-◌, ◌==◌, ◌>>=◌, ◌^◌, nat_eq,
}
use nullnet.Addr.{Ipv4Addr, IpAddr, ip_eq}
use Info.{Client, ClientInfo, client_eq, set_active_chains, set_open_connections}

pub record Clients : Type 0 where
  pub clients : Map Client ClientInfo
  pub group_carriers : Map IpAddr (Map ℕ ℕ)

unfoldable pub default : Clients
default = record { clients = []; group_carriers = [] }

abbrev pub zip : Option IpAddr → Option ℕ → Option (IpAddr × ℕ)
zip (some p) (some c) = some (p, c)
zip _ _ = none

-- `client.is_proxy().zip(info.group_carrier())`.
abbrev pub carrier_of : Client → ClientInfo → Option (IpAddr × ℕ)
carrier_of c i = zip c.proxy i.group_carrier

abbrev pub or_default : Option (Map ℕ ℕ) → Map ℕ ℕ
or_default none = []
or_default (some m) = m

abbrev pub or_zero : Option ℕ → ℕ
or_zero none = 0
or_zero (some n) = n

-- `*self.group_carriers.entry(proxy).or_default().entry(carrier).or_default() += 1`.
unfoldable pub add_group_carrier : IpAddr → ℕ → Map IpAddr (Map ℕ ℕ) → Map IpAddr (Map ℕ ℕ)
add_group_carrier proxy carrier m =
    let carriers = or_default (get proxy m) in
    insert proxy (insert carrier ((or_zero (get carrier carriers) + 1) % 2 ^ 64) carriers) m

unfoldable pub store_carriers : IpAddr → Map ℕ ℕ → Map IpAddr (Map ℕ ℕ) → Map IpAddr (Map ℕ ℕ)
store_carriers proxy [] m = remove proxy m
store_carriers proxy carriers m = insert proxy carriers m

-- `none` is a panic: an `expect` that fails, or the subtraction of 1 from 0.
unfoldable pub remove_group_carrier :
    IpAddr → ℕ → Map IpAddr (Map ℕ ℕ) → Option (Map IpAddr (Map ℕ ℕ))
unfolding store_carriers
remove_group_carrier proxy carrier m = do
  carriers ← get proxy m
  users ← get carrier carriers
  left ← if eqb users 0 then none else some (users - 1)
  some (
      store_carriers proxy
        (if eqb left 0 then remove carrier carriers else insert carrier left carriers) m)

-- The counts and the waiters of an entry that is there already.
unfoldable pub inherit : Option ClientInfo → ClientInfo → ClientInfo × Option ℕ
unfolding set_active_chains set_open_connections
inherit none info = (info, none)
inherit (some old) info = (
  set_open_connections old.open_connections (set_active_chains old.active_chains info),
  old.pending,
)

-- The index after the entry's carrier changed.
unfoldable pub move_carrier :
    Option (IpAddr × ℕ) → Option (IpAddr × ℕ) → Map IpAddr (Map ℕ ℕ) → Option (Map IpAddr (Map ℕ ℕ))
move_carrier none none m = some m
move_carrier none (some (p, c)) m = some (add_group_carrier p c m)
move_carrier (some (p, c)) none m = remove_group_carrier p c m
move_carrier (some (p, c)) (some (q, d)) m = do
  rest ← remove_group_carrier p c m
  some (add_group_carrier q d rest)

abbrev pub same_carrier : Option (IpAddr × ℕ) → Option (IpAddr × ℕ) → Bool
same_carrier none none = true
same_carrier (some (p, c)) (some (q, d)) = p == q && eqb c d
same_carrier _ _ = false

abbrev pub bind_carrier : Client → Option ClientInfo → Option (IpAddr × ℕ)
bind_carrier client none = none
bind_carrier client (some info) = carrier_of client info

-- The new state, and the `Notify` whose waiters are woken.
unfoldable pub add_client : Client → ClientInfo → Clients → Option (Clients × Option ℕ)
unfolding inherit move_carrier
add_client client info s = do
  let previous = get client s.clients
  let (info', waiters) = inherit previous info
  let old = bind_carrier client previous
  let new = carrier_of client info'
  index ←
      if same_carrier old new then some s.group_carriers else move_carrier old new s.group_carriers
  some (record { clients = insert client info' s.clients; group_carriers = index }, waiters)

unfoldable pub remove_entry :
    Client → Option ClientInfo → Clients → Option (Clients × Option ClientInfo)
remove_entry client none s = some (s, none)
remove_entry client (some info) s = do
  index ← move_carrier (carrier_of client info) none s.group_carriers
  some (record { clients = remove client s.clients; group_carriers = index }, some info)

unfoldable pub remove_client : Client → Clients → Option (Clients × Option ClientInfo)
unfolding remove_entry move_carrier
remove_client client s = remove_entry client (get client s.clients) s

abbrev pub pending_of : Option ClientInfo → Option ℕ
pending_of none = none
pending_of (some info) = info.pending

unfoldable pub remove_pending : Client → Option ℕ → Clients → Option (Clients × Option ℕ)
unfolding remove_client
remove_pending client none s = some (s, none)
remove_pending client (some notify) s = do (s', _) ← remove_client client s; some (s', some notify)

-- The answer is `true` exactly if there are waiters, and these are woken.
unfoldable pub remove_pending_client : Client → Clients → Option (Clients × Option ℕ)
unfolding remove_pending
remove_pending_client client s = remove_pending client (pending_of (get client s.clients)) s

abbrev pub group_carriers : IpAddr → Clients → Option (Map ℕ ℕ)
group_carriers proxy s = get proxy s.group_carriers

unfoldable pub live_addr : Option ClientInfo → Option (Ipv4Addr × ℕ)
live_addr none = none
live_addr (some info) = elim info.pending [
  | none ↦ some (info.server_net, info.pool_generation)
  | some _ ↦ none
]

unfoldable pub is_client_setup : Client → Clients → Option (Ipv4Addr × ℕ)
unfolding live_addr
is_client_setup client s = live_addr (get client s.clients)

unfoldable pub pending_notify : Client → Clients → Option ℕ
pending_notify client s = pending_of (get client s.clients)
