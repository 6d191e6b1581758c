-- ===== src/HostFirewall/Peers.antt =====
-- members/nullnet-client/src/ebpf/mod.rs: the peers that the firewall of ebpf/src/main.rs knows.
pub mod Counts
pub mod Edges
use nullnet.Prelude.{
  Bool, Eq, Map, Option, [], arith, count, eqb, false, get, if◌then◌else◌, insert, length, ltb,
  none, remove, some, tally, true, ℕ, ◌+◌, ◌-◌, ◌>>=◌, ◌^◌, ◌||◌, ◌↔◌, ◌≡◌, nat_eq,
}
use nullnet.Addr.{Ipv4Addr, bits}

pub data NetId : Type 0 where
  vlan vxlan : ℕ → NetId

abbrev pub beq_net_id : NetId → NetId → Bool
beq_net_id (NetId.vlan a) (NetId.vlan b) = eqb a b
beq_net_id (NetId.vxlan a) (NetId.vxlan b) = eqb a b
beq_net_id _ _ = false

pub beq_net_id_iff : (a b : NetId) → (beq_net_id a b ≡ true) ↔ (a ≡ b)
beq_net_id_iff (NetId.vlan a) (NetId.vlan b) = ground arith
beq_net_id_iff (NetId.vxlan a) (NetId.vxlan b) = ground arith
beq_net_id_iff (NetId.vlan a) (NetId.vxlan b) = ground arith
beq_net_id_iff (NetId.vxlan a) (NetId.vlan b) = ground arith

instance abbrev pub net_id_eq : Eq NetId
net_id_eq = record { beq = beq_net_id; beq_iff = beq_net_id_iff }

-- `PeerInner`; `map` is the `PEERS` map, of which the code uses the keys.
pub record FirewallPeers : Type 0 where
  pub map : Map ℕ ℕ
  pub refcounts : Map ℕ ℕ
  pub by_id : Map NetId ℕ

unfoldable pub new : FirewallPeers
new = record { map = []; refcounts = []; by_id = [] }

abbrev pub or_zero : Option ℕ → ℕ
or_zero none = 0
or_zero (some n) = n

-- `HashMap::with_max_entries(4096, 0)`.
abbrev pub max_entries : ℕ
max_entries = 4096

abbrev pub is_some : Option ℕ → Bool
is_some none = false
is_some (some _) = true

-- The kernel's hash map takes a new key while it has room; the code ignores the error otherwise.
abbrev pub map_insert : ℕ → Map ℕ ℕ → Map ℕ ℕ
map_insert key m = if is_some (get key m) || ltb (length m) max_entries then insert key 0 m else m

-- `*count += 1` on a `u32`; `none` is its overflow.
unfoldable pub incr : ℕ → FirewallPeers → Option FirewallPeers
incr key s =
    let count = or_zero (get key s.refcounts) + 1 in
    if ltb count (2 ^ 32)
    then some (record s {
      refcounts = insert key count s.refcounts;
      map = if eqb count 1 then map_insert key s.map else s.map;
    })
    else none

-- `*count -= 1`; `none` is its overflow.
unfoldable pub decr_at : ℕ → Option ℕ → FirewallPeers → Option FirewallPeers
decr_at key none s = some s
decr_at key (some count) s =
    if eqb count 0
    then none
    else if eqb count 1
    then some (record s { refcounts = remove key s.refcounts; map = remove key s.map })
    else some (record s { refcounts = insert key (count - 1) s.refcounts })

unfoldable pub decr : ℕ → FirewallPeers → Option FirewallPeers
unfolding decr_at
decr key s = decr_at key (get key s.refcounts) s

unfoldable pub re_point : ℕ → Option ℕ → FirewallPeers → Option FirewallPeers
re_point key none s = incr key s
re_point key (some old) s = if eqb old key then some s else do s' ← decr old s; incr key s'

unfoldable pub add : NetId → Ipv4Addr → FirewallPeers → Option FirewallPeers
unfolding re_point
add id peer s =
    let key = bits peer in
    re_point key (get id s.by_id) (record s { by_id = insert id key s.by_id })

unfoldable pub drop_reference : Option ℕ → FirewallPeers → Option FirewallPeers
drop_reference none s = some s
drop_reference (some key) s = decr key s

unfoldable pub remove_edge : NetId → FirewallPeers → Option FirewallPeers
unfolding drop_reference
remove_edge id s = drop_reference (get id s.by_id) (record s { by_id = remove id s.by_id })

-- How many edges have this peer.
abbrev pub edges_of : ℕ → Map NetId ℕ → ℕ
edges_of key by_id = tally (λ id peer. eqb peer key) by_id
