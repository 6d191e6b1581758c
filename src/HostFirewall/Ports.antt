-- ===== src/HostFirewall/Ports.antt =====
-- members/nullnet-client/src/ebpf/mod.rs: the ports that the firewall of ebpf/src/main.rs allows.
-- A set of keys is a list; the sets that the code walks through are walked in the list's order.
pub mod Refresh
pub mod Update
pub mod Start
use nullnet.Prelude.{
  Bool, List, Option, [], eqb, false, if◌then◌else◌, length, ltb, none, some, true, ℕ, ◌>>=◌, ◌^◌,
  ◌∷◌, nat_eq,
}
use nullnet.HostFirewall.{is_in, allow_key, proto_tcp, proto_udp}

-- `map` has the keys of the `ALLOW_PORTS` map.
pub record FirewallAllowPorts : Type 0 where
  pub map : List ℕ
  pub ingress : List ℕ

-- `FirewallConfig`, as far as the ports go.
pub record FirewallConfig : Type 0 where
  pub ingress_tcp : List ℕ
  pub ingress_udp : List ℕ
  pub egress_tcp : List ℕ
  pub egress_udp : List ℕ

-- `HashMap::with_max_entries(256, 0)`: a new key is refused by a full map, and the removal of a
-- key that is not there fails.
abbrev pub max_ports : ℕ
max_ports = 256

unfoldable pub map_insert : ℕ → List ℕ → Option (List ℕ)
map_insert key m =
    if is_in key m then some m else if ltb (length m) max_ports then some (key ∷ m) else none

abbrev pub without : ℕ → List ℕ → List ℕ
without key [] = []
without key (k ∷ m) = let rest = without key m in if eqb k key then rest else k ∷ rest

unfoldable pub map_remove : ℕ → List ℕ → Option (List ℕ)
map_remove key m = if is_in key m then some (without key m) else none

-- A `HashSet`.
abbrev pub set_insert : ℕ → List ℕ → List ℕ
set_insert key s = if is_in key s then s else key ∷ s

-- The loop over the ports of a protocol; `none` is a port that is no `u16`.
unfoldable pub desired_of : (proto : ℕ) → List ℕ → List ℕ → Option (List ℕ)
desired_of proto [] desired = some desired
desired_of proto (port ∷ ports) desired =
    if ltb port (2 ^ 16)
    then desired_of proto ports (set_insert (allow_key false proto port) desired)
    else none

abbrev pub failed : FirewallAllowPorts → FirewallAllowPorts × Bool
failed s = (s, false)

-- The two loops of `update_ingress`: what is left of the state, and whether the loop succeeded.
abbrev pub removed_key : ℕ → FirewallAllowPorts → Option (List ℕ) → Option FirewallAllowPorts
removed_key key s none = none
removed_key key s (some m) = some (record { map = m; ingress = without key s.ingress })

abbrev pub after {ℓ} : {A : Type ℓ} → A → Option FirewallAllowPorts → (FirewallAllowPorts → A) → A
after failure none k = failure
after failure (some s) k = k s

unfoldable pub remove_keys : List ℕ → FirewallAllowPorts → FirewallAllowPorts × Bool
remove_keys [] s = (s, true)
remove_keys (key ∷ keys) s =
    after (failed s) (removed_key key s (map_remove key s.map)) (remove_keys keys)

abbrev pub inserted_key : ℕ → FirewallAllowPorts → Option (List ℕ) → Option FirewallAllowPorts
inserted_key key s none = none
inserted_key key s (some m) = some (record { map = m; ingress = key ∷ s.ingress })

unfoldable pub insert_keys : List ℕ → FirewallAllowPorts → FirewallAllowPorts × Bool
insert_keys [] s = (s, true)
insert_keys (key ∷ keys) s =
    if is_in key s.ingress
    then insert_keys keys s
    else after (failed s) (inserted_key key s (map_insert key s.map)) (insert_keys keys)

abbrev pub difference : List ℕ → List ℕ → List ℕ
difference [] t = []
difference (key ∷ s) t = let rest = difference s t in if is_in key t then rest else key ∷ rest

abbrev pub then_insert : List ℕ → FirewallAllowPorts × Bool → FirewallAllowPorts × Bool
then_insert desired (s, false) = (s, false)
then_insert desired (s, true) = insert_keys desired s

abbrev pub refresh : FirewallAllowPorts → Option (List ℕ) → FirewallAllowPorts × Bool
refresh s none = failed s
refresh s (some desired) = then_insert desired (remove_keys (difference s.ingress desired) s)

unfoldable pub update_ingress : (tcp udp : List ℕ) → FirewallAllowPorts → FirewallAllowPorts × Bool
update_ingress tcp udp s = refresh s (desired_of proto_tcp tcp [] >>= desired_of proto_udp udp)

-- The loop of `populate_allow_ports` over the ports of one direction and protocol.
unfoldable pub populate :
    Bool → (proto : ℕ) → List ℕ → FirewallAllowPorts → Option FirewallAllowPorts
populate is_egress proto [] s = some s
populate is_egress proto (port ∷ ports) s = do
  let key = allow_key is_egress proto port
  m ← map_insert key s.map
  populate is_egress proto ports
      (record { map = m; ingress = if is_egress then s.ingress else set_insert key s.ingress })

unfoldable pub populate_allow_ports : FirewallConfig → Option FirewallAllowPorts
populate_allow_ports cfg =
    populate false proto_tcp cfg.ingress_tcp (record { map = []; ingress = [] })
    >>= populate false proto_udp cfg.ingress_udp
    >>= populate true proto_tcp cfg.egress_tcp
    >>= populate true proto_udp cfg.egress_udp
