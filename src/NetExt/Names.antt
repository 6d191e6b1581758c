-- ===== src/NetExt/Names.antt =====
-- The device names of an edge: members/nullnet-server/src/net.rs.
use nullnet.Prelude.{
  Bool, Option, Text, [], arith, codes, if◌then◌else◌, none, refl, show-append-injective, some, ℕ,
  ◌++◌, ◌↔◌, ◌∷◌, ◌≡◌,
}
use nullnet.NetExt.{edge_name}
use nullnet.Addr.{Ipv4Addr, IpAddr}
use nullnet.NetIdPool.{Net}
use nullnet.NetExt.Messages.{NetMessage}
use nullnet.NetExt.{
  Externals, SetupArgs, setup, teardown, vxlan_setup, vxlan_message, edge_name, is_some,
  choose_side,
}

append_injective : (p : Text) (s t : Text) → p ++ s ≡ p ++ t → s ≡ t
append_injective [] s t e = e
append_injective (c ∷ p) s t e = append_injective p s t (cc)

-- A name tells the ID and the side.
edge_name_injective :
    (p : Text) (i j : ℕ) (s t : Text) → edge_name p i s ≡ edge_name p j t → (i ≡ j) × (s ≡ t)
unfolding edge_name
edge_name_injective p i j s t e =
    let (same, rest) =
      show-append-injective i j b'_' b'_' s t refl refl (append_injective p _ _ e) in
    (same, cc)

abbrev pub side_of : SetupArgs → Text
side_of s = if is_some s.remote_server_name then codes "c" else codes "s"

-- The names in a message that names devices.
abbrev pub device_names : NetMessage → Option (Text × Text)
device_names (NetMessage.vxlan_setup m) = some (m.ns_name, m.br_name)
device_names (NetMessage.vxlan_teardown m) = some (m.ns_name, m.br_name)
device_names (NetMessage.vlan_setup m) = none
device_names (NetMessage.vlan_teardown m) = none

module _ (x : Externals) where
  abbrev names_of : SetupArgs → Option (Text × Text)
  names_of s =
      some
        (edge_name (codes "ns_") s.net_id (side_of s), edge_name (codes "br_") s.net_id (side_of s))

  message_names :
      (s : SetupArgs) (port : ℕ) (n : x.Network) (side : x.Network × x.Network × Option Text × Text)
      → side.3 ≡ side_of s
      → device_names (vxlan_message x s port n side).1 ≡ names_of s
  unfolding vxlan_message
  message_names s port n (ns, br, c, letter) e = rw e

  setup_names :
      (s : SetupArgs) {a : Ipv4Addr} {m : NetMessage}
      → setup x Net.vxlan s ≡ some (a, m)
      → device_names m ≡ names_of s
  unfolding setup vxlan_setup choose_side
  setup_names s e = ground (arith, message_names s)

  -- A VXLAN teardown names the namespace and the bridge of an edge that was set up exactly when it
  -- is for that edge's ID and that edge's side.
  pub teardown_names :
      (s : SetupArgs) (id : ℕ) (side : Text) (c : Option Text) (l r : IpAddr) (port : Option ℕ)
      (msg : Text) (group : Bool) {a : Ipv4Addr} {m : NetMessage}
      → setup x Net.vxlan s ≡ some (a, m)
      → (device_names (teardown x Net.vxlan id side c l r port msg group) ≡ device_names m)
        ↔ ((id ≡ s.net_id) × (side ≡ side_of s))
  unfolding teardown
  teardown_names s id side c l r port msg group e = (
    (λ same. edge_name_injective (codes "ns_") id s.net_id side (side_of s) (cc (setup_names s e))),
    (λ same. cc (setup_names s e, same.0, same.1)),
  )
