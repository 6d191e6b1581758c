-- ===== src/NetExt/Ends.antt =====
-- The two ends of an edge: members/nullnet-server/src/net.rs.
use mathlib.Core.Option
use mathlib.Core.Path.{subst}
use nullnet.Prelude.{Option, Text, arith, codes, if◌then◌else◌, none, refl, some, ℕ, ◌≡◌}
use nullnet.Addr.{Ipv4Addr, show_v4}
use nullnet.NetIdPool.{Net}
use nullnet.NetExt.Messages.{HostMapping, NetMessage}
use nullnet.NetExt.{Externals, NetworkLaw, SetupArgs, setup, vlan_setup, vxlan_message, is_some}
use nullnet.NetExt.Subnets.{Built, vxlan_setup-Built}

abbrev pub mapping_of : NetMessage → Option HostMapping
mapping_of (NetMessage.vlan_setup m) = m.host_mapping
mapping_of (NetMessage.vxlan_setup m) = m.host_mapping
mapping_of (NetMessage.vlan_teardown m) = none
mapping_of (NetMessage.vxlan_teardown m) = none

-- The server's end and the client's end of one edge.
pub record IsPair (s t : SetupArgs) (name : Text) : Type 0 where
  pub server : s.remote_server_name ≡ none
  pub client : t.remote_server_name ≡ some name
  pub same_id : s.net_id ≡ t.net_id
  pub same_containers : s.docker_containers ≡ t.docker_containers

module _ (x : Externals) where
  message_mapping :
      (s : SetupArgs) (port : ℕ) (n ns br : x.Network) (c : Option Text) (side : Text)
      → mapping_of (vxlan_message x s port n (ns, br, c, side)).1
        ≡ Option.map
            (λ name. record { ip = show_v4 (x.network_ip n); name = name })
            s.remote_server_name
  unfolding vxlan_message
  message_mapping s port n ns br c side = refl

  message_addr :
      (s : SetupArgs) (port : ℕ) (n ns br : x.Network) (c : Option Text) (side : Text)
      → (vxlan_message x s port n (ns, br, c, side)).0 ≡ x.network_ip (if is_some c then ns else br)
  unfolding vxlan_message
  message_addr s port n ns br c side = refl

  Built-mapping :
      (s t : SetupArgs) (name : Text) {p q : ℕ} {a b : Ipv4Addr} {m n : NetMessage}
      → IsPair s t name
      → Built x s p (some (a, m))
      → Built x t q (some (b, n))
      → (mapping_of n ≡ some (record { ip = show_v4 a; name = name })) × (mapping_of m ≡ none)
  Built-mapping s t name {p} {q} pair u v = ground (
    arith,
    message_mapping s p u.server_net u.ns_net u.br_net s.docker_containers.1 (codes "s"),
    message_mapping t q v.server_net v.ns_net v.br_net t.docker_containers.0 (codes "c"),
    message_addr s p u.server_net u.ns_net u.br_net s.docker_containers.1 (codes "s"),
  )

module _ (x : Externals) (law : NetworkLaw x) where
  -- The message to the client's end maps the server's name to the very address that the set-up of
  -- the server's end reports, and the message to the server's end maps no name.
  pub pair_mapping :
      (net : Net) (s t : SetupArgs) (name : Text) {a b : Ipv4Addr} {m n : NetMessage}
      → IsPair s t name
      → setup x net s ≡ some (a, m)
      → setup x net t ≡ some (b, n)
      → (mapping_of n ≡ some (record { ip = show_v4 a; name = name })) × (mapping_of m ≡ none)
  unfolding setup vlan_setup
  pair_mapping Net.vlan s t name p e f = ground arith
  pair_mapping Net.vxlan s t name p e f =
      Built-mapping x s t name p (subst (Built x s _) e (vxlan_setup-Built x law s _))
        (subst (Built x t _) f (vxlan_setup-Built x law t _))
