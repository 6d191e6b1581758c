-- ===== src/NetExt.antt =====
-- members/nullnet-server/src/net.rs: the setup and teardown messages of an edge, and the overlay
-- addresses that a network ID stands for.
pub mod Messages
pub mod Subnets
pub mod Names
pub mod Ends
mod Tests
use mathlib.Core.Option
use nullnet.Prelude.{
  Bool, List, Option, Text, codes, false, if◌then◌else◌, map, none, show, some, true, ℕ, ◌%◌, ◌*◌,
  ◌++◌, ◌+◌, ◌/◌, ◌>>=◌, ◌^◌, ◌∷◌, ◌≡◌, ◌≤◌,
}
use nullnet.NetIdPool.{Net}
use nullnet.Addr.{Ipv4Addr, IpAddr, v4, v6, show_v4}
use Messages.{
  MsgId, HostMapping, GroupTransport, VlanSetup, VlanTeardown, VxlanSetup, VxlanTeardown,
  NetMessage, EgressRole,
}

abbrev pub default_vxlan_dstport : ℕ
default_vxlan_dstport = 47890

-- The crate `ipnetwork`: `Ipv4Network::new`, `ip` and `Display`; and the text of an IPv6 address.
pub record Externals : Type 1 where
  pub Network : Type 0
  pub new_network : Ipv4Addr → ℕ → Option Network
  pub network_ip : Network → Ipv4Addr
  pub show_network : Network → Text
  pub show_v6 : ℕ → Text

-- What the code relies on: a prefix of at most 32 bits makes a network, which keeps its address.
abbrev pub NetworkLaw : Externals → Type 0
NetworkLaw x =
    (a : Ipv4Addr) (p : ℕ)
    → p ≤ 32
    → (n : x.Network) × (x.new_network a p ≡ some n) × (x.network_ip n ≡ a)

-- The arguments of `setup`.
pub record SetupArgs : Type 0 where
  pub msg_id : Text
  pub dest : IpAddr
  pub remote_server_name : Option Text
  pub net_id : ℕ
  pub remote : IpAddr
  pub docker_containers : Option Text × Option Text
  pub dnat_port : Option ℕ
  pub encryption_key : List ℕ
  pub xfrm_transport_id : Option ℕ
  pub dstport : Option ℕ
  pub encrypted : Bool
  pub egress : EgressRole
  pub group_transport : Option GroupTransport

abbrev pub is_some {ℓ} : {A : Type ℓ} → Option A → Bool
is_some none = false
is_some (some _) = true

-- `offset.to_be_bytes()` without its first byte, and `k` added to the last in `u8`.
pub block_addr : ℕ → ℕ → Ipv4Addr
block_addr offset k = record {
  a = 10;
  b = offset / 2 ^ 16 % 2 ^ 8;
  c = offset / 2 ^ 8 % 2 ^ 8;
  d = (offset % 2 ^ 8 + k) % 2 ^ 8;
}

-- `format!("{prefix}{net_id}_{side}")`.
pub edge_name : Text → ℕ → Text → Text
edge_name prefix net_id side = prefix ++ (show net_id ++ (b'_' ∷ side))

module _ (x : Externals) where
  pub show_ip : IpAddr → Text
  show_ip (v4 a) = show_v4 a
  show_ip (v6 n) = x.show_v6 n

  pub vlan_setup : SetupArgs → Option (Ipv4Addr × NetMessage)
  unfolding block_addr show_ip
  vlan_setup s =
      let offset = s.net_id * 4 % 2 ^ 32 in
      let server_veth = block_addr offset 1 in
      let client_veth = block_addr offset 2 in
      let client = is_some s.remote_server_name in
      let local_veth = if client then client_veth else server_veth in
      let remote_veth = if client then server_veth else client_veth in
      some (
        local_veth,
        NetMessage.vlan_setup (record {
          msg_id = some (record { id = s.msg_id });
          vlan_id = s.net_id;
          local_veth = show_v4 local_veth;
          remote_veth = show_v4 remote_veth;
          local_ip = show_ip s.dest;
          remote_ip = show_ip s.remote;
          host_mapping =
              Option.map (λ name. record { ip = show_v4 server_veth; name = name })
                s.remote_server_name;
          encryption_key = s.encryption_key;
          encrypted = s.encrypted;
        }),
      )

  -- `egress_steer` and `egress_intercept`.
  pub egress_markers : EgressRole → Option Bool × Option Bool
  egress_markers EgressRole.none = (none, none)
  egress_markers EgressRole.steer = (some true, none)
  egress_markers EgressRole.intercept = (none, some true)

  -- The namespace and bridge networks, the container and the letter of the side that is set up.
  abbrev pub Side : Type 0
  Side = x.Network × x.Network × Option Text × Text

  choose_side : Bool → ℕ → x.Network → x.Network → Option Text → Option Text → Option Side
  unfolding block_addr
  choose_side false offset ns_net_server br_net_server client_docker server_docker =
      some (ns_net_server, br_net_server, server_docker, codes "s")
  choose_side true offset ns_net_server br_net_server client_docker server_docker = do
    ns_net_client ← x.new_network (block_addr offset 3) 29
    br_net_client ← x.new_network (block_addr offset 4) 29
    some (ns_net_client, br_net_client, client_docker, codes "c")

  pub vxlan_message : SetupArgs → ℕ → x.Network → Side → Ipv4Addr × NetMessage
  unfolding edge_name show_ip egress_markers
  vxlan_message s dstport server_net (ns_net, br_net, docker_container, side) =
      let local_net = if is_some docker_container then ns_net else br_net in
      let markers = egress_markers s.egress in
      (
        x.network_ip local_net,
        NetMessage.vxlan_setup (record {
          msg_id = some (record { id = s.msg_id });
          vxlan_id = s.net_id;
          ns_name = edge_name (codes "ns_") s.net_id side;
          ns_net = x.show_network ns_net;
          br_name = edge_name (codes "br_") s.net_id side;
          br_net = x.show_network br_net;
          local_ip = show_ip s.dest;
          remote_ip = show_ip s.remote;
          host_mapping =
              Option.map (λ name. record { ip = show_v4 (x.network_ip server_net); name = name })
                s.remote_server_name;
          docker_container = docker_container;
          dnat_port = s.dnat_port;
          egress_steer = markers.0;
          egress_intercept = markers.1;
          encryption_key = s.encryption_key;
          dstport = dstport;
          encrypted = s.encrypted;
          group_transport = s.group_transport;
          xfrm_transport_id = s.xfrm_transport_id;
        }),
      )

  pub vxlan_setup : SetupArgs → ℕ → Option (Ipv4Addr × NetMessage)
  unfolding block_addr choose_side vxlan_message
  vxlan_setup s dstport = do
    let offset = s.net_id * 8 % 2 ^ 32
    ns_net_server ← x.new_network (block_addr offset 1) 29
    br_net_server ← x.new_network (block_addr offset 2) 29
    side ←
        choose_side (is_some s.remote_server_name) offset ns_net_server br_net_server
          s.docker_containers.0 s.docker_containers.1
    let server_net = if is_some s.docker_containers.1 then ns_net_server else br_net_server
    some (vxlan_message s dstport server_net side)

  pub setup : Net → SetupArgs → Option (Ipv4Addr × NetMessage)
  unfolding vlan_setup vxlan_setup
  setup Net.vlan s = vlan_setup s
  setup Net.vxlan s = vxlan_setup s (Option.get_or s.dstport default_vxlan_dstport)

  pub teardown :
      Net → ℕ → Text → Option Text → IpAddr → IpAddr → Option ℕ → Text → Bool → NetMessage
  unfolding edge_name show_ip
  teardown Net.vlan net_id side docker_container local_ip remote_ip dstport msg_id group =
      NetMessage.vlan_teardown (record { vlan_id = net_id; msg_id = some (record { id = msg_id }) })
  teardown Net.vxlan net_id side docker_container local_ip remote_ip dstport msg_id group =
      NetMessage.vxlan_teardown (record {
        vxlan_id = net_id;
        ns_name = edge_name (codes "ns_") net_id side;
        br_name = edge_name (codes "br_") net_id side;
        docker_container = docker_container;
        local_ip = show_ip local_ip;
        remote_ip = show_ip remote_ip;
        dstport = Option.get_or dstport default_vxlan_dstport;
        msg_id = some (record { id = msg_id });
        group = group;
      })
