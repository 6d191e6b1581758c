-- ===== src/HostFirewall.antt =====
-- ebpf/src/main.rs: the stateful firewall on a host's interface. A run of the program is a function
-- of its globals and its maps; of the maps it changes the connection tracking only.
pub mod Flows
pub mod Tracking
pub mod Peers
pub mod Ports
mod Tests
use nullnet.Prelude.{
  Bool, Eq, List, Option, any, eqb, if◌then◌else◌, leb, length, none, not, some, true, ℕ, ◌&&◌, ◌*◌,
  ◌+◌, ◌==◌, ◌>>=◌, ◌^◌, ◌||◌, nat_eq,
}
use Flows.{CtKey, ct_key, ct_eq}

abbrev pub vxlan_port : ℕ
vxlan_port = 47890

abbrev pub forward_port : ℕ
forward_port = 9999

abbrev pub proto_tcp : ℕ
proto_tcp = 6

abbrev pub proto_udp : ℕ
proto_udp = 17

abbrev pub proto_esp : ℕ
proto_esp = 50

-- A frame, byte by byte.
abbrev pub Frame : Type 0
Frame = List ℕ

-- The types that the crate `network_types` names, and the rest.
pub data EtherType : Type 0 where
  arp ipv4 other_type : EtherType

pub data IpProto : Type 0 where
  tcp udp icmp esp other_proto : IpProto

-- The crate `network_types`: the sizes of the headers, and their fields in host order. A field is
-- read from the start of the frame; the ports from behind the two headers.
-- And the kernel's LRU map: what an insertion leaves of the entries.
pub record Externals : Type 0 where
  pub eth_len : ℕ
  pub ipv4_len : ℕ
  pub tcp_len : ℕ
  pub udp_len : ℕ
  pub ether_type : Frame → Option EtherType
  pub src_addr : Frame → ℕ
  pub dst_addr : Frame → ℕ
  pub proto : Frame → IpProto
  pub tcp_source : Frame → ℕ
  pub tcp_dest : Frame → ℕ
  pub udp_src : Frame → ℕ
  pub udp_dst : Frame → ℕ
  pub lru_insert : CtKey → List CtKey → List CtKey

-- What userspace sets: `SERVER_IP`, `CONTROL_PORT`, `EGRESS_GATEWAY`, and the keys of `PEERS` and
-- `ALLOW_PORTS`.
pub record Config : Type 0 where
  pub server_ip : ℕ
  pub control_port : ℕ
  pub egress_gateway : ℕ
  pub peers : List ℕ
  pub allow_ports : List ℕ

pub data Action : Type 0 where
  ok shot : Action

-- The fields that the decision reads: `proto`, `src`, `dst`, `src_port` and `dst_port`.
pub record Flow : Type 0 where
  pub proto : ℕ
  pub src : ℕ
  pub dst : ℕ
  pub src_port : ℕ
  pub dst_port : ℕ

abbrev pub is_gateway : Config → Bool
is_gateway g = not (eqb g.egress_gateway 0)

abbrev pub is_in {ℓ} : {A : Type ℓ} ⦃e : Eq A⦄ → A → List A → Bool
is_in a xs = any (λ x. x == a) xs

abbrev pub is_peer : Config → ℕ → Bool
is_peer g ip = is_in ip g.peers

-- The fields of a key do not overlap, so that `|` adds them.
abbrev pub allow_key : Bool → ℕ → ℕ → ℕ
allow_key is_egress proto port = (if is_egress then 1 else 0) * 2 ^ 24 + proto * 2 ^ 16 + port

abbrev pub is_port_allowed : Config → Bool → ℕ → ℕ → Bool
is_port_allowed g is_egress proto port = is_in (allow_key is_egress proto port) g.allow_ports

abbrev pub control_plane : Config → Flow → Bool
control_plane g f =
    (eqb f.dst g.server_ip && eqb f.dst_port g.control_port)
    || (eqb f.src g.server_ip && eqb f.src_port g.control_port)

abbrev pub data_plane : Config → Flow → Bool
data_plane g f =
    (eqb f.dst_port vxlan_port
      || eqb f.src_port vxlan_port
      || eqb f.dst_port forward_port
      || eqb f.src_port forward_port)
    && (is_peer g f.src || is_peer g f.dst)

unfoldable pub base_allow : Config → Bool → Flow → Bool
base_allow g is_egress f =
    if eqb f.proto proto_tcp && control_plane g f
    then true
    else if eqb f.proto proto_udp && data_plane g f
    then true
    else if eqb f.proto proto_esp && (is_peer g f.src || is_peer g f.dst)
    then true
    else if is_gateway g && is_egress
    then true
    else is_port_allowed g is_egress f.proto f.dst_port

abbrev pub key_of : Flow → CtKey
key_of f = ct_key f.src f.dst f.src_port f.dst_port f.proto

-- What is done with a packet, read as far as the decision needs it: `Err` where a header is short.
pub data Parsed : Type 0 where
  pass drop : Parsed
  decide : Flow → Parsed

module _ (x : Externals) where
  -- `ptr_at`: whether a header of this length stands at this place.
  abbrev pub ptr_at : Frame → (offset len : ℕ) → Bool
  ptr_at frame offset len = leb (offset + len) (length frame)

  abbrev pub transport : Frame → IpProto → Option Parsed
  transport frame IpProto.tcp =
      if ptr_at frame (x.eth_len + x.ipv4_len) x.tcp_len
      then some (
          decide (record {
            proto = proto_tcp;
            src = x.src_addr frame;
            dst = x.dst_addr frame;
            src_port = x.tcp_source frame;
            dst_port = x.tcp_dest frame;
          }))
      else none
  transport frame IpProto.udp =
      if ptr_at frame (x.eth_len + x.ipv4_len) x.udp_len
      then some (
          decide (record {
            proto = proto_udp;
            src = x.src_addr frame;
            dst = x.dst_addr frame;
            src_port = x.udp_src frame;
            dst_port = x.udp_dst frame;
          }))
      else none
  transport frame IpProto.icmp = some pass
  transport frame IpProto.esp = some (
      decide (record {
        proto = proto_esp;
        src = x.src_addr frame;
        dst = x.dst_addr frame;
        src_port = 0;
        dst_port = 0;
      }))
  transport frame IpProto.other_proto = some drop

  abbrev network : Frame → EtherType → Option Parsed
  network frame EtherType.arp = some pass
  network frame EtherType.ipv4 =
      if ptr_at frame x.eth_len x.ipv4_len then transport frame (x.proto frame) else none
  network frame EtherType.other_type = some drop

  unfoldable pub parse : Frame → Option Parsed
  parse frame = if ptr_at frame 0 x.eth_len then x.ether_type frame >>= network frame else none

  -- The rest of `try_firewall`: `ct_hit`, `base_allow` and `ct_insert`.
  unfoldable pub admit : Config → Bool → Flow → List CtKey → Action × List CtKey
  admit g is_egress f ct =
      if is_in (key_of f) ct || base_allow g is_egress f
      then (Action.ok, x.lru_insert (key_of f) ct)
      else (Action.shot, ct)

  abbrev pub act : Config → Bool → List CtKey → Option Parsed → Action × List CtKey
  act g is_egress ct none = (Action.shot, ct)
  act g is_egress ct (some pass) = (Action.ok, ct)
  act g is_egress ct (some drop) = (Action.shot, ct)
  act g is_egress ct (some (decide f)) = admit g is_egress f ct

  -- `nullnet_fw_ingress` and `nullnet_fw_egress`, by the direction: an error drops the packet.
  unfoldable pub firewall : Config → Bool → Frame → List CtKey → Action × List CtKey
  firewall g is_egress frame ct = act g is_egress ct (parse frame)
