-- ===== src/HostFirewall/Tests.antt =====
-- Examples of the host's firewall: ebpf/src/main.rs, members/nullnet-client/src/ebpf/mod.rs.
use nullnet.Prelude.{
  ==_iff, ==_refl, Bool-cases, List, [], any, arith, eqb, false, get, if◌then◌else◌, inl, inr,
  insert, length, none, not, refl, some, suc, sym, true, zero, ℕ, ◌&&◌, ◌==◌, ◌||◌, ◌∷◌, ◌≡◌, ◌≤◌,
  ◌⊎◌, nat_eq,
}
use nullnet.Addr.{Ipv4Addr}
use nullnet.HostFirewall.Flows.{ct_key, ct_eq}
use nullnet.HostFirewall.{
  Externals, Config, Frame, Flow, Action, EtherType, IpProto, decide, base_allow, key_of, parse,
  admit, firewall, allow_key,
}
use nullnet.HostFirewall.Tracking.{
  KeepsNewest, AddsNoOther, reverse, reply_admitted, Packet, run, opens, flow_opened,
}
use nullnet.HostFirewall.Peers.{
  NetId, net_id_eq, FirewallPeers, add, remove_edge, max_entries, edges_of, incr, re_point,
}
use nullnet.HostFirewall.Peers
use nullnet.HostFirewall.{proto_tcp, proto_udp, is_in}
use nullnet.HostFirewall.Ports.{
  FirewallAllowPorts, FirewallConfig, update_ingress, populate_allow_ports, desired_of, remove_keys,
  map_remove, insert_keys, map_insert,
}
use nullnet.HostFirewall.Ports.Refresh
use nullnet.HostFirewall.Ports.Update.{asks, ports_refreshed}
use nullnet.HostFirewall.Ports.Start.{configured, ports_populated}
use nullnet.HostFirewall.Peers.Edges.{Reach, starts, adds, peers_exact}

-- Frames of four numbers, all of TCP, and a map that drops nothing.
abbrev nth : ℕ → Frame → ℕ
nth n [] = 0
nth zero (b ∷ frame) = b
nth (suc n) (b ∷ frame) = nth n frame

abbrev wire : Externals
wire = record {
  eth_len = 0;
  ipv4_len = 2;
  tcp_len = 2;
  udp_len = 2;
  ether_type = λ frame. some EtherType.ipv4;
  src_addr = nth 0;
  dst_addr = nth 1;
  proto = λ frame. IpProto.tcp;
  tcp_source = nth 2;
  tcp_dest = nth 3;
  udp_src = nth 2;
  udp_dst = nth 3;
  lru_insert = λ k ct. k ∷ ct;
}

wire-KeepsNewest : KeepsNewest wire
wire-KeepsNewest k ct = ground (arith, ==_refl k)

wire-AddsNoOther : AddsNoOther wire
wire-AddsNoOther k j ct h = elim (Bool-cases (k == j)) [
  | inl same ↦ inl (sym ((==_iff k j).0 same))
  | inr other ↦ inr (rw other at h)
]

-- The host 5 may open connections to port 443.
abbrev config : Config
config = record {
  server_ip = 1;
  control_port = 50051;
  egress_gateway = 0;
  peers = 9 ∷ [];
  allow_ports = allow_key true 6 443 ∷ [];
}

abbrev request : Flow
request = record { proto = 6; src = 5; dst = 7; src_port = 1000; dst_port = 443 }

allowed : (admit wire config true request []).0 ≡ Action.ok
unfolding admit base_allow
allowed = refl

unsolicited : (admit wire config false (reverse request) []).0 ≡ Action.shot
unfolding admit base_allow
unsolicited = refl

reply_admitted_example :
    (admit wire config false (reverse request) (admit wire config true request []).1).0 ≡ Action.ok
reply_admitted_example = reply_admitted wire config true false request [] wire-KeepsNewest allowed

abbrev frames : List Packet
frames = (true, 5 ∷ 7 ∷ 1000 ∷ 443 ∷ []) ∷ []

abbrev answer : Frame
answer = 7 ∷ 5 ∷ 443 ∷ 1000 ∷ []

answer_parsed : parse wire answer ≡ some (decide (reverse request))
unfolding parse
answer_parsed = refl

answer_passes : (firewall wire config false answer (run wire config frames [])).0 ≡ Action.ok
unfolding firewall admit base_allow parse run ct_key
answer_passes = refl

flow_opened_example :
    (base_allow config false (reverse request) ≡ true)
    ⊎ (any (opens wire config (key_of (reverse request))) frames ≡ true)
flow_opened_example =
    flow_opened wire config frames false answer (reverse request) wire-AddsNoOther answer_parsed
      answer_passes

abbrev peer : Ipv4Addr
peer = record { a = 10; b = 0; c = 0; d = 7 }

one_edge : (t : FirewallPeers) × (add (NetId.vxlan 101) peer Peers.new ≡ some t)
unfolding add re_point incr Peers.new get insert
one_edge = (_, refl)

one_edge-Reach : Reach one_edge.0
unfolding Peers.new
one_edge-Reach = adds (NetId.vxlan 101) peer starts (omega arith) one_edge.1

peers_exact_example :
    ((key : ℕ)
      → get key one_edge.0.map ≡ (if eqb (edges_of key one_edge.0.by_id) 0 then none else some 0))
    × ((max_entries ≤ length one_edge.0.by_id)
        ⊎ ((t : FirewallPeers) × (add (NetId.vxlan 102) peer one_edge.0 ≡ some t)))
    × ((t : FirewallPeers) × (remove_edge (NetId.vxlan 102) one_edge.0 ≡ some t))
peers_exact_example = peers_exact one_edge.0 (NetId.vxlan 102) peer one_edge-Reach

abbrev listeners : FirewallConfig
listeners = record {
  ingress_tcp = 443 ∷ [];
  ingress_udp = [];
  egress_tcp = [];
  egress_udp = 53 ∷ [];
}

ports_populated_example :
    (s : FirewallAllowPorts) × (populate_allow_ports listeners ≡ some s)
    × Refresh.Inv s
    × ((k : ℕ) → is_in k s.map ≡ configured k listeners)
ports_populated_example = ports_populated listeners (omega arith)

abbrev https : ℕ
https = allow_key false proto_tcp 443

abbrev dns : ℕ
dns = allow_key true proto_udp 53

abbrev open_ports : FirewallAllowPorts
open_ports = record { map = https ∷ dns ∷ []; ingress = https ∷ [] }

moved_to_8443 : update_ingress (8443 ∷ []) [] open_ports ≡ (
  record {
    map = allow_key false proto_tcp 8443 ∷ dns ∷ [];
    ingress = allow_key false proto_tcp 8443 ∷ [];
  },
  true,
)
unfolding update_ingress desired_of remove_keys map_remove insert_keys map_insert
moved_to_8443 = refl

ports_refreshed_example :
    (t : FirewallAllowPorts) × (update_ingress (8443 ∷ []) [] open_ports ≡ (t, true))
    × ((k : ℕ) → is_in k t.ingress ≡ (asks k proto_tcp (8443 ∷ []) || asks k proto_udp []))
    × ((k : ℕ)
        → is_in k t.map ≡ (
            asks k proto_tcp (8443 ∷ [])
            || asks k proto_udp []
            || (is_in k open_ports.map && not (is_in k open_ports.ingress))))
    × Refresh.Inv t
ports_refreshed_example =
    ports_refreshed (8443 ∷ []) [] open_ports (record { held = refl; once = refl }) refl refl
      (omega arith)
