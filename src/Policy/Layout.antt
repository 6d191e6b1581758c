-- ===== src/Policy/Layout.antt =====
-- shared/policy.rs and ebpf/src/policy.rs: the layouts of the maps, and what the kernel offers.
use nullnet.Prelude.{Bool, List, Option, ℕ}

abbrev pub app_ip : ℕ
app_ip = 2852057090

pub record OutKey : Type 0 where
  pub interface : ℕ
  pub peer : ℕ

pub record FlowKey : Type 0 where
  pub interface : ℕ
  pub peer : ℕ
  pub local_port : ℕ
  pub remote_port : ℕ

pub record Rule : Type 0 where
  pub generation : ℕ
  pub vni : ℕ
  pub local_ip : ℕ
  pub peer : ℕ
  pub underlay_local : ℕ
  pub underlay_remote : ℕ
  pub transport : ℕ
  pub mark : ℕ
  pub output : ℕ
  pub enabled : ℕ
  pub mac : List ℕ

-- `bpf_tunnel_key`.
pub record Tunnel : Type 0 where
  pub tunnel_id : ℕ
  pub tunnel_ttl : ℕ
  pub remote_ipv4 : ℕ
  pub local_ipv4 : ℕ

-- The crate `aya_ebpf` and the kernel's helpers on a packet and on the LRU map of flows; `none`
-- is a failure. `load` reads so many bytes at an offset.
pub record Kernel : Type 1 where
  pub Packet : Type 0
  pub load : Packet → (offset bytes : ℕ) → Option ℕ
  pub l3_csum_replace : Packet → (offset old new : ℕ) → Option Packet
  pub l4_csum_replace : Packet → (offset old new flags : ℕ) → Option Packet
  pub store : Packet → (offset value : ℕ) → Option Packet
  pub store_mac : Packet → List ℕ → Option Packet
  pub ifindex : Packet → ℕ
  pub mark : Packet → ℕ
  pub set_mark : Packet → ℕ → Packet
  pub get_tunnel_key : Packet → Option Tunnel
  pub get_tunnel_opt : Packet → Option ℕ
  pub set_tunnel_key : Packet → Tunnel → Option Packet
  pub set_tunnel_opt : Packet → ℕ → Option Packet
  pub Flows : Type 0
  pub flow_generation : Flows → FlowKey → Option ℕ
  pub flow_insert : Flows → FlowKey → ℕ → Option Flows

-- `POLICY_OUT`, `POLICY_IN` and `POLICY_DEADLINE`, and the time of `bpf_ktime_get_ns`.
pub record Policies : Type 0 where
  pub policy_out : OutKey → Option Rule
  pub policy_in : ℕ → Option Rule
  pub deadline : Option ℕ
  pub now : ℕ

-- What `flow` reads of a TCP segment.
pub record Segment : Type 0 where
  pub key : FlowKey
  pub syn : Bool

-- What is known of a packet when its flow is looked up.
pub record Checked : Type 0 where
  pub rule : Rule
  pub interface : ℕ
  pub len : ℕ
  pub proto : ℕ
