-- ===== src/Policy.antt =====
-- ebpf/src/policy.rs, with the layouts of shared/policy.rs: the forwarding of an application's
-- packets over group carriers. A run of a program is a function of the packet, the maps that the
-- client fills, the time and the table of flows. Numbers of the packet are in host order.
pub mod Layout
pub mod Established
pub mod Checks
mod Tests
use nullnet.Prelude.{
  Bool, Option, eqb, false, if◌then◌else◌, leb, ltb, none, not, some, ℕ, ◌%◌, ◌&&◌, ◌*◌, ◌+◌, ◌/◌,
  ◌==◌, ◌>>=◌, ◌^◌, ◌||◌, nat_eq, option_eq,
}
use Layout.{app_ip, OutKey, FlowKey, Rule, Tunnel, Kernel, Policies, Segment, Checked}

abbrev pub is_some_and {ℓ} : {A : Type ℓ} → Option A → (A → Bool) → Bool
is_some_and none p = false
is_some_and (some a) p = p a

abbrev pub alive : Policies → Bool
alive g = is_some_and g.deadline (λ deadline. ltb g.now deadline)

abbrev pub tcp : ℕ
tcp = 6

abbrev pub udp : ℕ
udp = 17

abbrev pub icmp : ℕ
icmp = 1

-- `(rule.generation >> 24) as u32 | (1 << 22)`.
abbrev pub set_bit_22 : ℕ → ℕ
set_bit_22 n = if eqb (n / 2 ^ 22 % 2) 1 then n else n + 2 ^ 22

abbrev pub tunnel_option : Rule → ℕ
tunnel_option rule = set_bit_22 (rule.generation / 2 ^ 24 % 2 ^ 32)

module _ (x : Kernel) where
  unfoldable pub header : x.Packet → Option (ℕ × ℕ)
  header packet = do
    kind ← x.load packet 12 2
    version ← x.load packet 14 1
    fragment ← x.load packet 20 2
    proto ← x.load packet 23 1
    let len = version % 16 * 4
    if eqb kind 2048
          && eqb (version / 16) 4
          && leb 20 len
          && eqb (fragment % 2 ^ 14) 0
          && (eqb proto tcp || eqb proto udp || eqb proto icmp)
        then some (len, proto)
        else none

  abbrev pub replace_checksum : x.Packet → (checksum old new proto : ℕ) → Option x.Packet
  replace_checksum packet checksum old new proto =
      if eqb proto tcp
      then x.l4_csum_replace packet checksum old new 52
      else if eqb proto udp
      then (x.load packet checksum 2 >>= λ sum.
          if eqb sum 0 then some packet else x.l4_csum_replace packet checksum old new 52)
      else some packet

  unfoldable pub translate : x.Packet → (offset target len proto : ℕ) → Option x.Packet
  translate packet offset target len proto = do
    old ← x.load packet offset 4
    p1 ← x.l3_csum_replace packet 24 old target
    p2 ← replace_checksum p1 (14 + len + (if eqb proto tcp then 16 else 6)) old target proto
    x.store p2 offset target

  unfoldable pub segment : Rule → (interface len : ℕ) → Bool → x.Packet → Option Segment
  segment rule interface len incoming packet = do
    source ← x.load packet (14 + len) 2
    dest ← x.load packet (16 + len) 2
    flags ← x.load packet (27 + len) 1
    some (record {
      key = record {
        interface = interface;
        peer = rule.peer;
        local_port = if incoming then dest else source;
        remote_port = if incoming then source else dest;
      };
      syn = eqb (flags / 2 % 2) 1;
    })

  abbrev pub track : Rule → Segment → x.Flows → Option x.Flows
  track rule s flows =
      if s.syn
      then x.flow_insert flows s.key rule.generation
      else if x.flow_generation flows s.key == some rule.generation
      then some flows
      else none

  abbrev pub track_tcp : Rule → Option Segment → x.Flows → Option x.Flows
  track_tcp rule none flows = none
  track_tcp rule (some s) flows = track rule s flows

  unfoldable pub flow : Checked → Bool → x.Packet → x.Flows → Option x.Flows
  flow c incoming packet flows =
      if eqb c.proto tcp
      then track_tcp c.rule (segment c.rule c.interface c.len incoming packet) flows
      else some flows

  -- The guards of `outgoing`, and those of `incoming`, that come before the flow.
  unfoldable pub check_out : Policies → x.Packet → Option Checked
  check_out g packet = do
    (len, proto) ← header packet
    source ← x.load packet 26 4
    peer ← x.load packet 30 4
    rule ← g.policy_out (record { interface = x.ifindex packet; peer = peer })
    if alive g && eqb source app_ip && not (eqb rule.enabled 0)
        then some (record { rule = rule; interface = x.ifindex packet; len = len; proto = proto })
        else none

  abbrev pub is_tunnel : Rule → Tunnel → ℕ → Bool
  is_tunnel rule t option =
      eqb t.remote_ipv4 rule.underlay_remote
      && eqb t.tunnel_id rule.vni
      && eqb (option % 2 ^ 16) (rule.generation / 2 ^ 24)

  unfoldable pub check_in : Policies → x.Packet → Option Checked
  check_in g packet = do
    (len, proto) ← header packet
    target ← x.load packet 30 4
    rule ← g.policy_in target
    source ← x.load packet 26 4
    t ← x.get_tunnel_key packet
    option ← x.get_tunnel_opt packet
    if alive g && eqb (x.mark packet) rule.mark && eqb source rule.peer && is_tunnel rule t option
        then some (record { rule = rule; interface = rule.output; len = len; proto = proto })
        else none

  -- The rest of `outgoing` and of `incoming`: the interface that the packet is redirected to.
  abbrev remote : Rule → x.Packet → Option (ℕ × x.Packet)
  remote rule packet = do
    p1 ← x.set_tunnel_key packet (record {
      tunnel_id = rule.vni;
      tunnel_ttl = 64;
      remote_ipv4 = rule.underlay_remote;
      local_ipv4 = rule.underlay_local;
    })
    p2 ← x.set_tunnel_opt p1 (tunnel_option rule)
    some (rule.transport, x.set_mark p2 rule.mark)

  abbrev same_host : Checked → x.Packet → Option (ℕ × x.Packet)
  same_host c packet = do
    p1 ← translate packet 30 app_ip c.len c.proto
    p2 ← x.store_mac p1 c.rule.mac
    some (c.rule.output, p2)

  unfoldable pub emit_out : Checked → x.Packet → Option (ℕ × x.Packet)
  emit_out c packet = do
    p ← translate packet 26 c.rule.local_ip c.len c.proto
    if eqb c.rule.underlay_local c.rule.underlay_remote then same_host c p else remote c.rule p

  unfoldable pub emit_in : Checked → x.Packet → Option (ℕ × x.Packet)
  emit_in c packet = do
    p1 ← translate packet 30 app_ip c.len c.proto
    p2 ← x.store_mac p1 c.rule.mac
    some (c.rule.output, x.set_mark p2 0)

  abbrev pub check : Bool → Policies → x.Packet → Option Checked
  check incoming g packet = if incoming then check_in g packet else check_out g packet

  abbrev pub emit : Bool → Checked → x.Packet → Option (ℕ × x.Packet)
  emit incoming c packet = if incoming then emit_in c packet else emit_out c packet

  abbrev pub with_flows :
      Option x.Flows → x.Flows → Option (ℕ × x.Packet) → Option (ℕ × x.Packet) × x.Flows
  with_flows none flows sent = (none, flows)
  with_flows (some flows') flows sent = (sent, flows')

  abbrev pub forward_checked :
      Bool → Option Checked → x.Packet → x.Flows → Option (ℕ × x.Packet) × x.Flows
  forward_checked incoming none packet flows = (none, flows)
  forward_checked incoming (some c) packet flows =
      with_flows (flow c incoming packet flows) flows (emit incoming c packet)

  -- `nullnet_policy_out` and `nullnet_policy_in`, by the direction: `none` drops the packet. A flow
  -- that was stored stays when a later step fails.
  unfoldable pub forward : Bool → Policies → x.Packet → x.Flows → Option (ℕ × x.Packet) × x.Flows
  forward incoming g packet flows = forward_checked incoming (check incoming g packet) packet flows
