-- ===== src/NetExt/Subnets.antt =====
-- The overlay addresses of an edge: members/nullnet-server/src/net.rs.
use mathlib.Core.Option
use nullnet.Prelude.{
  Bool-cases, Option, ap, arith, codes, count, if◌then◌else◌, inl, inr, refl, some, ℕ, ◌%◌, ◌*◌,
  ◌+◌, ◌<◌, ◌^◌, ◌∙◌, ◌≡◌, ◌≢◌, ◌≤◌, nat_eq,
}
use nullnet.Addr.{Ipv4Addr, bits}
use nullnet.NetIdPool.{Net, max_net_id, allocate, NetIdPool}
use nullnet.NetIdPool.Leases.{System, Reach, Inv, Reach-Inv, allocate_exclusive}
use nullnet.NetExt.Messages.{NetMessage}
use nullnet.NetExt.{
  Externals, NetworkLaw, SetupArgs, setup, vlan_setup, vxlan_setup, vxlan_message, choose_side,
  block_addr, is_some,
}

-- An address of a block of 4 or 8 addresses, as a number: no byte overflows.
bits-block_addr_vlan :
    (id k : ℕ)
    → id ≤ 4094
    → k ≤ 2
    → bits (block_addr (id * 4 % 2 ^ 32) k) ≡ 10 * 2 ^ 24 + 4 * id + k
unfolding block_addr
bits-block_addr_vlan id k h hk = omega arith

bits-block_addr_vxlan :
    (id k : ℕ)
    → id ≤ 2097151
    → k ≤ 4
    → bits (block_addr (id * 8 % 2 ^ 32) k) ≡ 10 * 2 ^ 24 + 8 * id + k
unfolding block_addr
bits-block_addr_vxlan id k h hk = omega arith

-- The size of a block, and the place in it of the address that a side reports.
abbrev pub block_size : Net → ℕ
block_size Net.vlan = 4
block_size Net.vxlan = 8

abbrev pub place : Net → SetupArgs → ℕ
place Net.vlan s = if is_some s.remote_server_name then 2 else 1
place Net.vxlan s =
    if is_some s.remote_server_name
    then (if is_some s.docker_containers.0 then 3 else 4)
    else (if is_some s.docker_containers.1 then 1 else 2)

abbrev at : SetupArgs → ℕ → Ipv4Addr
at s k = block_addr (s.net_id * 8 % 2 ^ 32) k

-- A successful VXLAN setup, by its parts.
pub record Built (x : Externals) (s : SetupArgs) (port : ℕ) (r : Option (Ipv4Addr × NetMessage))
    : Type 0 where
  pub server_net : x.Network
  pub ns_net : x.Network
  pub br_net : x.Network
  pub result :
      r
      ≡ some (
          vxlan_message x s port server_net (
            ns_net,
            br_net,
            if is_some s.remote_server_name then s.docker_containers.0 else s.docker_containers.1,
            if is_some s.remote_server_name then codes "c" else codes "s",
          ))
  pub server_ip : x.network_ip server_net ≡ at s (if is_some s.docker_containers.1 then 1 else 2)
  pub ns_ip : x.network_ip ns_net ≡ at s (if is_some s.remote_server_name then 3 else 1)
  pub br_ip : x.network_ip br_net ≡ at s (if is_some s.remote_server_name then 4 else 2)

module _ (x : Externals) (law : NetworkLaw x) (s : SetupArgs) (port : ℕ) where
  pub vxlan_setup-Built : Built x s port (vxlan_setup x s port)
  unfolding vxlan_setup choose_side
  vxlan_setup-Built =
      let (n1, e1, i1) = law (at s 1) 29 (omega arith) in
      let (n2, e2, i2) = law (at s 2) 29 (omega arith) in
      let (n3, e3, i3) = law (at s 3) 29 (omega arith) in
      let (n4, e4, i4) = law (at s 4) 29 (omega arith) in
      elim (Bool-cases (is_some s.remote_server_name)) [
        | inl client ↦ record {
          server_net = if is_some s.docker_containers.1 then n1 else n2;
          ns_net = n3;
          br_net = n4;
          result = ground arith;
          server_ip = ground arith;
          ns_ip = ground arith;
          br_ip = ground arith;
        }
        | inr server ↦ record {
          server_net = if is_some s.docker_containers.1 then n1 else n2;
          ns_net = n1;
          br_net = n2;
          result = ground arith;
          server_ip = ground arith;
          ns_ip = ground arith;
          br_ip = ground arith;
        }
      ]

module _ (x : Externals) (s : SetupArgs) (port : ℕ) where
  -- The address that a built edge reports is that of its side's place.
  Built-addr :
      {r : Option (Ipv4Addr × NetMessage)}
      → Built x s port r
      → (m : NetMessage) × (r ≡ some (at s (place Net.vxlan s), m))
  unfolding vxlan_message
  Built-addr b = (message, b.result ∙ ap (λ a. some (a, message)) reported)
    where
      message : NetMessage
      message =
          (vxlan_message x s port b.server_net (
            b.ns_net,
            b.br_net,
            if is_some s.remote_server_name then s.docker_containers.0 else s.docker_containers.1,
            if is_some s.remote_server_name then codes "c" else codes "s",
          )).1

      reported :
          x.network_ip (
            if is_some (
              if is_some s.remote_server_name then s.docker_containers.0 else s.docker_containers.1)
            then b.ns_net
            else b.br_net)
          ≡ at s (place Net.vxlan s)
      reported = ground (arith, b.ns_ip, b.br_ip)

-- Every set-up for an ID that the pool can hand out succeeds, on VXLAN if a network of at most 32
-- prefix bits can be made, and reports the address at the side's place in the ID's own block of
-- 10.0.0.0/8, with no overflow in `u32` or in an octet.
module _ (x : Externals) (law : NetworkLaw x) where
  -- A set-up for an ID up to the maximum succeeds, when the crate makes networks of addresses and
  -- prefixes, and reports the address of its side's place in the block of its ID: the block of 4
  -- (VLAN) or 8 (VXLAN) addresses number ID of 10.0.0.0/8. No byte of the address overflows.
  pub setup_addr :
      (net : Net) (s : SetupArgs)
      → s.net_id ≤ max_net_id net
      → (a : Ipv4Addr) × (m : NetMessage) × (setup x net s ≡ some (a, m))
        × (bits a ≡ 10 * 2 ^ 24 + block_size net * s.net_id + place net s)
  unfolding setup vlan_setup
  setup_addr Net.vlan s h = (
    _,
    _,
    refl,
    (let k = place Net.vlan s in
        elim (Bool-cases (is_some s.remote_server_name)) [
          | inl c ↦ rw c (bits-block_addr_vlan s.net_id 2 h (omega arith))
          | inr c ↦ rw c (bits-block_addr_vlan s.net_id 1 h (omega arith))
        ]),
  )
  setup_addr Net.vxlan s h =
      let port = Option.get_or s.dstport 47890 in
      let (m, e) = Built-addr x s port (vxlan_setup-Built x law s port) in
      (
        at s (place Net.vxlan s),
        m,
        e,
        bits-block_addr_vxlan s.net_id (place Net.vxlan s) h (ground arith),
      )

  addr_of_setup :
      (net : Net) (s : SetupArgs) {a : Ipv4Addr} {m : NetMessage}
      → s.net_id ≤ max_net_id net
      → setup x net s ≡ some (a, m)
      → bits a ≡ 10 * 2 ^ 24 + block_size net * s.net_id + place net s
  addr_of_setup net s {a} {m} h e = let (a', m', e', b) = setup_addr net s h in ground arith

  places :
      (net : Net) (s t : SetupArgs)
      → block_size net * s.net_id + place net s ≡ block_size net * t.net_id + place net t
      → (s.net_id ≡ t.net_id) × (is_some s.remote_server_name ≡ is_some t.remote_server_name)
  places Net.vlan s t h = ground arith
  places Net.vxlan s t h = ground arith

  -- Two set-ups of the same kind, for IDs up to the maximum, that report one address are for the same
  -- ID and for the same side of the edge.
  pub setup_addr_injective :
      (net : Net) (s t : SetupArgs) {a b : Ipv4Addr} {m n : NetMessage}
      → s.net_id ≤ max_net_id net
      → t.net_id ≤ max_net_id net
      → setup x net s ≡ some (a, m)
      → setup x net t ≡ some (b, n)
      → a ≡ b
      → (s.net_id ≡ t.net_id) × (is_some s.remote_server_name ≡ is_some t.remote_server_name)
  setup_addr_injective net s t hs ht es et e =
      places net s t
        (omega (arith, addr_of_setup net s hs es, addr_of_setup net t ht et, ap bits e))

  live_le :
      (net : Net) {sys : System} (id : ℕ)
      → Inv net sys
      → 0 < count id sys.live
      → id ≤ max_net_id net
  live_le net id v held = ground (arith, v.parted id, v.high)

  -- An ID that the pool hands out gives addresses that no edge under an ID held at that moment has,
  -- in every history in which an ID is given back by its holder only, or once more while nobody
  -- holds it.
  pub allocated_addr_ne :
      (net : Net) {sys : System} (p' : NetIdPool) (s t : SetupArgs) {a b : Ipv4Addr}
      {m n : NetMessage}
      → Reach net sys
      → allocate net sys.pool ≡ (some s.net_id, p')
      → 0 < count t.net_id sys.live
      → setup x net s ≡ some (a, m)
      → setup x net t ≡ some (b, n)
      → a ≢ b
  allocated_addr_ne net {sys} p' s t r taken held es et e =
      let (unheld, _, high) = allocate_exclusive net s.net_id p' r taken in
      let (same, _) =
        setup_addr_injective net s t high (live_le net t.net_id (Reach-Inv net r) held) es et e in
      ground (arith, ap (λ i. count i sys.live) same)
