-- ===== src/NetExt/Tests.antt =====
-- Examples of set-ups: members/nullnet-server/src/net.rs.
use nullnet.Prelude.{
  [], arith, codes, false, if◌then◌else◌, leb, none, refl, show, some, ℕ, ◌*◌, ◌+◌, ◌^◌, ◌↔◌, ◌∷◌,
  ◌≡◌, ◌≢◌, nat_eq,
}
use nullnet.Addr.{Ipv4Addr, IpAddr, v4, bits, show_v4}
use nullnet.NetIdPool
use nullnet.NetIdPool.{Net, allocate}
use nullnet.NetIdPool.Leases.{System, Reach, Step}
use nullnet.NetExt.Messages.{NetMessage, EgressRole}
use nullnet.NetExt.{
  Externals, NetworkLaw, SetupArgs, setup, teardown, vxlan_setup, choose_side, is_some,
}
use nullnet.NetExt.Subnets.{setup_addr, setup_addr_injective, allocated_addr_ne, block_size, place}
use nullnet.NetExt.Names.{teardown_names, device_names, side_of}
use nullnet.NetExt.Ends.{IsPair, mapping_of, pair_mapping}

abbrev networks : Externals
networks = record {
  Network = Ipv4Addr × ℕ;
  new_network = λ a p. if leb p 32 then some (a, p) else none;
  network_ip = λ n. n.0;
  show_network = λ n. show_v4 n.0;
  show_v6 = λ n. show n;
}

networks-law : NetworkLaw networks
networks-law a p h = ((a, p), ground arith, refl)

abbrev host : ℕ → IpAddr
host n = v4 (record { a = 192; b = 168; c = 1; d = n })

abbrev first_id : ℕ
first_id = 101

-- The server's end of an edge in a container, and the client's end.
abbrev server_end : ℕ → SetupArgs
server_end id = record {
  msg_id = codes "m";
  dest = host 2;
  remote_server_name = none;
  net_id = id;
  remote = host 3;
  docker_containers = (none, some (codes "db"));
  dnat_port = none;
  encryption_key = [];
  xfrm_transport_id = none;
  dstport = none;
  encrypted = false;
  egress = EgressRole.none;
  group_transport = none;
}

abbrev client_end : ℕ → SetupArgs
client_end id = record (server_end id) { remote_server_name = some (codes "db.local") }

abbrev Done : Net → SetupArgs → Type 0
Done net s = (r : Ipv4Addr × NetMessage) × (setup networks net s ≡ some r)

server_done : Done Net.vxlan (server_end 101)
unfolding setup vxlan_setup choose_side
server_done = (_, refl)

client_done : Done Net.vxlan (client_end 101)
unfolding setup vxlan_setup choose_side
client_done = (_, refl)

setup_addr_example :
    (a : Ipv4Addr) × (m : NetMessage) × (setup networks Net.vxlan (server_end 101) ≡ some (a, m))
    × (bits a ≡ 10 * 2 ^ 24 + block_size Net.vxlan * 101 + place Net.vxlan (server_end 101))
setup_addr_example = setup_addr networks networks-law Net.vxlan (server_end 101) (omega arith)

setup_addr_injective_example :
    (first_id ≡ first_id)
    × (is_some (server_end 101).remote_server_name ≡ is_some (server_end 101).remote_server_name)
setup_addr_injective_example =
    setup_addr_injective networks networks-law Net.vxlan (server_end 101) (server_end 101)
      (omega arith) (omega arith) server_done.1 server_done.1 refl

teardown_names_example :
    (device_names
        (teardown networks Net.vxlan 101 (codes "s") none (host 2) (host 3) none (codes "m") false)
      ≡ device_names server_done.0.1)
    ↔ ((first_id ≡ first_id) × (codes "s" ≡ side_of (server_end 101)))
teardown_names_example =
    teardown_names networks (server_end 101) 101 (codes "s") none (host 2) (host 3) none (codes "m")
      false server_done.1

ends : IsPair (server_end 101) (client_end 101) (codes "db.local")
ends = record { server = refl; client = refl; same_id = refl; same_containers = refl }

pair_mapping_example :
    (mapping_of client_done.0.1
      ≡ some (record { ip = show_v4 server_done.0.0; name = codes "db.local" }))
    × (mapping_of server_done.0.1 ≡ none)
pair_mapping_example =
    pair_mapping networks networks-law Net.vxlan (server_end 101) (client_end 101)
      (codes "db.local") ends server_done.1 client_done.1

-- One edge is up, and the pool answers 102 next.
abbrev one_up : System
one_up = record { pool = (allocate Net.vxlan NetIdPool.new).1; live = first_id ∷ [] }

one_up-Reach : Reach Net.vxlan one_up
unfolding allocate NetIdPool.reuse NetIdPool.fresh NetIdPool.new
one_up-Reach = Reach.next Reach.start (Step.allocates refl)

taken : allocate Net.vxlan one_up.pool ≡ (some 102, (allocate Net.vxlan one_up.pool).1)
unfolding allocate NetIdPool.reuse NetIdPool.fresh NetIdPool.new
taken = refl

next_done : Done Net.vxlan (server_end 102)
unfolding setup vxlan_setup choose_side
next_done = (_, refl)

allocated_addr_ne_example : next_done.0.0 ≢ client_done.0.0
allocated_addr_ne_example =
    allocated_addr_ne networks networks-law Net.vxlan (allocate Net.vxlan one_up.pool).1
      (server_end 102) (client_end 101) one_up-Reach taken (omega arith) next_done.1 client_done.1
