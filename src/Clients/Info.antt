-- ===== src/Clients/Info.antt =====
-- members/nullnet-server/src/services/clients.rs: a client's identity, and what is kept of its
-- edge. An `Instant` is a number of milliseconds, and is an argument where the code reads the clock.
use nullnet.Prelude.{
  ==_iff, Bool, Eq, Option, Text, arith, eqb, false, leb, none, not, some, true, ℕ, ◌%◌, ◌&&◌, ◌+◌,
  ◌-◌, ◌==◌, ◌^◌, ◌↔◌, ◌≡◌, nat_eq, text_eq, option_eq,
}
use nullnet.Addr.{Ipv4Addr, IpAddr, ip_eq}

pub record Client : Type 0 where
  pub name : Text
  pub proxy : Option IpAddr
  pub replica : Option (IpAddr × Option Text)

-- `Client::new` and `Client::new_service`.
unfoldable pub new_client : Text → Option IpAddr → Client
new_client name proxy = record { name = name; proxy = proxy; replica = none }

unfoldable pub new_service : Text → IpAddr → Option Text → Client
new_service name ip docker = record { name = name; proxy = none; replica = some (ip, docker) }

abbrev beq_replica : IpAddr × Option Text → IpAddr × Option Text → Bool
beq_replica (i, d) (j, e) = i == j && d == e

beq_replica_iff : (r s : IpAddr × Option Text) → (beq_replica r s ≡ true) ↔ (r ≡ s)
beq_replica_iff (i, d) (j, e) = ground (arith, ==_iff i j, ==_iff d e)

instance abbrev replica_eq : Eq (IpAddr × Option Text)
replica_eq = record { beq = beq_replica; beq_iff = beq_replica_iff }

-- The derived `PartialEq`.
abbrev beq_client : Client → Client → Bool
beq_client a b = a.name == b.name && a.proxy == b.proxy && a.replica == b.replica

pub beq_client_iff : (a b : Client) → (beq_client a b ≡ true) ↔ (a ≡ b)
beq_client_iff a b =
    ground (arith, ==_iff a.name b.name, ==_iff a.proxy b.proxy, ==_iff a.replica b.replica)

instance abbrev pub client_eq : Eq Client
client_eq = record { beq = beq_client; beq_iff = beq_client_iff }

pub record ClientInfo : Type 0 where
  pub client_ip : IpAddr
  pub client_net : Ipv4Addr
  pub server_net : Ipv4Addr
  pub net_id : ℕ
  pub pool_generation : ℕ
  pub time_ms : ℕ
  pub active_chains : ℕ
  pub open_connections : ℕ
  pub latest : ℕ
  pub created_at : ℕ
  pub docker_container : Option Text
  pub policy : Bool
  pub group_carrier : Option ℕ
  pub pending : Option ℕ

unfoldable pub unspecified : Ipv4Addr
unspecified = record { a = 0; b = 0; c = 0; d = 0 }

-- `ClientInfo::with_pool_generation`; `sharing_network` is the same, and `new` draws the
-- generation at random.
unfoldable pub with_pool_generation :
    IpAddr → Ipv4Addr → Ipv4Addr → ℕ → ℕ → Option Text → ℕ → (now created : ℕ) → ClientInfo
with_pool_generation ip client_net server_net net_id time_ms docker generation now created =
    record {
      client_ip = ip;
      client_net = client_net;
      server_net = server_net;
      net_id = net_id;
      pool_generation = generation;
      time_ms = time_ms;
      active_chains = 0;
      open_connections = 0;
      latest = now;
      created_at = created;
      docker_container = docker;
      policy = false;
      group_carrier = none;
      pending = none;
    }

-- `notify` names the new `Notify` that waiting tasks share.
unfoldable pub reservation : IpAddr → Bool → (now created notify : ℕ) → ClientInfo
unfolding unspecified
reservation ip policy now created notify = record {
  client_ip = ip;
  client_net = unspecified;
  server_net = unspecified;
  net_id = 0;
  pool_generation = 0;
  time_ms = 0;
  active_chains = 1;
  open_connections = 0;
  latest = now;
  created_at = created;
  docker_container = none;
  policy = policy;
  group_carrier = none;
  pending = some notify;
}

abbrev pub is_pending : ClientInfo → Bool
is_pending c = elim c.pending [ none ↦ false | some _ ↦ true ]

unfoldable pub set_policy : ClientInfo → ClientInfo
set_policy c = record c { policy = true }

unfoldable pub set_group_carrier : ℕ → ClientInfo → ClientInfo
set_group_carrier carrier c = record c { group_carrier = some carrier }

unfoldable pub set_latest_now : ℕ → ClientInfo → ClientInfo
set_latest_now now c = record c { latest = now }

unfoldable pub add_active_chain : ℕ → ClientInfo → ClientInfo
unfolding set_latest_now
add_active_chain now c =
    set_latest_now now (record c { active_chains = (c.active_chains + 1) % 2 ^ 64 })

unfoldable pub remove_active_chains : ℕ → ClientInfo → ClientInfo
remove_active_chains n c = record c { active_chains = c.active_chains - n }

unfoldable pub set_active_chains : ℕ → ClientInfo → ClientInfo
set_active_chains n c = record c { active_chains = n }

unfoldable pub set_open_connections : ℕ → ClientInfo → ClientInfo
set_open_connections n c = record c { open_connections = n }

unfoldable pub open_connection : ℕ → ClientInfo → ClientInfo
open_connection now c = record c {
  open_connections = (c.open_connections + 1) % 2 ^ 64;
  latest = now;
}

-- Saturating: `-` stops at 0.
unfoldable pub close_connection : ℕ → ClientInfo → ClientInfo
close_connection now c = record c { open_connections = c.open_connections - 1; latest = now }

-- `duration_since` saturates at 0 too.
unfoldable pub idle_expired : (now timeout : ℕ) → ClientInfo → Bool
idle_expired now timeout c =
    not (is_pending c) && eqb c.open_connections 0 && leb timeout (now - c.latest)
