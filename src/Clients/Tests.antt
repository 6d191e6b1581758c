-- ===== src/Clients/Tests.antt =====
-- Examples of the clients' table: members/nullnet-server/src/services/clients.rs.
use nullnet.Prelude.{
  List, Option, [], arith, codes, false, get, none, refl, remove, some, true, ℕ, ◌+◌, ◌∷◌, ◌≡◌, ◌≢◌,
  ◌≤◌, ◌⊎◌, nat_eq, option_eq, text_eq,
}
use nullnet.Addr.{Ipv4Addr, v4, ip_eq}
use nullnet.Clients.Info.{
  Client, ClientInfo, client_eq, reservation, is_pending, idle_expired, open_connection,
  close_connection, add_active_chain,
}
use nullnet.Clients.{
  Clients, default, add_client, remove_pending_client, is_client_setup, pending_of,
}
use nullnet.Clients.Histories.{Call, adds, removes, run, run_total}
use nullnet.Clients.Edges.{promotion, abandonment}
use nullnet.Clients.Liveness.{
  Event, opened, closed, chained, apply_all, opens, closes, last_use, idle_expired_sound,
}
use nullnet.Clients.Invariant.{Inv}

abbrev address : ℕ → Ipv4Addr
address d = record { a = 10; b = 0; c = 0; d = d }

abbrev browser : Client
browser = record { name = codes "browser"; proxy = some (v4 (address 1)); replica = none }

abbrev nowhere : Ipv4Addr
nowhere = record { a = 0; b = 0; c = 0; d = 0 }

abbrev reserved : ClientInfo
reserved = record {
  client_ip = v4 (address 9);
  client_net = nowhere;
  server_net = nowhere;
  net_id = 0;
  pool_generation = 0;
  time_ms = 0;
  active_chains = 1;
  open_connections = 0;
  latest = 5;
  created_at = 5;
  docker_container = none;
  policy = false;
  group_carrier = none;
  pending = some 7;
}

abbrev built : ClientInfo
built = record reserved {
  client_net = address 10;
  server_net = address 11;
  net_id = 101;
  latest = 6;
  group_carrier = some 3;
  pending = none;
}

reservation_entry : reservation (v4 (address 9)) false 5 5 7 ≡ reserved
unfolding reservation
reservation_entry = refl

abbrev waiting : Clients
waiting = record { clients = (browser, reserved) ∷ []; group_carriers = [] }

abbrev Ends : Option (Clients × Option ℕ) → Type 0
Ends r = (t : Clients × Option ℕ) × (r ≡ some t)

promoted : Ends (add_client browser built waiting)
unfolding add_client get
promoted = (_, refl)

abandoned : Ends (remove_pending_client browser waiting)
unfolding remove_pending_client get
abandoned = (_, refl)

found : get browser waiting.clients ≡ some reserved
unfolding get
found = refl

promotion_example :
    (get browser promoted.0.0.clients
      ≡ some (record built {
        active_chains = reserved.active_chains;
        open_connections = reserved.open_connections;
      }))
    × (promoted.0.1 ≡ reserved.pending)
    × ((j : Client) → j ≢ browser → get j promoted.0.0.clients ≡ get j waiting.clients)
    × (is_client_setup browser promoted.0.0 ≡ elim built.pending [
      | none ↦ some (built.server_net, built.pool_generation)
      | some _ ↦ none
    ])
promotion_example = promotion browser built reserved waiting found promoted.1

abandonment_example :
    (abandoned.0.1 ≡ pending_of (get browser waiting.clients))
    × ((abandoned.0.1 ≡ none) × (abandoned.0.0 ≡ waiting)
        ⊎ (notify : ℕ) × (abandoned.0.1 ≡ some notify)
          × (abandoned.0.0.clients ≡ remove browser waiting.clients))
abandonment_example = abandonment browser waiting abandoned.1

abbrev story : List Call
story = adds browser reserved ∷ adds browser built ∷ removes browser ∷ removes browser ∷ []

run_total_example : (t : Clients) × (run story default ≡ some t) × Inv t
run_total_example = run_total story (omega arith)

abbrev uses_of : List Event
uses_of = opened 10 ∷ chained 20 ∷ closed 30 ∷ []

expired : idle_expired 100 60 (apply_all uses_of built) ≡ true
unfolding idle_expired open_connection close_connection add_active_chain
expired = refl

not_expired : idle_expired 80 60 (apply_all uses_of built) ≡ false
unfolding idle_expired open_connection close_connection add_active_chain
not_expired = refl

idle_expired_sound_example :
    (is_pending built ≡ false)
    × (built.open_connections + opens uses_of ≤ closes uses_of)
    × (last_use built.latest uses_of + 60 ≤ 100)
idle_expired_sound_example =
    idle_expired_sound uses_of built 100 60 (omega arith) (omega arith) expired
