-- ===== src/Clients/Edges.antt =====
-- Reservation, promotion and abandonment of an edge:
-- members/nullnet-server/src/services/clients.rs.
use nullnet.Prelude.{
  Option, Option-cases, ap, arith, get, get-insert_ne, get-insert_self, inl, inr, insert, none,
  remove, remove_absent, some, ℕ, ◌∙◌, ◌≡◌, ◌≢◌, ◌⊎◌,
}
use nullnet.Clients.Info.{Client, ClientInfo, client_eq}
use nullnet.Clients.{
  Clients, inherit, add_client, remove_client, remove_entry, remove_pending_client, remove_pending,
  pending_of, is_client_setup, live_addr,
}

add_client_result :
    (client : Client) (info : ClientInfo) (s : Clients) {t : Clients} {w : Option ℕ}
    → add_client client info s ≡ some (t, w)
    → (t.clients ≡ insert client (inherit (get client s.clients) info).0 s.clients)
      × (w ≡ (inherit (get client s.clients) info).1)
unfolding add_client
add_client_result client info s e = ground arith

-- Promoting a reservation, or replacing an edge, keeps the entry's chains and open connections,
-- takes all else from the new entry, wakes exactly the tasks that wait on the old one, and touches
-- no other client; from then on the new edge's address is answered, unless it is a reservation.
pub promotion :
    (client : Client) (info old : ClientInfo) (s : Clients) {t : Clients} {w : Option ℕ}
    → get client s.clients ≡ some old
    → add_client client info s ≡ some (t, w)
    → (get client t.clients
        ≡ some (record info {
          active_chains = old.active_chains;
          open_connections = old.open_connections;
        }))
      × (w ≡ old.pending)
      × ((j : Client) → j ≢ client → get j t.clients ≡ get j s.clients)
      × (is_client_setup client t ≡ elim info.pending [
        | none ↦ some (info.server_net, info.pool_generation)
        | some _ ↦ none
      ])
unfolding inherit is_client_setup
promotion client info old s found e =
    let (clients, woken) = add_client_result client info s e in
    let here =
      ap (get client) clients
      ∙ get-insert_self client _ s.clients
      ∙ ap (λ o. some (inherit o info).0) found in
    (
      here,
      woken ∙ ap (λ o. (inherit o info).1) found,
      (λ j ne. ap (get j) clients ∙ get-insert_ne client j _ s.clients ne),
      ap live_addr here,
    )

removed_clients :
    (client : Client) (s : Clients) {t : Clients} {o : Option ClientInfo}
    → remove_client client s ≡ some (t, o)
    → t.clients ≡ remove client s.clients
unfolding remove_client remove_entry
removed_clients client s e = ground (arith, remove_absent client s.clients)

-- A reservation that is abandoned is removed, with every other entry left as it is, and its waiters
-- are woken. Where there is no entry, or the edge was built meanwhile, nobody is woken and the
-- table stays as a whole.
pub abandonment :
    (client : Client) (s : Clients) {t : Clients} {w : Option ℕ}
    → remove_pending_client client s ≡ some (t, w)
    → (w ≡ pending_of (get client s.clients))
      × ((w ≡ none) × (t ≡ s)
          ⊎ (notify : ℕ) × (w ≡ some notify) × (t.clients ≡ remove client s.clients))
unfolding remove_pending_client remove_pending
abandonment client s e = elim (Option-cases (pending_of (get client s.clients))) [
  | inl live ↦ (ground arith, inl (ground arith, ground arith))
  | inr (notify, reserved) ↦ elim (Option-cases (remove_client client s)) [
    | inl panics ↦ absurd (ground arith)
    | inr ((t', o), removed) ↦
        let gone = removed_clients client s removed in
        (ground arith, inr (notify, ground arith, ground (arith, gone)))
  ]
]
