-- ===== src/Clients/Invariant.antt =====
-- The index of carriers beside the clients that it counts:
-- members/nullnet-server/src/services/clients.rs.
use nullnet.Prelude.{
  Bool-cases, Distinct, Map, Option, ap, arith, get, if◌then◌else◌, inl, inr, insert,
  insert-Distinct, length, none, refl, share, some, tally, tally-insert, tally-le-length,
  tally-remove, ℕ, ◌+◌, ◌<◌, ◌^◌, ◌∙◌, ◌≡◌, ◌≤◌, nat_eq,
}
use nullnet.Addr.{IpAddr, ip_eq}
use nullnet.Clients.Info.{Client, ClientInfo, client_eq}
use nullnet.Clients.{
  Clients, default, carrier_of, bind_carrier, same_carrier, move_carrier, inherit, add_client,
}
use nullnet.Clients.Carriers.{lookup, Filled}
use nullnet.Clients.Moves.{nonzero, uses, hit, Moved, same_Moved, move_Moved}

-- `HashMap` holds a key once; the index holds the number of clients of each proxy and carrier, and
-- no entry for none.
pub record Inv (s : Clients) : Type 0 where
  pub distinct : Distinct s.clients
  pub counted :
      (p : IpAddr) (c : ℕ) → lookup p c s.group_carriers ≡ nonzero (tally (uses p c) s.clients)
  pub filled : Filled s.group_carriers

pub default-Inv : Inv default
unfolding default lookup get tally
default-Inv = record { distinct = tt; counted = λ p c. refl; filled = λ p. cc }

hit-share :
    (p : IpAddr) (c : ℕ) (client : Client) (o : Option ClientInfo)
    → hit (bind_carrier client o) p c ≡ share (uses p c) client o
hit-share p c client none = refl
hit-share p c client (some info) = refl

pub share-le :
    (p : IpAddr) (c : ℕ) (client : Client) (m : Map Client ClientInfo)
    → Distinct m
    → share (uses p c) client (get client m) ≤ tally (uses p c) m
share-le p c client m d = omega (arith, tally-remove (uses p c) client m d)

inherit_carrier :
    (client : Client) (o : Option ClientInfo) (info : ClientInfo)
    → carrier_of client (inherit o info).0 ≡ carrier_of client info
unfolding inherit
inherit_carrier client none info = refl
inherit_carrier client (some old) info = refl

-- The state after `add_client`, which finds every count that it changes.
pub record Added (client : Client) (info : ClientInfo) (s : Clients) : Type 0 where
  pub after : Clients
  pub added : add_client client info s ≡ some (after, (inherit (get client s.clients) info).1)
  pub clients : after.clients ≡ insert client (inherit (get client s.clients) info).0 s.clients
  pub inv : Inv after

module _ (client : Client) (info : ClientInfo) (s : Clients) (v : Inv s)
    (room : length s.clients + 1 < 2 ^ 64) where
  small : (p : IpAddr) (c : ℕ) → tally (uses p c) s.clients + 1 < 2 ^ 64
  small p c = omega (arith, tally-le-length (uses p c) s.clients)

  covered :
      (p : IpAddr) (c : ℕ)
      → hit (bind_carrier client (get client s.clients)) p c ≤ tally (uses p c) s.clients
  covered p c =
      omega (
        arith,
        hit-share p c client (get client s.clients),
        share-le p c client s.clients v.distinct,
      )

  abbrev entry : ClientInfo
  entry = (inherit (get client s.clients) info).0

  abbrev old_carrier : Option (IpAddr × ℕ)
  old_carrier = bind_carrier client (get client s.clients)

  index_Moved :
      Moved old_carrier
        (carrier_of client entry)
        s.group_carriers
        (λ p c. tally (uses p c) s.clients)
        (if same_carrier old_carrier (carrier_of client entry)
          then some s.group_carriers
          else move_carrier old_carrier (carrier_of client entry) s.group_carriers)
  index_Moved = elim (Bool-cases (same_carrier old_carrier (carrier_of client entry))) [
    | inl same ↦ rw same (same_Moved _ _ v.filled v.counted small _ _ same)
    | inr other ↦ rw other (move_Moved _ _ v.filled v.counted small _ _ covered)
  ]

  pub add-Added : Added client info s
  unfolding add_client
  add-Added =
      let moved = index_Moved in
      record {
        after = record { clients = insert client entry s.clients; group_carriers = moved.after };
        added = rw moved.moved;
        clients = refl;
        inv = record {
          distinct = insert-Distinct client entry s.clients v.distinct;
          counted = λ p c.
              moved.entries p c
              ∙ ap nonzero (
                  omega (
                    arith,
                    tally-insert (uses p c) client entry s.clients,
                    hit-share p c client (get client s.clients),
                    hit-share p c client (some entry),
                  ));
          filled = moved.filled;
        };
      }
