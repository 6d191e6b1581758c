-- ===== src/Clients/Histories.antt =====
-- Removal, and whole histories of calls: members/nullnet-server/src/services/clients.rs.
use nullnet.Prelude.{
  List, Option, Option-cases, [], ap, arith, get, inl, inr, length, length-insert-le,
  length-remove-le, none, refl, remove, remove-Distinct, remove_absent, share, some, sym, tally,
  tally-le-length, tally-remove, ◌+◌, ◌<◌, ◌>>=◌, ◌^◌, ◌∙◌, ◌∷◌, ◌≡◌, ◌≤◌, nat_eq,
}
use nullnet.Addr.{ip_eq}
use nullnet.Clients.Info.{Client, ClientInfo, client_eq}
use nullnet.Clients.{
  Clients, default, carrier_of, move_carrier, add_client, remove_client, remove_entry,
  remove_pending_client, remove_pending, pending_of,
}
use nullnet.Clients.Moves.{uses, Moved, move_Moved, nonzero}
use nullnet.Clients.Invariant.{Inv, default-Inv, add-Added, share-le}

-- The state after `remove_client`, which finds every count that it changes.
pub record Dropped (client : Client) (s : Clients) : Type 0 where
  pub after : Clients
  pub dropped : remove_client client s ≡ some (after, get client s.clients)
  pub clients : after.clients ≡ remove client s.clients
  pub inv : Inv after

module _ (client : Client) (s : Clients) (v : Inv s) (room : length s.clients + 1 < 2 ^ 64) where
  index_Moved :
      (info : ClientInfo)
      → get client s.clients ≡ some info
      → Moved
          (carrier_of client info)
          none
          s.group_carriers
          (λ p c. tally (uses p c) s.clients)
          (move_carrier (carrier_of client info) none s.group_carriers)
  index_Moved info e =
      move_Moved _ _ v.filled v.counted (λ p c. omega (arith, tally-le-length (uses p c) s.clients))
        _ _
        (λ p c.
          ground (arith, share-le p c client s.clients v.distinct, ap (share (uses p c) client) e))

  pub remove-Dropped : Dropped client s
  unfolding remove_client remove_entry
  remove-Dropped = elim (Option-cases (get client s.clients)) [
    | inl absent ↦ record {
      after = s;
      dropped = rw (absent, remove_entry);
      clients = sym (remove_absent client s.clients absent);
      inv = v;
    }
    | inr (info, found) ↦
        let moved = index_Moved info found in
        record {
          after = record { clients = remove client s.clients; group_carriers = moved.after };
          dropped = rw (found, remove_entry, moved.moved);
          clients = refl;
          inv = record {
            distinct = remove-Distinct client s.clients v.distinct;
            counted = λ p c.
                moved.entries p c
                ∙ ap nonzero (
                    omega (
                      arith,
                      tally-remove (uses p c) client s.clients v.distinct,
                      ap (share (uses p c) client) found,
                    ));
            filled = moved.filled;
          };
        }
  ]

-- The calls that change the table; `clients_mut` lends entries whose carriers stay.
pub data Call : Type 0 where
  adds : Client → ClientInfo → Call
  removes removes_pending : Client → Call

-- The table after a call; `none` is a panic.
pub after_call : Call → Clients → Option Clients
after_call (adds client info) s = do (t, _) ← add_client client info s; some t
after_call (removes client) s = do (t, _) ← remove_client client s; some t
after_call (removes_pending client) s = do (t, _) ← remove_pending_client client s; some t

pub run : List Call → Clients → Option Clients
run [] s = some s
run (c ∷ cs) s = after_call c s >>= run cs

-- A call that ends well, and lets the table grow by one entry at most.
record Steps (s : Clients) (r : Option Clients) : Type 0 where
  next : Clients
  runs : r ≡ some next
  inv : Inv next
  grown : length next.clients ≤ length s.clients + 1

module _ (s : Clients) (v : Inv s) (room : length s.clients + 1 < 2 ^ 64) where
  dropped_Steps : (client : Client) → Steps s (after_call (removes client) s)
  unfolding after_call
  dropped_Steps client =
      let d = remove-Dropped client s v room in
      record {
        next = d.after;
        runs = rw d.dropped;
        inv = d.inv;
        grown = omega (arith, ap length d.clients, length-remove-le client s.clients);
      }

  call_Steps : (c : Call) → Steps s (after_call c s)
  unfolding after_call remove_pending_client remove_pending
  call_Steps (adds client info) =
      let a = add-Added client info s v room in
      record {
        next = a.after;
        runs = rw a.added;
        inv = a.inv;
        grown = omega (arith, ap length a.clients, length-insert-le client _ s.clients);
      }
  call_Steps (removes client) = dropped_Steps client
  call_Steps (removes_pending client) = elim (Option-cases (pending_of (get client s.clients))) [
    | inl live ↦ record { next = s; runs = rw (live, remove_pending); inv = v; grown = omega arith }
    | inr (notify, reserved) ↦
        let d = remove-Dropped client s v room in
        record {
          next = d.after;
          runs = rw (reserved, remove_pending, d.dropped);
          inv = d.inv;
          grown = omega (arith, ap length d.clients, length-remove-le client s.clients);
        }
  ]

run-Inv :
    (cs : List Call) (s : Clients)
    → Inv s
    → length s.clients + length cs < 2 ^ 64
    → (t : Clients) × (run cs s ≡ some t) × Inv t
unfolding run
run-Inv [] s v h = (s, refl, v)
run-Inv (c ∷ cs) s v h =
    let st = call_Steps s v (omega arith) c in
    let (t, e, w) = run-Inv cs st.next st.inv (omega (arith, st.grown)) in (t, rw st.runs e, w)

-- Fewer than 2^64 calls on a new table never panic, in whatever order clients are reserved,
-- promoted, replaced and removed: every count that a call decrements is there. The index then
-- holds, for each proxy and carrier, the number of its clients, and no entry for none.
pub run_total :
    (cs : List Call) → length cs < 2 ^ 64 → (t : Clients) × (run cs default ≡ some t) × Inv t
unfolding default
run_total cs h = run-Inv cs default default-Inv (omega arith)
