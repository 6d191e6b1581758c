-- ===== src/Services/Sound.antt =====
-- The tables of clients on a service's replicas, and the calls that take clients out of them:
-- members/nullnet-server/src/services/service_info.rs.
use nullnet.Prelude.{
  All, Bool-cases, List, Option, Option-cases, [], ap, arith, eqb, get, inl, inr, insert-Distinct,
  length, length-insert_present, length-remove-le, none, refl, share, some, tally-insert, ℕ, ◌+◌,
  ◌<◌, ◌^◌, ◌∙◌, ◌∷◌, ◌≡◌, ◌≤◌,
}
use nullnet.Addr.{ip_eq}
use nullnet.Clients.{Clients, carrier_of}
use nullnet.Clients.Info.{Client, ClientInfo, client_eq, remove_active_chains, is_pending}
use nullnet.Clients.Invariant.{Inv}
use nullnet.Clients.Moves.{uses, nonzero, hit}
use nullnet.Clients.Histories.{remove-Dropped}
use nullnet.Services.{Replica, RegisteredServiceInfo, ServiceInfo, registered, unregistered}
use nullnet.Services.Members.{
  NetTeardown, with_clients, entry, put_entry, after_last, decrement_entry, decrement_in,
  decrement_chain, after_remove, remove_client_in, remove_client,
}

-- A call that returns, with an answer that satisfies `P`.
pub record Returns {ℓ} {A : Type ℓ} (P : A → Type 0) (o : Option A) : Type ℓ where
  pub answer : A
  pub returns : o ≡ some answer
  pub good : P answer

module _ (n : ℕ) where
  abbrev pub Sound : Replica → Type 0
  Sound r = Inv r.clients × (length r.clients.clients ≤ n)

  abbrev pub SoundReplicas : List Replica → Type 0
  SoundReplicas rs = All Sound rs

  -- The tables of a service have the invariant of the index, and `n` clients at most.
  abbrev pub SoundService : ServiceInfo → Type 0
  SoundService (registered reg) = SoundReplicas reg.replicas
  SoundService (unregistered u) = Unit

-- An entry that keeps its carrier.
pub put_entry-Inv :
    (client : Client) (old new : ClientInfo) (r : Replica)
    → Inv r.clients
    → entry client r ≡ some old
    → carrier_of client new ≡ carrier_of client old
    → Inv (put_entry client new r).clients
put_entry-Inv client old new r v e same = record {
  distinct = insert-Distinct client new r.clients.clients v.distinct;
  counted = λ p c.
      v.counted p c
      ∙ ap nonzero (
          omega (
            arith,
            tally-insert (uses p c) client new r.clients.clients,
            ap (share (uses p c) client) e,
            ap {B = ℕ} (λ o. hit o p c) same,
          ));
  filled = v.filled;
}

module _ (n : ℕ) (room : n + 1 < 2 ^ 64) (client : Client) where
  abbrev Pruned : Replica × List NetTeardown → Type 0
  Pruned (r, out) = Sound n r

  abbrev PrunedAll : List Replica × List NetTeardown → Type 0
  PrunedAll (rs, out) = SoundReplicas n rs

  after_last-Pruned :
      (s : Clients) (o : Option ClientInfo) (r : Replica)
      → Inv s
      → length s.clients ≤ n
      → Pruned (after_last r (s, o))
  after_last-Pruned s none r v l = (v, l)
  after_last-Pruned s (some gone) r v l = (v, l)

  decremented :
      (ci : ClientInfo) (r : Replica)
      → Sound n r
      → entry client r ≡ some ci
      → Returns Pruned (decrement_entry client ci r)
  unfolding decrement_entry remove_active_chains
  decremented ci r (v, l) e =
      let less = remove_active_chains 1 ci in
      let r' = put_entry client less r in
      let v' = put_entry-Inv client ci less r v e refl in
      let l' = length-insert_present client ci less r.clients.clients e in
      let d = remove-Dropped client r'.clients v' (omega (arith, l')) in
      elim (Bool-cases (is_pending ci)) [
        | inl pending ↦ record { answer = (r, []); returns = rw pending refl; good = (v, l) }
        | inr live ↦ elim (Bool-cases (eqb less.active_chains 0)) [
          | inl last ↦ record {
            answer = after_last r' (d.after, get client r'.clients.clients);
            returns = rw (live, last, d.dropped) refl;
            good = after_last-Pruned d.after (get client r'.clients.clients) r' d.inv (
                omega (arith, ap length d.clients, length-remove-le client r'.clients.clients, l'));
          }
          | inr more ↦ record {
            answer = (r', []);
            returns = rw (live, more) refl;
            good = (v', omega (arith, l'));
          }
        ]
      ]

  decremented_in :
      (rs : List Replica) → SoundReplicas n rs → Returns PrunedAll (decrement_in client rs)
  unfolding decrement_in
  decremented_in [] a = record { answer = ([], []); returns = refl; good = tt }
  decremented_in (r ∷ rs) (h, a) = elim (Option-cases (entry client r)) [
    | inl absent ↦
        let rest = decremented_in rs a in
        record {
          answer = (r ∷ rest.answer.0, rest.answer.1);
          returns = rw (decrement_in, absent, rest.returns) refl;
          good = (h, rest.good);
        }
    | inr (ci, found) ↦
        let one = decremented ci r h found in
        record {
          answer = (one.answer.0 ∷ rs, one.answer.1);
          returns = rw (decrement_in, found, one.returns) refl;
          good = (one.good, a);
        }
  ]

  abbrev PrunedService : RegisteredServiceInfo × List NetTeardown → Type 0
  PrunedService (reg, out) = SoundReplicas n reg.replicas

  pub decrement-Returns :
      (reg : RegisteredServiceInfo)
      → SoundReplicas n reg.replicas
      → Returns PrunedService (decrement_chain client reg)
  unfolding decrement_chain
  decrement-Returns reg a =
      let r = decremented_in reg.replicas a in
      record {
        answer = (record reg { replicas = r.answer.0 }, r.answer.1);
        returns = rw r.returns refl;
        good = r.good;
      }

  after_remove-Returns :
      (o : Option ClientInfo) (r : Replica) (rs : List Replica) (rest : Option (List Replica))
      → Sound n r
      → SoundReplicas n rs
      → Returns (SoundReplicas n) rest
      → Returns (SoundReplicas n) (after_remove o r rs rest)
  after_remove-Returns none r rs rest h a t = record {
    answer = r ∷ t.answer;
    returns = rw t.returns refl;
    good = (h, t.good);
  }
  after_remove-Returns (some gone) r rs rest h a t = record {
    answer = r ∷ rs;
    returns = refl;
    good = (h, a);
  }

  removed_in :
      (rs : List Replica)
      → SoundReplicas n rs
      → Returns (SoundReplicas n) (remove_client_in client rs)
  unfolding remove_client_in
  removed_in [] a = record { answer = []; returns = refl; good = tt }
  removed_in (r ∷ rs) ((v, l), a) =
      let d = remove-Dropped client r.clients v (omega arith) in
      let h : Sound n (with_clients d.after r) =
        (d.inv, omega (arith, ap length d.clients, length-remove-le client r.clients.clients)) in
      rw d.dropped (
        after_remove-Returns (get client r.clients.clients) (with_clients d.after r) rs _ h a
          (removed_in rs a))

  pub remove-Returns :
      (reg : RegisteredServiceInfo)
      → SoundReplicas n reg.replicas
      → Returns
          (λ (reg' : RegisteredServiceInfo). SoundReplicas n reg'.replicas)
          (remove_client client reg)
  unfolding remove_client
  remove-Returns reg a =
      let r = removed_in reg.replicas a in
      record {
        answer = record reg { replicas = r.answer };
        returns = rw r.returns refl;
        good = r.good;
      }
