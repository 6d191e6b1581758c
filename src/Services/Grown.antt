-- ===== src/Services/Grown.antt =====
-- The calls that put clients and replicas on a service, or change a client's entry:
-- members/nullnet-server/src/services/service_info.rs.
use nullnet.Prelude.{
  Bool, Bool-cases, List, Option, Option-cases, Text, [], ap, arith, false, get, inl, inr, length,
  length-insert-le, length-insert_present, length-remove-le, none, refl, some, true, ℕ, ◌+◌, ◌<◌,
  ◌==◌, ◌^◌, ◌∷◌, ◌≡◌, ◌≤◌, text_eq, option_eq, nat_eq,
}
use nullnet.Addr.{IpAddr, ip_eq}
use nullnet.Clients.{Clients, inherit, carrier_of, default, remove_pending}
use nullnet.Clients
use nullnet.Clients.Info.{Client, ClientInfo, client_eq}
use nullnet.Clients.Histories.{remove-Dropped}
use nullnet.Clients.Invariant.{default-Inv, add-Added}
use nullnet.Services.{
  Replica, RegisteredServiceInfo, ServiceInfo, registered, unregistered, matches_identity,
  new_replica,
}
use nullnet.Services.Members.{
  with_clients, entry, update_entry, after_pending, remove_pending_in, remove_pending_client,
  remove_pending_client_if, pending_notify, add_client_in, add_client_to_replica,
}
use nullnet.Services.Registry.{update_first, put_replica, add_replica, register}
use nullnet.Services.Refinement.{put_replica-cons}
use nullnet.Services.Sound.{Returns, Sound, SoundReplicas, SoundService, put_entry-Inv}
use nullnet.Services.Total.{returned, bind-Returns}

pub weaken-Sound : (n m : ℕ) (rs : List Replica) → n ≤ m → SoundReplicas n rs → SoundReplicas m rs
weaken-Sound n m [] h a = tt
weaken-Sound n m (r ∷ rs) h ((v, l), a) = ((v, omega arith), weaken-Sound n m rs h a)

module _ (n : ℕ) where
  pub update_entry-Sound :
      (client : Client) (f : ClientInfo → ClientInfo)
      → ((ci : ClientInfo) → carrier_of client (f ci) ≡ carrier_of client ci)
      → (rs : List Replica) → SoundReplicas n rs
      → SoundReplicas n (update_entry client f rs)
  unfolding update_entry
  update_entry-Sound client f keep [] a = tt
  update_entry-Sound client f keep (r ∷ rs) ((v, l), a) = elim (Option-cases (entry client r)) [
    | inl absent ↦ rw (update_entry, absent) ((v, l), update_entry-Sound client f keep rs a)
    | inr (ci, found) ↦
        rw (update_entry, found)
          (
            (
              put_entry-Inv client ci (f ci) r v found (keep ci),
              omega (arith, length-insert_present client ci (f ci) r.clients.clients found),
            ),
            a,
          )
  ]

  new-Sound :
      (ip : IpAddr) (port : ℕ) (docker : Option Text)
      → SoundReplicas n (new_replica ip port docker ∷ [])
  unfolding new_replica default
  new-Sound ip port docker = ((default-Inv, omega arith), tt)

  put_none :
      (ip : IpAddr) (port : ℕ) (docker : Option Text)
      → put_replica ip port docker [] ≡ new_replica ip port docker ∷ []
  unfolding put_replica update_first
  put_none ip port docker = refl

  put_replica-Sound :
      (ip : IpAddr) (port : ℕ) (docker : Option Text) (rs : List Replica)
      → SoundReplicas n rs
      → SoundReplicas n (put_replica ip port docker rs)
  put_replica-Sound ip port docker [] a = rw (put_none ip port docker) (new-Sound ip port docker)
  put_replica-Sound ip port docker (r ∷ rs) (h, a) =
      elim (Bool-cases (matches_identity ip docker r)) [
        | inl known ↦ rw (put_replica-cons ip port docker r rs, known) (h, a)
        | inr other ↦
            rw (put_replica-cons ip port docker r rs, other)
              (h, put_replica-Sound ip port docker rs a)
      ]

  pub add_replica-Sound :
      (ip : IpAddr) (port : ℕ) (docker : Option Text) (si : ServiceInfo)
      → SoundService n si
      → SoundService n (add_replica ip port docker si)
  unfolding add_replica register
  add_replica-Sound ip port docker (unregistered u) a = new-Sound ip port docker
  add_replica-Sound ip port docker (registered reg) a =
      put_replica-Sound ip port docker reg.replicas a

module _ (n : ℕ) (room : n + 1 < 2 ^ 64) (client : Client) where
  abbrev Kept : List Replica × Option ℕ → Type 0
  Kept (rs, woken) = SoundReplicas n rs

  pending_removed :
      (o : Option ℕ) (r : Replica)
      → Sound n r
      → Returns
          (λ ((s, woken) : Clients × Option ℕ). Sound n (with_clients s r))
          (remove_pending client o r.clients)
  unfolding remove_pending
  pending_removed none r h = returned _ (r.clients, none) h
  pending_removed (some notify) r (v, l) =
      let d = remove-Dropped client r.clients v (omega arith) in
      record {
        answer = (d.after, some notify);
        returns = rw d.dropped refl;
        good =
            (d.inv, omega (arith, ap length d.clients, length-remove-le client r.clients.clients));
      }

  after_pending-Returns :
      (o : Option ℕ) (r : Replica) (rs : List Replica) (rest : Option (List Replica × Option ℕ))
      → Sound n r
      → SoundReplicas n rs
      → Returns Kept rest
      → Returns Kept (after_pending o r rs rest)
  after_pending-Returns none r rs rest h a t = record {
    answer = (r ∷ t.answer.0, t.answer.1);
    returns = rw t.returns refl;
    good = (h, t.good);
  }
  after_pending-Returns (some notify) r rs rest h a t = returned Kept (r ∷ rs, some notify) (h, a)

  pending_in-Returns :
      (rs : List Replica) → SoundReplicas n rs → Returns Kept (remove_pending_in client rs)
  unfolding remove_pending_in Clients.remove_pending_client
  pending_in-Returns [] a = returned Kept ([], none) tt
  pending_in-Returns (r ∷ rs) (h, a) =
      bind-Returns _ Kept (remove_pending client _ r.clients) _ (pending_removed _ r h)
        (λ (s, woken) h'.
          after_pending-Returns woken (with_clients s r) rs _ h' a (pending_in-Returns rs a))

  abbrev pub KeptService : RegisteredServiceInfo × Option ℕ → Type 0
  KeptService (reg, woken) = SoundReplicas n reg.replicas

  pub pending-Returns :
      (owner : ℕ) (reg : RegisteredServiceInfo)
      → SoundReplicas n reg.replicas
      → Returns KeptService (remove_pending_client_if client owner reg)
  unfolding remove_pending_client_if remove_pending_client
  pending-Returns owner reg a = elim (Bool-cases (pending_notify client reg == some owner)) [
    | inl owns ↦ rw owns (
        bind-Returns Kept KeptService (remove_pending_in client reg.replicas) _
          (pending_in-Returns reg.replicas a)
          (λ (rs, woken) a'. returned KeptService (record reg { replicas = rs }, woken) a'))
    | inr stale ↦ rw stale (returned KeptService (reg, none) a)
  ]

  abbrev Joined : List Replica × Option ℕ × Bool → Type 0
  Joined (rs, woken, landed) = SoundReplicas (n + 1) rs

  added_to-Returns :
      (ip : IpAddr) (docker : Option Text) (info : ClientInfo) (rs : List Replica)
      → SoundReplicas n rs
      → Returns Joined (add_client_in ip docker client info rs)
  unfolding add_client_in
  added_to-Returns ip docker info [] a = returned Joined ([], none, false) tt
  added_to-Returns ip docker info (r ∷ rs) (h, a) =
      elim (Bool-cases (matches_identity ip docker r)) [
        | inl here ↦
            let d = add-Added client info r.clients (h.0) (omega (arith, h.1)) in
            let grown =
              length-insert-le client ((inherit (get client r.clients.clients) info).0)
                r.clients.clients in
            record {
              answer = (
                with_clients d.after r ∷ rs,
                (inherit (get client r.clients.clients) info).1,
                true,
              );
              returns = rw (here, d.added) refl;
              good = (
                (d.inv, omega (arith, ap length d.clients, grown, h.1)),
                weaken-Sound n (n + 1) rs (omega arith) a,
              );
            }
        | inr other ↦
            let t = added_to-Returns ip docker info rs a in
            record {
              answer = (r ∷ t.answer.0, t.answer.1, t.answer.2);
              returns = rw (other, t.returns) refl;
              good = ((h.0, omega (arith, h.1)), t.good);
            }
      ]

  abbrev pub JoinedService : RegisteredServiceInfo × Option ℕ × Bool → Type 0
  JoinedService (reg, woken, landed) = SoundReplicas (n + 1) reg.replicas

  pub add-Returns :
      (ip : IpAddr) (docker : Option Text) (info : ClientInfo) (reg : RegisteredServiceInfo)
      → SoundReplicas n reg.replicas
      → Returns JoinedService (add_client_to_replica ip docker client info reg)
  unfolding add_client_to_replica
  add-Returns ip docker info reg a =
      bind-Returns Joined JoinedService (add_client_in ip docker client info reg.replicas) _
        (added_to-Returns ip docker info reg.replicas a)
        (λ (rs, woken, landed) a'.
          returned JoinedService (record reg { replicas = rs }, woken, landed) a')
