-- ===== src/Services/Refinement.antt =====
-- What a service promises about its replicas, as a map from identities to ports, beside
-- members/nullnet-server/src/services/service_info.rs.
use nullnet.Prelude.{
  ==_iff, ==_refl, Bool, Bool-cases, List, Option, Option-cases, Text, [], ap, arith, false,
  fun_ext, if◌then◌else◌, inl, inr, none, not, refl, some, true, ℕ, ◌&&◌, ◌==◌, ◌↔◌, ◌∙◌, ◌∷◌, ◌≡◌,
  text_eq, option_eq,
}
use nullnet.Addr.{IpAddr, ip_eq}
use nullnet.Services.{
  Replica, RegisteredServiceInfo, UnregisteredServiceInfo, ServiceInfo, unregistered, registered,
  new_replica, matches_identity,
}
use nullnet.Services.Registry.{
  update_first, retain, unregister, register, put_replica, add_replica, with_replicas,
  remove_replicas_on_ip, remove_replica, update_from_file,
}

-- The calls that change a service's declaration or its replicas.
pub data Change : Type 0 where
  add : IpAddr → ℕ → Option Text → Change
  drop : IpAddr → Option Text → Change
  drop_ip : IpAddr → Change
  reload : ServiceInfo → Change

abbrev pub apply : Change → ServiceInfo → ServiceInfo
apply (add ip port docker) s = add_replica ip port docker s
apply (drop ip docker) s = remove_replica ip docker s
apply (drop_ip ip) s = remove_replicas_on_ip ip s
apply (reload loaded) s = update_from_file loaded s

abbrev pub run : List Change → ServiceInfo → ServiceInfo
run [] s = s
run (c ∷ cs) s = run cs (apply c s)

-- The declaration, and the port of each identity that has a replica.
pub record Spec : Type 0 where
  pub config : UnregisteredServiceInfo
  pub ports : IpAddr → Option Text → Option ℕ

abbrev pub same : IpAddr → Option Text → IpAddr → Option Text → Bool
same ip docker i d = ip == i && docker == d

abbrev pub declared : ServiceInfo → UnregisteredServiceInfo
declared (unregistered u) = u
declared (registered r) = unregister r

abbrev pub spec_apply : Change → Spec → Spec
spec_apply (add ip port docker) s = record s {
  ports = λ i d. if same ip docker i d then some port else s.ports i d;
}
spec_apply (drop ip docker) s = record s {
  ports = λ i d. if same ip docker i d then none else s.ports i d;
}
spec_apply (drop_ip ip) s = record s { ports = λ i d. if ip == i then none else s.ports i d }
spec_apply (reload loaded) s = record s { config = declared loaded }

abbrev pub spec_run : List Change → Spec → Spec
spec_run [] s = s
spec_run (c ∷ cs) s = spec_run cs (spec_apply c s)

abbrev pub port_in : IpAddr → Option Text → List Replica → Option ℕ
port_in i d [] = none
port_in i d (r ∷ rs) = if matches_identity i d r then some r.port else port_in i d rs

abbrev pub replicas_of : ServiceInfo → List Replica
replicas_of (unregistered u) = []
replicas_of (registered r) = r.replicas

abbrev pub view : ServiceInfo → Spec
view s = record { config = declared s; ports = λ i d. port_in i d (replicas_of s) }

pub port_in-retain :
    (p : Replica → Bool) (i : IpAddr) (d : Option Text) (xs : List Replica)
    → ((r : Replica) → matches_identity i d r ≡ true → p r ≡ true)
    → port_in i d (retain p xs) ≡ port_in i d xs
unfolding retain
port_in-retain p i d [] h = refl
port_in-retain p i d (x ∷ xs) h = ground (arith, port_in-retain p i d xs h, h x)

pub port_in-retain_none :
    (p : Replica → Bool) (i : IpAddr) (d : Option Text) (xs : List Replica)
    → ((r : Replica) → matches_identity i d r ≡ true → p r ≡ false)
    → port_in i d (retain p xs) ≡ none
unfolding retain
port_in-retain_none p i d [] h = refl
port_in-retain_none p i d (x ∷ xs) h = ground (arith, port_in-retain_none p i d xs h, h x)

module _ (ip : IpAddr) (port : ℕ) (docker : Option Text) where
  -- One step of the search for a replica that is known.
  pub put_replica-cons :
      (x : Replica) (xs : List Replica)
      → put_replica ip port docker (x ∷ xs) ≡ (
          if matches_identity ip docker x
          then record x { port = port } ∷ xs
          else x ∷ put_replica ip port docker xs)
  unfolding put_replica update_first
  put_replica-cons x xs =
      elim (Option-cases
        (update_first (matches_identity ip docker) (λ r. record r { port = port }) xs)) [
          | inl e ↦ rw e (ground arith)
          | inr (ys, e) ↦ rw e (ground arith)
        ]

  pub port_in-put :
      (i : IpAddr) (d : Option Text) (xs : List Replica)
      → port_in i d (put_replica ip port docker xs)
        ≡ (if same ip docker i d then some port else port_in i d xs)
  port_in-put i d [] = unfold put_replica update_first new_replica in refl
  port_in-put i d (x ∷ xs) = ground (
    arith,
    put_replica-cons x xs,
    port_in-put i d xs,
    ==_iff x.ip i,
    ==_iff x.ip ip,
    ==_iff ip i,
    ==_iff x.docker_container d,
    ==_iff x.docker_container docker,
    ==_iff docker d,
  )

pub same_iff :
    (ip i : IpAddr) (docker d : Option Text) → (same ip docker i d ≡ true) ↔ (ip ≡ i) × (docker ≡ d)
same_iff ip i docker d = ground (arith, ==_iff ip i, ==_iff docker d)

module _ (i : IpAddr) (d : Option Text) (xs : List Replica) where
  pub port_in-drop :
      (ip : IpAddr) (docker : Option Text)
      → port_in i d (retain (λ x. not (matches_identity ip docker x)) xs)
        ≡ (if same ip docker i d then none else port_in i d xs)
  port_in-drop ip docker = elim (Bool-cases (same ip docker i d)) [
    | inl e ↦ rw e (
        port_in-retain_none _ i d xs λ r m. ground (
          arith,
          same_iff ip i docker d,
          same_iff r.ip i r.docker_container d,
          ==_refl i,
          ==_refl d,
        ))
    | inr e ↦ rw e (
        port_in-retain _ i d xs λ r m. ground (
          arith,
          same_iff ip i docker d,
          same_iff r.ip i r.docker_container d,
          same_iff r.ip ip r.docker_container docker,
        ))
  ]

  pub port_in-drop_ip :
      (ip : IpAddr)
      → port_in i d (retain (λ x. not (x.ip == ip)) xs) ≡ (if ip == i then none else port_in i d xs)
  port_in-drop_ip ip = elim (Bool-cases (ip == i)) [
    | inl e ↦ rw e (
        port_in-retain_none _ i d xs
          λ r m. ground (arith, ==_iff ip i, same_iff r.ip i r.docker_container d, ==_refl i))
    | inr e ↦ rw e (
        port_in-retain _ i d xs
          λ r m. ground (arith, ==_iff ip i, ==_iff r.ip ip, same_iff r.ip i r.docker_container d))
  ]

view-with_replicas :
    (r : RegisteredServiceInfo) (xs : List Replica)
    → view (with_replicas r xs) ≡ record { config = unregister r; ports = λ i d. port_in i d xs }
unfolding with_replicas unregister
view-with_replicas r [] = refl
view-with_replicas r (x ∷ xs) = refl

abbrev with_ports : UnregisteredServiceInfo → (IpAddr → Option Text → Option ℕ) → Spec
with_ports u f = record { config = u; ports = f }

ports_eq :
    (u : UnregisteredServiceInfo) (f g : IpAddr → Option Text → Option ℕ)
    → ((i : IpAddr) (d : Option Text) → f i d ≡ g i d)
    → with_ports u f ≡ with_ports u g
ports_eq u f g h = ap (with_ports u) (fun_ext (λ i. fun_ext (h i)))

apply_refines : (c : Change) (s : ServiceInfo) → view (apply c s) ≡ spec_apply c (view s)
unfolding add_replica remove_replica remove_replicas_on_ip update_from_file unregister register
    new_replica
apply_refines (add ip port docker) (unregistered u) = ports_eq u _ _ (λ i d. ground arith)
apply_refines (add ip port docker) (registered r) =
    ports_eq (unregister r) _ _ (λ i d. port_in-put ip port docker i d r.replicas)
apply_refines (drop ip docker) (unregistered u) = ports_eq u _ _ (λ i d. ground arith)
apply_refines (drop ip docker) (registered r) =
    view-with_replicas r _
    ∙ ports_eq (unregister r) _ _ (λ i d. port_in-drop i d r.replicas ip docker)
apply_refines (drop_ip ip) (unregistered u) = ports_eq u _ _ (λ i d. ground arith)
apply_refines (drop_ip ip) (registered r) =
    view-with_replicas r _ ∙ ports_eq (unregister r) _ _ (λ i d. port_in-drop_ip i d r.replicas ip)
apply_refines (reload (unregistered l)) (unregistered u) = refl
apply_refines (reload (registered l)) (unregistered u) = refl
apply_refines (reload (unregistered l)) (registered r) = refl
apply_refines (reload (registered l)) (registered r) = refl

pub run_refines : (cs : List Change) (s : ServiceInfo) → view (run cs s) ≡ spec_run cs (view s)
run_refines [] s = refl
run_refines (c ∷ cs) s = run_refines cs (apply c s) ∙ ap (spec_run cs) (apply_refines c s)
