-- ===== src/Services/Normal.antt =====
-- The replicas of a service over any history of changes:
-- members/nullnet-server/src/services/service_info.rs.
use nullnet.Prelude.{
  ==_refl, Bool, List, Option, Text, [], any, ap, arith, false, length, none, not, refl, true, ℕ,
  ◌<◌, ◌↔◌, ◌∙◌, ◌∷◌, ◌≡◌, text_eq, option_eq,
}
use nullnet.Addr.{IpAddr, ip_eq}
use nullnet.Services.{
  Replica, RegisteredServiceInfo, UnregisteredServiceInfo, ServiceInfo, unregistered, registered,
  new_replica, matches_identity,
}
use nullnet.Services.Registry.{
  update_first, retain, register, unregister, put_replica, add_replica, has_replica, with_replicas,
  remove_replicas_on_ip, remove_replica, update_from_file,
}
use nullnet.Services.Refinement.{
  Change, add, drop, drop_ip, reload, apply, run, spec_run, view, port_in, put_replica-cons,
  port_in-put, run_refines, replicas_of, same_iff,
}

-- No identity stands twice.
abbrev pub IsUnique : List Replica → Type 0
IsUnique [] = Unit
IsUnique (x ∷ xs) = (port_in x.ip x.docker_container xs ≡ none) × IsUnique xs

-- A service is registered with one replica at least, and with one of each identity at most.
abbrev pub IsNormal : ServiceInfo → Type 0
IsNormal (unregistered u) = Unit
IsNormal (registered r) = (0 < length r.replicas) × IsUnique r.replicas

put-IsUnique :
    (ip : IpAddr) (port : ℕ) (docker : Option Text) (xs : List Replica)
    → IsUnique xs
    → IsUnique (put_replica ip port docker xs)
put-IsUnique ip port docker [] u = unfold put_replica update_first in (refl, tt)
put-IsUnique ip port docker (x ∷ xs) u = ground (
  arith,
  put_replica-cons ip port docker x xs,
  put-IsUnique ip port docker xs u.1,
  port_in-put ip port docker x.ip x.docker_container xs,
  same_iff ip x.ip docker x.docker_container,
  same_iff x.ip ip x.docker_container docker,
)

port_in-retain-none :
    (p : Replica → Bool) (i : IpAddr) (d : Option Text) (xs : List Replica)
    → port_in i d xs ≡ none
    → port_in i d (retain p xs) ≡ none
unfolding retain
port_in-retain-none p i d [] h = refl
port_in-retain-none p i d (x ∷ xs) h = ground (arith, port_in-retain-none p i d xs)

retain-IsUnique : (p : Replica → Bool) (xs : List Replica) → IsUnique xs → IsUnique (retain p xs)
unfolding retain
retain-IsUnique p [] u = tt
retain-IsUnique p (x ∷ xs) u =
    ground (arith, retain-IsUnique p xs u.1, port_in-retain-none p x.ip x.docker_container xs u.0)

with_replicas-IsNormal :
    (r : RegisteredServiceInfo) (xs : List Replica) → IsUnique xs → IsNormal (with_replicas r xs)
unfolding with_replicas
with_replicas-IsNormal r [] u = tt
with_replicas-IsNormal r (x ∷ xs) u = (omega arith, u)

length-put :
    (ip : IpAddr) (port : ℕ) (docker : Option Text) (xs : List Replica)
    → 0 < length (put_replica ip port docker xs)
length-put ip port docker [] = unfold put_replica update_first in omega arith
length-put ip port docker (x ∷ xs) = ground (arith, put_replica-cons ip port docker x xs)

apply-IsNormal : (c : Change) (s : ServiceInfo) → IsNormal s → IsNormal (apply c s)
unfolding add_replica remove_replica remove_replicas_on_ip update_from_file register
apply-IsNormal (add ip port docker) (unregistered u) n = (omega arith, (refl, tt))
apply-IsNormal (add ip port docker) (registered r) n =
    (length-put ip port docker r.replicas, put-IsUnique ip port docker r.replicas n.1)
apply-IsNormal (drop ip docker) (unregistered u) n = tt
apply-IsNormal (drop ip docker) (registered r) n =
    with_replicas-IsNormal r _ (retain-IsUnique _ r.replicas n.1)
apply-IsNormal (drop_ip ip) (unregistered u) n = tt
apply-IsNormal (drop_ip ip) (registered r) n =
    with_replicas-IsNormal r _ (retain-IsUnique _ r.replicas n.1)
apply-IsNormal (reload l) (unregistered u) n = tt
apply-IsNormal (reload l) (registered r) n = n

pub run-IsNormal : (cs : List Change) (s : ServiceInfo) → IsNormal s → IsNormal (run cs s)
run-IsNormal [] s n = n
run-IsNormal (c ∷ cs) s n = run-IsNormal cs (apply c s) (apply-IsNormal c s n)

has-port_in :
    (i : IpAddr) (d : Option Text) (s : ServiceInfo)
    → (has_replica i d s ≡ false) ↔ (port_in i d (replicas_of s) ≡ none)
unfolding has_replica
has-port_in i d (unregistered u) = ground arith
has-port_in i d (registered r) = any-port_in r.replicas
  where
    any-port_in :
        (xs : List Replica) → (any (matches_identity i d) xs ≡ false) ↔ (port_in i d xs ≡ none)
    any-port_in [] = ground arith
    any-port_in (x ∷ xs) = ground (arith, any-port_in xs)

abbrev pub is_registered : ServiceInfo → Bool
is_registered (unregistered u) = false
is_registered (registered r) = true

vacant :
    (s : ServiceInfo)
    → IsNormal s
    → (is_registered s ≡ false)
      ↔ ((i : IpAddr) (d : Option Text) → port_in i d (replicas_of s) ≡ none)
vacant (unregistered u) n = (λ e i d. refl, λ h. refl)
vacant (registered r) n = (λ e. cc, λ h. absurd (inhabited r.replicas n.0 h))
  where
    inhabited :
        (xs : List Replica)
        → 0 < length xs
        → ¬ ((i : IpAddr) (d : Option Text) → port_in i d xs ≡ none)
    inhabited [] l h = elim l [ ]
    inhabited (x ∷ xs) l h =
        ground (arith, h x.ip x.docker_container, ==_refl x.ip, ==_refl x.docker_container)

IsNormal-IsUnique : (s : ServiceInfo) → IsNormal s → IsUnique (replicas_of s)
IsNormal-IsUnique (unregistered u) n = tt
IsNormal-IsUnique (registered r) n = n.1

-- Whatever replicas are added, moved to another port and removed, and whatever declarations are
-- loaded, from a service with no replica on, the service holds the declaration and the ports of
-- the map that the same changes make of an empty map; `has_replica` answers by that map, the
-- service is unregistered exactly if the map is empty, and it lists no identity twice.
pub registry_refines :
    (cs : List Change) (u : UnregisteredServiceInfo)
    → (view (run cs (unregistered u)) ≡ spec_run cs (view (unregistered u)))
      × ((i : IpAddr) (d : Option Text)
          → (has_replica i d (run cs (unregistered u)) ≡ false)
            ↔ ((spec_run cs (view (unregistered u))).ports i d ≡ none))
      × ((is_registered (run cs (unregistered u)) ≡ false) ↔ (
          (i : IpAddr) (d : Option Text) → (spec_run cs (view (unregistered u))).ports i d ≡ none))
      × IsUnique (replicas_of (run cs (unregistered u)))
registry_refines cs u =
    let s : ServiceInfo = run cs (unregistered u) in
    let same_view = run_refines cs (unregistered u) in
    let normal = run-IsNormal cs (unregistered u) tt in
    (
      same_view,
      rw (← same_view) (λ i d. has-port_in i d s),
      rw (← same_view) (vacant s normal),
      IsNormal-IsUnique s normal,
    )

retain-put :
    (ip : IpAddr) (port : ℕ) (docker : Option Text) (xs : List Replica)
    → any (matches_identity ip docker) xs ≡ false
    → retain (λ x. not (matches_identity ip docker x)) (put_replica ip port docker xs) ≡ xs
unfolding retain
retain-put ip port docker [] h =
    unfold put_replica update_first new_replica in ground (arith, ==_refl ip, ==_refl docker)
retain-put ip port docker (x ∷ xs) h =
    ground (arith, put_replica-cons ip port docker x xs, retain-put ip port docker xs)

with_replicas_self :
    (r : RegisteredServiceInfo) (xs : List Replica)
    → 0 < length r.replicas
    → xs ≡ r.replicas
    → with_replicas r xs ≡ registered r
unfolding with_replicas
with_replicas_self r [] l e = absurd (omega (arith, ap length e))
with_replicas_self r (x ∷ xs) l e = ap (λ ys. registered (record r { replicas = ys })) e

-- The other fields are those of the service before.
with_replicas_over :
    (r : RegisteredServiceInfo) (ys xs : List Replica)
    → with_replicas (record r { replicas = ys }) xs ≡ with_replicas r xs
unfolding with_replicas unregister
with_replicas_over r ys [] = refl
with_replicas_over r ys (x ∷ xs) = refl

-- A replica that is not known, added and then removed, leaves the service as it was.
pub remove-add :
    (ip : IpAddr) (port : ℕ) (docker : Option Text) (s : ServiceInfo)
    → IsNormal s
    → has_replica ip docker s ≡ false
    → remove_replica ip docker (add_replica ip port docker s) ≡ s
unfolding add_replica remove_replica has_replica
remove-add ip port docker (unregistered u) n h =
    unfold new_replica register with_replicas unregister in
    ground (arith, ==_refl ip, ==_refl docker)
remove-add ip port docker (registered r) n h =
    with_replicas_over r (put_replica ip port docker r.replicas) _
    ∙ with_replicas_self r _ n.0 (retain-put ip port docker r.replicas h)
