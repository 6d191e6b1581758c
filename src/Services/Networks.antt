-- ===== src/Services/Networks.antt =====
-- Which networks a teardown gives back: members/nullnet-server/src/services/changes.rs.
use nullnet.Prelude.{
  >>=-eq-some, Bool, Bool-cases, List, Option, Text, [], any, ap, arith, count, count-append, eqb,
  eqb_iff, get, if◌then◌else◌, inl, inr, none, not, refl, some, sym, ℕ, ◌&&◌, ◌++◌, ◌+◌, ◌==◌,
  ◌>>=◌, ◌∙◌, ◌∷◌, ◌≡◌, nat_eq, text_eq,
}
use mathlib.Core.List.{append_assoc}
use mathlib.Core.Option.{some-injective}
use nullnet.Services.{RegisteredServiceInfo, ServiceInfo, registered, unregistered}
use nullnet.Services.Changes.{ProxyFilter}
use nullnet.Services.Views.{identity}
use nullnet.Services.Teardown.{
  teardown_dep_chain, Effect, World, Owned, net_teardown, close_ingress, for_each, proxy_teardowns,
  remove_clients_at, remove_all, set_service, is_shared, net_effects, free_networks, history_closed,
  networks_freed, teardown_owned, teardown_registered, teardown_chain,
}

abbrev net_of : Effect → List ℕ
net_of (net_teardown t) = t.net_id ∷ []
net_of _ = []

-- The networks that are given back by effects, in order.
abbrev pub nets : List Effect → List ℕ
nets [] = []
nets (e ∷ es) = net_of e ++ nets es

nets-append : (xs ys : List Effect) → nets (xs ++ ys) ≡ nets xs ++ nets ys
nets-append [] ys = refl
nets-append (x ∷ xs) ys = rw (nets-append xs ys) (sym (append_assoc (net_of x) (nets xs) (nets ys)))

abbrev pub uses : ℕ → Owned → Bool
uses id (c, ci, r) = ci.net_id == id

module _ (routine : Bool) (name : Text) where
  count-net_effects :
      (id : ℕ) (o : Owned)
      → count id (nets (net_effects routine name o)) ≡ (if uses id o then 1 else 0)
  unfolding net_effects
  count-net_effects id (c, ci, r) = ground arith

  count-freed :
      (id : ℕ) (o : Owned) (rest : List Effect)
      → count id (nets (net_effects routine name o ++ rest))
        ≡ (if uses id o then 1 else 0) + count id (nets rest)
  count-freed id o rest =
      ap (count id) (nets-append (net_effects routine name o) rest)
      ∙ count-append id (nets (net_effects routine name o)) (nets rest)
      ∙ ap (λ n. n + count id (nets rest)) (count-net_effects id o)

  freed_once :
      (si : Option ServiceInfo) (id : ℕ) (seen : List ℕ) (gone : List Owned)
      → count id (nets (free_networks routine name si seen gone)) ≡ (
          if any (λ s. eqb s id) seen
          then 0
          else if any (uses id) gone && not (is_shared id si)
          then 1
          else 0)
  unfolding free_networks
  freed_once si id seen [] = ground arith
  freed_once si id seen ((c, ci, r) ∷ gone) =
      let rest = free_networks routine name si (ci.net_id ∷ seen) gone in
      elim (Bool-cases (eqb ci.net_id id)) [
        | inl same ↦
            let e : ci.net_id ≡ id = (eqb_iff ci.net_id id).0 same in
            ground (
              arith,
              ap (λ n. any (λ s. eqb s n) seen) e,
              ap (λ n. is_shared n si) e,
              freed_once si id (ci.net_id ∷ seen) gone,
              count-freed id (c, ci, r) rest,
            )
        | inr other ↦
            ground (arith, freed_once si id (ci.net_id ∷ seen) gone, count-freed id (c, ci, r) rest)
      ]

abbrev row_of : Effect → List ℕ
row_of (close_ingress id service peer) = id ∷ []
row_of _ = []

-- The networks whose history rows are closed by effects, in order.
abbrev pub rows : List Effect → List ℕ
rows [] = []
rows (e ∷ es) = row_of e ++ rows es

module _ (routine : Bool) (name : Text) where
  no_rows :
      (si : Option ServiceInfo) (seen : List ℕ) (gone : List Owned)
      → rows (free_networks routine name si seen gone) ≡ []
  unfolding free_networks net_effects
  no_rows si seen [] = refl
  no_rows si seen ((c, ci, r) ∷ gone) = ground (arith, no_rows si (ci.net_id ∷ seen) gone)

clear-effects :
    (name : Text) (si : Option ServiceInfo) (gone : List Owned) (w : World) {w' : World}
    → remove_clients_at name si gone w ≡ some w'
    → w'.effects ≡ w.effects
unfolding remove_clients_at
clear-effects name (some (registered reg)) gone w {w'} done =
    let (reg', removed, e) =
      >>=-eq-some (remove_all gone reg)
        (λ (reg' : RegisteredServiceInfo). some (set_service name (registered reg') w)) done in
    ap World.effects (sym (some-injective _ _ e))
clear-effects name (some (unregistered u)) gone w done =
    ap World.effects (sym (some-injective _ _ done))
clear-effects name none gone w done = ap World.effects (sym (some-injective _ _ done))

-- The dependency chains of the entries are walked, one after the other.
abbrev pub chains_walked : Text → List Owned → World → Option World
chains_walked name = for_each (λ ((c, ci, r) : Owned). teardown_dep_chain name (identity r))

ends_by_freeing :
    (routine : Bool) (name : Text) (gone : List Owned) (w : World) {w' : World}
    → teardown_owned routine name gone w ≡ some w'
    → (walked : World) × (cleared : World) × (chains_walked name gone w ≡ some walked)
      × (cleared.effects ≡ walked.effects)
      × (w' ≡ networks_freed routine name gone cleared)
unfolding teardown_owned
ends_by_freeing routine name gone w done =
    let (walked, first, onward) =
      >>=-eq-some (chains_walked name gone w)
        (λ (walked : World).
          remove_clients_at name (get name walked.services) gone walked >>= λ (cleared : World).
          some (networks_freed routine name gone cleared))
        done in
    let (cleared, second, last) =
      >>=-eq-some (remove_clients_at name (get name walked.services) gone walked)
        (λ (cleared : World). some (networks_freed routine name gone cleared)) onward in
    (walked, cleared, first, clear-effects name (get name walked.services) gone walked second, cc)

-- A teardown of a service's proxy clients first walks their dependency chains. After what the walk
-- sends, it closes the history row of each client that is torn down, in order, closes no other row,
-- and gives back each of their networks: once if no client of the service is left on it, and not at
-- all otherwise.
pub networks_freed_once :
    (routine : Bool) (name : Text) (filter : ProxyFilter) (w : World) (reg : RegisteredServiceInfo)
    {w' : World}
    → get name w.services ≡ some (registered reg)
    → teardown_chain routine name filter w ≡ some w'
    → let gone = proxy_teardowns filter reg in
      (walked : World) × (freed : List Effect) × (chains_walked name gone w ≡ some walked)
      × (w'.effects ≡ walked.effects ++ (history_closed name gone ++ freed))
      × (rows freed ≡ [])
      × ((id : ℕ)
          → count id (nets freed)
            ≡ (if any (uses id) gone && not (is_shared id (get name w'.services)) then 1 else 0))
unfolding teardown_chain teardown_registered
networks_freed_once routine name filter w reg {w'} found done =
    let gone = proxy_teardowns filter reg in
    let (walked, cleared, walk, same, e) = ends_by_freeing routine name gone w (rw found at done) in
    let freed = free_networks routine name (get name cleared.services) [] gone in
    rw e (
      walked,
      freed,
      walk,
      ap (λ es. es ++ (history_closed name gone ++ freed)) same,
      no_rows routine name (get name cleared.services) [] gone,
      λ id. freed_once routine name (get name cleared.services) id [] gone,
    )
