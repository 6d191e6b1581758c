-- ===== src/Services/Total.antt =====
-- The teardown of chains, as calls that return:
-- members/nullnet-server/src/services/changes.rs.
use nullnet.Prelude.{
  All, All-get, All-insert, Bool, List, Map, Option, Option-cases, Text, [], get, inl, inr, none,
  refl, some, ℕ, ◌+◌, ◌<◌, ◌>>=◌, ◌^◌, ◌∷◌, text_eq,
}
use nullnet.Addr.{ip_eq}
use nullnet.Services.{RegisteredServiceInfo, ServiceInfo, registered, unregistered}
use nullnet.Services.Chains.{Identity, Edge}
use nullnet.Services.Changes.{ProxyFilter}
use nullnet.Services.Members.{decrement_chain, remove_client}
use nullnet.Services.Sound.{Returns, SoundReplicas, SoundService, decrement-Returns, remove-Returns}
use nullnet.Services.Teardown.{
  World, Owned, set_service, for_each, decrement_at, decrement_edge, teardown_dep_chain,
  proxy_teardowns, remove_all, remove_clients_at, teardown_owned, teardown_registered,
  teardown_chain, networks_freed,
}
use nullnet.Services.Views.{identity}

pub returned {ℓ} : {A : Type ℓ} → (P : A → Type 0) → (a : A) → P a → Returns P (some a)
returned P a h = record { answer = a; returns = refl; good = h }

pub bind-Returns {ℓ} :
    {A B : Type ℓ}
    → (P : A → Type 0) (Q : B → Type 0) (m : Option A) (f : A → Option B) → Returns P m
    → ((a : A) → P a → Returns Q (f a))
    → Returns Q (m >>= f)
bind-Returns P Q m f r done =
    let next = done r.answer r.good in
    record { answer = next.answer; returns = rw r.returns next.returns; good = next.good }

pub for_each-Returns :
    {A : Type 0}
    → (P : World → Type 0) (f : A → World → Option World)
    → ((x : A) (w : World) → P w → Returns P (f x w))
    → (xs : List A) (w : World) → P w
    → Returns P (for_each f xs w)
unfolding for_each
for_each-Returns P f step [] w h = returned P w h
for_each-Returns P f step (x ∷ xs) w h =
    bind-Returns P P (f x w) (for_each f xs) (step x w h)
      (λ w' h'. for_each-Returns P f step xs w' h')

module _ (n : ℕ) where
  abbrev pub SoundMap : Map Text ServiceInfo → Type 0
  SoundMap m = All (λ e. SoundService n (e.1)) m

  abbrev pub SoundWorld : World → Type 0
  SoundWorld w = SoundMap w.services

  abbrev pub Found : Option ServiceInfo → Type 0
  Found none = Unit
  Found (some si) = SoundService n si

  pub get-Found : (name : Text) (m : Map Text ServiceInfo) → SoundMap m → Found (get name m)
  get-Found name m a = elim (Option-cases (get name m)) [
    | inl absent ↦ rw absent tt
    | inr (si, found) ↦ rw found (All-get (SoundService n) name si m a found)
  ]

  pub put-Sound :
      (name : Text) (si : ServiceInfo) (w : World)
      → SoundWorld w
      → SoundService n si
      → SoundWorld (set_service name si w)
  put-Sound name si w h s = All-insert (SoundService n) name si w.services h s

module _ (n : ℕ) (room : n + 1 < 2 ^ 64) where
  decrement_at-Returns :
      (e : Edge) (o : Option ServiceInfo) (w : World)
      → SoundWorld n w
      → Found n o
      → Returns (SoundWorld n) (decrement_at e o w)
  unfolding decrement_at
  decrement_at-Returns (client, dep) none w h f = returned (SoundWorld n) w h
  decrement_at-Returns (client, dep) (some (unregistered u)) w h f = returned (SoundWorld n) w h
  decrement_at-Returns (client, dep) (some (registered reg)) w h f =
      bind-Returns _ (SoundWorld n) (decrement_chain client reg) _
        (decrement-Returns n room client reg f)
        (λ (reg', out) s. returned (SoundWorld n) _ (put-Sound n dep (registered reg') w h s))

  pub decrement_edge-Returns :
      (e : Edge) (w : World) → SoundWorld n w → Returns (SoundWorld n) (decrement_edge e w)
  unfolding decrement_edge
  decrement_edge-Returns (client, dep) w h =
      decrement_at-Returns (client, dep) (get dep w.services) w h (get-Found n dep w.services h)

  dep_chain-Returns :
      (name : Text) (at : Identity) (w : World)
      → SoundWorld n w
      → Returns (SoundWorld n) (teardown_dep_chain name at w)
  unfolding teardown_dep_chain
  dep_chain-Returns name at w h =
      for_each-Returns (SoundWorld n) decrement_edge decrement_edge-Returns _ w h

  remove_all-Returns :
      (gone : List Owned) (reg : RegisteredServiceInfo)
      → SoundReplicas n reg.replicas
      → Returns
          (λ (reg' : RegisteredServiceInfo). SoundReplicas n reg'.replicas)
          (remove_all gone reg)
  unfolding remove_all
  remove_all-Returns [] reg a = returned _ reg a
  remove_all-Returns ((c, ci, r) ∷ gone) reg a =
      bind-Returns _ _ (remove_client c reg) (remove_all gone) (remove-Returns n room c reg a)
        (λ reg' a'. remove_all-Returns gone reg' a')

  remove_clients_at-Returns :
      (name : Text) (o : Option ServiceInfo) (gone : List Owned) (w : World)
      → SoundWorld n w
      → Found n o
      → Returns (SoundWorld n) (remove_clients_at name o gone w)
  unfolding remove_clients_at
  remove_clients_at-Returns name none gone w h f = returned (SoundWorld n) w h
  remove_clients_at-Returns name (some (unregistered u)) gone w h f = returned (SoundWorld n) w h
  remove_clients_at-Returns name (some (registered reg)) gone w h f =
      bind-Returns _ (SoundWorld n) (remove_all gone reg) _ (remove_all-Returns gone reg f)
        (λ reg' a. returned (SoundWorld n) _ (put-Sound n name (registered reg') w h a))

  module _ (routine : Bool) where
    teardown_owned-Returns :
        (name : Text) (gone : List Owned) (w : World)
        → SoundWorld n w
        → Returns (SoundWorld n) (teardown_owned routine name gone w)
    unfolding teardown_owned
    teardown_owned-Returns name gone w h =
        bind-Returns (SoundWorld n) (SoundWorld n) _ _
          (for_each-Returns (SoundWorld n) _
            (λ ((c, ci, r) : Owned) w' h'. dep_chain-Returns name (identity r) w' h') gone w h)
          (λ walked h'.
            bind-Returns (SoundWorld n) (SoundWorld n) _ _
              (remove_clients_at-Returns name (get name walked.services) gone walked h'
                (get-Found n name walked.services h'))
              (λ cleared h''.
                returned (SoundWorld n) (networks_freed routine name gone cleared) h''))

    teardown_registered-Returns :
        (name : Text) (filter : ProxyFilter) (o : Option ServiceInfo) (w : World)
        → SoundWorld n w
        → Returns (SoundWorld n) (teardown_registered routine name filter o w)
    unfolding teardown_registered
    teardown_registered-Returns name filter none w h = returned (SoundWorld n) w h
    teardown_registered-Returns name filter (some (unregistered u)) w h =
        returned (SoundWorld n) w h
    teardown_registered-Returns name filter (some (registered reg)) w h =
        teardown_owned-Returns name (proxy_teardowns filter reg) w h

    pub teardown_chain-Returns :
        (name : Text) (filter : ProxyFilter) (w : World)
        → SoundWorld n w
        → Returns (SoundWorld n) (teardown_chain routine name filter w)
    unfolding teardown_chain
    teardown_chain-Returns name filter w h =
        teardown_registered-Returns name filter (get name w.services) w h
