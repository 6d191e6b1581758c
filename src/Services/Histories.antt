-- ===== src/Services/Histories.antt =====
-- The life of a stack, as calls in any order:
-- members/nullnet-server/src/services/service_info.rs and changes.rs.
use nullnet.Prelude.{
  Bool, List, Map, Option, Text, [], arith, get, length, none, refl, some, ℕ, ◌+◌, ◌<◌, ◌>>=◌, ◌^◌,
  ◌∷◌, ◌≡◌, ◌≤◌, text_eq,
}
use mathlib.Core.Path.{subst}
use mathlib.Core.Option.{some-injective}
use nullnet.Clients.{carrier_of}
use nullnet.Addr.{IpAddr, ip_eq}
use nullnet.Backend.{Sessions}
use nullnet.Clients.Info.{
  Client, ClientInfo, client_eq, add_active_chain, set_latest_now, open_connection,
  close_connection,
}
use nullnet.Services.{
  RegisteredServiceInfo, UnregisteredServiceInfo, ServiceInfo, registered, unregistered,
}
use nullnet.Services.Apply.{set_sessions, apply_changes}
use nullnet.Services.Applied.{changes-Returns}
use nullnet.Services.Chains.{ServiceMap}
use nullnet.Services.Changes.{ServiceChange}
use nullnet.Services.Grown.{
  weaken-Sound, update_entry-Sound, add_replica-Sound, pending-Returns, add-Returns,
}
use nullnet.Services.Members.{
  update_entry, add_chain, renew, connection_opened, connection_closed, remove_pending_client_if,
  add_client_to_replica,
}
use nullnet.Services.Registry.{add_replica}
use nullnet.Services.Sound.{Returns, SoundReplicas, SoundService}
use nullnet.Services.Teardown.{World, set_service, decrement_edge}
use nullnet.Services.Total.{
  returned, bind-Returns, SoundMap, SoundWorld, Found, get-Found, put-Sound, decrement_edge-Returns,
}

-- What the server and its reports do to a stack. `applies` has what a load of the declarations
-- brings; `sessions` stands for the calls of Backend in between.
pub data Call : Type 0 where
  applies : (routine : Bool) → List ServiceChange → Option (Map Text UnregisteredServiceInfo) → Call
  sessions : Sessions → Call
  registers : (name : Text) → IpAddr → (port : ℕ) → Option Text → Call
  adds : (name : Text) → IpAddr → Option Text → Client → ClientInfo → Call
  abandons : (name : Text) → Client → (owner : ℕ) → Call
  decrements chains renews opens closes : (name : Text) → (now : ℕ) → Client → Call

abbrev declarations : Map Text UnregisteredServiceInfo → ServiceMap
declarations [] = []
declarations ((name, u) ∷ m) = (name, unregistered u) ∷ declarations m

abbrev loads : Option (Map Text UnregisteredServiceInfo) → Option ServiceMap
loads none = none
loads (some m) = some (declarations m)

-- `if let Some(ServiceInfo::Registered(reg)) = services.get_mut(name)`.
abbrev at_registered :
    Text
    → (RegisteredServiceInfo → Option RegisteredServiceInfo)
    → Option ServiceInfo
    → World
    → Option World
at_registered name f (some (registered reg)) w =
    f reg >>= λ reg'. some (set_service name (registered reg') w)
at_registered name f (some (unregistered u)) w = some w
at_registered name f none w = some w

abbrev at_service : Text → (ServiceInfo → ServiceInfo) → Option ServiceInfo → World → World
at_service name f (some si) w = set_service name (f si) w
at_service name f none w = w

-- The stack after a call; `none` is a panic.
pub after_call : Call → World → Option World
unfolding add_chain renew connection_opened connection_closed
after_call (applies routine changes loaded) w = apply_changes routine changes (loads loaded) w
after_call (sessions s) w = some (set_sessions s w)
after_call (registers name ip port docker) w =
    some (at_service name (add_replica ip port docker) (get name w.services) w)
after_call (adds name ip docker client info) w =
    at_registered name
      (λ reg.
        add_client_to_replica ip docker client info reg >>= λ (reg', woken, landed). some reg')
      (get name w.services) w
after_call (abandons name client owner) w =
    at_registered name
      (λ reg. remove_pending_client_if client owner reg >>= λ (reg', woken). some reg')
      (get name w.services) w
after_call (decrements name now client) w = decrement_edge (client, name) w
after_call (chains name now client) w =
    at_registered name (λ reg. some (add_chain now client reg)) (get name w.services) w
after_call (renews name now client) w =
    at_registered name (λ reg. some (renew now client reg)) (get name w.services) w
after_call (opens name now client) w =
    at_registered name (λ reg. some (connection_opened now client reg)) (get name w.services) w
after_call (closes name now client) w =
    at_registered name (λ reg. some (connection_closed now client reg)) (get name w.services) w

pub run : List Call → World → Option World
run [] w = some w
run (c ∷ cs) w = after_call c w >>= run cs

-- A stack of declared services, on which no replica is.
abbrev pub started : Map Text UnregisteredServiceInfo → World
started m = record { services = declarations m; sessions = []; effects = [] }

declarations-Sound : (n : ℕ) (m : Map Text UnregisteredServiceInfo) → SoundMap n (declarations m)
declarations-Sound n [] = tt
declarations-Sound n ((name, u) ∷ m) = (tt, declarations-Sound n m)

loads-Sound :
    (n : ℕ) (o : Option (Map Text UnregisteredServiceInfo)) (l : ServiceMap)
    → loads o ≡ some l
    → SoundMap n l
loads-Sound n none l e = cc
loads-Sound n (some m) l e = subst (SoundMap n) (some-injective _ _ e) (declarations-Sound n m)

weaken-Service : (n m : ℕ) (si : ServiceInfo) → n ≤ m → SoundService n si → SoundService m si
weaken-Service n m (unregistered u) h a = tt
weaken-Service n m (registered reg) h a = weaken-Sound n m reg.replicas h a

weaken-Map : (n m : ℕ) (s : ServiceMap) → n ≤ m → SoundMap n s → SoundMap m s
weaken-Map n m [] h a = tt
weaken-Map n m ((name, si) ∷ s) h a = (weaken-Service n m si h a.0, weaken-Map n m s h a.1)

module _ (n : ℕ) (room : n + 1 < 2 ^ 64) (w : World) (h : SoundWorld n w) where
  abbrev Grown : World → Type 0
  Grown w' = SoundWorld (n + 1) w'

  same : (o : Option World) → Returns (SoundWorld n) o → Returns Grown o
  same o r = record {
    answer = r.answer;
    returns = r.returns;
    good = weaken-Map n (n + 1) r.answer.services (omega arith) r.good;
  }

  at_registered-Returns :
      (name : Text) (f : RegisteredServiceInfo → Option RegisteredServiceInfo)
      (o : Option ServiceInfo)
      → ((reg : RegisteredServiceInfo)
          → SoundReplicas n reg.replicas
          → Returns (λ (reg' : RegisteredServiceInfo). SoundReplicas (n + 1) reg'.replicas) (f reg))
      → Found n o
      → Returns Grown (at_registered name f o w)
  at_registered-Returns name f none keep a = same _ (returned (SoundWorld n) w h)
  at_registered-Returns name f (some (unregistered u)) keep a = same _ (returned (SoundWorld n) w h)
  at_registered-Returns name f (some (registered reg)) keep a =
      bind-Returns _ Grown (f reg) _ (keep reg a) (λ reg' a'. returned Grown _ (
        put-Sound (n + 1) name (registered reg') w (weaken-Map n (n + 1) w.services (omega arith) h)
          a'))

  entry-Returns :
      (name : Text) (client : Client) (f : ClientInfo → ClientInfo)
      → ((ci : ClientInfo) → carrier_of client (f ci) ≡ carrier_of client ci)
      → Returns Grown (
          at_registered name
            (λ reg. some (record reg { replicas = update_entry client f reg.replicas }))
            (get name w.services)
            w)
  entry-Returns name client f keep =
      at_registered-Returns name _ (get name w.services)
        (λ reg a. returned _ _ (
          weaken-Sound n (n + 1) _ (omega arith)
            (update_entry-Sound n client f keep reg.replicas a)))
        (get-Found n name w.services h)

  at_service-Sound :
      (name : Text) (f : ServiceInfo → ServiceInfo) (o : Option ServiceInfo)
      → ((si : ServiceInfo) → SoundService n si → SoundService n (f si))
      → Found n o
      → SoundWorld n (at_service name f o w)
  at_service-Sound name f none keep a = h
  at_service-Sound name f (some si) keep a = put-Sound n name (f si) w h (keep si a)

  call-Returns : (c : Call) → Returns Grown (after_call c w)
  unfolding after_call add_active_chain set_latest_now open_connection close_connection
  call-Returns (applies routine changes loaded) =
      same _ (changes-Returns n room routine changes (loads loaded) w h (loads-Sound n loaded))
  call-Returns (sessions s) = same _ (returned (SoundWorld n) (set_sessions s w) h)
  call-Returns (registers name ip port docker) = same _ (
      returned (SoundWorld n) _ (
        at_service-Sound name (add_replica ip port docker) (get name w.services)
          (add_replica-Sound n ip port docker) (get-Found n name w.services h)))
  call-Returns (adds name ip docker client info) =
      at_registered-Returns name _ (get name w.services)
        (λ reg a.
          bind-Returns _ _ (add_client_to_replica ip docker client info reg) _
            (add-Returns n room client ip docker info reg a)
            (λ (reg', woken, landed) a'. returned _ reg' a'))
        (get-Found n name w.services h)
  call-Returns (abandons name client owner) =
      at_registered-Returns name _ (get name w.services)
        (λ reg a.
          bind-Returns _ _ (remove_pending_client_if client owner reg) _
            (pending-Returns n room client owner reg a)
            (λ (reg', woken) a'.
              returned _ reg' (weaken-Sound n (n + 1) reg'.replicas (omega arith) a')))
        (get-Found n name w.services h)
  call-Returns (decrements name now client) =
      same _ (decrement_edge-Returns n room (client, name) w h)
  call-Returns (chains name now client) =
      entry-Returns name client (add_active_chain now) (λ ci. refl)
  call-Returns (renews name now client) =
      entry-Returns name client (set_latest_now now) (λ ci. refl)
  call-Returns (opens name now client) =
      entry-Returns name client (open_connection now) (λ ci. refl)
  call-Returns (closes name now client) =
      entry-Returns name client (close_connection now) (λ ci. refl)

run-Returns :
    (cs : List Call) (n m : ℕ) (w : World)
    → SoundWorld n w
    → n + length cs ≤ m
    → m < 2 ^ 64
    → Returns (SoundWorld m) (run cs w)
unfolding run
run-Returns [] n m w h le room =
    returned (SoundWorld m) w (weaken-Map n m w.services (omega arith) h)
run-Returns (c ∷ cs) n m w h le room =
    bind-Returns (SoundWorld (n + 1)) (SoundWorld m) (after_call c w) (run cs)
      (call-Returns n (omega arith) w h c)
      (λ w' h'. run-Returns cs (n + 1) m w' h' (omega arith) room)

-- A stack that starts with declared services never panics in fewer than 2^64 calls, in whatever
-- order replicas come, edges are reserved, built, used and given up, chains end, and changes are
-- applied with their teardowns. No table of clients then has more entries than there were calls,
-- and each has the invariant of its index of carriers.
pub stack_total :
    (cs : List Call) (m : Map Text UnregisteredServiceInfo)
    → length cs < 2 ^ 64
    → Returns (SoundWorld (length cs)) (run cs (started m))
stack_total cs m room =
    run-Returns cs 0 (length cs) (started m) (declarations-Sound 0 m) (omega arith) room
