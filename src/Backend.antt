-- ===== src/Backend.antt =====
-- members/nullnet-server/src/orchestrator.rs: the sessions of backend triggers, each of which holds
-- one reference to a chain. An `Instant` is a number of milliseconds and a `Uuid` a number; both are
-- arguments where the code draws them.
pub mod Due
pub mod Wakes
mod Tests
use nullnet.Prelude.{
  ==_iff, Bool, Eq, List, Map, Option, Text, [], arith, eqb, false, get, if◌then◌else◌, insert, leb,
  ltb, none, not, remove, some, true, ℕ, ◌&&◌, ◌++◌, ◌-◌, ◌==◌, ◌↔◌, ◌∷◌, ◌≡◌, nat_eq, text_eq,
  option_eq,
}
use nullnet.Addr.{Ipv4Addr, IpAddr, ip_eq}
use nullnet.Services.Views.{least}

pub record BackendKey : Type 0 where
  pub service : Text
  pub ip : IpAddr
  pub docker : Option Text
  pub port : ℕ

abbrev pub beq_key : BackendKey → BackendKey → Bool
beq_key a b = a.service == b.service && a.ip == b.ip && a.docker == b.docker && eqb a.port b.port

pub beq_key_iff : (a b : BackendKey) → (beq_key a b ≡ true) ↔ (a ≡ b)
beq_key_iff a b =
    ground (arith, ==_iff a.service b.service, ==_iff a.ip b.ip, ==_iff a.docker b.docker)

instance abbrev pub key_eq : Eq BackendKey
key_eq = record { beq = beq_key; beq_iff = beq_key_iff }

pub record BackendSession : Type 0 where
  pub generation : ℕ
  pub history_id : Option ℕ
  pub building : Bool
  pub stack : Text
  pub idle_since : Option ℕ

abbrev pub Sessions : Type 0
Sessions = Map BackendKey BackendSession

pub record PendingBackendHistory : Type 0 where
  pub key : BackendKey
  pub generation : ℕ
  pub stack : Text
  pub net_id : ℕ
  pub destination : Text
  pub setup_ms : Option ℕ

abbrev claim_free : Option BackendSession → BackendKey → Text → ℕ → Sessions → Sessions × Option ℕ
claim_free (some held) key stack generation m = (m, none)
claim_free none key stack generation m = (
  insert key
      (record {
        generation = generation;
        history_id = none;
        building = true;
        stack = stack;
        idle_since = none;
      })
      m,
  some generation,
)

-- A claim of a key that is not held; `generation` is drawn at random.
unfoldable pub claim_backend_session :
    BackendKey → Text → (generation : ℕ) → Sessions → Sessions × Option ℕ
claim_backend_session key stack generation m = claim_free (get key m) key stack generation m

-- `filter(|s| s.generation == generation)`.
abbrev pub of_generation : ℕ → Option BackendSession → Option BackendSession
of_generation g none = none
of_generation g (some s) = if eqb s.generation g then some s else none

abbrev finish_found :
    Option BackendSession
    → BackendKey
    → (net_id : ℕ) → Text
    → Option ℕ
    → Sessions
    → Sessions × Option PendingBackendHistory
finish_found none key net_id destination setup_ms m = (m, none)
finish_found (some s) key net_id destination setup_ms m = (
  insert key (record s { building = false }) m,
  some (record {
    key = key;
    generation = s.generation;
    stack = s.stack;
    net_id = net_id;
    destination = destination;
    setup_ms = setup_ms;
  }),
)

unfoldable pub finish_backend_session :
    BackendKey
    → (generation net_id : ℕ) → Text
    → Option ℕ
    → Sessions
    → Sessions × Option PendingBackendHistory
finish_backend_session key generation net_id destination setup_ms m =
    finish_found (of_generation generation (get key m)) key net_id destination setup_ms m

abbrev persist_found :
    Option BackendSession → BackendKey → Option ℕ → Sessions → Sessions × List (Option ℕ)
persist_found none key history_id m = (m, history_id ∷ [])
persist_found (some s) key history_id m = (insert key (record s { history_id = history_id }) m, [])

-- `history_id` is the row that was opened meanwhile; the rows to close are the second result.
unfoldable pub persist_backend_session :
    PendingBackendHistory → (history_id : Option ℕ) → Sessions → Sessions × List (Option ℕ)
persist_backend_session p history_id m =
    persist_found (of_generation p.generation (get p.key m)) p.key history_id m

abbrev cancel_found : Option BackendSession → BackendKey → Sessions → Sessions × List (Option ℕ)
cancel_found none key m = (m, [])
cancel_found (some s) key m = (remove key m, s.history_id ∷ [])

unfoldable pub cancel_backend_session :
    BackendKey → (generation : ℕ) → Sessions → Sessions × List (Option ℕ)
cancel_backend_session key generation m = cancel_found (of_generation generation (get key m)) key m

abbrev pub is_building : Option BackendSession → Bool
is_building none = false
is_building (some s) = s.building

unfoldable pub cancel_backend_build : BackendKey → Sessions → Sessions × Bool
cancel_backend_build key m = if is_building (get key m) then (remove key m, true) else (m, false)

abbrev report : Option BackendSession → BackendKey → (now : ℕ) → Bool → Sessions → Sessions
report none key now active m = m
report (some s) key now active m =
    insert key (record s { idle_since = if active then none else some now }) m

unfoldable pub set_backend_liveness : BackendKey → (now : ℕ) → Bool → Sessions → Sessions
set_backend_liveness key now active m = report (get key m) key now active m

-- `is_some_and(|since| now.duration_since(since) >= debounce)`.
abbrev pub is_idle : (now debounce : ℕ) → Option ℕ → Bool
is_idle now debounce none = false
is_idle now debounce (some since) = leb debounce (now - since)

abbrev pub is_due : (now debounce : ℕ) → BackendSession → Bool
is_due now debounce s = not s.building && is_idle now debounce s.idle_since

unfoldable pub due_keys : (now debounce : ℕ) → Sessions → List BackendKey
due_keys now debounce [] = []
due_keys now debounce ((k, s) ∷ m) =
    if is_due now debounce s then k ∷ due_keys now debounce m else due_keys now debounce m

abbrev pub taken : BackendKey → Option BackendSession → List (BackendKey × Text × Option ℕ)
taken key none = []
taken key (some s) = (key, s.stack, s.history_id) ∷ []

unfoldable pub take_keys :
    List BackendKey → Sessions → Sessions × List (BackendKey × Text × Option ℕ)
take_keys [] m = (m, [])
take_keys (k ∷ ks) m =
    let (m', expired) = take_keys ks (remove k m) in (m', taken k (get k m) ++ expired)

unfoldable pub take_due_backend_sessions :
    (now debounce : ℕ) → Sessions → Sessions × List (BackendKey × Text × Option ℕ)
unfolding due_keys take_keys
take_due_backend_sessions now debounce m = take_keys (due_keys now debounce m) m

abbrev pub waits : (now debounce : ℕ) → BackendSession → List ℕ
waits now debounce s =
    if s.building
    then []
    else elim s.idle_since [ none ↦ [] | some since ↦ (debounce - (now - since)) ∷ [] ]

unfoldable pub backend_waits : (now debounce : ℕ) → Sessions → List ℕ
backend_waits now debounce [] = []
backend_waits now debounce ((k, s) ∷ m) = waits now debounce s ++ backend_waits now debounce m

unfoldable pub nearest_backend_expiry : (now debounce : ℕ) → Sessions → Option ℕ
unfolding backend_waits
nearest_backend_expiry now debounce m = least ltb (backend_waits now debounce m)

abbrev closed : Option BackendSession → List (Option ℕ)
closed none = []
closed (some s) = s.history_id ∷ []

unfoldable pub forget_backend_sessions :
    Text → IpAddr → Option Text → List ℕ → Sessions → Sessions × List (Option ℕ)
forget_backend_sessions service ip docker [] m = (m, [])
forget_backend_sessions service ip docker (port ∷ ports) m =
    let key : BackendKey = record { service = service; ip = ip; docker = docker; port = port } in
    let (m', rows) = forget_backend_sessions service ip docker ports (remove key m) in
    (m', closed (get key m) ++ rows)
