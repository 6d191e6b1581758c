-- ===== src/Timeouts.antt =====
-- members/nullnet-server/src/timeout.rs: how long the loop of timeouts sleeps, and whom it finds to
-- be timed out. The clock is read once for each function; the reads of one round are one `now`.
pub mod Ingress
pub mod Sleep
mod Tests
use nullnet.Prelude.{
  Bool, List, Map, Option, Text, [], eqb, false, get, if◌then◌else◌, ltb, map, min, none, not, some,
  ℕ, ◌&&◌, ◌*◌, ◌++◌, ◌∷◌, text_eq,
}
use nullnet.Clients.Info.{Client}
use nullnet.Backend.{Sessions, nearest_backend_expiry}
use nullnet.Egress.{Edges}
use nullnet.Egress.Reports.{nearest_egress_expiry}
use nullnet.Services.{RegisteredServiceInfo, ServiceInfo, unregistered, registered, timeout}
use nullnet.Services.Chains.{ServiceMap, Identity, dep_chain_has_pending}
use nullnet.Services.Changes.{ServiceChange}
use nullnet.Services.Registry.{retain}
use nullnet.Services.Views.{
  least, min_by, nearest_proxy_expiry, expired_proxy_clients, proxy_client_expired, client_replica,
}

-- Milliseconds.
abbrev pub max_poll_interval : ℕ
max_poll_interval = 60_000

abbrev pub liveness_reap_debounce : ℕ
liveness_reap_debounce = 30_000

abbrev pub StackMap : Type 0
StackMap = Map Text ServiceMap

-- `min` with a deadline where there is one.
abbrev pub sooner : ℕ → Option ℕ → ℕ
sooner d none = d
sooner d (some e) = min d e

abbrev pub proxy_expiry : (now timeout : ℕ) → ServiceInfo → Option ℕ
proxy_expiry now timeout (registered reg) = nearest_proxy_expiry now timeout reg
proxy_expiry now timeout (unregistered u) = none

-- One round of the loop of `nearest_timeout`; the timeout of a service is in seconds.
abbrev pub nearest_with : (now nearest : ℕ) → ServiceInfo → Option ℕ → ℕ
nearest_with now nearest si none = nearest
nearest_with now nearest si (some t) =
    if eqb t 0 then nearest else sooner (min nearest (t * 1000)) (proxy_expiry now (t * 1000) si)

unfoldable pub nearest_from : (now nearest : ℕ) → ServiceMap → ℕ
nearest_from now nearest [] = nearest
nearest_from now nearest ((name, si) ∷ m) =
    nearest_from now (nearest_with now nearest si (timeout si)) m

abbrev pub nearest_timeout : (now : ℕ) → ServiceMap → ℕ
nearest_timeout now m = nearest_from now max_poll_interval m

abbrev pub or_poll : Option ℕ → ℕ
or_poll none = max_poll_interval
or_poll (some d) = d

abbrev pub ingress_sleep : (now : ℕ) → StackMap → ℕ
ingress_sleep now stacks = or_poll (least ltb (map (λ (stack, m). nearest_timeout now m) stacks))

unfoldable pub sleep_duration : (now : ℕ) → StackMap → Edges → Sessions → ℕ
unfolding nearest_egress_expiry nearest_backend_expiry nearest_from min_by
sleep_duration now stacks edges sessions =
    let ingress = ingress_sleep now stacks in
    let egress = nearest_egress_expiry now liveness_reap_debounce edges in
    let backend = nearest_backend_expiry now liveness_reap_debounce sessions in
    sooner (sooner ingress egress) backend

abbrev pub is_held : Text → Option Identity → ServiceMap → Bool
is_held name none services = false
is_held name (some at) services = dep_chain_has_pending name at services

abbrev pub timed_out_of : (now timeout : ℕ) → Text → ServiceInfo → ServiceMap → List ServiceChange
timed_out_of now timeout name (unregistered u) services = []
timed_out_of now timeout name (registered reg) services =
    map (ServiceChange.proxy_client_timed_out name) (
      retain (λ client. not (is_held name (client_replica client reg) services))
        (expired_proxy_clients now timeout reg))

abbrev pub timed_out_with :
    (now : ℕ) → Text → ServiceInfo → Option ℕ → ServiceMap → List ServiceChange
timed_out_with now name si none services = []
timed_out_with now name si (some t) services =
    if eqb t 0 then [] else timed_out_of now (t * 1000) name si services

unfoldable pub timed_out_from : (now : ℕ) → (rest services : ServiceMap) → List ServiceChange
unfolding retain expired_proxy_clients client_replica dep_chain_has_pending
timed_out_from now [] services = []
timed_out_from now ((name, si) ∷ rest) services =
    timed_out_with now name si (timeout si) services ++ timed_out_from now rest services

abbrev pub collect_timed_out_clients : (now : ℕ) → ServiceMap → List ServiceChange
collect_timed_out_clients now services = timed_out_from now services services

abbrev pub client_timed_out_at :
    (now timeout : ℕ) → Text → Client → RegisteredServiceInfo → ServiceMap → Bool
client_timed_out_at now timeout name client reg services =
    proxy_client_expired now timeout client reg
    && not (is_held name (client_replica client reg) services)

abbrev client_timed_out_with :
    (now : ℕ) → Text → Client → RegisteredServiceInfo → Option ℕ → ServiceMap → Bool
client_timed_out_with now name client reg none services = false
client_timed_out_with now name client reg (some t) services =
    not (eqb t 0) && client_timed_out_at now (t * 1000) name client reg services

abbrev client_timed_out_of : (now : ℕ) → Text → Client → Option ServiceInfo → ServiceMap → Bool
client_timed_out_of now name client (some (registered reg)) services =
    client_timed_out_with now name client reg reg.timeout services
client_timed_out_of now name client _ services = false

unfoldable pub client_timed_out : (now : ℕ) → ServiceMap → Text → Client → Bool
unfolding proxy_client_expired client_replica dep_chain_has_pending
client_timed_out now services name client =
    client_timed_out_of now name client (get name services) services
