-- ===== src/Congestion/Controller.antt =====
-- members/nullnet-server/src/congestion.rs: the controller's state and its operations. Each runs
-- under the state's lock, so they are functions of the state; `now` is read under the lock.
use nullnet.Prelude.{
  Bool, List, Map, Option, [], false, get, if◌then◌else◌, insert, leb, min, none, some, true, ℕ,
  ◌++◌, ◌+◌, ◌-◌, ◌/◌, ◌==◌, ◌>>=◌, ◌^◌, ◌∷◌,
}
use nullnet.Addr.{IpAddr, ip_eq}
use nullnet.Congestion.Pressure.{LoadSample, Pressure, PressureView, observe, view}
use nullnet.Congestion.Pressure
use nullnet.Congestion.HostRate.{
  HostRate, RateTransition, PressureSource, token, apply_all, refill, denied, record_completion,
}
use nullnet.Congestion.HostRate

pub record ProxyLoad : Type 0 where
  pub epoch : ℕ
  pub arrivals : ℕ
  pub completions : ℕ
  pub waiters : ℕ
  pub wait_us : ℕ

pub record SetupPressure : Type 0 where
  pub pressure : Pressure
  pub arrivals : ℕ
  pub completions : ℕ
  pub pending : ℕ

abbrev no_load : LoadSample
no_load = record { epoch = 0; arrivals = 0; completions = 0; pending = 0 }

unfoldable pub new_setup : ℕ → SetupPressure
unfolding Pressure.new
new_setup now = record {
  pressure = Pressure.new now no_load none true false;
  arrivals = 0;
  completions = 0;
  pending = 0;
}

abbrev pub sample_of : SetupPressure → LoadSample
sample_of s = record {
  epoch = 0;
  arrivals = s.arrivals;
  completions = s.completions;
  pending = s.pending;
}

unfoldable pub started : ℕ → SetupPressure → SetupPressure
started now s =
    let s' = record s {
      arrivals = Pressure.saturating_add s.arrivals 1;
      pending = min (s.pending + 1) (2 ^ 32 - 1);
    } in
    record s' { pressure = observe now (sample_of s') none s.pressure }

-- `latency` is a duration in nanoseconds.
unfoldable pub completed : ℕ → ℕ → SetupPressure → SetupPressure
completed now latency s =
    let s' = record s {
      completions = Pressure.saturating_add s.completions 1;
      pending = s.pending - 1;
    } in
    record s' {
      pressure =
          observe now (sample_of s') (some (min (latency / 1000) Pressure.u64_max)) s.pressure;
    }

pub record State : Type 0 where
  pub proxies : Map IpAddr Pressure
  pub setups : Map IpAddr SetupPressure
  pub hosts : Map IpAddr HostRate

unfoldable pub default : State
default = record { proxies = []; setups = []; hosts = [] }

observe_entry : ℕ → LoadSample → ℕ → Option Pressure → Pressure
unfolding Pressure.new
observe_entry now load wait_us none = Pressure.new now load (some wait_us) false true
observe_entry now load wait_us (some p) = observe now load (some wait_us) p

unfoldable pub observe_proxy : IpAddr → ProxyLoad → ℕ → State → State
unfolding observe_entry
observe_proxy proxy s now state =
    let load : LoadSample = record {
      epoch = s.epoch;
      arrivals = s.arrivals;
      completions = s.completions;
      pending = s.waiters;
    } in
    record state {
      proxies =
          insert proxy (observe_entry now load s.wait_us (get proxy state.proxies)) state.proxies;
    }

abbrev pub setup_or_new : ℕ → Option SetupPressure → SetupPressure
setup_or_new now none = new_setup now
setup_or_new now (some s) = s

-- `setup_attempt`; the attempt that it returns is `host` and `now`, for `drop_attempt`.
unfoldable pub setup_attempt : IpAddr → ℕ → State → State
setup_attempt host now state = record state {
  setups = insert host (started now (setup_or_new now (get host state.setups))) state.setups;
}

unfoldable pub complete_entry :
    IpAddr → (now started_at : ℕ) → Option SetupPressure → State → Option State
complete_entry host now started_at none state = none
complete_entry host now started_at (some s) state =
    some (record state { setups = insert host (completed now (now - started_at) s) state.setups })

-- `SetupAttempt::drop`; `none` is the panic of its `expect`.
unfoldable pub drop_attempt : IpAddr → (now started_at : ℕ) → State → Option State
unfolding complete_entry
drop_attempt host now started_at state =
    complete_entry host now started_at (get host state.setups) state

abbrev pub rate_or_new : ℕ → Option HostRate → HostRate
rate_or_new now none = HostRate.new now
rate_or_new now (some h) = h

abbrev pub host_rate : ℕ → IpAddr → State → HostRate
host_rate now host state = rate_or_new now (get host state.hosts)

abbrev pub hosts_of : IpAddr → IpAddr → List IpAddr
hosts_of proxy destination = if proxy == destination then proxy ∷ [] else proxy ∷ destination ∷ []

abbrev sourced :
    (IpAddr → PressureSource)
    → IpAddr
    → Bool
    → Option PressureView
    → List (PressureSource × PressureView)
sourced source ip here none = []
sourced source ip here (some v) = if here then (source ip, v) ∷ [] else []

abbrev view_of : Option Pressure → Option PressureView
view_of none = none
view_of (some p) = some (view p)

abbrev setup_view_of : Option SetupPressure → Option PressureView
setup_view_of none = none
setup_view_of (some s) = some (view s.pressure)

-- The pressures that bear on a host.
unfoldable pub pressures_on :
    IpAddr → (proxy destination : IpAddr) → State → List (PressureSource × PressureView)
pressures_on host proxy destination state =
    sourced PressureSource.proxy proxy (host == proxy) (view_of (get proxy state.proxies))
    ++ sourced PressureSource.setup destination (host == destination)
        (setup_view_of (get destination state.setups))

-- One round of the first loop of `allow_dedicated_locked`.
unfoldable pub update_host :
    (proxy destination : IpAddr) → ℕ → IpAddr → State → State × Option RateTransition
update_host proxy destination now host state =
    let refilled = refill now (host_rate now host state) in
    let applied = apply_all host proxy (pressures_on host proxy destination state) now refilled in
    (record state { hosts = insert host applied.0 state.hosts }, applied.1)

abbrev cons_some {ℓ} : {A : Type ℓ} → Option A → List A → List A
cons_some none xs = xs
cons_some (some x) xs = x ∷ xs

unfoldable pub update_hosts :
    (proxy destination : IpAddr) → ℕ → List IpAddr → State → State × List RateTransition
update_hosts proxy destination now [] state = (state, [])
update_hosts proxy destination now (host ∷ rest) state =
    let (state', transition) = update_host proxy destination now host state in
    let (final, transitions) = update_hosts proxy destination now rest state' in
    (final, cons_some transition transitions)

-- `state.hosts[host].rate.is_none_or(|_| state.hosts[host].tokens >= 1.0)`.
abbrev pub has_token : Option ℕ → ℕ → Bool
has_token none tokens = true
has_token (some rate) tokens = leb token tokens

abbrev pub may_pass : HostRate → Bool
may_pass h = has_token h.rate h.tokens

-- `none` is the panic of an index that is not in the table.
unfoldable pub passes_at : State → IpAddr → Option Bool
passes_at state host = do h ← get host state.hosts; some (may_pass h)

unfoldable pub all_pass : List IpAddr → State → Option Bool
all_pass [] state = some true
all_pass (host ∷ rest) state =
    let others = all_pass rest state in
    do passes ← passes_at state host; if passes then others else some false

abbrev pub spend_rated : Option ℕ → HostRate → HostRate
spend_rated none h = h
spend_rated (some rate) h = record h { tokens = h.tokens - token }

abbrev pub spend : HostRate → HostRate
spend h = spend_rated h.rate h

abbrev pub refuse : ℕ → HostRate → HostRate
refuse now h = if may_pass h then h else denied now h

-- Each host of the list is changed in the table; `none` is the panic of `get_mut(host).expect`.
unfoldable pub each_host : (HostRate → HostRate) → List IpAddr → State → Option State
each_host f [] state = some state
each_host f (host ∷ rest) state = do
  h ← get host state.hosts
  each_host f rest (record state { hosts = insert host (f h) state.hosts })

-- Each host of the list is changed, a new one by `or_insert_with`.
unfoldable pub for_hosts : ℕ → (HostRate → HostRate) → List IpAddr → State → State
for_hosts now f [] state = state
for_hosts now f (host ∷ rest) state =
    for_hosts now f rest
      (record state { hosts = insert host (f (host_rate now host state)) state.hosts })

pub record AdmissionDecision : Type 0 where
  pub dedicated : Bool
  pub transitions : List RateTransition

unfoldable pub allow_dedicated :
    (proxy destination : IpAddr) → ℕ → State → Option (State × AdmissionDecision)
allow_dedicated proxy destination now state =
    let hosts = hosts_of proxy destination in
    let (updated, transitions) = update_hosts proxy destination now hosts state in
    do
      allowed ← all_pass hosts updated
      settled ←
          if allowed then each_host spend hosts updated else each_host (refuse now) hosts updated
      some (settled, record { dedicated = allowed; transitions = transitions })

unfoldable pub record_dedicated_completion : (proxy destination : IpAddr) → ℕ → State → State
record_dedicated_completion proxy destination now state =
    for_hosts now (record_completion now) (hosts_of proxy destination) state
