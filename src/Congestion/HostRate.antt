-- ===== src/Congestion/HostRate.antt =====
-- members/nullnet-server/src/congestion.rs: `HostRate`, the token bucket of a host and its mode.
-- The rate, in tokens per second, is 0.0 or grows from there by 1.0, so it is a natural number.
-- Tokens are counted in units of 10^-9, so that a rate times nanoseconds is exact: the rounding of
-- `f64` is not modelled.
use nullnet.Prelude.{
  ==_iff, Bool, Eq, List, Map, Option, [], all, any, arith, beq_option, eqb, false, get,
  if◌then◌else◌, insert, leb, ltb, min, none, not, some, true, ℕ, ◌&&◌, ◌*◌, ◌++◌, ◌+◌, ◌-◌, ◌==◌,
  ◌||◌, ◌↔◌, ◌∷◌, ◌≡◌, nat_eq,
}
use nullnet.Addr.{IpAddr, ip_eq}
use nullnet.Congestion.Pressure.{second, Trend, PressureView, push_bounded}

abbrev pub completion_history : ℕ
completion_history = 10 * second

abbrev pub recovery_quiet : ℕ
recovery_quiet = 5 * second

abbrev pub recovery_windows : ℕ
recovery_windows = 2

abbrev pub token : ℕ
token = 1000000000

abbrev pub bucket_burst : ℕ
bucket_burst = 32 * token

abbrev pub transition_history : ℕ
transition_history = 20

pub data ControlMode : Type 0 where
  normal multiplexing recovery : ControlMode

pub record ControlTransition : Type 0 where
  pub at : ℕ
  pub mode : ControlMode
  pub source_proxy : IpAddr

pub data PressureSource : Type 0 where
  proxy setup : IpAddr → PressureSource

abbrev pub beq_source : PressureSource → PressureSource → Bool
beq_source (proxy a) (proxy b) = a == b
beq_source (setup a) (setup b) = a == b
beq_source _ _ = false

pub beq_source_iff : (s t : PressureSource) → (beq_source s t ≡ true) ↔ (s ≡ t)
beq_source_iff (proxy a) (proxy b) = ground (arith, ==_iff a b)
beq_source_iff (setup a) (setup b) = ground (arith, ==_iff a b)
beq_source_iff (proxy a) (setup b) = ground arith
beq_source_iff (setup a) (proxy b) = ground arith

instance abbrev pub source_eq : Eq PressureSource
source_eq = record { beq = beq_source; beq_iff = beq_source_iff }

pub record HostRate : Type 0 where
  pub rate : Option ℕ
  pub tokens : ℕ
  pub last_refill : ℕ
  pub last_denied : Option ℕ
  pub completions : List ℕ
  pub pressure_sequences : Map PressureSource ℕ
  pub healthy_windows : ℕ
  pub state_since : Option ℕ
  pub source_proxy : Option IpAddr
  pub transitions : List ControlTransition

pub data RateTransition : Type 0 where
  activated recovery_started recovered : IpAddr → RateTransition

unfoldable pub new : ℕ → HostRate
new now = record {
  rate = none;
  tokens = 0;
  last_refill = now;
  last_denied = none;
  completions = [];
  pressure_sequences = [];
  healthy_windows = 0;
  state_since = none;
  source_proxy = none;
  transitions = [];
}

abbrev pub mode_of : Option ℕ → ControlMode
mode_of none = ControlMode.normal
mode_of (some rate) = if eqb rate 0 then ControlMode.multiplexing else ControlMode.recovery

unfoldable pub mode : HostRate → ControlMode
mode h = mode_of h.rate

abbrev pub unless_normal : ControlMode → IpAddr → Option IpAddr
unless_normal ControlMode.normal p = none
unless_normal _ p = some p

unfoldable pub transition : ControlMode → IpAddr → ℕ → HostRate → HostRate
transition mode p now h = record h {
  state_since = some now;
  source_proxy = unless_normal mode p;
  transitions =
      push_bounded transition_history h.transitions
        (record { at = now; mode = mode; source_proxy = p });
}

-- `while` the front is older than the history, pop it.
unfoldable pub trimmed : ℕ → List ℕ → List ℕ
trimmed now [] = []
trimmed now (at ∷ ats) = if ltb completion_history (now - at) then trimmed now ats else at ∷ ats

unfoldable pub trim_completions : ℕ → HostRate → HostRate
trim_completions now h = record h { completions = trimmed now h.completions }

-- The back of a deque whose front is `at`.
abbrev pub back : ℕ → List ℕ → ℕ
back at [] = at
back at (b ∷ ats) = back b ats

unfoldable pub quiet_before : ℕ → List ℕ → Bool
quiet_before now [] = false
quiet_before now (at ∷ ats) = ltb recovery_quiet (now - back at ats)

unfoldable pub record_completion : ℕ → HostRate → HostRate
unfolding trimmed quiet_before
record_completion now h =
    let kept = trimmed now h.completions in
    record h { completions = (if quiet_before now kept then [] else kept) ++ now ∷ [] }

unfoldable pub is_sustained : ℕ → List ℕ → Bool
is_sustained now [] = false
is_sustained now (first ∷ ats) =
    leb recovery_quiet (now - first) && leb (now - back first ats) recovery_quiet

-- The answer of `sustained_completions`; the completions are trimmed by the call.
unfoldable pub sustained_completions : ℕ → HostRate → Bool
unfolding trimmed is_sustained
sustained_completions now h = is_sustained now (trimmed now h.completions)

unfoldable pub denied : ℕ → HostRate → HostRate
denied now h = record h { last_denied = some now; completions = [] }

abbrev pub sequence_or_zero : Option ℕ → ℕ
sequence_or_zero none = 0
sequence_or_zero (some n) = n

-- `changed`: some source has a newer sequence number.
unfoldable pub is_changed : Map PressureSource ℕ → List (PressureSource × PressureView) → Bool
is_changed seen [] = false
is_changed seen ((source, v) ∷ ps) =
    ltb (sequence_or_zero (get source seen)) v.sequence || is_changed seen ps

unfoldable pub store_sequences :
    List (PressureSource × PressureView) → Map PressureSource ℕ → Map PressureSource ℕ
store_sequences [] seen = seen
store_sequences ((source, v) ∷ ps) seen = store_sequences ps (insert source v.sequence seen)

abbrev pub is_congested : Trend → Bool
is_congested Trend.congested = true
is_congested _ = false

abbrev pub is_healthy : Trend → Bool
is_healthy Trend.healthy = true
is_healthy _ = false

unfoldable pub joint_trend : List (PressureSource × PressureView) → Trend
joint_trend ps =
    if any (λ p. is_congested p.1.trend) ps
    then Trend.congested
    else if all (λ p. is_healthy p.1.trend) ps
    then Trend.healthy
    else Trend.neutral

-- The three arms of `apply_all`.
unfoldable pub apply_congested : IpAddr → IpAddr → ℕ → HostRate → HostRate × Option RateTransition
apply_congested host p now h =
    let activating = not (beq_option h.rate (some 0)) in
    let h' = record (denied now (record h { rate = some 0; tokens = 0; last_refill = now })) {
      healthy_windows = 0;
    } in
    if activating
    then (transition ControlMode.multiplexing p now h', some (activated host))
    else (h', none)

unfoldable pub was_quiet : Option ℕ → ℕ → Bool
was_quiet none now = false
was_quiet (some last) now = leb recovery_quiet (now - last)

-- With a second healthy window the rate grows by 1, or control ends. The completions are trimmed
-- only if the first two conditions of `recovered` hold.
unfoldable pub raise_rate : IpAddr → IpAddr → ℕ → ℕ → HostRate → HostRate × Option RateTransition
unfolding was_quiet
raise_rate host p now rate h =
    let raised = record h { rate = some (rate + 1) } in
    let gate = was_quiet h.last_denied now && leb bucket_burst h.tokens in
    let trimmed_host = if gate then trim_completions now raised else raised in
    if gate && sustained_completions now raised
    then (
      transition ControlMode.normal p now (record trimmed_host { rate = none; tokens = 0 }),
      some (recovered host),
    )
    else if eqb rate 0
    then (transition ControlMode.recovery p now trimmed_host, some (recovery_started host))
    else (trimmed_host, none)

unfoldable pub apply_healthy :
    IpAddr → IpAddr → ℕ → Option ℕ → HostRate → HostRate × Option RateTransition
apply_healthy host p now none h = (h, none)
apply_healthy host p now (some rate) h =
    let windows = min (h.healthy_windows + 1) 255 in
    let h' = record h { healthy_windows = windows } in
    if ltb windows recovery_windows then (h', none) else raise_rate host p now rate h'

unfoldable pub apply_neutral : HostRate → HostRate
apply_neutral h = if beq_option h.rate (some 0) then record h { healthy_windows = 0 } else h

unfoldable pub apply_trend :
    Trend → IpAddr → IpAddr → ℕ → HostRate → HostRate × Option RateTransition
apply_trend Trend.congested host p now h = apply_congested host p now h
apply_trend Trend.healthy host p now h = apply_healthy host p now h.rate h
apply_trend Trend.neutral host p now h = (apply_neutral h, none)

unfoldable pub apply_all :
    IpAddr
    → IpAddr
    → List (PressureSource × PressureView)
    → ℕ
    → HostRate
    → HostRate × Option RateTransition
apply_all host p pressures now h =
    let seen = record h { pressure_sequences = store_sequences pressures h.pressure_sequences } in
    if is_changed h.pressure_sequences pressures
    then apply_trend (joint_trend pressures) host p now seen
    else (h, none)

unfoldable pub refill_at : ℕ → Option ℕ → HostRate → HostRate
refill_at now none h = record h { last_refill = now }
refill_at now (some rate) h = record h {
  tokens = min (h.tokens + (now - h.last_refill) * rate) bucket_burst;
  last_refill = now;
}

unfoldable pub refill : ℕ → HostRate → HostRate
unfolding refill_at
refill now h = refill_at now h.rate h
