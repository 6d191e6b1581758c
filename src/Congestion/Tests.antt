-- ===== src/Congestion/Tests.antt =====
-- Examples of the controller: members/nullnet-server/src/congestion.rs.
use nullnet.Prelude.{
  List, [], arith, false, get, inl, insert, refl, some, true, ℕ, ◌&&◌, ◌*◌, ◌+◌, ◌<◌, ◌∷◌, ◌≡◌, ◌≤◌,
  nat_eq,
}
use nullnet.Addr.{IpAddr, v4, ip_eq}
use nullnet.Congestion.Pressure.{
  second, LoadSample, Pressure, Trend, observe, take_sample, close_window, reset,
}
use nullnet.Congestion.Pressure
use nullnet.Congestion.Bounds
use nullnet.Congestion.Bounds.{IsSample}
use nullnet.Congestion.HostRate.{
  HostRate, PressureSource, mode, token, apply_all, refill, refill_at, multiplexing, is_changed,
}
use nullnet.Congestion.HostRate
use nullnet.Congestion.Controller.{
  State, default, may_pass, host_rate, pressures_on, allow_dedicated, AdmissionDecision,
}
use nullnet.Congestion.Hosts.{StateInv, store-StateInv, updated_rate}
use nullnet.Congestion.Buckets
use nullnet.Congestion.Buckets.{Steps, apply_all-Steps}
use nullnet.Congestion.Admission.{admission, multiplexing_blocks, settled}
use nullnet.Congestion.Attempts.{
  Call, attempts, drops, decides, System, start, start-Inv, run, attempts_total,
}
use nullnet.Congestion.Attempts
use nullnet.Congestion.RateLimit.{offers, Ordered, rate_limit}

abbrev host : ℕ → IpAddr
host n = v4 (record { a = 10; b = 0; c = 0; d = n })

-- A proxy whose backlog grows in every second.
abbrev load : ℕ → LoadSample
load n = record { epoch = 0; arrivals = 10 * n; completions = n; pending = 9 * n }

load-IsSample : (n : ℕ) → n < 100 → IsSample (load n)
load-IsSample n h = record { arrivals = omega arith; completions = omega arith }

abbrev early : Pressure
early = Pressure.new 0 (load 0) (some 5) false true

early-Inv : Bounds.Inv early
early-Inv = Bounds.new-Inv 0 (load 0) (some 5) false true (load-IsSample 0 (omega arith))

-- A host in multiplexing, and one in recovery.
abbrev blocked : HostRate
blocked = record (HostRate.new 0) { rate = some 0 }

abbrev recovering : HostRate
recovering = record (HostRate.new 0) { rate = some 1; tokens = 3 * token }

blocked-Inv : Buckets.Inv blocked
unfolding HostRate.new
blocked-Inv = record { full = omega arith; short = omega arith; windows = omega arith }

abbrev state : State
state = record default { hosts = insert (host 1) blocked [] }

state-StateInv : StateInv state
unfolding start default
state-StateInv = store-StateInv default (host 1) blocked start-Inv.rates blocked-Inv

admission_example :
    (t : State) × (made : AdmissionDecision) × (allow_dedicated (host 1) (host 2) 9 state
      ≡ some (t, made))
    × (made.dedicated ≡ (
        may_pass (updated_rate (host 1) (host 2) 9 state (host 1))
        && may_pass (updated_rate (host 1) (host 2) 9 state (host 2))))
    × (host_rate 9 (host 1) t
        ≡ settled 9 made.dedicated (updated_rate (host 1) (host 2) 9 state (host 1)))
    × (host_rate 9 (host 2) t
        ≡ settled 9 made.dedicated (updated_rate (host 1) (host 2) 9 state (host 2)))
    × StateInv t
admission_example = admission (host 1) (host 2) 9 state state-StateInv

still_blocked : mode (updated_rate (host 1) (host 2) 9 state (host 1)) ≡ multiplexing
unfolding mode apply_all pressures_on refill refill_at is_changed default get insert HostRate.new
still_blocked = refl

multiplexing_blocks_example :
    (t : State) × (made : AdmissionDecision) × (allow_dedicated (host 1) (host 2) 9 state
      ≡ some (t, made))
    × (made.dedicated ≡ false)
multiplexing_blocks_example =
    multiplexing_blocks (host 1) (host 2) 9 state state-StateInv (inl still_blocked)

apply_all-Steps_example : Steps (host 1) blocked (
    apply_all
      (host 1)
      (host 2)
      ((PressureSource.proxy (host 2), record { sequence = 1; trend = Trend.congested }) ∷ [])
      9
      blocked)
apply_all-Steps_example =
    apply_all-Steps (host 1) (host 2) 9
      ((PressureSource.proxy (host 2), record { sequence = 1; trend = Trend.congested }) ∷ [])
      blocked blocked-Inv

abbrev calls : List Call
calls =
    attempts (host 1) 1 ∷ drops (host 1) 2 1 ∷ drops (host 1) 3 1 ∷ decides (host 2) (host 1) 4 ∷ []

attempts_total_example : (z : System) × (run calls start ≡ some z) × Attempts.Inv z
attempts_total_example = attempts_total calls (omega arith)

abbrev times : List ℕ
times = 1 ∷ 1 ∷ 2 ∷ []

recovering_rate : recovering.rate ≡ some 1
unfolding HostRate.new
recovering_rate = refl

in_order : Ordered recovering.last_refill times
unfolding HostRate.new
in_order = (omega arith, (omega arith, (omega arith, tt)))

rate_limit_example :
    (offers times recovering).1 * token
      + (offers times recovering).0.tokens
      + recovering.last_refill * 1
    ≤ recovering.tokens + (offers times recovering).0.last_refill * 1
rate_limit_example = rate_limit 1 times recovering recovering_rate in_order
