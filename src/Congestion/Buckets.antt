-- ===== src/Congestion/Buckets.antt =====
-- What holds of every `HostRate`, and how its mode changes:
-- members/nullnet-server/src/congestion.rs.
use nullnet.Prelude.{
  Bool-cases, List, Option, arith, eqb, if◌then◌else◌, inl, inr, length, ltb, min, none, refl, some,
  ℕ, ◌+◌, ◌≡◌, ◌≢◌, ◌≤◌, ◌⊎◌,
}
use nullnet.Addr.{IpAddr}
use nullnet.Congestion.Pressure.{Trend, PressureView}
use nullnet.Congestion.Bounds.{length-push_bounded}
use nullnet.Congestion.HostRate
use nullnet.Congestion.HostRate.{
  PressureSource, recovery_windows, joint_trend, is_changed, store_sequences, HostRate, ControlMode,
  normal, multiplexing, recovery, RateTransition, activated, recovery_started, recovered,
  bucket_burst, transition_history, mode, transition, apply_congested, denied, apply_neutral,
  raise_rate, trim_completions, apply_healthy, apply_trend, apply_all, refill,
}

-- Only a host in recovery holds tokens, and at most 32 of them; the history of transitions holds
-- at most 20.
abbrev pub limit_of : Option ℕ → ℕ
limit_of none = 0
limit_of (some rate) = if eqb rate 0 then 0 else bucket_burst

pub record Inv (h : HostRate) : Type 0 where
  pub full : h.tokens ≤ limit_of h.rate
  pub short : length h.transitions ≤ transition_history
  pub windows : h.healthy_windows ≤ 255

pub new-Inv : (now : ℕ) → Inv (HostRate.new now)
unfolding HostRate.new
new-Inv now = record { full = omega arith; short = omega arith; windows = omega arith }

limit_of-le : (r : Option ℕ) → limit_of r ≤ bucket_burst
limit_of-le none = omega arith
limit_of-le (some r) = ground arith

-- The states of the controller of one host, and what is reported.
abbrev pub ModeStep : IpAddr → ControlMode → Option RateTransition → ControlMode → Type 0
ModeStep host m t m' =
    (t ≡ none) × (m' ≡ m)
    ⊎ (t ≡ some (activated host)) × (m ≢ multiplexing) × (m' ≡ multiplexing)
    ⊎ (t ≡ some (recovery_started host)) × (m ≡ multiplexing) × (m' ≡ recovery)
    ⊎ (t ≡ some (recovered host)) × (m ≡ recovery) × (m' ≡ normal)

-- A result that keeps the invariant and whose mode is a legal step.
pub record Steps (host : IpAddr) (h : HostRate) (r : HostRate × Option RateTransition)
    : Type 0 where
  pub inv : Inv r.0
  pub step : ModeStep host (mode h) r.1 (mode r.0)

module _ (host p : IpAddr) (now : ℕ) (h : HostRate) (v : Inv h) where
  transition-Inv : (m : ControlMode) (g : HostRate) → Inv g → Inv (transition m p now g)
  unfolding transition
  transition-Inv m g w = record {
    full = w.full;
    short = length-push_bounded transition_history g.transitions _ w.short (omega arith);
    windows = w.windows;
  }

  congested-Steps : Steps host h (apply_congested host p now h)
  unfolding apply_congested denied mode transition
  congested-Steps = record {
    inv = record {
      full = ground arith;
      short = ground (
        arith,
        length-push_bounded transition_history h.transitions
            (record { at = now; mode = multiplexing; source_proxy = p }) v.short,
      );
      windows = ground arith;
    };
    step = ground arith;
  }

  neutral-Steps : Steps host h (apply_neutral h, none)
  unfolding apply_neutral mode
  neutral-Steps = record { inv = ground arith; step = ground arith }

  raise-Steps : (rate : ℕ) → h.rate ≡ some rate → Steps host h (raise_rate host p now rate h)
  unfolding raise_rate mode transition trim_completions
  raise-Steps rate e = record {
    inv = record {
      full = ground arith;
      short = ground (
        arith,
        length-push_bounded transition_history h.transitions
            (record { at = now; mode = normal; source_proxy = p }) v.short,
        length-push_bounded transition_history h.transitions
            (record { at = now; mode = recovery; source_proxy = p }) v.short,
      );
      windows = ground arith;
    };
    step = ground arith;
  }

module _ (host p : IpAddr) (now : ℕ) where
  healthy-Steps :
      (h : HostRate) (r : Option ℕ)
      → Inv h
      → h.rate ≡ r
      → Steps host h (apply_healthy host p now r h)
  unfolding apply_healthy mode
  healthy-Steps h none v e = record { inv = v; step = ground arith }
  healthy-Steps h (some rate) v e =
      let h' = record h { healthy_windows = min (h.healthy_windows + 1) 255 } in
      let v' : Inv h' = record { full = v.full; short = v.short; windows = omega arith } in
      let s = raise-Steps host p now h' v' rate e in
      elim (Bool-cases (ltb (min (h.healthy_windows + 1) 255) recovery_windows)) [
        | inl first ↦ rw first (record { inv = v'; step = inl (refl, refl) })
        | inr second ↦ rw second (record { inv = s.inv; step = s.step })
      ]

  trend-Steps : (t : Trend) (h : HostRate) → Inv h → Steps host h (apply_trend t host p now h)
  unfolding apply_trend
  trend-Steps Trend.congested h v = congested-Steps host p now h v
  trend-Steps Trend.healthy h v = healthy-Steps h h.rate v refl
  trend-Steps Trend.neutral h v = neutral-Steps host p now h v

  -- What a host's controller makes of the pressures on it keeps the invariant of its bucket, and
  -- is a legal step: its mode stays and nothing is reported, or it turns to multiplexing from
  -- another mode, from multiplexing to recovery, or from recovery to normal, and exactly that is
  -- reported for that host.
  pub apply_all-Steps :
      (ps : List (PressureSource × PressureView)) (h : HostRate)
      → Inv h
      → Steps host h (apply_all host p ps now h)
  unfolding apply_all mode
  apply_all-Steps ps h v =
      let seen = record h { pressure_sequences = store_sequences ps h.pressure_sequences } in
      let w : Inv seen = record { full = v.full; short = v.short; windows = v.windows } in
      let s = trend-Steps (joint_trend ps) seen w in
      elim (Bool-cases (is_changed h.pressure_sequences ps)) [
        | inl newer ↦ rw newer (record { inv = s.inv; step = s.step })
        | inr same ↦ rw same (record { inv = v; step = inl (refl, refl) })
      ]

pub refill-Inv : (now : ℕ) (h : HostRate) → Inv h → Inv (refill now h)
unfolding refill
refill-Inv now h v = record {
  full = ground arith;
  short = ground (arith, v.short);
  windows = ground (arith, v.windows);
}
