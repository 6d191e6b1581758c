-- ===== src/Congestion/Pressure.antt =====
-- members/nullnet-server/src/congestion.rs: `Pressure`, which turns load samples into a trend.
-- An `Instant` or `Duration` is its number of nanoseconds.

use nullnet.Prelude.{
  Bool, List, Option, [], eqb, false, if◌then◌else◌, leb, length, ltb, min, none, not, some, true,
  ℕ, ◌%◌, ◌&&◌, ◌++◌, ◌+◌, ◌-◌, ◌/◌, ◌^◌, ◌||◌, ◌∷◌,
}

abbrev pub second : ℕ
second = 1000000000

abbrev pub pressure_window : ℕ
pressure_window = second

abbrev pub congested_windows_limit : ℕ
congested_windows_limit = 2

abbrev pub pressure_history : ℕ
pressure_history = 60

abbrev pub u64_max : ℕ
u64_max = 2 ^ 64 - 1

-- Arithmetic of `u64` that wraps and that saturates.
abbrev pub add_u64 : ℕ → ℕ → ℕ
add_u64 a b = (a + b) % 2 ^ 64

abbrev pub sub_u64 : ℕ → ℕ → ℕ
sub_u64 a b = (a + 2 ^ 64 - b) % 2 ^ 64

abbrev pub saturating_add : ℕ → ℕ → ℕ
saturating_add a b = min (a + b) u64_max

pub data Trend : Type 0 where
  congested healthy neutral : Trend

pub data PressureTrend : Type 0 where
  growing healthy neutral : PressureTrend

pub record PressureWindow : Type 0 where
  pub ended_at : ℕ
  pub duration : ℕ
  pub arrivals : ℕ
  pub completions : ℕ
  pub pending : ℕ
  pub mean_latency_us : ℕ
  pub trend : PressureTrend

pub record PressureView : Type 0 where
  pub sequence : ℕ
  pub trend : Trend

pub record LoadSample : Type 0 where
  pub epoch : ℕ
  pub arrivals : ℕ
  pub completions : ℕ
  pub pending : ℕ

pub record Pressure : Type 0 where
  pub window_started : ℕ
  pub start : LoadSample
  pub last : LoadSample
  pub latency_sum : ℕ
  pub latency_samples : ℕ
  pub previous_latency_mean : Option ℕ
  pub stalled_is_growing : Bool
  pub carry_boundary_latency : Bool
  pub congested_windows : ℕ
  pub sequence : ℕ
  pub trend : Trend
  pub last_observed : ℕ
  pub history : List PressureWindow

abbrev pub or_zero : Option ℕ → ℕ
or_zero none = 0
or_zero (some n) = n

abbrev pub one_if_some : Option ℕ → ℕ
one_if_some none = 0
one_if_some (some _) = 1

unfoldable pub new : ℕ → LoadSample → Option ℕ → (stalled carry : Bool) → Pressure
new now sample latency_us stalled carry = record {
  window_started = now;
  start = sample;
  last = sample;
  latency_sum = or_zero latency_us;
  latency_samples = one_if_some latency_us;
  previous_latency_mean = none;
  stalled_is_growing = stalled;
  carry_boundary_latency = carry;
  congested_windows = 0;
  sequence = 0;
  trend = Trend.neutral;
  last_observed = now;
  history = [];
}

unfoldable pub reset : ℕ → LoadSample → Option ℕ → Pressure → Pressure
reset now sample latency_us p =
    record (new now sample latency_us p.stalled_is_growing p.carry_boundary_latency) {
      sequence = saturating_add p.sequence 1;
      history = p.history;
    }

-- A `VecDeque` that keeps its `cap` newest entries.
abbrev drop_first {ℓ} : {A : Type ℓ} → List A → List A
drop_first [] = []
drop_first (x ∷ xs) = xs

unfoldable pub push_bounded {ℓ} : {A : Type ℓ} → ℕ → List A → A → List A
push_bounded cap xs x = (if eqb (length xs) cap then drop_first xs else xs) ++ x ∷ []

unfoldable pub latency_mean : Pressure → ℕ
latency_mean p =
    if eqb p.latency_samples 0
    then or_zero p.previous_latency_mean
    else min (p.latency_sum / p.latency_samples) u64_max

unfoldable pub latency_rising : Option ℕ → ℕ → Bool
latency_rising none mean = true
latency_rising (some previous) mean = ltb previous mean

unfoldable pub latency_not_rising : Option ℕ → ℕ → Bool
latency_not_rising none mean = true
latency_not_rising (some previous) mean =
    leb mean (saturating_add (saturating_add previous (previous / 10)) 100)

unfoldable pub window_arrivals : Pressure → ℕ
window_arrivals p = sub_u64 p.last.arrivals p.start.arrivals

unfoldable pub window_completions : Pressure → ℕ
window_completions p = sub_u64 p.last.completions p.start.completions

-- The booleans `growing` and `healthy` of `observe`.
unfoldable pub is_growing : Pressure → Bool
is_growing p =
    let arrivals = window_arrivals p in
    let completions = window_completions p in
    let stalled = p.stalled_is_growing && ltb completions arrivals && eqb completions 0 in
    ltb completions arrivals
    && ltb p.start.pending p.last.pending
    && (latency_rising p.previous_latency_mean (latency_mean p) || stalled)

unfoldable pub is_healthy : Pressure → Bool
is_healthy p =
    leb (window_arrivals p) (window_completions p)
    && leb p.last.pending p.start.pending
    && latency_not_rising p.previous_latency_mean (latency_mean p)

unfoldable pub display_trend : (grows heals : Bool) → PressureTrend
display_trend true heals = PressureTrend.growing
display_trend false true = PressureTrend.healthy
display_trend false false = PressureTrend.neutral

-- The next `congested_windows` (a `u8` that saturates) and trend.
unfoldable pub next_trend : (grows heals : Bool) → ℕ → ℕ × Trend
next_trend true heals windows =
    let n = min (windows + 1) 255 in
    if leb congested_windows_limit n then (0, Trend.congested) else (n, Trend.neutral)
next_trend false true windows = (0, Trend.healthy)
next_trend false false windows = (0, Trend.neutral)

-- The end of `observe`, from the reading of the window on.
unfoldable pub close_window : ℕ → LoadSample → Option ℕ → Pressure → Pressure
close_window now sample latency_us p =
    let grows = is_growing p in
    let heals = is_healthy p in
    let next = next_trend grows heals p.congested_windows in
    let mean = latency_mean p in
    record p {
      trend = next.1;
      congested_windows = next.0;
      sequence = add_u64 p.sequence 1;
      history = push_bounded pressure_history p.history (record {
        ended_at = now;
        duration = now - p.window_started;
        arrivals = window_arrivals p;
        completions = window_completions p;
        pending = p.last.pending;
        mean_latency_us = mean;
        trend = display_trend grows heals;
      });
      previous_latency_mean = some mean;
      window_started = now;
      start = sample;
      last = sample;
      latency_sum = if p.carry_boundary_latency then or_zero latency_us else 0;
      latency_samples = if p.carry_boundary_latency then one_if_some latency_us else 0;
    }

-- The sample taken in, before the age of the window is tested.
unfoldable pub take_sample : ℕ → LoadSample → Option ℕ → Pressure → Pressure
take_sample now sample latency_us p = record p {
  last = sample;
  last_observed = now;
  latency_sum = (p.latency_sum + or_zero latency_us) % 2 ^ 128;
  latency_samples = add_u64 p.latency_samples (one_if_some latency_us);
}

unfoldable pub observe : ℕ → LoadSample → Option ℕ → Pressure → Pressure
observe now sample latency_us p =
    let taken = take_sample now sample latency_us p in
    if not (eqb sample.epoch p.last.epoch)
    then reset now sample latency_us p
    else if ltb sample.arrivals p.last.arrivals || ltb sample.completions p.last.completions
    then p
    else if ltb (now - p.window_started) pressure_window
    then taken
    else close_window now sample latency_us taken

unfoldable pub view : Pressure → PressureView
view p = record { sequence = p.sequence; trend = p.trend }

-- The window that is not closed yet, if it shows anything.
unfoldable pub current_window : ℕ → Pressure → Option PressureWindow
current_window now p =
    let arrivals = window_arrivals p in
    let completions = window_completions p in
    let duration = min (now - p.window_started) pressure_window in
    if eqb arrivals 0 && eqb completions 0 && eqb p.last.pending p.start.pending
    then none
    else if eqb duration 0
    then none
    else some (record {
      ended_at = p.window_started + duration;
      duration = duration;
      arrivals = arrivals;
      completions = completions;
      pending = p.last.pending;
      mean_latency_us = latency_mean p;
      trend = PressureTrend.neutral;
    })
