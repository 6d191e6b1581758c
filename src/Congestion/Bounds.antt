-- ===== src/Congestion/Bounds.antt =====
-- What every series of samples keeps of a `Pressure`: members/nullnet-server/src/congestion.rs.
use nullnet.Prelude.{
  Bool, List, Option, [], arith, inl, length, length-append, none, refl, some, sym, ℕ, ◌++◌, ◌-◌,
  ◌<◌, ◌^◌, ◌∙◌, ◌∷◌, ◌≡◌, ◌≤◌, ◌⊎◌,
}
use nullnet.Congestion.Pressure.{
  pressure_window, LoadSample, Pressure, PressureWindow, PressureTrend, display_trend, new, reset,
  observe, take_sample, close_window, next_trend, push_bounded, is_growing, is_healthy,
  pressure_history,
}

pub length-push_bounded {ℓ} :
    {A : Type ℓ} (cap : ℕ) (xs : List A) (x : A)
    → length xs ≤ cap
    → 0 < cap
    → length (push_bounded cap xs x) ≤ cap
unfolding push_bounded
length-push_bounded cap [] x h pos = ground arith
length-push_bounded cap (y ∷ ys) x h pos =
    ground (arith, length-append ys (x ∷ []), length-append (y ∷ ys) (x ∷ []))

-- The trend of the newest closed window.
abbrev pub last_trend : List PressureWindow → Option PressureTrend
last_trend [] = none
last_trend (w ∷ []) = some w.trend
last_trend (w ∷ x ∷ ws) = last_trend (x ∷ ws)

last_trend-append :
    (ws : List PressureWindow) (w : PressureWindow) → last_trend (ws ++ w ∷ []) ≡ some w.trend
last_trend-append [] w = refl
last_trend-append (v ∷ []) w = refl
last_trend-append (v ∷ x ∷ ws) w = last_trend-append (x ∷ ws) w

last_trend-push :
    (cap : ℕ) (ws : List PressureWindow) (w : PressureWindow)
    → last_trend (push_bounded cap ws w) ≡ some w.trend
unfolding push_bounded
last_trend-push cap [] w = ground (arith, last_trend-append [] w)
last_trend-push cap (v ∷ ws) w =
    ground (arith, last_trend-append ws w, last_trend-append (v ∷ ws) w)

pub record IsSample (s : LoadSample) : Type 0 where
  pub arrivals : s.arrivals < 2 ^ 64
  pub completions : s.completions < 2 ^ 64

-- The window's first sample is not past its last, so no subtraction of the window wraps; the
-- history holds at most 60 windows; a growing window that is counted is the newest one, and the
-- only one.
pub record Inv (p : Pressure) : Type 0 where
  pub arrivals : p.start.arrivals ≤ p.last.arrivals
  pub completions : p.start.completions ≤ p.last.completions
  pub same_epoch : p.start.epoch ≡ p.last.epoch
  pub small : IsSample p.last
  pub short : length p.history ≤ pressure_history
  pub windows :
      (p.congested_windows ≡ 0)
      ⊎ (p.congested_windows ≡ 1) × (last_trend p.history ≡ some PressureTrend.growing)

pub new-Inv :
    (now : ℕ) (s : LoadSample) (l : Option ℕ) (a b : Bool) → IsSample s → Inv (new now s l a b)
unfolding new
new-Inv now s l a b h = record {
  arrivals = omega arith;
  completions = omega arith;
  same_epoch = refl;
  small = h;
  short = omega arith;
  windows = inl refl;
}

next_trend_windows :
    (g h : Bool) (n : ℕ) (o : Option PressureTrend)
    → o ≡ some (display_trend g h)
    → (n ≡ 0) ⊎ (n ≡ 1)
    → ((next_trend g h n).0 ≡ 0) ⊎ ((next_trend g h n).0 ≡ 1) × (o ≡ some PressureTrend.growing)
unfolding next_trend display_trend
next_trend_windows g h n o e lt = ground arith

module _ (now : ℕ) (s : LoadSample) (l : Option ℕ) (p : Pressure) (h : IsSample s) (v : Inv p) where
  reset-Inv : Inv (reset now s l p)
  unfolding reset new
  reset-Inv = record {
    arrivals = omega arith;
    completions = omega arith;
    same_epoch = refl;
    small = h;
    short = v.short;
    windows = inl refl;
  }

  pub take_sample-Inv :
      s.epoch ≡ p.last.epoch
      → p.last.arrivals ≤ s.arrivals
      → p.last.completions ≤ s.completions
      → Inv (take_sample now s l p)
  unfolding take_sample
  take_sample-Inv e a c = record {
    arrivals = omega (arith, v.arrivals);
    completions = omega (arith, v.completions);
    same_epoch = v.same_epoch ∙ sym e;
    small = h;
    short = v.short;
    windows = v.windows;
  }

  close_window-Inv : Inv (close_window now s l p)
  unfolding close_window
  close_window-Inv = record {
    arrivals = omega arith;
    completions = omega arith;
    same_epoch = refl;
    small = h;
    short = length-push_bounded pressure_history p.history _ v.short (omega arith);
    windows =
        next_trend_windows (is_growing p) (is_healthy p) p.congested_windows _
          (last_trend-push pressure_history p.history _) (ground (arith, v.windows));
  }

-- Every branch of `observe`, by what the sample is.
pub observe_cases {ℓ} :
    (P : Pressure → Type ℓ) (now : ℕ) (s : LoadSample) (l : Option ℕ) (p : Pressure)
    → P (reset now s l p)
    → P p
    → (s.epoch ≡ p.last.epoch
        → p.last.arrivals ≤ s.arrivals
        → p.last.completions ≤ s.completions
        → P (take_sample now s l p))
    → (s.epoch ≡ p.last.epoch
        → p.last.arrivals ≤ s.arrivals
        → p.last.completions ≤ s.completions
        → pressure_window ≤ now - p.window_started
        → P (close_window now s l (take_sample now s l p)))
    → P (observe now s l p)
unfolding observe
observe_cases P now s l p a b c d = ground arith

pub observe-Inv :
    (now : ℕ) (s : LoadSample) (l : Option ℕ) (p : Pressure)
    → IsSample s
    → Inv p
    → Inv (observe now s l p)
observe-Inv now s l p h v =
    observe_cases Inv now s l p (reset-Inv now s l p h v) v (take_sample-Inv now s l p h v)
      λ e a c _. close_window-Inv now s l _ h (take_sample-Inv now s l p h v e a c)
