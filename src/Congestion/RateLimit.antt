-- ===== src/Congestion/RateLimit.antt =====
-- How many requests a host in recovery lets pass: members/nullnet-server/src/congestion.rs.
use mathlib.Core.Path.{subst}
use nullnet.Prelude.{
  Bool, List, [], ap, arith, false, if◌then◌else◌, some, sym, true, ℕ, ◌*◌, ◌+◌, ◌-◌, ◌∙◌, ◌∷◌, ◌≡◌,
  ◌≤◌, nat_eq,
}
use nullnet.Congestion.HostRate.{HostRate, refill, refill_at, token}
use nullnet.Congestion.Controller.{may_pass, spend}

-- A request at a time: the bucket is refilled, and the request takes a token where there is one.
abbrev pub offer : ℕ → HostRate → HostRate
offer now h = if may_pass (refill now h) then spend (refill now h) else refill now h

-- The bucket after requests at these times, and how many of them passed.
pub offers : List ℕ → HostRate → HostRate × ℕ
offers [] h = (h, 0)
offers (now ∷ later) h =
    let (end, passed) = offers later (offer now h) in
    (end, passed + (if may_pass (refill now h) then 1 else 0))

-- The times do not go back.
abbrev pub Ordered : ℕ → List ℕ → Type 0
Ordered t [] = Unit
Ordered t (now ∷ later) = (t ≤ now) × Ordered now later

elapsed_mul : (r a b : ℕ) → a ≤ b → a * r + (b - a) * r ≡ b * r
elapsed_mul r a b h =
    let e : (a + (b - a)) * r ≡ a * r + (b - a) * r = omega arith in
    sym e ∙ ap (λ n. n * r) (omega (arith, h))

-- A request pays from the bucket, which holds no more than it did and what flowed in.
offer-pays :
    (r now : ℕ) (h : HostRate)
    → h.rate ≡ some r
    → h.last_refill ≤ now
    → ((offer now h).rate ≡ some r)
      × ((offer now h).last_refill ≡ now)
      × ((if may_pass (refill now h) then token else 0) + (offer now h).tokens + h.last_refill * r
          ≤ h.tokens + now * r)
unfolding refill refill_at
offer-pays r now h e le = let m = elapsed_mul r h.last_refill now le in rw e (ground (arith, m, e))

paid : (b : Bool) → (if b then token else 0) ≡ (if b then 1 else 0) * token
paid true = omega arith
paid false = omega arith

-- A host in recovery whose rate is `r` billionths of a token per nanosecond lets at most as many
-- requests pass, at times that do not go back, as its bucket held tokens and as flowed in from its
-- last refill to the last of the requests.
pub rate_limit :
    (r : ℕ) (times : List ℕ) (h : HostRate)
    → h.rate ≡ some r
    → Ordered h.last_refill times
    → (offers times h).1 * token + (offers times h).0.tokens + h.last_refill * r
      ≤ h.tokens + (offers times h).0.last_refill * r
unfolding offers
rate_limit r [] h e o = omega arith
rate_limit r (now ∷ later) h e o =
    let (kept, at, pays) = offer-pays r now h e o.0 in
    let next = offer now h in
    let rest = rate_limit r later next kept (subst (λ t. Ordered t later) (sym at) o.1) in
    let flow : next.last_refill * r ≡ now * r = ap (λ t. t * r) at in
    let gained : ℕ = if may_pass (refill now h) then 1 else 0 in
    let price : (if may_pass (refill now h) then token else 0) ≡ gained * token =
      paid (may_pass (refill now h)) in
    omega (arith, rest, flow, price, pays)
