-- ===== src/Timeouts/Sleep.antt =====
-- How long the loop of timeouts sleeps: members/nullnet-server/src/timeout.rs.
use nullnet.Prelude.{
  Bool, Bool-cases, Distinct, Option, [], all, any, arith, eqb, false, inl, inr, leb, length, ltb,
  none, not, refl, some, sym, true, ℕ, ◌&&◌, ◌+◌, ◌||◌, ◌∙◌, ◌∷◌, ◌≡◌, ◌≤◌,
}
use nullnet.Backend.{key_eq, Sessions, take_due_backend_sessions, nearest_backend_expiry}
use nullnet.Backend.Wakes.{woken, woken-least, any-append, started, nearest_wakes}
use nullnet.Egress.{
  EgressKey, EgressEdge, Edges, drop_edges, idle_for, remove_egress_edges, teardown_where,
  reap_idle_egress_edges,
}
use nullnet.Egress.Reports.{egress_waits, nearest_egress_expiry}
use nullnet.Egress.Reports
use nullnet.Timeouts.{
  StackMap, max_poll_interval, liveness_reap_debounce, sooner, ingress_sleep, sleep_duration,
}
use nullnet.Timeouts.Ingress.{ingress_due, ingress_late, ingress-le}

-- What the reaps find at a time: a session to release, and an edge to tear down.
abbrev pub backend_due : (t : ℕ) → Sessions → Bool
backend_due t m = ltb 0 (length ((take_due_backend_sessions t liveness_reap_debounce m).1))

abbrev pub egress_due : (t : ℕ) → Edges → Bool
egress_due t m = ltb (length ((reap_idle_egress_edges t liveness_reap_debounce m).0)) (length m)

-- No edge went idle after `now`.
abbrev pub edge_started : ℕ → EgressEdge → Bool
edge_started now e = elim e.idle_since [ none ↦ true | some since ↦ leb since now ]

drop-le : (p : EgressKey → EgressEdge → Bool) (m : Edges) → length (drop_edges p m) ≤ length m
unfolding drop_edges
drop-le p [] = omega arith
drop-le p ((k, e) ∷ m) = ground (arith, drop-le p m)

drop_shorter :
    (p : EgressKey → EgressEdge → Bool) (m : Edges)
    → ltb (length (drop_edges p m)) (length m) ≡ any (λ (k, e). p k e) m
unfolding drop_edges
drop_shorter p [] = refl
drop_shorter p ((k, e) ∷ m) = ground (arith, drop-le p m, drop_shorter p m)

module _ (now t : ℕ) (le : now ≤ t) where
  edge_woken :
      (debounce : ℕ) (e : EgressEdge)
      → edge_started now e ≡ true
      → any (λ x. leb (now + x) t) (Reports.waits now debounce e)
        ≡ (not (eqb e.net_id 0) && idle_for t debounce e.idle_since)
  edge_woken debounce e h = ground arith

  edges_woken :
      (debounce : ℕ) (m : Edges)
      → all (λ (k, e). edge_started now e) m ≡ true
      → any (λ x. leb (now + x) t) (egress_waits now debounce m)
        ≡ any (λ (k, e). not (eqb e.net_id 0) && idle_for t debounce e.idle_since) m
  unfolding egress_waits
  edges_woken debounce [] h = refl
  edges_woken debounce ((k, e) ∷ m) h = ground (
    arith,
    any-append now t (λ x. leb (now + x) t) (Reports.waits now debounce e)
        (egress_waits now debounce m),
    edge_woken debounce e,
    edges_woken debounce m,
  )

  egress_wakes :
      (m : Edges)
      → all (λ (k, e). edge_started now e) m ≡ true
      → egress_due t m ≡ woken now t (nearest_egress_expiry now liveness_reap_debounce m)
  unfolding reap_idle_egress_edges teardown_where remove_egress_edges nearest_egress_expiry
  egress_wakes m h =
      drop_shorter (λ k e. not (eqb e.net_id 0) && idle_for t liveness_reap_debounce e.idle_since) m
      ∙ sym (edges_woken liveness_reap_debounce m h)
      ∙ sym (woken-least now t (egress_waits now liveness_reap_debounce m))

sooner-le : (d : ℕ) (o : Option ℕ) → sooner d o ≤ d
sooner-le d none = omega arith
sooner-le d (some e) = ground arith

sooner-woken :
    (now t d : ℕ) (o : Option ℕ) → ltb t (now + sooner d o) ≡ true → woken now t o ≡ false
sooner-woken now t d none h = refl
sooner-woken now t d (some e) h = ground arith

first_woken :
    (now d : ℕ) (a b : Option ℕ)
    → let s = sooner (sooner d a) b in
      (ltb s d && not (woken now (now + s) b || woken now (now + s) a)) ≡ false
first_woken now d none none = ground arith
first_woken now d none (some b) = ground arith
first_woken now d (some a) none = ground arith
first_woken now d (some a) (some b) = ground arith

module _ (now : ℕ) (stacks : StackMap) (sessions : Sessions) (edges : Edges)
    (keys : Distinct sessions) (idle : all (λ (k, s). started now s) sessions ≡ true)
    (edge_idle : all (λ (k, e). edge_started now e) edges ≡ true) where
  abbrev nap : ℕ
  nap = sleep_duration now stacks edges sessions

  none_overslept :
      (t : ℕ)
      → now ≤ t
      → (ltb t (now + nap)
          && (backend_due t sessions || egress_due t edges || ingress_due t stacks))
        ≡ false
  unfolding sleep_duration
  none_overslept t le = elim (Bool-cases (ltb t (now + nap))) [
    | inr over ↦ rw over refl
    | inl asleep ↦
        let ingress = ingress_sleep now stacks in
        let egress = nearest_egress_expiry now liveness_reap_debounce edges in
        let backend = nearest_backend_expiry now liveness_reap_debounce sessions in
        let b =
          nearest_wakes now liveness_reap_debounce t sessions keys idle le
          ∙ sooner-woken now t (sooner ingress egress) backend asleep in
        let e =
          egress_wakes now t le edges edge_idle
          ∙ sooner-woken now t ingress egress
              (ground (arith, sooner-le (sooner ingress egress) backend)) in
        let i =
          ingress_late now t le stacks
            (ground (arith, sooner-le (sooner ingress egress) backend, sooner-le ingress egress)) in
        rw (b, e, i) (ground arith)
  ]

  woken_for_one :
      (ltb nap (ingress_sleep now stacks)
        && not (backend_due (now + nap) sessions || egress_due (now + nap) edges))
      ≡ false
  unfolding sleep_duration
  woken_for_one =
      let t = now + nap in
      rw
        (
          nearest_wakes now liveness_reap_debounce t sessions keys idle (omega arith),
          egress_wakes now t (omega arith) edges edge_idle,
        )
        (first_woken now (ingress_sleep now stacks)
          (nearest_egress_expiry now liveness_reap_debounce edges)
          (nearest_backend_expiry now liveness_reap_debounce sessions))

-- The sleep that the loop of timeouts asks for is a minute at most. Until it is over, with no report
-- meanwhile, no session of a trigger is due for release, no egress edge for its teardown and no
-- client of a proxy for removal, in any stack; and if it is shorter than the clients of the proxies
-- ask for, a session or an edge is due when it is over. The sessions have different keys, and
-- neither a session nor an edge went idle after the loop read the clock.
pub sleeps_until_due :
    (now t : ℕ) (stacks : StackMap) (sessions : Sessions) (edges : Edges)
    → Distinct sessions
    → all (λ (k, s). started now s) sessions ≡ true
    → all (λ (k, e). edge_started now e) edges ≡ true
    → now ≤ t
    → let d = sleep_duration now stacks edges sessions in
      (d ≤ max_poll_interval)
      × ((ltb t (now + d) && (backend_due t sessions || egress_due t edges || ingress_due t stacks))
          ≡ false)
      × ((ltb d (ingress_sleep now stacks)
            && not (backend_due (now + d) sessions || egress_due (now + d) edges))
          ≡ false)
unfolding sleep_duration
sleeps_until_due now t stacks sessions edges keys idle edge_idle le =
    let ingress = ingress_sleep now stacks in
    let egress = nearest_egress_expiry now liveness_reap_debounce edges in
    let backend = nearest_backend_expiry now liveness_reap_debounce sessions in
    (
      omega (
        arith,
        sooner-le (sooner ingress egress) backend,
        sooner-le ingress egress,
        ingress-le now stacks,
      ),
      none_overslept now stacks sessions edges keys idle edge_idle t le,
      woken_for_one now stacks sessions edges keys idle edge_idle,
    )
