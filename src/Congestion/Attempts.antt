-- ===== src/Congestion/Attempts.antt =====
-- Histories of the controller's calls: members/nullnet-server/src/congestion.rs.
-- A `SetupAttempt` is live from `setup_attempt` until it is dropped, once.
use nullnet.Prelude.{
  ==_iff, ==_refl, Bool-cases, List, Option, Option-cases, [], all, ap, arith, count, eqb, erase,
  get, get-insert, if◌then◌else◌, inl, inr, insert, length, none, refl, some, ℕ, ◌+◌, ◌-◌, ◌<◌,
  ◌==◌, ◌>>=◌, ◌^◌, ◌∙◌, ◌∷◌, ◌≡◌, ◌≤◌, nat_eq,
}
use nullnet.Addr.{IpAddr, ip_eq}
use nullnet.Congestion.HostRate.{HostRate, record_completion}
use nullnet.Congestion.Hosts.{StateInv}
use nullnet.Congestion.Admission.{after-StateInv, for_hosts-StateInv, record_completion-Inv}
use nullnet.Congestion.Present.{allow_total, allow_dedicated-some}
use nullnet.Congestion.Controller.{
  State, default, ProxyLoad, SetupPressure, new_setup, started, completed, observe_proxy,
  setup_attempt, drop_attempt, complete_entry, allow_dedicated, record_dedicated_completion,
  hosts_of, update_hosts, update_host, for_hosts, may_pass, host_rate, spend, refuse,
}

pub data Call : Type 0 where
  observes : IpAddr → ProxyLoad → ℕ → Call
  attempts : IpAddr → ℕ → Call
  drops : IpAddr → (now started_at : ℕ) → Call
  decides completes : (proxy destination : IpAddr) → ℕ → Call

pub record System : Type 0 where
  pub state : State
  pub live : List IpAddr

-- A drop of an attempt that is not live cannot be made.
dropped : IpAddr → (now started_at : ℕ) → System → Option System
dropped host now started_at y = if eqb (count host y.live) 0 then some y else do
  s ← drop_attempt host now started_at y.state
  some (record { state = s; live = erase host y.live })

-- The state after a call; `none` is a panic.
pub after_call : Call → System → Option System
after_call (observes proxy load now) y =
    some (record y { state = observe_proxy proxy load now y.state })
after_call (attempts host now) y =
    some (record { state = setup_attempt host now y.state; live = host ∷ y.live })
after_call (drops host now started_at) y = dropped host now started_at y
after_call (decides proxy destination now) y = do
  (s, decision) ← allow_dedicated proxy destination now y.state
  some (record y { state = s })
after_call (completes proxy destination now) y =
    some (record y { state = record_dedicated_completion proxy destination now y.state })

pub run : List Call → System → Option System
run [] y = some y
run (c ∷ cs) y = after_call c y >>= run cs

abbrev pub pending_in : Option SetupPressure → ℕ
pending_in none = 0
pending_in (some s) = s.pending

abbrev pub pending_at : IpAddr → State → ℕ
pending_at host s = pending_in (get host s.setups)

-- The pending setups of each host are its live attempts.
pub record Inv (y : System) : Type 0 where
  pub rates : StateInv y.state
  pub pending : (host : IpAddr) → pending_at host y.state ≡ count host y.live

-- The decisions leave the setups alone.
for_hosts-setups :
    (now : ℕ) (f : HostRate → HostRate) (ips : List IpAddr) (s : State)
    → (for_hosts now f ips s).setups ≡ s.setups
unfolding for_hosts
for_hosts-setups now f [] s = refl
for_hosts-setups now f (ip ∷ ips) s = for_hosts-setups now f ips _

update_hosts-setups :
    (p d : IpAddr) (now : ℕ) (ips : List IpAddr) (s : State)
    → (update_hosts p d now ips s).0.setups ≡ s.setups
unfolding update_hosts update_host
update_hosts-setups p d now [] s = refl
update_hosts-setups p d now (ip ∷ ips) s = update_hosts-setups p d now ips _

allow-setups : (p d : IpAddr) (now : ℕ) (s : State) → (allow_total p d now s).0.setups ≡ s.setups
unfolding allow_total
allow-setups p d now s =
    let u = (update_hosts p d now (hosts_of p d) s).0 in
    elim (Bool-cases (all (λ ip. may_pass (host_rate now ip u)) (hosts_of p d))) [
      | inl allowed ↦ rw allowed (
          for_hosts-setups now spend (hosts_of p d) u
          ∙ update_hosts-setups p d now (hosts_of p d) s)
      | inr blocked ↦ rw blocked (
          for_hosts-setups now (refuse now) (hosts_of p d) u
          ∙ update_hosts-setups p d now (hosts_of p d) s)
    ]

-- The next system: the call runs, and at most one attempt more is live.
record Steps (y : System) (r : Option System) : Type 0 where
  next : System
  runs : r ≡ some next
  inv : Inv next
  grown : length next.live ≤ length y.live + 1

count-le-length : (a : IpAddr) (xs : List IpAddr) → count a xs ≤ length xs
count-le-length a [] = omega arith
count-le-length a (x ∷ xs) = ground (arith, count-le-length a xs)

length-erase : (a : IpAddr) (xs : List IpAddr) → length (erase a xs) ≤ length xs
length-erase a [] = omega arith
length-erase a (x ∷ xs) = ground (arith, length-erase a xs)

count-erase :
    (a b : IpAddr) (xs : List IpAddr)
    → 1 ≤ count a xs
    → count b (erase a xs) ≡ count b xs - (if a == b then 1 else 0)
count-erase a b [] h = omega arith
count-erase a b (x ∷ xs) h =
    ground (arith, count-erase a b xs, ==_iff x a, ==_iff x b, ==_iff a b, ==_refl a)

module _ (y : System) (v : Inv y) (room : length y.live + 1 < 2 ^ 32) where
  attempts-Steps : (host : IpAddr) (now : ℕ) → Steps y (after_call (attempts host now) y)
  unfolding after_call setup_attempt started new_setup
  attempts-Steps host now = record {
    next = record { state = setup_attempt host now y.state; live = host ∷ y.live };
    runs = refl;
    inv = record {
      rates = record { hosts = v.rates.hosts };
      pending = λ j. elim (Option-cases (get host y.state.setups)) [
        | inl absent ↦ rw absent ground (
          arith,
          v.pending host,
          v.pending j,
          ==_iff host j,
          count-le-length host y.live,
          get-insert host j (started now (new_setup now)) y.state.setups,
        )
        | inr (s, found) ↦ rw found ground (
          arith,
          v.pending host,
          v.pending j,
          ==_iff host j,
          count-le-length host y.live,
          get-insert host j (started now s) y.state.setups,
        )
      ];
    };
    grown = omega arith;
  }

  same-Steps :
      (s : State) → StateInv s → s.setups ≡ y.state.setups → Steps y (some (record y { state = s }))
  same-Steps s w e = record {
    next = record y { state = s };
    runs = refl;
    inv = record { rates = w; pending = λ j. ap (λ m. pending_in (get j m)) e ∙ v.pending j };
    grown = omega arith;
  }

  drops-Steps : (host : IpAddr) (now at : ℕ) → Steps y (after_call (drops host now at) y)
  unfolding after_call dropped drop_attempt complete_entry completed
  drops-Steps host now at = elim (Bool-cases (eqb (count host y.live) 0)) [
    | inl none_live ↦ rw none_live (record { next = y; runs = refl; inv = v; grown = omega arith })
    | inr some_live ↦ elim (Option-cases (get host y.state.setups)) [
      | inl absent ↦ let p = v.pending host in absurd (ground arith)
      | inr (s, found) ↦
          let s' = completed now (now - at) s in
          record {
            next = record {
              state = record y.state { setups = insert host s' y.state.setups };
              live = erase host y.live;
            };
            runs = rw (some_live, found) refl;
            inv = record {
              rates = record { hosts = v.rates.hosts };
              pending = λ j. ground (
                arith,
                v.pending host,
                v.pending j,
                ==_iff host j,
                count-erase host j y.live,
                get-insert host j s' y.state.setups,
                found,
              );
            };
            grown = omega (arith, length-erase host y.live);
          }
    ]
  ]

  call-Steps : (c : Call) → Steps y (after_call c y)
  unfolding after_call observe_proxy record_dedicated_completion
  call-Steps (observes proxy load now) =
      same-Steps (observe_proxy proxy load now y.state) (record { hosts = v.rates.hosts }) refl
  call-Steps (attempts host now) = attempts-Steps host now
  call-Steps (drops host now at) = drops-Steps host now at
  call-Steps (decides p d now) = rw (allow_dedicated-some p d now y.state) (
      same-Steps (allow_total p d now y.state).0 (after-StateInv p d now y.state v.rates)
        (allow-setups p d now y.state))
  call-Steps (completes p d now) =
      same-Steps (record_dedicated_completion p d now y.state)
        (for_hosts-StateInv now (record_completion now) (record_completion-Inv now) (hosts_of p d)
          y.state v.rates)
        (for_hosts-setups now (record_completion now) (hosts_of p d) y.state)

run-Inv :
    (cs : List Call) (y : System)
    → Inv y
    → length y.live + length cs < 2 ^ 32
    → (z : System) × (run cs y ≡ some z) × Inv z
unfolding run
run-Inv [] y v h = (y, refl, v)
run-Inv (c ∷ cs) y v h =
    let st = call-Steps y v (omega arith) c in
    let (z, e, w) = run-Inv cs st.next st.inv (omega (arith, st.grown)) in (z, rw st.runs e, w)

unfoldable pub start : System
start = record { state = default; live = [] }

pub start-Inv : Inv start
unfolding start default get
start-Inv = record {
  rates = record { hosts = λ ip g e. absurd (ground (arith, e)) };
  pending = λ host. refl;
}

-- Fewer than 2^32 calls on a new controller never panic: the host of a live setup attempt is in the
-- table when the attempt is dropped, and the hosts of a decision when their rates are read and
-- changed. Afterwards the pending setups of each host are as many as its live attempts, and every
-- host's bucket keeps its invariant: at most 32 tokens in recovery and none in the other modes, at
-- most 20 transitions.
pub attempts_total :
    (cs : List Call) → length cs < 2 ^ 32 → (z : System) × (run cs start ≡ some z) × Inv z
unfolding start default
attempts_total cs h = run-Inv cs start start-Inv (omega arith)
