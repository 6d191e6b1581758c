-- ===== src/Congestion/Admission.antt =====
-- What a decision on a dedicated network does: members/nullnet-server/src/congestion.rs.
use mathlib.Core.Path.{ap₂}
use nullnet.Prelude.{
  ==_iff, ==_refl, Bool, Bool-cases, List, Option, [], all, ap, arith, count, eqb, false,
  if◌then◌else◌, inl, inr, none, refl, some, true, ℕ, ◌&&◌, ◌∙◌, ◌∷◌, ◌≡◌, ◌⊎◌,
}
use nullnet.Addr.{IpAddr, ip_eq}
use nullnet.Congestion.HostRate.{HostRate, denied, record_completion, mode, mode_of, multiplexing}
use nullnet.Congestion.Buckets.{Inv, refill-Inv, apply_all-Steps}
use nullnet.Congestion.Hosts.{
  StateInv, host_rate-Inv, store-StateInv, for_hosts_once, updated_rate, update_hosts_once,
  update_hosts-StateInv,
}
use nullnet.Congestion.Present.{allow_total, allow_dedicated-some}
use nullnet.Congestion.Controller.{
  State, host_rate, hosts_of, update_hosts, may_pass, spend, refuse, for_hosts, AdmissionDecision,
  allow_dedicated, pressures_on, has_token,
}

spend-Inv : (h : HostRate) → Inv h → Inv (spend h)
spend-Inv h v = record {
  full = ground (arith, v.full);
  short = ground (arith, v.short);
  windows = ground (arith, v.windows);
}

denied-Inv : (now : ℕ) (h : HostRate) → Inv h → Inv (denied now h)
unfolding denied
denied-Inv now h v = record { full = v.full; short = v.short; windows = v.windows }

refuse-Inv : (now : ℕ) (h : HostRate) → Inv h → Inv (refuse now h)
refuse-Inv now h v = elim (Bool-cases (may_pass h)) [
  | inl p ↦ rw p v
  | inr p ↦ rw p (denied-Inv now h v)
]

pub record_completion-Inv : (now : ℕ) (h : HostRate) → Inv h → Inv (record_completion now h)
unfolding record_completion
record_completion-Inv now h v = record { full = v.full; short = v.short; windows = v.windows }

pub for_hosts-StateInv :
    (now : ℕ) (f : HostRate → HostRate)
    → ((h : HostRate) → Inv h → Inv (f h))
    → (ips : List IpAddr) (s : State) → StateInv s
    → StateInv (for_hosts now f ips s)
unfolding for_hosts
for_hosts-StateInv now f keep [] s v = v
for_hosts-StateInv now f keep (ip ∷ ips) s v =
    for_hosts-StateInv now f keep ips _
      (store-StateInv s ip _ v (keep _ (host_rate-Inv now ip s v)))

-- The proxy and the destination are both in the list, once.
counts : (p d : IpAddr) → (count p (hosts_of p d) ≡ 1) × (count d (hosts_of p d) ≡ 1)
counts p d = ground (arith, ==_iff p d, ==_iff d p, ==_refl p, ==_refl d)

all-hosts : (f : IpAddr → Bool) (p d : IpAddr) → all f (hosts_of p d) ≡ (f p && f d)
all-hosts f p d = ground (arith, ==_iff p d)

-- What becomes of a host's bucket once the request is decided.
abbrev pub settled : ℕ → Bool → HostRate → HostRate
settled now dedicated h = if dedicated then spend h else refuse now h

module _ (p d : IpAddr) (now : ℕ) (s : State) where
  abbrev pub after : State
  after = (allow_total p d now s).0

  abbrev pub decision : AdmissionDecision
  decision = (allow_total p d now s).1

  decided :
      decision.dedicated
      ≡ (may_pass (updated_rate p d now s p) && may_pass (updated_rate p d now s d))
  unfolding allow_total
  decided =
      let u = (update_hosts p d now (hosts_of p d) s).0 in
      all-hosts (λ ip. may_pass (host_rate now ip u)) p d
      ∙ ap₂ (λ x y. may_pass x && may_pass y)
          (update_hosts_once p d now p (hosts_of p d) s (counts p d).0)
          (update_hosts_once p d now d (hosts_of p d) s (counts p d).1)

  settled_at :
      (ip : IpAddr)
      → count ip (hosts_of p d) ≡ 1
      → host_rate now ip after ≡ settled now decision.dedicated (updated_rate p d now s ip)
  unfolding allow_total
  settled_at ip one =
      let u = (update_hosts p d now (hosts_of p d) s).0 in
      let e = update_hosts_once p d now ip (hosts_of p d) s one in
      elim (Bool-cases (all (λ ip. may_pass (host_rate now ip u)) (hosts_of p d))) [
        | inl allowed ↦ rw allowed (for_hosts_once now spend ip (hosts_of p d) u one ∙ ap spend e)
        | inr blocked ↦
            rw blocked (for_hosts_once now (refuse now) ip (hosts_of p d) u one ∙ ap (refuse now) e)
      ]

  pub after-StateInv : StateInv s → StateInv after
  unfolding allow_total
  after-StateInv v =
      let u = (update_hosts p d now (hosts_of p d) s).0 in
      let w = update_hosts-StateInv p d now (hosts_of p d) s v in
      elim (Bool-cases (all (λ ip. may_pass (host_rate now ip u)) (hosts_of p d))) [
        | inl allowed ↦ rw allowed (for_hosts-StateInv now spend spend-Inv (hosts_of p d) u w)
        | inr blocked ↦
            rw blocked (for_hosts-StateInv now (refuse now) (refuse-Inv now) (hosts_of p d) u w)
      ]

-- A decision does not panic. A request is decided on the rates as they are once each host has been
-- refilled and has taken in the pressures on it. It gets a dedicated network exactly when the proxy
-- and the destination may both let it pass; then each of the two whose rate is limited spends a
-- token, and otherwise each one that may not let it pass notes the refusal. From a state in which
-- every host keeps the invariant of its bucket, the decision leads to such a state.
pub admission :
    (p d : IpAddr) (now : ℕ) (s : State)
    → StateInv s
    → (t : State) × (made : AdmissionDecision) × (allow_dedicated p d now s ≡ some (t, made))
      × (made.dedicated
          ≡ (may_pass (updated_rate p d now s p) && may_pass (updated_rate p d now s d)))
      × (host_rate now p t ≡ settled now made.dedicated (updated_rate p d now s p))
      × (host_rate now d t ≡ settled now made.dedicated (updated_rate p d now s d))
      × StateInv t
admission p d now s v = (
  after p d now s,
  decision p d now s,
  allow_dedicated-some p d now s,
  decided p d now s,
  settled_at p d now s p (counts p d).0,
  settled_at p d now s d (counts p d).1,
  after-StateInv p d now s v,
)

updated-Inv :
    (p d : IpAddr) (now : ℕ) (s : State) (ip : IpAddr)
    → StateInv s
    → Inv (updated_rate p d now s ip)
updated-Inv p d now s ip v =
    (apply_all-Steps ip p now (pressures_on ip p d s) _
      (refill-Inv now _ (host_rate-Inv now ip s v))).inv

and_false : (b : Bool) → (b && false) ≡ false
and_false true = refl
and_false false = refl

multiplexing-may_pass :
    (h : HostRate) (r : Option ℕ)
    → h.rate ≡ r
    → Inv h
    → mode_of r ≡ multiplexing
    → has_token r h.tokens ≡ false
multiplexing-may_pass h none e v m = ground arith
multiplexing-may_pass h (some r) e v m =
    let f = v.full in
    elim (Bool-cases (eqb r 0)) [ inl zero_rate ↦ ground arith | inr other ↦ ground arith ]

blocks :
    (p d : IpAddr) (now : ℕ) (s : State)
    → StateInv s
    → (mode (updated_rate p d now s p) ≡ multiplexing)
      ⊎ (mode (updated_rate p d now s d) ≡ multiplexing)
    → (decision p d now s).dedicated ≡ false
unfolding mode
blocks p d now s v (inl m) =
    let u = updated_rate p d now s p in
    decided p d now s ∙ rw (multiplexing-may_pass u u.rate refl (updated-Inv p d now s p v) m) refl
blocks p d now s v (inr m) =
    let u = updated_rate p d now s d in
    decided p d now s
    ∙ rw (multiplexing-may_pass u u.rate refl (updated-Inv p d now s d v) m)
        (and_false (may_pass (updated_rate p d now s p)))

-- A host in multiplexing mode holds no token, so that a request whose proxy or whose destination is
-- in that mode, once the pressures on it are taken in, gets no dedicated network.
pub multiplexing_blocks :
    (p d : IpAddr) (now : ℕ) (s : State)
    → StateInv s
    → (mode (updated_rate p d now s p) ≡ multiplexing)
      ⊎ (mode (updated_rate p d now s d) ≡ multiplexing)
    → (t : State) × (made : AdmissionDecision) × (allow_dedicated p d now s ≡ some (t, made))
      × (made.dedicated ≡ false)
multiplexing_blocks p d now s v m =
    (after p d now s, decision p d now s, allow_dedicated-some p d now s, blocks p d now s v m)
