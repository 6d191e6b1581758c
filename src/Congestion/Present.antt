-- ===== src/Congestion/Present.antt =====
-- The hosts of a decision are in the table: members/nullnet-server/src/congestion.rs.
use nullnet.Prelude.{
  ==_iff, ==_refl, Bool-cases, List, [], all, arith, count, get, get-insert, if◌then◌else◌, inl,
  inr, insert, refl, some, ℕ, ◌<◌, ◌==◌, ◌∷◌, ◌≡◌,
}
use nullnet.Addr.{IpAddr, ip_eq}
use nullnet.Congestion.HostRate.{HostRate}
use nullnet.Congestion.Controller.{
  State, host_rate, may_pass, passes_at, all_pass, each_host, for_hosts, update_host, update_hosts,
  hosts_of, spend, refuse, allow_dedicated, AdmissionDecision,
}

record Has (ip : IpAddr) (s : State) : Type 0 where
  rate : HostRate
  stored : get ip s.hosts ≡ some rate

store-Has :
    (s : State) (ip j : IpAddr) (h : HostRate)
    → Has j s
    → Has j (record s { hosts = insert ip h s.hosts })
store-Has s ip j h v = elim (Bool-cases (ip == j)) [
  | inl same ↦ record { rate = h; stored = ground (arith, get-insert ip j h s.hosts) }
  | inr other ↦ record {
    rate = v.rate;
    stored = ground (arith, get-insert ip j h s.hosts, v.stored);
  }
]

stored-Has :
    (s : State) (ip j : IpAddr) (h : HostRate)
    → ip ≡ j
    → Has j (record s { hosts = insert ip h s.hosts })
stored-Has s ip j h e = record {
  rate = h;
  stored = ground (arith, get-insert ip j h s.hosts, ==_iff ip j);
}

-- The loops on hosts that are in the table do not panic.
module _ (now : ℕ) where
  rate_at : (ip : IpAddr) (s : State) (v : Has ip s) → host_rate now ip s ≡ v.rate
  rate_at ip s v = rw v.stored refl

  all_pass-total :
      (ips : List IpAddr) (s : State)
      → ((j : IpAddr) → 0 < count j ips → Has j s)
      → all_pass ips s ≡ some (all (λ ip. may_pass (host_rate now ip s)) ips)
  unfolding all_pass passes_at
  all_pass-total [] s v = refl
  all_pass-total (ip ∷ ips) s v =
      let h = v ip (ground (arith, ==_refl ip)) in
      let rest = all_pass-total ips s (λ j c. v j (ground arith)) in
      elim (Bool-cases (may_pass h.rate)) [
        | inl passes ↦ rw (h.stored, passes) rest
        | inr fails ↦ rw (h.stored, fails) refl
      ]

  each_host-total :
      (f : HostRate → HostRate) (ips : List IpAddr) (s : State)
      → ((j : IpAddr) → 0 < count j ips → Has j s)
      → each_host f ips s ≡ some (for_hosts now f ips s)
  unfolding each_host for_hosts
  each_host-total f [] s v = refl
  each_host-total f (ip ∷ ips) s v =
      let h = v ip (ground (arith, ==_refl ip)) in
      rw h.stored
        (each_host-total f ips _ (λ j c. store-Has s ip j (f h.rate) (v j (ground arith))))

module _ (p d : IpAddr) (now : ℕ) where
  update_hosts_keeps :
      (j : IpAddr) (ips : List IpAddr) (s : State) → Has j s → Has j (update_hosts p d now ips s).0
  unfolding update_hosts update_host
  update_hosts_keeps j [] s v = v
  update_hosts_keeps j (ip ∷ ips) s v = update_hosts_keeps j ips _ (store-Has s ip j _ v)

  update_hosts-Has :
      (j : IpAddr) (ips : List IpAddr) (s : State)
      → 0 < count j ips
      → Has j (update_hosts p d now ips s).0
  unfolding update_hosts update_host
  update_hosts-Has j [] s c = absurd (omega arith)
  update_hosts-Has j (ip ∷ ips) s c = elim (Bool-cases (ip == j)) [
    | inl same ↦ update_hosts_keeps j ips _ (stored-Has s ip j _ ((==_iff ip j).0 same))
    | inr other ↦ update_hosts-Has j ips _ (ground arith)
  ]

-- A decision, with the hosts of its loops known to be in the table.
unfoldable pub allow_total : (p d : IpAddr) → ℕ → State → State × AdmissionDecision
allow_total p d now s =
    let hosts = hosts_of p d in
    let (updated, transitions) = update_hosts p d now hosts s in
    let allowed = all (λ ip. may_pass (host_rate now ip updated)) hosts in
    (
      if allowed
          then for_hosts now spend hosts updated
          else for_hosts now (refuse now) hosts updated,
      record { dedicated = allowed; transitions = transitions },
    )

pub allow_dedicated-some :
    (p d : IpAddr) (now : ℕ) (s : State) → allow_dedicated p d now s ≡ some (allow_total p d now s)
unfolding allow_dedicated allow_total
allow_dedicated-some p d now s =
    let hosts = hosts_of p d in
    let u = (update_hosts p d now hosts s).0 in
    let here = λ (j : IpAddr). update_hosts-Has p d now j hosts s in
    rw (all_pass-total now hosts u here)
      (elim (Bool-cases (all (λ ip. may_pass (host_rate now ip u)) hosts)) [
        | inl allowed ↦ rw (allowed, each_host-total now spend hosts u here) refl
        | inr blocked ↦ rw (blocked, each_host-total now (refuse now) hosts u here) refl
      ])
