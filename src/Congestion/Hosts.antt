-- ===== src/Congestion/Hosts.antt =====
-- What the loops over the hosts of a decision do to one host:
-- members/nullnet-server/src/congestion.rs.
use mathlib.Core.Path.{subst}
use nullnet.Prelude.{
  ==_iff, Bool-cases, List, Option, [], ap, arith, count, get, get-insert, if◌then◌else◌, inl, inr,
  insert, none, refl, some, ℕ, ◌==◌, ◌∙◌, ◌∷◌, ◌≡◌,
}
use nullnet.Addr.{IpAddr, ip_eq}
use nullnet.Congestion.HostRate.{HostRate, apply_all, refill}
use nullnet.Congestion.Buckets.{Inv, new-Inv, refill-Inv, apply_all-Steps}
use nullnet.Congestion.Controller.{
  State, host_rate, rate_or_new, pressures_on, update_host, update_hosts, for_hosts,
}

pub record StateInv (s : State) : Type 0 where
  pub hosts : (ip : IpAddr) (h : HostRate) → get ip s.hosts ≡ some h → Inv h

pub host_rate-Inv : (now : ℕ) (ip : IpAddr) (s : State) → StateInv s → Inv (host_rate now ip s)
host_rate-Inv now ip s v = of_entry (get ip s.hosts) (v.hosts ip)
  where
    of_entry :
        (o : Option HostRate) → ((h : HostRate) → o ≡ some h → Inv h) → Inv (rate_or_new now o)
    of_entry none f = new-Inv now
    of_entry (some h) f = f h refl

pub store-StateInv :
    (s : State) (ip : IpAddr) (h : HostRate)
    → StateInv s
    → Inv h
    → StateInv (record s { hosts = insert ip h s.hosts })
store-StateInv s ip h v w = record {
  hosts = λ j g e. elim (Bool-cases (ip == j)) [
    | inl same ↦ let e' : h ≡ g = ground (arith, get-insert ip j h s.hosts) in subst Inv e' w
    | inr other ↦ v.hosts j g (ground (arith, get-insert ip j h s.hosts))
  ];
}

pub host_rate-store :
    (now : ℕ) (s : State) (ip j : IpAddr) (h : HostRate)
    → host_rate now j (record s { hosts = insert ip h s.hosts })
      ≡ (if ip == j then h else host_rate now j s)
host_rate-store now s ip j h = elim (Bool-cases (ip == j)) [
  | inl same ↦ rw (get-insert ip j h s.hosts, same)
  | inr other ↦ rw (get-insert ip j h s.hosts, other)
]

-- A loop that changes each host of its list, seen at one host.
module _ (now : ℕ) (f : HostRate → HostRate) (j : IpAddr) where
  for_hosts_absent :
      (ips : List IpAddr) (s : State)
      → count j ips ≡ 0
      → host_rate now j (for_hosts now f ips s) ≡ host_rate now j s
  unfolding for_hosts
  for_hosts_absent [] s h = refl
  for_hosts_absent (ip ∷ ips) s h =
      let s' = record s { hosts = insert ip (f (host_rate now ip s)) s.hosts } in
      ground (arith, for_hosts_absent ips s', host_rate-store now s ip j (f (host_rate now ip s)))

  pub for_hosts_once :
      (ips : List IpAddr) (s : State)
      → count j ips ≡ 1
      → host_rate now j (for_hosts now f ips s) ≡ f (host_rate now j s)
  unfolding for_hosts
  for_hosts_once [] s h = absurd (omega arith)
  for_hosts_once (ip ∷ ips) s h =
      let s' = record s { hosts = insert ip (f (host_rate now ip s)) s.hosts } in
      ground (
        arith,
        for_hosts_absent ips s',
        for_hosts_once ips s',
        host_rate-store now s ip j (f (host_rate now ip s)),
        ==_iff ip j,
      )

-- A host's rate once the pressures on it are taken in: what `update_hosts` makes of it.
abbrev pub updated_rate : (proxy destination : IpAddr) → ℕ → State → IpAddr → HostRate
updated_rate proxy destination now s ip =
    (apply_all ip proxy (pressures_on ip proxy destination s) now
      (refill now (host_rate now ip s))).0

module _ (proxy destination : IpAddr) (now : ℕ) where
  -- The pressures are read from parts of the state that the loop leaves alone.
  pressures_on-store :
      (s : State) (ip j : IpAddr) (h : HostRate)
      → pressures_on j proxy destination (record s { hosts = insert ip h s.hosts })
        ≡ pressures_on j proxy destination s
  unfolding pressures_on
  pressures_on-store s ip j h = refl

  update_hosts_absent :
      (j : IpAddr) (ips : List IpAddr) (s : State)
      → count j ips ≡ 0
      → host_rate now j (update_hosts proxy destination now ips s).0 ≡ host_rate now j s
  unfolding update_hosts update_host
  update_hosts_absent j [] s h = refl
  update_hosts_absent j (ip ∷ ips) s h =
      let g = updated_rate proxy destination now s ip in
      let s' = record s { hosts = insert ip g s.hosts } in
      ground (arith, update_hosts_absent j ips s', host_rate-store now s ip j g)

  abbrev updated_with : IpAddr → State → HostRate → HostRate
  updated_with j s h = (apply_all j proxy (pressures_on j proxy destination s) now (refill now h)).0

  pub update_hosts_once :
      (j : IpAddr) (ips : List IpAddr) (s : State)
      → count j ips ≡ 1
      → host_rate now j (update_hosts proxy destination now ips s).0
        ≡ updated_rate proxy destination now s j
  unfolding update_hosts update_host pressures_on
  update_hosts_once j [] s h = absurd (omega arith)
  update_hosts_once j (ip ∷ ips) s h =
      let g = updated_rate proxy destination now s ip in
      let s' = record s { hosts = insert ip g s.hosts } in
      let stored = host_rate-store now s ip j g in
      elim (Bool-cases (ip == j)) [
        | inl same ↦
            update_hosts_absent j ips s' (ground arith)
            ∙ stored
            ∙ rw same (ap (updated_rate proxy destination now s) ((==_iff ip j).0 same))
        | inr other ↦
            update_hosts_once j ips s' (ground arith) ∙ ap (updated_with j s) (stored ∙ rw other)
      ]

  pub update_hosts-StateInv :
      (ips : List IpAddr) (s : State)
      → StateInv s
      → StateInv (update_hosts proxy destination now ips s).0
  unfolding update_hosts update_host
  update_hosts-StateInv [] s v = v
  update_hosts-StateInv (ip ∷ ips) s v =
      let st =
        apply_all-Steps ip proxy now (pressures_on ip proxy destination s) _
          (refill-Inv now _ (host_rate-Inv now ip s v)) in
      update_hosts-StateInv ips _ (store-StateInv s ip _ v st.inv)
