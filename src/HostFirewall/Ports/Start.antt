-- ===== src/HostFirewall/Ports/Start.antt =====
-- The ports at the start of the client: members/nullnet-client/src/ebpf/mod.rs.
use nullnet.Prelude.{
  Bool, Bool-cases, List, Option, [], all, any, ap, arith, eqb, false, if◌then◌else◌, inl, inr,
  length, ltb, refl, some, sym, true, ℕ, ◌+◌, ◌<◌, ◌>>=◌, ◌||◌, ◌∙◌, ◌∷◌, ◌≡◌, ◌≤◌, nat_eq,
}
use nullnet.HostFirewall.{is_in, allow_key, proto_tcp, proto_udp}
use nullnet.HostFirewall.Ports.{
  FirewallAllowPorts, FirewallConfig, max_ports, map_insert, set_insert, populate,
  populate_allow_ports,
}
use nullnet.HostFirewall.Ports.Refresh.{Inv}

abbrev pub opens : ℕ → Bool → ℕ → List ℕ → Bool
opens k is_egress proto ports = any (λ p. eqb (allow_key is_egress proto p) k) ports

-- The keys of all four lists.
abbrev pub configured : ℕ → FirewallConfig → Bool
configured k cfg =
    opens k false proto_tcp cfg.ingress_tcp
    || opens k false proto_udp cfg.ingress_udp
    || opens k true proto_tcp cfg.egress_tcp
    || opens k true proto_udp cfg.egress_udp

-- The state after a loop of `populate_allow_ports`.
record Populated (keys : ℕ → Bool) (longest : ℕ) (r : Option FirewallAllowPorts) : Type 0 where
  next : FirewallAllowPorts
  done : r ≡ some next
  inv : Inv next
  map : (k : ℕ) → is_in k next.map ≡ keys k
  short : length next.map ≤ longest

inserted :
    (key : ℕ) (m : List ℕ)
    → length m < max_ports
    → (m' : List ℕ) × (map_insert key m ≡ some m')
      × ((k : ℕ) → is_in k m' ≡ (eqb key k || is_in k m))
      × (length m' ≤ length m + 1)
unfolding map_insert
inserted key m room = elim (Bool-cases (is_in key m)) [
  | inl there ↦ (
    m,
    rw there refl,
    λ k. elim (Bool-cases (eqb key k)) [
      | inl same ↦
          let e : key ≡ k = ground (arith, same) in rw same (ap (λ j. is_in j m) (sym e) ∙ there)
      | inr other ↦ rw other refl
    ],
    omega arith,
  )
  | inr missing ↦
      let free : ltb (length m) max_ports ≡ true = ground (arith, room) in
      (key ∷ m, rw (missing, free) refl, λ k. refl, omega arith)
]

all-grown :
    (key : ℕ) (m m' ks : List ℕ)
    → ((k : ℕ) → is_in k m' ≡ (eqb key k || is_in k m))
    → all (λ k. is_in k m) ks ≡ true
    → all (λ k. is_in k m') ks ≡ true
all-grown key m m' [] g h = refl
all-grown key m m' (k ∷ ks) g h = ground (arith, g k, all-grown key m m' ks g)

set_insert-Inv :
    (key : ℕ) (is_egress : Bool) (m' : List ℕ) (s : FirewallAllowPorts)
    → Inv s
    → ((k : ℕ) → is_in k m' ≡ (eqb key k || is_in k s.map))
    → Inv (record { map = m'; ingress = if is_egress then s.ingress else set_insert key s.ingress })
set_insert-Inv key true m' s v g = record {
  held = all-grown key s.map m' s.ingress g v.held;
  once = v.once;
}
set_insert-Inv key false m' s v g =
    let held = all-grown key s.map m' s.ingress g v.held in
    let own : is_in key m' ≡ true = ground (arith, g key) in
    elim (Bool-cases (is_in key s.ingress)) [
      | inl there ↦ rw there (record { held = held; once = v.once })
      | inr missing ↦
          rw missing
            (record { held = ground (arith, own, held); once = ground (arith, missing, v.once) })
    ]

populate-Populated :
    (is_egress : Bool) (proto : ℕ) (ports : List ℕ) (s : FirewallAllowPorts)
    → Inv s
    → length s.map + length ports ≤ max_ports
    → Populated
        (λ k. is_in k s.map || opens k is_egress proto ports)
        (length s.map + length ports)
        (populate is_egress proto ports s)
unfolding populate
populate-Populated e proto [] s v room = record {
  next = s;
  done = refl;
  inv = v;
  map = λ k. ground arith;
  short = omega arith;
}
populate-Populated e proto (p ∷ ports) s v room =
    let key = allow_key e proto p in
    let (m, made, keys, short) = inserted key s.map (omega arith) in
    let s' : FirewallAllowPorts = record {
      map = m;
      ingress = if e then s.ingress else set_insert key s.ingress;
    } in
    let rest =
      populate-Populated e proto ports s' (set_insert-Inv key e m s v keys)
        (omega (arith, short)) in
    record {
      next = rest.next;
      done =
          ap
            (λ o. o >>= λ n.
              populate e proto ports
                (record { map = n; ingress = if e then s.ingress else set_insert key s.ingress }))
            made
          ∙ rest.done;
      inv = rest.inv;
      map = λ k. ground (arith, rest.map k, keys k);
      short = omega (arith, rest.short, short);
    }

-- A configuration of at most 256 ports in all populates the map without an error: the map holds
-- the keys of the ports of each direction and protocol and no other, and the state is ready for
-- refreshes: the ingress keys are a set, all in the map.
pub ports_populated :
    (cfg : FirewallConfig)
    → length cfg.ingress_tcp
        + length cfg.ingress_udp
        + length cfg.egress_tcp
        + length cfg.egress_udp
      ≤ max_ports
    → (s : FirewallAllowPorts) × (populate_allow_ports cfg ≡ some s)
      × Inv s
      × ((k : ℕ) → is_in k s.map ≡ configured k cfg)
unfolding populate_allow_ports
ports_populated cfg room =
    let empty : FirewallAllowPorts = record { map = []; ingress = [] } in
    let a =
      populate-Populated false proto_tcp cfg.ingress_tcp empty (record { held = refl; once = refl })
        (omega arith) in
    let b =
      populate-Populated false proto_udp cfg.ingress_udp a.next a.inv (omega (arith, a.short)) in
    let c =
      populate-Populated true proto_tcp cfg.egress_tcp b.next b.inv
        (omega (arith, a.short, b.short)) in
    let d =
      populate-Populated true proto_udp cfg.egress_udp c.next c.inv
        (omega (arith, a.short, b.short, c.short)) in
    (
      d.next,
      rw a.done (rw b.done (rw c.done d.done)),
      d.inv,
      λ k. ground (arith, a.map k, b.map k, c.map k, d.map k),
    )
