-- ===== src/HostFirewall/Ports/Update.antt =====
-- A refresh of the ingress ports as a whole: members/nullnet-client/src/ebpf/mod.rs.
use nullnet.Prelude.{
  Bool, Bool-cases, List, [], all, any, ap, arith, eqb, false, inl, inr, length, ltb, not, refl,
  some, sym, true, ℕ, ◌&&◌, ◌+◌, ◌^◌, ◌||◌, ◌∙◌, ◌∷◌, ◌≡◌, ◌≤◌, ◌⊎◌, nat_eq,
}
use nullnet.HostFirewall.{is_in, allow_key, proto_tcp, proto_udp}
use nullnet.HostFirewall.Ports.{
  FirewallAllowPorts, max_ports, set_insert, desired_of, difference, update_ingress,
}
use nullnet.HostFirewall.Ports.Refresh.{Inv, distinct, remove-Loop, insert-Loop, all-in}

-- The keys that the ports ask for, and whether they are ports at all.
abbrev pub asks : ℕ → ℕ → List ℕ → Bool
asks k proto ports = any (λ p. eqb (allow_key false proto p) k) ports

abbrev pub are_ports : List ℕ → Bool
are_ports ports = all (λ p. ltb p 65536) ports

is_in-set_insert : (k key : ℕ) (d : List ℕ) → is_in k (set_insert key d) ≡ (eqb key k || is_in k d)
is_in-set_insert k key d = elim (Bool-cases (is_in key d)) [
  | inl there ↦ elim (Bool-cases (eqb key k)) [
    | inl same ↦
        let e : key ≡ k = ground (arith, same) in
        rw (there, same) (ap (λ j. is_in j d) (sym e) ∙ there)
    | inr other ↦ rw (there, other) refl
  ]
  | inr missing ↦ rw missing refl
]

desired-keys :
    (proto : ℕ) (ports d : List ℕ)
    → are_ports ports ≡ true
    → (d' : List ℕ) × (desired_of proto ports d ≡ some d')
      × ((k : ℕ) → is_in k d' ≡ (is_in k d || asks k proto ports))
      × (length d' ≤ length d + length ports)
unfolding desired_of
desired-keys proto [] d h = (d, refl, λ k. ground arith, omega arith)
desired-keys proto (p ∷ ports) d h =
    let key = allow_key false proto p in
    let small : ltb p (2 ^ 16) ≡ true = ground (arith, h) in
    let (d', made, keys, short) = desired-keys proto ports (set_insert key d) (ground (arith, h)) in
    let one : length (set_insert key d) ≤ length d + 1 = ground arith in
    (
      d',
      rw small made,
      λ k. ground (arith, keys k, is_in-set_insert k key d),
      omega (arith, short, one),
    )

is_in-difference :
    (k : ℕ) (s t : List ℕ) → is_in k (difference s t) ≡ (is_in k s && not (is_in k t))
is_in-difference k [] t = refl
is_in-difference k (x ∷ s) t = elim (Bool-cases (eqb x k)) [
  | inl same ↦
      let e : x ≡ k = ground (arith, same) in
      let at : is_in x t ≡ is_in k t = ap (λ j. is_in j t) e in
      ground (arith, is_in-difference k s t, at)
  | inr other ↦ ground (arith, is_in-difference k s t)
]

distinct-difference : (s t : List ℕ) → distinct s ≡ true → distinct (difference s t) ≡ true
distinct-difference [] t h = refl
distinct-difference (x ∷ s) t h = ground (arith, distinct-difference s t, is_in-difference x s t)

all-difference :
    (m s t : List ℕ) → all (λ k. is_in k m) s ≡ true → all (λ k. is_in k m) (difference s t) ≡ true
all-difference m [] t h = refl
all-difference m (x ∷ s) t h = ground (arith, all-difference m s t)

all-by :
    (m ks : List ℕ)
    → ((k : ℕ) → (is_in k ks ≡ false) ⊎ (is_in k m ≡ true))
    → all (λ k. is_in k m) ks ≡ true
all-by m [] h = refl
all-by m (x ∷ ks) h =
    let rest = all-by m ks (λ k. let at = h k in ground (arith, at)) in
    let here = h x in ground (arith, rest, here)

-- From a state that is ready for a refresh (the ingress keys are a set, and all in the map), a
-- refresh with ports that are 16-bit numbers, when the keys of the map and the new ports together
-- are at most 256, succeeds, and afterwards the ingress keys are those of the new ports. The map
-- then holds these, and the keys that it held and that were no ingress keys, the egress ports. The
-- state is ready for the next refresh.
pub ports_refreshed :
    (tcp udp : List ℕ) (s : FirewallAllowPorts)
    → Inv s
    → are_ports tcp ≡ true
    → are_ports udp ≡ true
    → length s.map + length tcp + length udp ≤ max_ports
    → (t : FirewallAllowPorts) × (update_ingress tcp udp s ≡ (t, true))
      × ((k : ℕ) → is_in k t.ingress ≡ (asks k proto_tcp tcp || asks k proto_udp udp))
      × ((k : ℕ)
          → is_in k t.map ≡ (
              asks k proto_tcp tcp
              || asks k proto_udp udp
              || (is_in k s.map && not (is_in k s.ingress))))
      × Inv t
unfolding update_ingress
ports_refreshed tcp udp s v ht hu room =
    let (d1, made1, keys1, short1) = desired-keys proto_tcp tcp [] ht in
    let (d, made, keys, short) = desired-keys proto_udp udp d1 hu in
    let gone = difference s.ingress d in
    let r =
      remove-Loop gone s (all-difference s.map s.ingress d v.held)
        (distinct-difference s.ingress d v.once) v.once in
    let kept : all (λ k. is_in k r.next.map) r.next.ingress ≡ true =
      all-by r.next.map r.next.ingress
        (λ k. ground (arith, r.map k, r.ingress k, all-in k s.map s.ingress v.held)) in
    let i = insert-Loop d r.next kept r.once (omega (arith, r.short, short, short1)) in
    (
      i.next,
      rw (made1, made, r.done) i.done,
      λ k.
          ground (arith, i.ingress k, r.ingress k, keys k, keys1 k, is_in-difference k s.ingress d),
      λ k. ground (
        arith,
        i.map k,
        r.map k,
        keys k,
        keys1 k,
        is_in-difference k s.ingress d,
        all-in k s.map s.ingress v.held,
      ),
      record {
        held = all-by i.next.map i.next.ingress (λ k.
            ground
              (arith, i.map k, i.ingress k, r.map k, r.ingress k, all-in k s.map s.ingress v.held));
        once = i.once;
      },
    )
