-- ===== src/HostFirewall/Ports/Refresh.antt =====
-- What a refresh of the ingress ports leaves: members/nullnet-client/src/ebpf/mod.rs.
use nullnet.Prelude.{
  Bool, Bool-cases, List, [], all, arith, eqb, false, inl, inr, length, ltb, not, refl, true, ℕ,
  ◌&&◌, ◌+◌, ◌||◌, ◌∷◌, ◌≡◌, ◌≤◌, nat_eq,
}
use nullnet.HostFirewall.{is_in}
use nullnet.HostFirewall.Ports.{
  FirewallAllowPorts, max_ports, map_insert, map_remove, without, remove_keys, insert_keys,
}

abbrev pub distinct : List ℕ → Bool
distinct [] = true
distinct (k ∷ ks) = not (is_in k ks) && distinct ks

-- The ingress keys are a set, and are all in the map.
pub record Inv (s : FirewallAllowPorts) : Type 0 where
  pub held : all (λ k. is_in k s.map) s.ingress ≡ true
  pub once : distinct s.ingress ≡ true

is_in-without : (k key : ℕ) (m : List ℕ) → is_in k (without key m) ≡ (is_in k m && not (eqb key k))
is_in-without k key [] = refl
is_in-without k key (x ∷ m) = ground (arith, is_in-without k key m)

length-without : (key : ℕ) (m : List ℕ) → length (without key m) ≤ length m
length-without key [] = omega arith
length-without key (x ∷ m) = ground (arith, length-without key m)

all-without :
    (key : ℕ) (m ks : List ℕ)
    → is_in key ks ≡ false
    → all (λ k. is_in k m) ks ≡ true
    → all (λ k. is_in k (without key m)) ks ≡ true
all-without key m [] h a = refl
all-without key m (k ∷ ks) h a = ground (arith, is_in-without k key m, all-without key m ks)

distinct-without : (key : ℕ) (ks : List ℕ) → distinct ks ≡ true → distinct (without key ks) ≡ true
distinct-without key [] h = refl
distinct-without key (k ∷ ks) h = ground (arith, distinct-without key ks, is_in-without k key ks)

-- A loop that succeeds, and what the sets have after it.
pub record Loop (on_map on_ingress : ℕ → Bool) (longest : ℕ) (r : FirewallAllowPorts × Bool)
    : Type 0 where
  pub next : FirewallAllowPorts
  pub done : r ≡ (next, true)
  pub map : (k : ℕ) → is_in k next.map ≡ on_map k
  pub ingress : (k : ℕ) → is_in k next.ingress ≡ on_ingress k
  pub short : length next.map ≤ longest
  pub once : distinct next.ingress ≡ true

pub remove-Loop :
    (ks : List ℕ) (s : FirewallAllowPorts)
    → all (λ k. is_in k s.map) ks ≡ true
    → distinct ks ≡ true
    → distinct s.ingress ≡ true
    → Loop
        (λ k. is_in k s.map && not (is_in k ks))
        (λ k. is_in k s.ingress && not (is_in k ks))
        (length s.map)
        (remove_keys ks s)
unfolding remove_keys map_remove
remove-Loop [] s h d u = record {
  next = s;
  done = refl;
  map = λ k. ground arith;
  ingress = λ k. ground arith;
  short = omega arith;
  once = u;
}
remove-Loop (key ∷ ks) s h d u =
    let s' : FirewallAllowPorts = record {
      map = without key s.map;
      ingress = without key s.ingress;
    } in
    let here : is_in key s.map ≡ true = ground (arith, h) in
    let rest =
      remove-Loop ks s' (all-without key s.map ks (ground (arith, d)) (ground (arith, h)))
        (ground (arith, d)) (distinct-without key s.ingress u) in
    record {
      next = rest.next;
      done = rw here rest.done;
      map = λ k. ground (arith, rest.map k, is_in-without k key s.map);
      ingress = λ k. ground (arith, rest.ingress k, is_in-without k key s.ingress);
      short = omega (arith, rest.short, length-without key s.map);
      once = rest.once;
    }

pub all-in :
    (k : ℕ) (m ks : List ℕ) → all (λ j. is_in j m) ks ≡ true → is_in k ks ≡ true → is_in k m ≡ true
all-in k m [] a h = absurd (ground (arith, h))
all-in k m (j ∷ ks) a h = ground (arith, all-in k m ks)

pub all-cons :
    (key : ℕ) (m ks : List ℕ)
    → all (λ j. is_in j m) ks ≡ true
    → all (λ j. is_in j (key ∷ m)) ks ≡ true
all-cons key m [] a = refl
all-cons key m (j ∷ ks) a = ground (arith, all-cons key m ks)

pub insert-Loop :
    (ks : List ℕ) (s : FirewallAllowPorts)
    → all (λ k. is_in k s.map) s.ingress ≡ true
    → distinct s.ingress ≡ true
    → length s.map + length ks ≤ max_ports
    → Loop
        (λ k. is_in k s.map || is_in k ks)
        (λ k. is_in k s.ingress || is_in k ks)
        (length s.map + length ks)
        (insert_keys ks s)
unfolding insert_keys map_insert
insert-Loop [] s h u room = record {
  next = s;
  done = refl;
  map = λ k. ground arith;
  ingress = λ k. ground arith;
  short = omega arith;
  once = u;
}
insert-Loop (key ∷ ks) s h u room = elim (Bool-cases (is_in key s.ingress)) [
  | inl known ↦
      let in_map = all-in key s.map s.ingress h known in
      let rest = insert-Loop ks s h u (omega arith) in
      record {
        next = rest.next;
        done = rw known rest.done;
        map = λ k. ground (arith, rest.map k, in_map);
        ingress = λ k. ground (arith, rest.ingress k, known);
        short = omega (arith, rest.short);
        once = rest.once;
      }
  | inr new ↦ elim (Bool-cases (is_in key s.map)) [
    | inl there ↦
        let s' : FirewallAllowPorts = record { map = s.map; ingress = key ∷ s.ingress } in
        let rest =
          insert-Loop ks s' (ground (arith, there, h)) (ground (arith, new, u)) (omega arith) in
        record {
          next = rest.next;
          done = rw (new, there) rest.done;
          map = λ k. ground (arith, rest.map k, there);
          ingress = λ k. ground (arith, rest.ingress k);
          short = omega (arith, rest.short);
          once = rest.once;
        }
    | inr missing ↦
        let s' : FirewallAllowPorts = record { map = key ∷ s.map; ingress = key ∷ s.ingress } in
        let free : ltb (length s.map) max_ports ≡ true = ground (arith, room) in
        let rest =
          insert-Loop ks s' (ground (arith, all-cons key s.map s.ingress h))
            (ground (arith, new, u)) (omega arith) in
        record {
          next = rest.next;
          done = rw (new, missing, free) rest.done;
          map = λ k. ground (arith, rest.map k);
          ingress = λ k. ground (arith, rest.ingress k);
          short = omega (arith, rest.short);
          once = rest.once;
        }
  ]
]
