-- ===== src/HostFirewall/Peers/Counts.antt =====
-- What a change of one count does to the peers: members/nullnet-client/src/ebpf/mod.rs.
use nullnet.Prelude.{
  Bool-cases, Distinct, Option, ap, arith, eqb, get, get-insert, get-remove, if◌then◌else◌, inl,
  inr, insert, insert-Distinct, length, length-insert-le, length-remove-le, ltb, none, refl, remove,
  remove-Distinct, some, true, ℕ, ◌+◌, ◌-◌, ◌<◌, ◌>>=◌, ◌^◌, ◌∙◌, ◌≡◌, ◌≤◌, nat_eq,
}
use nullnet.HostFirewall.Peers.{net_id_eq, FirewallPeers, max_entries, incr, decr, decr_at}

abbrev pub nonzero : ℕ → Option ℕ
nonzero n = if eqb n 0 then none else some n

abbrev pub marked : ℕ → Option ℕ
marked n = if eqb n 0 then none else some 0

-- The counts are `n`, and the map holds the keys that count.
pub record Counts (n : ℕ → ℕ) (s : FirewallPeers) : Type 0 where
  pub refs : (key : ℕ) → get key s.refcounts ≡ nonzero (n key)
  pub keys : (key : ℕ) → get key s.map ≡ marked (n key)
  pub distinct : Distinct s.map

abbrev pub one_at : ℕ → ℕ → ℕ
one_at key j = if eqb key j then 1 else 0

-- A change of the counts that ends well.
pub record Changed (extra : ℕ) (n : ℕ → ℕ) (s : FirewallPeers) (r : Option FirewallPeers)
    : Type 0 where
  pub after : FirewallPeers
  pub changed : r ≡ some after
  pub counts : Counts n after
  pub by_id : after.by_id ≡ s.by_id
  pub grown : length after.map ≤ length s.map + extra

pub incr-Changed :
    (key : ℕ) (n : ℕ → ℕ) (s : FirewallPeers)
    → Counts n s
    → n key + 1 < 2 ^ 32
    → length s.map < max_entries
    → Changed 1 (λ j. n j + one_at key j) s (incr key s)
unfolding incr
incr-Changed key n s v small room =
    let r = v.refs key in
    let full : ltb (length s.map) 4096 ≡ true = ground (arith, room) in
    elim (Bool-cases (eqb (n key) 0)) [
      | inl first ↦
          let absent : get key s.refcounts ≡ none = ground (arith, r) in
          record {
            after = record s { refcounts = insert key 1 s.refcounts; map = insert key 0 s.map };
            changed = rw (absent, full) ground (arith);
            counts = record {
              refs = λ j. ground (arith, v.refs j, get-insert key j 1 s.refcounts);
              keys = λ j. ground (arith, v.keys j, get-insert key j 0 s.map);
              distinct = insert-Distinct key 0 s.map v.distinct;
            };
            by_id = refl;
            grown = length-insert-le key 0 s.map;
          }
      | inr again ↦
          let present : get key s.refcounts ≡ some (n key) = ground (arith, r) in
          record {
            after = record s { refcounts = insert key (n key + 1) s.refcounts };
            changed = rw present ground (arith, small);
            counts = record {
              refs = λ j. ground (arith, v.refs j, get-insert key j (n key + 1) s.refcounts);
              keys = λ j. ground (arith, v.keys j);
              distinct = v.distinct;
            };
            by_id = refl;
            grown = omega arith;
          }
    ]

pub decr-Changed :
    (key : ℕ) (n : ℕ → ℕ) (s : FirewallPeers)
    → Counts n s
    → 1 ≤ n key
    → Changed 0 (λ j. n j - one_at key j) s (decr key s)
unfolding decr decr_at
decr-Changed key n s v some_edge =
    let r = v.refs key in
    let present : get key s.refcounts ≡ some (n key) = ground (arith, r) in
    elim (Bool-cases (eqb (n key) 1)) [
      | inl last ↦ record {
        after = record s { refcounts = remove key s.refcounts; map = remove key s.map };
        changed = rw present ground (arith);
        counts = record {
          refs = λ j. ground (arith, v.refs j, get-remove key j s.refcounts);
          keys = λ j. ground (arith, v.keys j, get-remove key j s.map);
          distinct = remove-Distinct key s.map v.distinct;
        };
        by_id = refl;
        grown = omega (arith, length-remove-le key s.map);
      }
      | inr more ↦ record {
        after = record s { refcounts = insert key (n key - 1) s.refcounts };
        changed = rw present ground (arith);
        counts = record {
          refs = λ j. ground (arith, v.refs j, get-insert key j (n key - 1) s.refcounts);
          keys = λ j. ground (arith, v.keys j);
          distinct = v.distinct;
        };
        by_id = refl;
        grown = omega arith;
      }
    ]

pub move-Changed :
    (old key : ℕ) (n : ℕ → ℕ) (s : FirewallPeers)
    → Counts n s
    → 1 ≤ n old
    → n key + 1 < 2 ^ 32
    → length s.map < max_entries
    → Changed 1 (λ j. n j - one_at old j + one_at key j) s (decr old s >>= incr key)
move-Changed old key n s v some_edge small room =
    let d = decr-Changed old n s v some_edge in
    let c = incr-Changed key _ d.after d.counts (omega arith) (omega (arith, d.grown)) in
    record {
      after = c.after;
      changed = ap (λ q. q >>= incr key) d.changed ∙ c.changed;
      counts = c.counts;
      by_id = c.by_id ∙ d.by_id;
      grown = omega (arith, c.grown, d.grown);
    }
