-- ===== src/HostFirewall/Peers/Edges.antt =====
-- Which peers the firewall knows: members/nullnet-client/src/ebpf/mod.rs.
use mathlib.Core.Path.{subst}
use mathlib.Core.Option.{some-injective}
use nullnet.Prelude.{
  Bool-cases, Distinct, Map, Option, Option-cases, [], ap, arith, eqb, get, get-remove,
  if◌then◌else◌, inl, inr, insert, insert-Distinct, length, ltb, ltb→lt, none, refl, remove,
  remove-Distinct, remove_absent, some, sym, tally, tally-insert, tally-le-length, tally-remove, ℕ,
  ◌+◌, ◌<◌, ◌==◌, ◌∙◌, ◌∷◌, ◌≡◌, ◌≤◌, ◌⊎◌, nat_eq,
}
use nullnet.Addr.{Ipv4Addr, bits}
use nullnet.HostFirewall.Peers.{
  NetId, net_id_eq, FirewallPeers, max_entries, re_point, add, drop_reference, remove_edge,
  edges_of,
}
use nullnet.HostFirewall.Peers
use nullnet.HostFirewall.Peers.Counts.{
  nonzero, marked, Counts, incr-Changed, decr-Changed, move-Changed,
}

length-remove-ge : (p : ℕ) (m : Map ℕ ℕ) → Distinct m → length m ≤ length (remove p m) + 1
unfolding remove
length-remove-ge p [] d = omega arith
length-remove-ge p ((k, v) ∷ m) d = elim (Bool-cases (k == p)) [
  | inl same ↦ rw same (omega (arith, ap length (remove_absent p m (ground (arith, d.0)))))
  | inr other ↦ rw other (omega (arith, length-remove-ge p m d.1))
]

-- A table whose keys all stand among the values of another is no longer than it.
pigeon :
    (b : Map NetId ℕ) (m : Map ℕ ℕ)
    → Distinct m
    → ((k : ℕ) → get k m ≡ none ⊎ (1 ≤ edges_of k b))
    → length m ≤ length b
unfolding tally get
pigeon [] [] d h = omega arith
pigeon [] ((k, v) ∷ m) d h = let here = h k in ground (arith, here)
pigeon ((i, p) ∷ b) m d h =
    let rest =
      pigeon b (remove p m) (remove-Distinct p m d) (λ k. ground (arith, h k, get-remove p k m)) in
    omega (arith, rest, length-remove-ge p m d)

-- The counts are the numbers of edges, and each edge is there once.
pub record Inv (s : FirewallPeers) : Type 0 where
  pub counts : Counts (λ key. edges_of key s.by_id) s
  pub edges : Distinct s.by_id

new-Inv : Inv Peers.new
unfolding Peers.new get tally
new-Inv = record {
  counts = record { refs = λ key. refl; keys = λ key. refl; distinct = tt };
  edges = tt;
}

Inv-length : (s : FirewallPeers) → Inv s → length s.map ≤ length s.by_id
Inv-length s v = pigeon s.by_id s.map v.counts.distinct (λ k. ground (arith, v.counts.keys k))

recount : (n m : ℕ → ℕ) (s : FirewallPeers) → ((key : ℕ) → n key ≡ m key) → Counts n s → Counts m s
recount n m s e v = record {
  refs = λ key. v.refs key ∙ ap nonzero (e key);
  keys = λ key. v.keys key ∙ ap marked (e key);
  distinct = v.distinct;
}

-- A call that ends well.
pub record Runs (r : Option FirewallPeers) : Type 0 where
  pub next : FirewallPeers
  pub runs : r ≡ some next
  pub inv : Inv next

module _ (s : FirewallPeers) (v : Inv s) where
  abbrev edges_now : ℕ → ℕ
  edges_now key = edges_of key s.by_id

  remove-Runs : (id : NetId) → Runs (remove_edge id s)
  unfolding remove_edge drop_reference
  remove-Runs id = elim (Option-cases (get id s.by_id)) [
    | inl absent ↦ record {
      next = record s { by_id = remove id s.by_id };
      runs = rw absent refl;
      inv = record {
        counts =
            recount edges_now _ _ (λ k. rw (remove_absent id s.by_id absent) refl)
              (record { refs = v.counts.refs; keys = v.counts.keys; distinct = v.counts.distinct });
        edges = remove-Distinct id s.by_id v.edges;
      };
    }
    | inr (key, found) ↦
        let t = λ (k : ℕ). tally-remove (λ _ peer. eqb peer k) id s.by_id v.edges in
        let c =
          decr-Changed key edges_now (record s { by_id = remove id s.by_id })
            (record { refs = v.counts.refs; keys = v.counts.keys; distinct = v.counts.distinct })
            (ground (arith, t key, found)) in
        record {
          next = c.after;
          runs = rw found c.changed;
          inv = record {
            counts = recount _ _ _ (λ k. rw c.by_id (ground (arith, t k, found))) c.counts;
            edges = rw c.by_id (remove-Distinct id s.by_id v.edges);
          };
        }
  ]

  add-Runs : (id : NetId) (peer : Ipv4Addr) → length s.by_id < max_entries → Runs (add id peer s)
  unfolding add re_point
  add-Runs id peer room =
      let key = bits peer in
      let t = λ (k : ℕ). tally-insert (λ _ p. eqb p k) id key s.by_id in
      let few = Inv-length s v in
      let s0 = record s { by_id = insert id key s.by_id } in
      let v0 : Counts edges_now s0 = record {
        refs = v.counts.refs;
        keys = v.counts.keys;
        distinct = v.counts.distinct;
      } in
      let edges = insert-Distinct id key s.by_id v.edges in
      elim (Option-cases (get id s.by_id)) [
        | inl absent ↦
            let c =
              incr-Changed key edges_now s0 v0
                (omega (arith, tally-le-length (λ _ p. eqb p key) s.by_id)) (omega arith) in
            record {
              next = c.after;
              runs = rw absent c.changed;
              inv = record {
                counts = recount _ _ _ (λ k. rw c.by_id (ground (arith, t k, absent))) c.counts;
                edges = rw c.by_id edges;
              };
            }
        | inr (old, found) ↦ elim (Bool-cases (eqb old key)) [
          | inl same ↦ record {
            next = s0;
            runs = rw (found, same) refl;
            inv = record {
              counts = recount edges_now _ s0 (λ k. ground (arith, t k, found)) v0;
              edges = edges;
            };
          }
          | inr other ↦
              let u = λ (k : ℕ). tally-remove (λ _ p. eqb p k) id s.by_id v.edges in
              let c =
                move-Changed old key edges_now s0 v0 (ground (arith, u old, found))
                  (omega (arith, tally-le-length (λ _ p. eqb p key) s.by_id)) (omega arith) in
              record {
                next = c.after;
                runs = rw (found, other) c.changed;
                inv = record {
                  counts =
                      recount _ _ _ (λ k. rw c.by_id (ground (arith, t k, found, u k))) c.counts;
                  edges = rw c.by_id edges;
                };
              }
        ]
      ]

-- The states of the table of a host that never has more than 4096 edges at a time.
pub data Reach : FirewallPeers → Type 0 where
  starts : Reach Peers.new
  adds :
      {s t : FirewallPeers} (id : NetId) (peer : Ipv4Addr)
      → Reach s
      → length s.by_id < max_entries
      → add id peer s ≡ some t
      → Reach t
  removes : {s t : FirewallPeers} (id : NetId) → Reach s → remove_edge id s ≡ some t → Reach t

next_Inv : (r : Option FirewallPeers) (t : FirewallPeers) → Runs r → r ≡ some t → Inv t
next_Inv r t n e = subst Inv (some-injective n.next t (sym n.runs ∙ e)) n.inv

pub Reach-Inv : (s : FirewallPeers) → Reach s → Inv s
Reach-Inv _ starts = new-Inv
Reach-Inv _ (adds {s} {t} id peer r room e) =
    next_Inv _ t (add-Runs s (Reach-Inv s r) id peer room) e
Reach-Inv _ (removes {s} {t} id r e) = next_Inv _ t (remove-Runs s (Reach-Inv s r) id) e

-- On a host that never has more than 4096 edges at a time, the firewall's map holds a peer exactly
-- when an edge has it, and no call on the table panics: an edge is added or re-pointed while there
-- are fewer than 4096, and one is removed whether or not it is there.
pub peers_exact :
    (s : FirewallPeers) (id : NetId) (peer : Ipv4Addr)
    → Reach s
    → ((key : ℕ) → get key s.map ≡ (if eqb (edges_of key s.by_id) 0 then none else some 0))
      × ((max_entries ≤ length s.by_id) ⊎ ((t : FirewallPeers) × (add id peer s ≡ some t)))
      × ((t : FirewallPeers) × (remove_edge id s ≡ some t))
peers_exact s id peer r =
    let v = Reach-Inv s r in
    let d = remove-Runs s v id in
    (
      v.counts.keys,
      elim (Bool-cases (ltb (length s.by_id) max_entries)) [
        | inl room ↦ let a = add-Runs s v id peer (ltb→lt _ _ room) in inr (a.next, a.runs)
        | inr full ↦ inl (ground (arith, full))
      ],
      (d.next, d.runs),
    )
