-- ===== src/NetIdPool/Leases.antt =====
-- The pool beside the IDs that its callers hold: members/nullnet-server/src/net_id_pool.rs.
use nullnet.Prelude.{
  Bool, Bool-cases, List, Option, [], ap, arith, count, count-append, eqb, erase, if◌then◌else◌,
  inl, inr, leb, length, length-append, ltb, none, not, refl, some, suc, true, ℕ, ◌&&◌, ◌+◌, ◌-◌,
  ◌<◌, ◌^◌, ◌↔◌, ◌∷◌, ◌≡◌, ◌≤◌, nat_eq,
}
use nullnet.NetIdPool.{Net, max_net_id, NetIdPool, new, allocate, reuse, fresh, free}

-- The pool, and the IDs of the edges that are up.
pub record System : Type 0 where
  pub pool : NetIdPool
  pub live : List ℕ

abbrev grant : Option ℕ × NetIdPool → List ℕ → System
grant (none, p) live = record { pool = p; live = live }
grant (some id, p) live = record { pool = p; live = id ∷ live }

-- What the server does: it takes an ID for an edge, gives back one that is held, or gives one back
-- once more while nobody holds it (a teardown that is repeated). A pool of numbers cannot tell who
-- gives an ID back: a late teardown of an ID that was allocated again meanwhile takes it from its
-- new holder (docs/net-id-reuse-races.md), and no step here stands for it.
pub data Step (net : Net) (s t : System) : Type 0 where
  allocates : t ≡ grant (allocate net s.pool) s.live → Step net s t
  releases :
      (id : ℕ)
      → 0 < count id s.live
      → t ≡ record { pool = free net id s.pool; live = erase id s.live }
      → Step net s t
  releases_again :
      (id : ℕ)
      → count id s.live ≡ 0
      → id < s.pool.next_fresh
      → t ≡ record { pool = free net id s.pool; live = s.live }
      → Step net s t

pub data Reach (net : Net) : System → Type 0 where
  start : Reach net (record { pool = new; live = [] })
  next : {s t : System} → Reach net s → Step net s t → Reach net t

abbrev handed_out : NetIdPool → ℕ → Bool
handed_out p id = leb 101 id && ltb id p.next_fresh

-- Each ID that was handed out is live or queued, once; the set is the queue's membership test.
pub record Inv (net : Net) (s : System) : Type 0 where
  pub low : 101 ≤ s.pool.next_fresh
  pub high : s.pool.next_fresh ≤ suc (max_net_id net)
  pub parted :
      (id : ℕ) → count id s.live + count id s.pool.freed ≡ (if handed_out s.pool id then 1 else 0)
  pub sized : length s.live + length s.pool.freed + 101 ≡ s.pool.next_fresh
  pub indexed : (id : ℕ) → s.pool.freed_set id ≡ ltb 0 (count id s.pool.freed)

count-erase :
    (a b : ℕ) (xs : List ℕ)
    → 0 < count a xs
    → count b (erase a xs) + (if eqb a b then 1 else 0) ≡ count b xs
count-erase a b [] h = absurd (omega arith)
count-erase a b (x ∷ xs) h = ground (arith, count-erase a b xs)

length-erase : (a : ℕ) (xs : List ℕ) → 0 < count a xs → length (erase a xs) + 1 ≡ length xs
length-erase a [] h = absurd (omega arith)
length-erase a (x ∷ xs) h = ground (arith, length-erase a xs)

start-Inv : (net : Net) → Inv net (record { pool = new; live = [] })
unfolding new
start-Inv Net.vlan = record {
  low = omega arith;
  high = omega arith;
  parted = λ id. ground arith;
  sized = omega arith;
  indexed = λ id. refl;
}
start-Inv Net.vxlan = record {
  low = omega arith;
  high = omega arith;
  parted = λ id. ground arith;
  sized = omega arith;
  indexed = λ id. refl;
}

max-lt-2^32 : (net : Net) → suc (max_net_id net) < 2 ^ 32
max-lt-2^32 Net.vlan = omega arith
max-lt-2^32 Net.vxlan = omega arith

module _ (net : Net) (p : NetIdPool) (live : List ℕ)
    (v : Inv net (record { pool = p; live = live })) where
  fresh-Inv : p.freed ≡ [] → Inv net (grant (fresh net p) live)
  unfolding fresh
  fresh-Inv e = elim (Bool-cases (leb p.next_fresh (max_net_id net))) [
    | inl room ↦
        rw (room, fresh)
          (record {
            low = ground (arith, max-lt-2^32 net);
            high = ground (arith, max-lt-2^32 net);
            parted = λ id. ground (arith, v.parted id, ap (count id) e, max-lt-2^32 net);
            sized = ground (arith, v.sized, max-lt-2^32 net);
            indexed = v.indexed;
          })
    | inr full ↦ rw (full, fresh) v
  ]

  reuse-Inv : (q : List ℕ) → p.freed ≡ q → Inv net (grant (reuse net p q) live)
  unfolding reuse
  reuse-Inv [] e = fresh-Inv e
  reuse-Inv (x ∷ xs) e = record {
    low = v.low;
    high = v.high;
    parted = λ id. ground (arith, v.parted id, ap (count id) e);
    sized = ground (arith, v.sized, ap length e);
    indexed = λ id. ground (arith, v.indexed id, v.parted x, ap (count id) e, ap (count x) e);
  }

  -- An ID that is held can be queued; one that is not held, and was once, is queued already.
  can_queue :
      (id : ℕ)
      → 0 < count id live
      → (leb 101 id && leb id (max_net_id net) && not (p.freed_set id)) ≡ true
  can_queue id held = ground (arith, v.parted id, v.indexed id, v.high)

  pub free_again : (id : ℕ) → count id live ≡ 0 → id < p.next_fresh → free net id p ≡ p
  unfolding free
  free_again id gone used = ground (arith, v.parted id, v.indexed id)

  free-Inv :
      (id : ℕ) → 0 < count id live → Inv net (record { pool = free net id p; live = erase id live })
  unfolding free
  free-Inv id held =
      rw (can_queue id held, free)
        (record {
          low = v.low;
          high = v.high;
          parted = λ b.
              ground (arith, v.parted b, count-erase id b live, count-append b p.freed (id ∷ []));
          sized = ground (arith, length-erase id live held, length-append p.freed (id ∷ []));
          indexed = λ b. ground (arith, v.indexed b, count-append b p.freed (id ∷ []));
        })

allocate-Inv : (net : Net) {s : System} → Inv net s → Inv net (grant (allocate net s.pool) s.live)
unfolding allocate
allocate-Inv net {s} v = reuse-Inv net s.pool s.live v s.pool.freed refl

pub Step-Inv : (net : Net) {s t : System} → Inv net s → Step net s t → Inv net t
Step-Inv net {s} v (Step.allocates e) = rw e (allocate-Inv net v)
Step-Inv net {s} v (Step.releases id held e) = rw e (free-Inv net s.pool s.live v id held)
Step-Inv net {s} v (Step.releases_again id gone used e) =
    rw (e, free_again net s.pool s.live v id gone used) v

pub Reach-Inv : (net : Net) {s : System} → Reach net s → Inv net s
Reach-Inv net Reach.start = start-Inv net
Reach-Inv net (Reach.next r st) = Step-Inv net (Reach-Inv net r) st

reuse-some :
    (net : Net) (p p' : NetIdPool) (live q : List ℕ) (id : ℕ)
    → Inv net (record { pool = p; live = live })
    → p.freed ≡ q
    → reuse net p q ≡ (some id, p')
    → (count id live ≡ 0) × (101 ≤ id) × (id ≤ max_net_id net)
unfolding reuse fresh
reuse-some net p p' live [] id v e h = ground (arith, v.parted id, v.high, v.low)
reuse-some net p p' live (x ∷ xs) id v e h =
    ground (arith, v.parted id, v.high, v.low, ap (count id) e)

-- An allocated ID is held by nobody, and lies between 101 and the maximum, in every history in which
-- an ID is given back by its holder only, or once more while nobody holds it. Late teardowns of an
-- ID that was allocated again meanwhile are not in these histories.
pub allocate_exclusive :
    (net : Net) {s : System} (id : ℕ) (p' : NetIdPool)
    → Reach net s
    → allocate net s.pool ≡ (some id, p')
    → (count id s.live ≡ 0) × (101 ≤ id) × (id ≤ max_net_id net)
unfolding allocate
allocate_exclusive net {s} id p' r h =
    reuse-some net s.pool p' s.live s.pool.freed id (Reach-Inv net r) refl h

reuse-none :
    (net : Net) (p : NetIdPool) (live q : List ℕ)
    → Inv net (record { pool = p; live = live })
    → p.freed ≡ q
    → ((reuse net p q).0 ≡ none) ↔ (length live ≡ max_net_id net - 100)
unfolding reuse fresh
reuse-none net p live [] v e = ground (arith, v.sized, v.high, ap length e)
reuse-none net p live (x ∷ xs) v e = ground (arith, v.sized, v.high, ap length e)

-- In every history in which an ID is given back by its holder only, or once more while nobody holds
-- it, the pool refuses exactly when every ID of the range is held: 3994 of VLAN, 2,097,051 of VXLAN.
pub allocate-eq-none_iff :
    (net : Net) {s : System}
    → Reach net s
    → ((allocate net s.pool).0 ≡ none) ↔ (length s.live ≡ max_net_id net - 100)
unfolding allocate
allocate-eq-none_iff net {s} r = reuse-none net s.pool s.live s.pool.freed (Reach-Inv net r) refl
