-- ===== src/NetIdPool/Tests.antt =====
-- Examples of the pool: members/nullnet-server/src/net_id_pool.rs.
use nullnet.Prelude.{
  [], arith, count, false, length, map, none, refl, some, ◌++◌, ◌-◌, ◌↔◌, ◌∷◌, ◌≡◌, ◌≤◌, nat_eq,
}
use nullnet.NetIdPool.{Net, NetIdPool, max_net_id, new, allocate, reuse, fresh, free}
use nullnet.NetIdPool.Leases.{System, Step, Reach, allocate_exclusive, allocate-eq-none_iff}
use nullnet.NetIdPool.Fifo.{allocate_many, free_fifo}

-- Two edges come up, and the first goes down.
abbrev one_up : System
one_up = record { pool = (allocate Net.vlan new).1; live = 101 ∷ [] }

abbrev down : System
down = record { pool = free Net.vlan 101 one_up.pool; live = [] }

one_up-Reach : Reach Net.vlan one_up
unfolding allocate reuse fresh new
one_up-Reach = Reach.next Reach.start (Step.allocates refl)

down-Reach : Reach Net.vlan down
down-Reach = Reach.next one_up-Reach (Step.releases 101 (omega arith) refl)

second : allocate Net.vlan one_up.pool ≡ (some 102, (allocate Net.vlan one_up.pool).1)
unfolding allocate reuse fresh new
second = refl

again : (allocate Net.vlan down.pool).0 ≡ some 101
unfolding allocate reuse fresh new free
again = refl

out_of_range : free Net.vlan 4095 one_up.pool ≡ one_up.pool
unfolding free
out_of_range = refl

allocate_exclusive_example : (count 102 one_up.live ≡ 0) × (101 ≤ 102) × (102 ≤ max_net_id Net.vlan)
allocate_exclusive_example =
    allocate_exclusive Net.vlan 102 (allocate Net.vlan one_up.pool).1 one_up-Reach second

allocate-eq-none_iff_example :
    ((allocate Net.vlan down.pool).0 ≡ none) ↔ (length down.live ≡ max_net_id Net.vlan - 100)
allocate-eq-none_iff_example = allocate-eq-none_iff Net.vlan down-Reach

-- A late teardown: 101 is given back, allocated again, and given back once more by its old holder,
-- so that it is handed out beside its new one.
abbrev taken_again : NetIdPool
taken_again = (allocate Net.vlan down.pool).1

handed_out_twice : (allocate Net.vlan (free Net.vlan 101 taken_again)).0 ≡ some 101
unfolding allocate reuse fresh new free
handed_out_twice = refl

not_queued : down.pool.freed_set 300 ≡ false
unfolding free allocate new reuse fresh
not_queued = refl

free_fifo_example :
    (allocate_many Net.vlan (length (down.pool.freed ++ 300 ∷ [])) (free Net.vlan 300 down.pool)
      ≡ map some (down.pool.freed ++ 300 ∷ []))
    × (free Net.vlan 300 (free Net.vlan 300 down.pool) ≡ free Net.vlan 300 down.pool)
free_fifo_example = free_fifo Net.vlan 300 down.pool (omega arith) (omega arith) not_queued
