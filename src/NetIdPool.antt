-- ===== src/NetIdPool.antt =====
-- members/nullnet-server/src/net_id_pool.rs: the pool of VLAN and VXLAN network IDs.
pub mod Fifo
pub mod Leases
mod Tests
use nullnet.Prelude.{
  Bool, List, Option, [], eqb, false, if◌then◌else◌, leb, none, not, some, true, ℕ, ◌%◌, ◌&&◌, ◌++◌,
  ◌+◌, ◌^◌, ◌∷◌,
}

-- The generated enum `Net` of the gRPC interface: the setting NET_TYPE.
pub data Net : Type 0 where
  vlan vxlan : Net

abbrev pub min_net_id : ℕ
min_net_id = 101

abbrev pub max_net_id : Net → ℕ
max_net_id vlan = 4094
max_net_id vxlan = 2097151

-- `freed` has its front at the head. The hash set is its membership test.
pub record NetIdPool : Type 0 where
  pub next_fresh : ℕ
  pub freed : List ℕ
  pub freed_set : ℕ → Bool

abbrev put : (ℕ → Bool) → ℕ → Bool → ℕ → Bool
put s id b x = if eqb x id then b else s x

unfoldable pub new : NetIdPool
new = record { next_fresh = min_net_id; freed = []; freed_set = λ _. false }

unfoldable pub fresh : Net → NetIdPool → Option ℕ × NetIdPool
fresh net p =
    if leb p.next_fresh (max_net_id net)
    then (some p.next_fresh, record p { next_fresh = (p.next_fresh + 1) % 2 ^ 32 })
    else (none, p)

unfoldable pub reuse : Net → NetIdPool → List ℕ → Option ℕ × NetIdPool
unfolding fresh
reuse net p [] = fresh net p
reuse net p (id ∷ rest) = (some id, record p { freed = rest; freed_set = put p.freed_set id false })

unfoldable pub allocate : Net → NetIdPool → Option ℕ × NetIdPool
unfolding reuse
allocate net p = reuse net p p.freed

-- `HashSet::insert` answers whether the value was absent.
pub free : Net → ℕ → NetIdPool → NetIdPool
free net id p =
    if leb min_net_id id && leb id (max_net_id net) && not (p.freed_set id)
    then record p { freed = p.freed ++ id ∷ []; freed_set = put p.freed_set id true }
    else p
