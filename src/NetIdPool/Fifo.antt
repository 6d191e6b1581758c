-- ===== src/NetIdPool/Fifo.antt =====
-- The order in which freed IDs come back: members/nullnet-server/src/net_id_pool.rs.
use nullnet.Prelude.{
  Bool-cases, List, Option, [], arith, false, inl, inr, length, map, refl, some, suc, zero, ℕ, ◌++◌,
  ◌∷◌, ◌≡◌, ◌≤◌,
}
use nullnet.NetIdPool.{Net, max_net_id, NetIdPool, allocate, reuse, free}

-- `n` calls of `allocate`, and the pool after them.
abbrev pub allocate_many : Net → ℕ → NetIdPool → List (Option ℕ)
allocate_many net zero p = []
allocate_many net (suc n) p = (allocate net p).0 ∷ allocate_many net n (allocate net p).1

allocate_first :
    (net : Net) (p : NetIdPool) (x : ℕ) (xs : List ℕ)
    → p.freed ≡ x ∷ xs
    → ((allocate net p).0 ≡ some x) × ((allocate net p).1.freed ≡ xs)
unfolding allocate reuse
allocate_first net p x xs e = ground arith

allocate_many-freed :
    (net : Net) (q : List ℕ) (p : NetIdPool)
    → p.freed ≡ q
    → allocate_many net (length q) p ≡ map some q
allocate_many-freed net [] p e = refl
allocate_many-freed net (x ∷ xs) p e =
    let (first, others) = allocate_first net p x xs e in
    rw (first, allocate_many-freed net xs (allocate net p).1 others)

module _ (net : Net) (id : ℕ) (p : NetIdPool) (lo : 101 ≤ id) (hi : id ≤ max_net_id net) where
  freed-free : p.freed_set id ≡ false → (free net id p).freed ≡ p.freed ++ id ∷ []
  unfolding free
  freed-free out = ground arith

  free-free : free net id (free net id p) ≡ free net id p
  unfolding free
  free-free = elim (Bool-cases (p.freed_set id)) [
    | inl queued ↦ ground arith
    | inr out ↦ ground arith
  ]

  -- An ID of the range that is not queued goes behind all the IDs that wait: the next calls of
  -- `allocate` answer these, in the order in which they were freed, and then the ID. Giving it
  -- back a second time changes nothing.
  pub free_fifo :
      p.freed_set id ≡ false
      → (allocate_many net (length (p.freed ++ id ∷ [])) (free net id p)
          ≡ map some (p.freed ++ id ∷ []))
        × (free net id (free net id p) ≡ free net id p)
  free_fifo out = (allocate_many-freed net _ (free net id p) (freed-free out), free-free)
