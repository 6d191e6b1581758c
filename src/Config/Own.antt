-- ===== src/Config/Own.antt =====
-- The rows of a stack that was stored: members/nullnet-server/src/db/stacks.rs.
use nullnet.Prelude.{
  ==_refl, All, All-append, List, Text, [], arith, false, map, refl, true, ℕ, ◌++◌, ◌+◌, ◌<◌, ◌==◌,
  ◌∷◌, ◌≡◌, ◌≤◌, nat_eq, text_eq,
}
use nullnet.Config.Loaded.{triggers_from, branches_from}
use nullnet.Config.Rows.{ServiceInsert, ServiceTriggerRow, ServiceDependencyRow}
use nullnet.Config.Saved.{rows_from}
use nullnet.Config.Store.{trigger_row, branch_rows, has_id, order_rows, insert_ordered, comes_first}
use nullnet.Config.Tables.{All-map_under}

peers_own :
    (n : ℕ) (ids : List ℕ) (peers : List Text)
    → All
        (λ (r : ServiceTriggerRow). has_id r.service_id (n ∷ ids) ≡ true)
        (map (trigger_row n) peers)
peers_own n ids [] = tt
peers_own n ids (p ∷ peers) = (ground arith, peers_own n ids peers)

module _ {D : Type 0} where
  abbrev pub ids_from : Text → ℕ → List (ServiceInsert D) → List ℕ
  ids_from stack n ss = map (λ r. r.id) (rows_from stack n ss)

  pub not_drawn :
      (stack : Text) (k n : ℕ) (ss : List (ServiceInsert D))
      → k < n
      → has_id k (ids_from stack n ss) ≡ false
  not_drawn stack k n [] h = refl
  not_drawn stack k n (s ∷ ss) h = ground (arith, not_drawn stack k (n + 1) ss)

  pub rows_own :
      (stack : Text) (n : ℕ) (ss : List (ServiceInsert D))
      → All (λ r. (r.stack == stack) ≡ true) (rows_from stack n ss)
  rows_own stack n [] = tt
  rows_own stack n (s ∷ ss) = (==_refl stack, rows_own stack (n + 1) ss)

  pub triggers_own :
      (stack : Text) (n : ℕ) (ss : List (ServiceInsert D))
      → All (λ r. has_id r.service_id (ids_from stack n ss) ≡ true) (triggers_from n ss)
  triggers_own stack n [] = tt
  triggers_own stack n (s ∷ ss) =
      All-append _ (map (trigger_row n) s.backends) (triggers_from (n + 1) ss)
        (peers_own n (ids_from stack (n + 1) ss) s.backends)
        (All-map_under _ _ (triggers_from (n + 1) ss) (λ r e. ground arith)
          (triggers_own stack (n + 1) ss))

  chains_own :
      (n i : ℕ) (ids : List ℕ) (cs : List D)
      → All
          (λ (r : ServiceDependencyRow D). has_id r.service_id (n ∷ ids) ≡ true)
          (branch_rows n i cs)
  unfolding branch_rows
  chains_own n i ids [] = tt
  chains_own n i ids (c ∷ cs) = (ground arith, chains_own n (i + 1) ids cs)

  pub branches_own :
      (stack : Text) (n : ℕ) (ss : List (ServiceInsert D))
      → All (λ r. has_id r.service_id (ids_from stack n ss) ≡ true) (branches_from n ss)
  branches_own stack n [] = tt
  branches_own stack n (s ∷ ss) =
      All-append _ (branch_rows n 0 s.dependencies) (branches_from (n + 1) ss)
        (chains_own n 0 (ids_from stack (n + 1) ss) s.dependencies)
        (All-map_under _ _ (branches_from (n + 1) ss) (λ r e. ground arith)
          (branches_own stack (n + 1) ss))

  -- The first row, if there is one, comes after another.
  abbrev Follows : ServiceDependencyRow D → List (ServiceDependencyRow D) → Type 0
  Follows d [] = Unit {0}
  Follows d (e ∷ es) = comes_first d e ≡ true

  abbrev InOrder : List (ServiceDependencyRow D) → Type 0
  InOrder [] = Unit
  InOrder (d ∷ ds) = Follows d ds × InOrder ds

  insert_first :
      (d : ServiceDependencyRow D) (ds : List (ServiceDependencyRow D))
      → Follows d ds
      → insert_ordered d ds ≡ d ∷ ds
  unfolding insert_ordered
  insert_first d [] h = refl
  insert_first d (e ∷ es) h = rw h

  pub order_rows_id : (ds : List (ServiceDependencyRow D)) → InOrder ds → order_rows ds ≡ ds
  unfolding order_rows
  order_rows_id [] h = refl
  order_rows_id (d ∷ ds) h = rw (order_rows_id ds h.1) (insert_first d ds h.0)

  abbrev StartsAt : ℕ → List (ServiceDependencyRow D) → Type 0
  StartsAt n [] = Unit
  StartsAt n (d ∷ ds) = n ≤ d.service_id

  branches-StartsAt : (n : ℕ) (ss : List (ServiceInsert D)) → StartsAt n (branches_from n ss)
  unfolding branch_rows
  branches-StartsAt n [] = tt
  branches-StartsAt n (s ∷ ss) = starts s.dependencies (branches-StartsAt (n + 1) ss)
    where
      weaker : (ds : List (ServiceDependencyRow D)) → StartsAt (n + 1) ds → StartsAt n ds
      weaker [] h = tt
      weaker (d ∷ ds) h = omega arith

      starts :
          (cs : List D)
          → StartsAt (n + 1) (branches_from (n + 1) ss)
          → StartsAt n (branch_rows n 0 cs ++ branches_from (n + 1) ss)
      starts [] h = weaker (branches_from (n + 1) ss) h
      starts (c ∷ cs) h = omega arith

  chains-InOrder :
      (n i : ℕ) (cs : List D) (rest : List (ServiceDependencyRow D))
      → StartsAt (n + 1) rest
      → InOrder rest
      → InOrder (branch_rows n i cs ++ rest)
  unfolding branch_rows
  chains-InOrder n i [] rest b h = h
  chains-InOrder n i (c ∷ []) [] b h = (tt, tt)
  chains-InOrder n i (c ∷ []) (d ∷ ds) b h = (ground arith, h)
  chains-InOrder n i (c ∷ d ∷ cs) rest b h =
      (ground arith, chains-InOrder n (i + 1) (d ∷ cs) rest b h)

  pub branches-InOrder : (n : ℕ) (ss : List (ServiceInsert D)) → InOrder (branches_from n ss)
  branches-InOrder n [] = tt
  branches-InOrder n (s ∷ ss) =
      chains-InOrder n 0 s.dependencies (branches_from (n + 1) ss) (branches-StartsAt (n + 1) ss)
        (branches-InOrder (n + 1) ss)
