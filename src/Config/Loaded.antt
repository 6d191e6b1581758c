-- ===== src/Config/Loaded.antt =====
-- A stack that is stored and loaded: members/nullnet-server/src/services/input.rs and
-- members/nullnet-server/src/db/stacks.rs.
use mathlib.Core.List.{map-append}
use mathlib.Core.Path.{ap₂}
use nullnet.Prelude.{
  List, Text, [], ap, get, map, refl, ℕ, ◌++◌, ◌+◌, ◌∙◌, ◌∷◌, ◌≡◌, nat_eq, text_eq,
}
use nullnet.Config.Rows.{
  ServiceInsert, ServiceTriggerRow, ServiceDependencyRow, Json, unwrap_or, services_from_rows,
}
use nullnet.Config.Saved.{
  keyed, keyed_from, select, held-group, chains, restored, rows_from, with_children_lem,
}
use nullnet.Config.Store.{trigger_row, branch_rows}

module _ {D : Type 0} where
  abbrev pub triggers_from : ℕ → List (ServiceInsert D) → List ServiceTriggerRow
  triggers_from n [] = []
  triggers_from n (s ∷ ss) = map (trigger_row n) s.backends ++ triggers_from (n + 1) ss

  abbrev pub branches_from : ℕ → List (ServiceInsert D) → List (ServiceDependencyRow D)
  branches_from n [] = []
  branches_from n (s ∷ ss) = branch_rows n 0 s.dependencies ++ branches_from (n + 1) ss

  trigger_pairs :
      (n : ℕ) (ss : List (ServiceInsert D))
      → map (λ (t : ServiceTriggerRow). (t.service_id, t.peer)) (triggers_from n ss)
        ≡ keyed_from n (map (λ s. s.backends) ss)
  trigger_pairs n [] = refl
  trigger_pairs n (s ∷ ss) =
      map-append _ (map (trigger_row n) s.backends) (triggers_from (n + 1) ss)
      ∙ ap₂ ◌++◌ (peers s.backends) (trigger_pairs (n + 1) ss)
    where
      peers :
          (ps : List Text)
          → map (λ (t : ServiceTriggerRow). (t.service_id, t.peer)) (map (trigger_row n) ps)
            ≡ keyed n ps
      peers [] = refl
      peers (p ∷ ps) = ap (λ l. (n, p) ∷ l) (peers ps)

module _ (j : Json) where
  open j use {Doc, chain_of}

  abbrev decoded : ServiceDependencyRow Doc → ℕ × List Text
  decoded d = (d.service_id, unwrap_or [] (chain_of d.chain))

  decoded_rows :
      (n i : ℕ) (cs : List Doc)
      → map decoded (branch_rows n i cs) ≡ keyed n (map (λ c. unwrap_or [] (chain_of c)) cs)
  unfolding branch_rows
  decoded_rows n i [] = refl
  decoded_rows n i (c ∷ cs) =
      ap (λ l. (n, unwrap_or [] (chain_of c)) ∷ l) (decoded_rows n (i + 1) cs)

  branch_pairs :
      (n : ℕ) (ss : List (ServiceInsert Doc))
      → map decoded (branches_from n ss) ≡ keyed_from n (map (chains j) ss)
  branch_pairs n [] = refl
  branch_pairs n (s ∷ ss) =
      map-append decoded (branch_rows n 0 s.dependencies) (branches_from (n + 1) ss)
      ∙ ap₂ ◌++◌ (decoded_rows n 0 s.dependencies) (branch_pairs (n + 1) ss)

  pub rows_read :
      (stack : Text) (n : ℕ) (ss : List (ServiceInsert Doc))
      → services_from_rows j (rows_from stack n ss) (triggers_from n ss) (branches_from n ss)
        ≡ map (restored j) ss
  unfolding services_from_rows get
  rows_read stack n ss =
      with_children_lem j stack n ss _ _
        (λ k le. held-group k _ [] ∙ ap (select k) (trigger_pairs n ss))
        (λ k le. held-group k _ [] ∙ ap (select k) (branch_pairs n ss))
