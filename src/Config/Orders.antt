-- ===== src/Config/Orders.antt =====
-- Rows of the tables in any order: members/nullnet-server/src/services/input.rs and
-- members/nullnet-server/src/db/stacks.rs.
use mathlib.Core.List.{Mem, Perm, mem-cons, not-mem-nil, filter_map, Nodup, Nodup-nil, Nodup-cons}
use mathlib.Core.List.Perm
use mathlib.Core.Logic.Or
use mathlib.Core.Bool.{Bool-set}
use nullnet.Prelude.{
  Bool, Bool-cases, List, Map, Option, Text, [], ap, arith, eqb, eqb_iff, false, get, get-remove,
  if◌then◌else◌, inl, inr, map, none, refl, remove, some, sym, true, ℕ, ◌+◌, ◌∙◌, ◌∷◌, ◌≡◌, nat_eq,
}
use nullnet.Config.{ServiceToml}
use nullnet.Config.Own.{ids_from, not_drawn}
use nullnet.Config.Rows.{
  ServiceInsert, ServiceRow, ServiceTriggerRow, ServiceDependencyRow, Json, unwrap_or, from_row,
  with_children, group, services_from_rows,
}
use nullnet.Config.Saved.{rows_from, held, held-group, select}
use nullnet.Config.Store.{has_id, ids_of}

has-mem : (k : ℕ) (ids : List ℕ) → has_id k ids ≡ true → Mem k ids
has-mem k [] h = absurd (ground arith)
has-mem k (i ∷ ids) h = elim (Bool-cases (eqb i k)) [
  | inl same ↦ mem-cons.1 (Or.inl (sym ((eqb_iff i k).0 same)))
  | inr other ↦ mem-cons.1 (Or.inr (has-mem k ids (ground arith)))
]

mem-has : (k : ℕ) (ids : List ℕ) → Mem k ids → has_id k ids ≡ true
mem-has k [] m = absurd (not-mem-nil m)
mem-has k (i ∷ ids) m =
    Or.elim (Bool-set _ _) (mem-cons.0 m) (λ e. rw e (ground arith))
      (λ r. ground (arith, mem-has k ids r))

pub has_id-perm : (k : ℕ) (xs ys : List ℕ) → Perm xs ys → has_id k xs ≡ has_id k ys
has_id-perm k xs ys p = elim (Bool-cases (has_id k xs)) [
  | inl there ↦ there ∙ sym (mem-has k ys ((Perm.mem_iff p).0 (has-mem k xs there)))
  | inr absent ↦ elim (Bool-cases (has_id k ys)) [
    | inl there ↦ absurd (clash (mem-has k xs ((Perm.mem_iff p).1 (has-mem k ys there))) absent)
    | inr gone ↦ absent ∙ sym gone
  ]
]
  where
    clash : {b : Bool} → b ≡ true → b ≡ false → ⊥
    clash x y = ground arith

-- No key twice.
abbrev pub Apart : List ℕ → Type 0
Apart [] = Unit
Apart (i ∷ ids) = (has_id i ids ≡ false) × Apart ids

not-mem : (k : ℕ) (ids : List ℕ) → has_id k ids ≡ false → ¬ Mem k ids
not-mem k ids absent m = clash (has_id k ids) (mem-has k ids m) absent
  where
    clash : (b : Bool) → b ≡ true → b ≡ false → ⊥
    clash b x y = ground arith

Nodup-Apart : (ids : List ℕ) → Nodup ids → Apart ids
Nodup-Apart [] h = tt
Nodup-Apart (i ∷ ids) h =
    let (new, rest) = Nodup-cons.0 h in
    (
      elim (Bool-cases (has_id i ids)) [
        | inl there ↦ absurd (new (has-mem i ids there))
        | inr absent ↦ absent
      ],
      Nodup-Apart ids rest,
    )

numbered-Nodup :
    {D : Type 0} (stack : Text) (n : ℕ) (ss : List (ServiceInsert D)) → Nodup (ids_from stack n ss)
numbered-Nodup stack n [] = Nodup-nil
numbered-Nodup stack n (s ∷ ss) = Nodup-cons.1 (
  not-mem n (ids_from stack (n + 1) ss) (not_drawn stack n (n + 1) ss (omega arith)),
  numbered-Nodup stack (n + 1) ss,
)

-- The rows of services that are numbered from `n` on, in another order.
pub reordered-Apart :
    {D : Type 0} (stack : Text) (n : ℕ) (ss : List (ServiceInsert D)) (rows : List (ServiceRow D))
    → Perm rows (rows_from stack n ss)
    → Apart (ids_of rows)
reordered-Apart stack n ss rows p =
    Nodup-Apart (ids_of rows)
      (Perm.nodup (Perm.symm (Perm.map (λ r. r.id) p)) (numbered-Nodup stack n ss))

module _ {A : Type 0} where
  abbrev chosen : ℕ → ℕ × A → Option A
  chosen k (i, a) = if eqb i k then some a else none

  select_filter : (k : ℕ) (rows : List (ℕ × A)) → select k rows ≡ filter_map (chosen k) rows
  unfolding filter_map
  select_filter k [] = refl
  select_filter k ((i, a) ∷ rows) = elim (Bool-cases (eqb i k)) [
    | inl same ↦ rw same (ap (λ l. a ∷ l) (select_filter k rows))
    | inr other ↦ rw other (select_filter k rows)
  ]

  pub select-perm : (k : ℕ) (xs ys : List (ℕ × A)) → Perm xs ys → Perm (select k xs) (select k ys)
  select-perm k xs ys p = rw (select_filter k xs, select_filter k ys) (Perm.filter_map (chosen k) p)

module _ (j : Json) where
  open j use {Doc, chain_of}

  abbrev pub peers_of : List ServiceTriggerRow → List (ℕ × Text)
  peers_of triggers = map (λ t. (t.service_id, t.peer)) triggers

  abbrev pub chains_of : List (ServiceDependencyRow Doc) → List (ℕ × List Text)
  chains_of dependencies = map (λ d. (d.service_id, unwrap_or [] (chain_of d.chain))) dependencies

  abbrev with_held : Map ℕ (List Text) → Map ℕ (List (List Text)) → ServiceRow Doc → ServiceToml
  with_held triggers dependencies row =
      from_row j row (held row.id triggers) (held row.id dependencies)

  removed_held :
      (n : ℕ) (rows : List (ServiceRow Doc)) (ts : Map ℕ (List Text))
      (ds : Map ℕ (List (List Text)))
      → has_id n (ids_of rows) ≡ false
      → map (with_held (remove n ts) (remove n ds)) rows ≡ map (with_held ts ds) rows
  removed_held n [] ts ds h = refl
  removed_held n (row ∷ rows) ts ds h =
      let t : held row.id (remove n ts) ≡ held row.id ts = ground (arith, get-remove n row.id ts) in
      let d : held row.id (remove n ds) ≡ held row.id ds = ground (arith, get-remove n row.id ds) in
      rw (t, d, removed_held n rows ts ds (ground arith)) refl

  with_children-held :
      (rows : List (ServiceRow Doc)) (ts : Map ℕ (List Text)) (ds : Map ℕ (List (List Text)))
      → Apart (ids_of rows)
      → with_children j rows ts ds ≡ map (with_held ts ds) rows
  unfolding with_children
  with_children-held [] ts ds h = refl
  with_children-held (row ∷ rows) ts ds h =
      ap (λ rest. with_held ts ds row ∷ rest)
        (with_children-held rows (remove row.id ts) (remove row.id ds) (h.1)
          ∙ removed_held row.id rows ts ds (h.0))

  -- A service of its row, with its children among the rows of all.
  abbrev pub read_row :
      List ServiceTriggerRow → List (ServiceDependencyRow Doc) → ServiceRow Doc → ServiceToml
  read_row triggers dependencies row =
      from_row j row (select row.id (peers_of triggers)) (select row.id (chains_of dependencies))

  grouped :
      (rows : List (ServiceRow Doc)) (ts : List ServiceTriggerRow)
      (ds : List (ServiceDependencyRow Doc))
      → map (with_held (group (peers_of ts) []) (group (chains_of ds) [])) rows
        ≡ map (read_row ts ds) rows
  unfolding get
  grouped [] ts ds = refl
  grouped (row ∷ rows) ts ds =
      rw
        (
          held-group row.id (peers_of ts) [],
          held-group row.id (chains_of ds) [],
          grouped rows ts ds,
        )
        refl

  pub rows_any_order :
      (rows : List (ServiceRow Doc)) (ts : List ServiceTriggerRow)
      (ds : List (ServiceDependencyRow Doc))
      → Apart (ids_of rows)
      → services_from_rows j rows ts ds ≡ map (read_row ts ds) rows
  unfolding services_from_rows
  rows_any_order rows ts ds h =
      with_children-held rows (group (peers_of ts) []) (group (chains_of ds) []) h
      ∙ grouped rows ts ds

-- The same declaration, but for the order of its peers.
abbrev pub IsAlike : ServiceToml → ServiceToml → Type 0
IsAlike s t = (s ≡ record t { backends = s.backends }) × Perm s.backends t.backends

abbrev pub AreAlike : List ServiceToml → List ServiceToml → Type 0
AreAlike [] [] = Unit
AreAlike (s ∷ ss) (t ∷ ts) = IsAlike s t × AreAlike ss ts
AreAlike _ _ = ⊥

pub read_row-AreAlike :
    (j : Json) (rows : List (ServiceRow j.Doc)) (ts us : List ServiceTriggerRow)
    (ds : List (ServiceDependencyRow j.Doc))
    → Perm ts us
    → AreAlike (map (read_row j ts ds) rows) (map (read_row j us ds) rows)
unfolding from_row
read_row-AreAlike j [] ts us ds p = tt
read_row-AreAlike j (row ∷ rows) ts us ds p = (
  (
    refl,
    select-perm row.id (peers_of j ts) (peers_of j us) (Perm.map (λ t. (t.service_id, t.peer)) p),
  ),
  read_row-AreAlike j rows ts us ds p,
)
