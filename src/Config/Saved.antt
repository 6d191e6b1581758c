-- ===== src/Config/Saved.antt =====
-- What is read back of the rows of a stack: members/nullnet-server/src/services/input.rs and
-- members/nullnet-server/src/db/stacks.rs.
use mathlib.Core.List.{append-nil, append_assoc}
use nullnet.Prelude.{
  Bool-cases, List, Map, Text, [], ap, arith, eqb, eqb_iff, get, get-insert, get-remove,
  if◌then◌else◌, inl, inr, insert, map, refl, remove, sym, ℕ, ◌++◌, ◌+◌, ◌<◌, ◌∙◌, ◌∷◌, ◌≡◌, ◌≤◌,
  nat_eq, text_eq,
}
use nullnet.Config.{ServiceToml}
use nullnet.Config.Rows.{ServiceInsert, ServiceRow, Json, unwrap_or, group, with_children, from_row}
use nullnet.Config.Store.{row_of}

-- The entries of a key, in order.
abbrev pub select : {A : Type 0} → ℕ → List (ℕ × A) → List A
select k [] = []
select k ((i, a) ∷ rows) = if eqb i k then a ∷ select k rows else select k rows

-- Lists under the keys from `n` on.
abbrev pub keyed : {A : Type 0} → ℕ → List A → List (ℕ × A)
keyed n xs = map (λ a. (n, a)) xs

abbrev pub keyed_from : {A : Type 0} → ℕ → List (List A) → List (ℕ × A)
keyed_from n [] = []
keyed_from n (xs ∷ xss) = keyed n xs ++ keyed_from (n + 1) xss

module _ {A : Type 0} where
  select-append : (k : ℕ) (xs ys : List (ℕ × A)) → select k (xs ++ ys) ≡ select k xs ++ select k ys
  select-append k [] ys = refl
  select-append k ((i, a) ∷ xs) ys = ground (arith, select-append k xs ys)

  select-keyed : (k n : ℕ) (xs : List A) → select k (keyed n xs) ≡ (if eqb n k then xs else [])
  select-keyed k n [] = ground arith
  select-keyed k n (x ∷ xs) = ground (arith, select-keyed k n xs)

  select-below : (k n : ℕ) (xss : List (List A)) → k < n → select k (keyed_from n xss) ≡ []
  select-below k n [] h = refl
  select-below k n (xs ∷ xss) h = ground (
    arith,
    select-append k (keyed n xs) (keyed_from (n + 1) xss),
    select-keyed k n xs,
    select-below k (n + 1) xss,
  )

  select-first :
      (n : ℕ) (xs : List A) (xss : List (List A)) → select n (keyed_from n (xs ∷ xss)) ≡ xs
  select-first n xs xss = ground (
    arith,
    select-append n (keyed n xs) (keyed_from (n + 1) xss),
    select-keyed n n xs,
    select-below n (n + 1) xss,
    append-nil xs,
  )

  select-later :
      (k n : ℕ) (xs : List A) (xss : List (List A))
      → n < k
      → select k (keyed_from n (xs ∷ xss)) ≡ select k (keyed_from (n + 1) xss)
  select-later k n xs xss h =
      ground (arith, select-append k (keyed n xs) (keyed_from (n + 1) xss), select-keyed k n xs)

  abbrev pub held : (k : ℕ) (m : Map ℕ (List A)) → List A
  held k m = unwrap_or [] (get k m)

  held-push :
      (k i : ℕ) (a : A) (m : Map ℕ (List A))
      → held k (insert i (held i m ++ (a ∷ [])) m) ≡ held k m ++ (if eqb i k then a ∷ [] else [])
  held-push k i a m = elim (Bool-cases (eqb i k)) [
    | inl same ↦
        let e : i ≡ k = (eqb_iff i k).0 same in
        ground (arith, get-insert i k (held i m ++ (a ∷ [])) m, ap (λ n. get n m) e)
    | inr other ↦
        ground (arith, get-insert i k (held i m ++ (a ∷ [])) m, append-nil (unwrap_or [] (get k m)))
  ]

  pub held-group :
      (k : ℕ) (rows : List (ℕ × A)) (m : Map ℕ (List A))
      → held k (group rows m) ≡ held k m ++ select k rows
  unfolding group
  held-group k [] m = sym (append-nil _)
  held-group k ((i, a) ∷ rows) m =
      held-group k rows (insert i (unwrap_or [] (get i m) ++ (a ∷ [])) m)
      ∙ ap (λ l. l ++ select k rows) (held-push k i a m)
      ∙ append_assoc (held k m) (if eqb i k then a ∷ [] else []) (select k rows)
      ∙ ap (λ l. held k m ++ l) (ground arith)

  held-remove : (k n : ℕ) (m : Map ℕ (List A)) → n < k → held k (remove n m) ≡ held k m
  held-remove k n m h = ground (arith, get-remove n k m)

-- The rows of services that are numbered from `n` on.
abbrev pub rows_from : {D : Type 0} → Text → ℕ → List (ServiceInsert D) → List (ServiceRow D)
rows_from stack n [] = []
rows_from stack n (s ∷ ss) = row_of stack n s ∷ rows_from stack (n + 1) ss

module _ (j : Json) where
  open j use {Doc, chain_of}

  abbrev pub chains : ServiceInsert Doc → List (List Text)
  chains s = map (λ c. unwrap_or [] (chain_of c)) s.dependencies

  -- A service from its own columns and lists, whatever its key.
  abbrev pub restored : ServiceInsert Doc → ServiceToml
  restored s = from_row j (row_of [] 0 s) s.backends (chains s)

  pub with_children_lem :
      (stack : Text) (n : ℕ) (ss : List (ServiceInsert Doc)) (triggers : Map ℕ (List Text))
      (dependencies : Map ℕ (List (List Text)))
      → ((k : ℕ) → n ≤ k → held k triggers ≡ select k (keyed_from n (map (λ s. s.backends) ss)))
      → ((k : ℕ) → n ≤ k → held k dependencies ≡ select k (keyed_from n (map chains ss)))
      → with_children j (rows_from stack n ss) triggers dependencies ≡ map restored ss
  unfolding with_children from_row
  with_children_lem stack n [] triggers dependencies ht hd = refl
  with_children_lem stack n (s ∷ ss) triggers dependencies ht hd =
      rw
        (
          ht n (omega arith),
          hd n (omega arith),
          select-first n s.backends (map (λ r. r.backends) ss),
          select-first n (chains s) (map chains ss),
        )
        (ap (λ rest. restored s ∷ rest)
          (with_children_lem stack (n + 1) ss (remove n triggers) (remove n dependencies)
            (λ k le.
              held-remove k n triggers (omega arith)
              ∙ ht k (omega arith)
              ∙ select-later k n s.backends (map (λ r. r.backends) ss) (omega arith))
            (λ k le.
              held-remove k n dependencies (omega arith)
              ∙ hd k (omega arith)
              ∙ select-later k n (chains s) (map chains ss) (omega arith))))
