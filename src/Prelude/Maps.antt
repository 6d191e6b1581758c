-- ===== src/Prelude/Maps.antt =====
-- `HashMap` as an association list: a key that is written again keeps its place.
use Prim.Native.Nat.{ℕ, ◌+◌, ◌≤◌}
use mathlib.Core.Path.{◌≡◌, refl, ap, subst}
use mathlib.Core.Bool.{Bool}
use mathlib.Core.Logic.{◌≢◌, inl, inr}
use mathlib.Core.List.{List, [], ◌∷◌}
use mathlib.Core.Option.{Option, none, some, some-injective}
use native.Mathlib.Omega.{arith}
use nullnet.Prelude.Lists.{length, All}
use nullnet.Prelude.Tests.{if◌then◌else◌, Eq, ◌==◌, ==_iff, ==_refl, Bool-cases}

abbrev pub Map {ℓ} : Type ℓ → Type ℓ → Type ℓ
Map K V = List (K × V)

module _ {ℓ} {K V : Type ℓ} ⦃e : Eq K⦄ where
  unfoldable pub get : K → Map K V → Option V
  get k [] = none
  get k ((j, v) ∷ m) = if j == k then some v else get k m

  unfoldable pub insert : K → V → Map K V → Map K V
  insert k v [] = (k, v) ∷ []
  insert k v ((j, w) ∷ m) = if j == k then (j, v) ∷ m else (j, w) ∷ insert k v m

  unfoldable pub remove : K → Map K V → Map K V
  remove k [] = []
  remove k ((j, w) ∷ m) = if j == k then remove k m else (j, w) ∷ remove k m

  pub get-insert :
      (k j : K) (v : V) (m : Map K V) → get j (insert k v m) ≡ (if k == j then some v else get j m)
  unfolding get insert
  get-insert k j v [] = refl
  get-insert k j v ((i, w) ∷ m) =
      ground (arith, ==_iff k j, ==_iff i k, ==_iff i j, get-insert k j v m)

  pub get-remove : (k j : K) (m : Map K V) → get j (remove k m) ≡ (if k == j then none else get j m)
  unfolding get remove
  get-remove k j [] = ground arith
  get-remove k j ((i, w) ∷ m) = ground (arith, ==_iff k j, ==_iff i k, ==_iff i j, get-remove k j m)

  pub get-insert_self : (k : K) (v : V) (m : Map K V) → get k (insert k v m) ≡ some v
  get-insert_self k v m = ground (arith, get-insert k k v m, ==_refl k)

  pub get-insert_ne : (k j : K) (v : V) (m : Map K V) → j ≢ k → get j (insert k v m) ≡ get j m
  get-insert_ne k j v m ne = ground (arith, get-insert k j v m, ==_iff k j)

  pub get-remove_self : (k : K) (m : Map K V) → get k (remove k m) ≡ none
  get-remove_self k m = ground (arith, get-remove k k m, ==_refl k)

  -- Each key stands once.
  abbrev pub Distinct : Map K V → Type ℓ
  Distinct [] = Unit
  Distinct ((k, v) ∷ m) = (get k m ≡ none) × Distinct m

  pub insert-Distinct : (k : K) (v : V) (m : Map K V) → Distinct m → Distinct (insert k v m)
  unfolding insert get
  insert-Distinct k v [] d = (refl, tt)
  insert-Distinct k v ((j, w) ∷ m) d =
      ground (arith, insert-Distinct k v m d.1, get-insert k j v m, ==_iff k j, ==_iff j k)

  pub remove-Distinct : (k : K) (m : Map K V) → Distinct m → Distinct (remove k m)
  unfolding remove
  remove-Distinct k [] d = tt
  remove-Distinct k ((j, w) ∷ m) d = ground (arith, remove-Distinct k m d.1, get-remove k j m)

  -- How many entries pass a test.
  unfoldable pub tally : (K → V → Bool) → Map K V → ℕ
  tally p [] = 0
  tally p ((k, v) ∷ m) = (if p k v then 1 else 0) + tally p m

  -- The part of the tally that the entry of `k` makes.
  abbrev pub share : (K → V → Bool) → K → Option V → ℕ
  share p k none = 0
  share p k (some v) = if p k v then 1 else 0

  pub tally-insert :
      (p : K → V → Bool) (k : K) (v : V) (m : Map K V)
      → tally p (insert k v m) + share p k (get k m) ≡ tally p m + share p k (some v)
  unfolding get insert tally
  tally-insert p k v [] = omega arith
  tally-insert p k v ((j, w) ∷ m) = elim (Bool-cases (j == k)) [
    | inl same ↦
        let eq = (==_iff j k).0 same in
        rw same (omega (arith, ap (λ i. share p i (some v)) eq, ap (λ i. share p i (some w)) eq))
    | inr other ↦ rw other (omega (arith, tally-insert p k v m))
  ]

  pub remove_absent : (k : K) (m : Map K V) → get k m ≡ none → remove k m ≡ m
  unfolding get remove
  remove_absent k [] h = refl
  remove_absent k ((j, w) ∷ m) h = ground (arith, remove_absent k m)

  pub tally-remove :
      (p : K → V → Bool) (k : K) (m : Map K V)
      → Distinct m
      → tally p (remove k m) + share p k (get k m) ≡ tally p m
  unfolding get remove tally
  tally-remove p k [] d = omega arith
  tally-remove p k ((j, w) ∷ m) d = elim (Bool-cases (j == k)) [
    | inl same ↦
        let eq = (==_iff j k).0 same in
        rw same (
          omega (
            arith,
            ap (λ i. share p i (some w)) eq,
            ap (tally p) (remove_absent k m (rw eq at d.0)),
          ))
    | inr other ↦ rw other (omega (arith, tally-remove p k m d.1))
  ]

  pub tally-le-length : (p : K → V → Bool) (m : Map K V) → tally p m ≤ length m
  unfolding tally
  tally-le-length p [] = omega arith
  tally-le-length p ((j, w) ∷ m) = ground (arith, tally-le-length p m)

  pub length-insert-le : (k : K) (v : V) (m : Map K V) → length (insert k v m) ≤ length m + 1
  unfolding insert
  length-insert-le k v [] = omega arith
  length-insert-le k v ((j, w) ∷ m) = ground (arith, length-insert-le k v m)

  pub length-remove-le : (k : K) (m : Map K V) → length (remove k m) ≤ length m
  unfolding remove
  length-remove-le k [] = omega arith
  length-remove-le k ((j, w) ∷ m) = ground (arith, length-remove-le k m)

  pub length-insert_present :
      (k : K) (u v : V) (m : Map K V) → get k m ≡ some u → length (insert k v m) ≡ length m
  unfolding get insert
  length-insert_present k u v [] h = cc
  length-insert_present k u v ((j, w) ∷ m) h = ground (arith, length-insert_present k u v m)

  -- A property of the values, over all entries.
  pub All-get {κ} :
      (P : V → Type κ) (k : K) (v : V) (m : Map K V) → All (λ e. P (e.1)) m → get k m ≡ some v → P v
  unfolding get
  All-get P k v [] a h = cc
  All-get P k v ((j, w) ∷ m) a h = elim (Bool-cases (j == k)) [
    | inl same ↦ subst P (some-injective w v (ground arith)) (a.0)
    | inr other ↦ All-get P k v m a.1 (ground arith)
  ]

  pub All-insert {κ} :
      (P : V → Type κ) (k : K) (v : V) (m : Map K V)
      → All (λ e. P (e.1)) m
      → P v
      → All (λ e. P (e.1)) (insert k v m)
  unfolding insert
  All-insert P k v [] a h = (h, tt)
  All-insert P k v ((j, w) ∷ m) a h = elim (Bool-cases (j == k)) [
    | inl same ↦ rw same (h, a.1)
    | inr other ↦ rw other (a.0, All-insert P k v m a.1 h)
  ]

  pub All-remove {κ} :
      (P : V → Type κ) (k : K) (m : Map K V)
      → All (λ e. P (e.1)) m
      → All (λ e. P (e.1)) (remove k m)
  unfolding remove
  All-remove P k [] a = tt
  All-remove P k ((j, w) ∷ m) a = elim (Bool-cases (j == k)) [
    | inl same ↦ rw same (All-remove P k m a.1)
    | inr other ↦ rw other (a.0, All-remove P k m a.1)
  ]
