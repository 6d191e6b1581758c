-- ===== src/Config/Distinct.antt =====
-- The claims of the stacks that a start keeps: members/nullnet-server/src/services/input.rs.
use nullnet.Prelude.{
  ==_iff, ==_refl, All, Bool, Eq, List, Map, Option-cases, Text, [], all, any, arith, get,
  get-insert, if◌then◌else◌, inl, inr, insert, none, not, refl, remove, some, true, ℕ, ◌&&◌, ◌++◌,
  ◌+◌, ◌==◌, ◌||◌, ◌∙◌, ◌∷◌, ◌≡◌, ◌≤◌, pair_eq, nat_eq, text_eq,
}
use nullnet.Config.Conflicts.{
  Owner, find_conflicts, claims_of, stacks_of, remove_stacks, sort_keys, insert_sorted,
}

-- How many of a list pass a test.
abbrev pub passing : {A : Type 0} → (A → Bool) → List A → ℕ
passing p [] = 0
passing p (x ∷ xs) = (if p x then 1 else 0) + passing p xs

pub passing-append :
    {A : Type 0} (p : A → Bool) (xs ys : List A)
    → passing p (xs ++ ys) ≡ passing p xs + passing p ys
passing-append p [] ys = omega arith
passing-append p (x ∷ xs) ys = omega (arith, passing-append p xs ys)

module _ {K : Type 0} ⦃e : Eq K⦄ (kept : Owner → Bool) where
  -- The claims of a key by stacks that are kept.
  abbrev pub claims_by : K → K × Owner → Bool
  claims_by k (j, o) = j == k && kept o

  abbrev pub later_dropped : List (Owner × Owner × K) → Bool
  later_dropped conflicts = all (λ (a, b, j). not (kept b)) conflicts

  pub claimed_once :
      (k : K) (claims : List (K × Owner)) (claimed : Map K Owner)
      → later_dropped (find_conflicts claims claimed) ≡ true
      → passing (claims_by k) claims ≤ (elim (get k claimed) [ some o ↦ 0 | none ↦ 1 ])
  unfolding find_conflicts
  claimed_once k [] claimed h = ground arith
  claimed_once k ((j, o) ∷ claims) claimed h = elim (Option-cases (get j claimed)) [
    | inl free ↦ ground (
      arith,
      claimed_once k claims (insert j o claimed),
      get-insert j k o claimed,
      ==_iff j k,
      free,
    )
    | inr (other, taken) ↦ ground (arith, claimed_once k claims claimed, ==_iff j k, taken)
  ]

-- A sum over the entries of a map.
abbrev pub weigh : {V : Type 0} → (Text → V → ℕ) → Map Text V → ℕ
weigh w [] = 0
weigh w ((s, v) ∷ m) = w s v + weigh w m

abbrev pub is_bad : List Text → Text → Bool
is_bad bad s = any (λ b. b == s) bad

pub is_bad-append :
    (xs ys : List Text) (s : Text) → is_bad (xs ++ ys) s ≡ (is_bad xs s || is_bad ys s)
is_bad-append [] ys s = refl
is_bad-append (x ∷ xs) ys s = ground (arith, is_bad-append xs ys s)

module _ {V : Type 0} where
  pub weigh_congr :
      (u w : Text → V → ℕ) (m : Map Text V)
      → ((s : Text) (v : V) → u s v ≡ w s v)
      → weigh u m ≡ weigh w m
  weigh_congr u w [] h = refl
  weigh_congr u w ((s, v) ∷ m) h = omega (arith, h s v, weigh_congr u w m h)

  weigh-remove :
      (w : Text → V → ℕ) (bad : Text) (m : Map Text V)
      → weigh w (remove bad m) ≡ weigh (λ s v. if bad == s then 0 else w s v) m
  unfolding remove
  weigh-remove w bad [] = refl
  weigh-remove w bad ((s, v) ∷ m) = ground (arith, weigh-remove w bad m, ==_iff s bad, ==_iff bad s)

  pub weigh-remove_stacks :
      (w : Text → V → ℕ) (bad : List Text) (m : Map Text V)
      → weigh w (remove_stacks bad m) ≡ weigh (λ s v. if is_bad bad s then 0 else w s v) m
  unfolding remove_stacks
  weigh-remove_stacks w [] m = refl
  weigh-remove_stacks w (b ∷ bad) m =
      weigh-remove_stacks w bad (remove b m)
      ∙ weigh-remove _ b m
      ∙ weigh_congr _ _ m (λ s v. ground arith)

  weigh-insert_sorted :
      (w : Text → V → ℕ) (s : Text) (v : V) (m : Map Text V)
      → weigh w (insert_sorted (s, v) m) ≡ w s v + weigh w m
  unfolding insert_sorted
  weigh-insert_sorted w s v [] = refl
  weigh-insert_sorted w s v ((j, x) ∷ m) = ground (arith, weigh-insert_sorted w s v m)

  pub weigh-sort_keys : (w : Text → V → ℕ) (m : Map Text V) → weigh w (sort_keys m) ≡ weigh w m
  unfolding sort_keys
  weigh-sort_keys w [] = refl
  weigh-sort_keys w ((s, v) ∷ m) =
      omega (arith, weigh-insert_sorted w s v (sort_keys m), weigh-sort_keys w m)

  pub passing-claims_of :
      {K : Type 0} (q : K × Owner → Bool) (f : Text → V → List (K × Owner)) (m : Map Text V)
      → passing q (claims_of f m) ≡ weigh (λ s v. passing q (f s v)) m
  unfolding claims_of
  passing-claims_of q f [] = refl
  passing-claims_of q f ((s, v) ∷ m) =
      omega (arith, passing-append q (f s v) (claims_of f m), passing-claims_of q f m)

module _ {K : Type 0} ⦃e : Eq K⦄ where
  abbrev pub claims : K → K × Owner → Bool
  claims k (j, o) = j == k

  abbrev pub OwnedBy : Text → List (K × Owner) → Type 0
  OwnedBy s cs = All (λ (c : K × Owner). c.1.0 ≡ s) cs

  pub owned_kept :
      (bad : List Text) (k : K) (s : Text) (cs : List (K × Owner))
      → OwnedBy s cs
      → passing (claims_by (λ o. not (is_bad bad (o.0))) k) cs
        ≡ (if is_bad bad s then 0 else passing (claims k) cs)
  owned_kept bad k s [] h = ground arith
  owned_kept bad k s ((j, o) ∷ cs) h = rw (h.0) (ground (arith, owned_kept bad k s cs h.1))

  pub dropped_later :
      (bad : List Text) (cs : List (Owner × Owner × K))
      → ((s : Text) → is_bad (stacks_of cs) s ≡ true → is_bad bad s ≡ true)
      → later_dropped (λ o. not (is_bad bad (o.0))) cs ≡ true
  unfolding stacks_of
  dropped_later bad [] h = refl
  dropped_later bad ((a, b, k) ∷ cs) h =
      ground (
        arith,
        h b.0 (ground (arith, ==_refl b.0)),
        dropped_later bad cs (λ s i. h s (ground arith)),
      )
