-- ===== src/Filter/Validation.antt =====
-- members/nullnet-server/src/services/firewall.rs: `FilterPolicy::validate`.
use nullnet.Prelude.{
  Bool, Bool-cases, List, Option, Option-cases, Text, [], all, any, arith, false, if◌then◌else◌,
  inl, inr, map, not, refl, some, true, ◌&&◌, ◌||◌, ◌∷◌, ◌≡◌, ◌⊎◌, nat_eq,
}
use nullnet.Filter.Postfix.{has_groups}
use nullnet.Filter.{
  Externals, Direction, egress, ingress, FilterField, country, org, src_ip, dst_ip, FilterRule,
  FilterPolicy, block, allow, is_empty, is_some_and,
}

-- The errors, which stand for their messages.
pub data InvalidFilter : Type 0 where
  empty_group no_values src_ip_on_egress dst_ip_on_ingress : InvalidFilter
  invalid_address : Text → InvalidFilter

-- A loop that changes its elements in place and ends at the first error.
abbrev pub continue {ℓ} :
    {A : Type ℓ}
    → A
    → (rest : List A) → Option InvalidFilter
    → List A × Option InvalidFilter
    → List A × Option InvalidFilter
continue a rest Option.none done = (a ∷ done.0, done.1)
continue a rest (some e) done = (a ∷ rest, some e)

unfoldable pub loop {ℓ} :
    {A : Type ℓ} → (A → A × Option InvalidFilter) → List A → List A × Option InvalidFilter
loop f [] = ([], Option.none)
loop f (a ∷ rest) = let done = loop f rest in let (a', error) = f a in continue a' rest error done

module _ (x : Externals) where
  -- The first value that is neither an address nor a network.
  abbrev pub check_addresses : List Text → Option InvalidFilter
  check_addresses [] = Option.none
  check_addresses (v ∷ vs) = let rest = check_addresses vs in first_error (x.network_of v) rest
    where
      first_error : Option x.Network → Option InvalidFilter → Option InvalidFilter
      first_error Option.none rest = some (invalid_address v)
      first_error (some n) rest = rest

  abbrev pub check_field : Direction → FilterField → FilterRule → FilterRule × Option InvalidFilter
  check_field egress src_ip rule = (rule, some src_ip_on_egress)
  check_field ingress src_ip rule = (rule, check_addresses rule.values)
  check_field ingress dst_ip rule = (rule, some dst_ip_on_ingress)
  check_field egress dst_ip rule = (rule, check_addresses rule.values)
  check_field direction country rule =
      (record rule { values = map x.to_uppercase rule.values }, Option.none)
  check_field direction org rule = (rule, Option.none)

  -- A round of the loop over the rules: the rule as it is left, and the error that ends the loop.
  unfoldable pub check_rule : Direction → FilterRule → FilterRule × Option InvalidFilter
  check_rule direction rule =
      if is_empty rule.values then (rule, some no_values) else check_field direction rule.field rule

  unfoldable pub validate_groups :
      Direction
      → (List (List FilterRule) → FilterPolicy)
      → List (List FilterRule)
      → FilterPolicy × Option InvalidFilter
  validate_groups direction policy groups =
      if is_empty groups || any is_empty groups
      then (policy groups, some empty_group)
      else (let (groups', error) = loop (loop (check_rule direction)) groups in
          (policy groups', error))

  unfoldable pub validate : Direction → FilterPolicy → FilterPolicy × Option InvalidFilter
  validate direction FilterPolicy.none = (FilterPolicy.none, Option.none)
  validate direction (block groups) = validate_groups direction block groups
  validate direction (allow groups) = validate_groups direction allow groups

-- What `validate` asks of a rule, and what it makes of it.
module _ (x : Externals) where
  abbrev applies : Direction → FilterField → Bool
  applies egress src_ip = false
  applies ingress dst_ip = false
  applies _ _ = true

  abbrev is_address : Text → Bool
  is_address v = is_some_and (x.network_of v) (λ n. true)

  abbrev values_ok : FilterField → List Text → Bool
  values_ok src_ip values = all is_address values
  values_ok dst_ip values = all is_address values
  values_ok _ values = true

  abbrev pub rule_ok : Direction → FilterRule → Bool
  rule_ok direction rule =
      not (is_empty rule.values) && applies direction rule.field && values_ok rule.field rule.values

  abbrev normalized_at : FilterField → FilterRule → FilterRule
  normalized_at country rule = record rule { values = map x.to_uppercase rule.values }
  normalized_at _ rule = rule

  abbrev pub normalized_rule : FilterRule → FilterRule
  normalized_rule rule = normalized_at rule.field rule

  abbrev groups_ok : Direction → List (List FilterRule) → Bool
  groups_ok direction groups = has_groups groups && all (all (rule_ok direction)) groups

  abbrev pub acceptable : Direction → FilterPolicy → Bool
  acceptable direction FilterPolicy.none = true
  acceptable direction (block groups) = groups_ok direction groups
  acceptable direction (allow groups) = groups_ok direction groups

  abbrev pub normalized : FilterPolicy → FilterPolicy
  normalized FilterPolicy.none = FilterPolicy.none
  normalized (block groups) = block (map (map normalized_rule) groups)
  normalized (allow groups) = allow (map (map normalized_rule) groups)

-- A step that makes `norm a` of an element that is `ok`, and fails on any other.
abbrev Checks {ℓ} :
    {A : Type ℓ} → (A → Bool) → (A → A) → (A → A × Option InvalidFilter) → A → Type ℓ
Checks ok norm f a =
    (ok a ≡ true) × (f a ≡ (norm a, Option.none))
    ⊎ (ok a ≡ false) × ((e : InvalidFilter) × ((f a).1 ≡ some e))

loop-Checks {ℓ} :
    {A : Type ℓ} (ok : A → Bool) (norm : A → A) (f : A → A × Option InvalidFilter)
    → ((a : A) → Checks ok norm f a)
    → (xs : List A) → Checks (all ok) (map norm) (loop f) xs
unfolding loop
loop-Checks ok norm f each [] = inl (refl, refl)
loop-Checks ok norm f each (a ∷ xs) = elim (each a) [
  | inr (bad, (e, stops)) ↦ inr (rw bad refl, (e, rw stops refl))
  | inl (good, runs) ↦ elim (loop-Checks ok norm f each xs) [
    | inl (all_good, rest) ↦ inl (rw good all_good, rw (runs, rest) refl)
    | inr (some_bad, (e, rest)) ↦ inr (rw good some_bad, (e, rw runs rest))
  ]
]

module _ (x : Externals) where
  AddressesCheck : List Text → Type 0
  AddressesCheck vs =
      (all (is_address x) vs ≡ true) × (check_addresses x vs ≡ Option.none)
      ⊎ (all (is_address x) vs ≡ false) × ((e : InvalidFilter) × (check_addresses x vs ≡ some e))

  addresses-Checks : (vs : List Text) → AddressesCheck vs
  unfolding AddressesCheck
  addresses-Checks [] = inl (refl, refl)
  addresses-Checks (v ∷ vs) = elim (Option-cases (x.network_of v)) [
    | inl bad ↦ inr (rw bad refl, (invalid_address v, rw bad refl))
    | inr (n, good) ↦ elim (addresses-Checks vs) [
      | inl (fine, runs) ↦ inl (rw good fine, rw good runs)
      | inr (bad, (e, stops)) ↦ inr (rw good bad, (e, rw good stops))
    ]
  ]

  field-Checks :
      (d : Direction) (f : FilterField) (r : FilterRule)
      → ((applies x d f && values_ok x f r.values) ≡ true)
          × (check_field x d f r ≡ (normalized_at x f r, Option.none))
        ⊎ ((applies x d f && values_ok x f r.values) ≡ false)
          × ((e : InvalidFilter) × ((check_field x d f r).1 ≡ some e))
  unfolding AddressesCheck
  field-Checks egress src_ip r = inr (refl, (src_ip_on_egress, refl))
  field-Checks ingress dst_ip r = inr (refl, (dst_ip_on_ingress, refl))
  field-Checks ingress src_ip r = elim (addresses-Checks r.values) [
    | inl (good, none_bad) ↦ inl (good, rw none_bad refl)
    | inr bad ↦ inr bad
  ]
  field-Checks egress dst_ip r = elim (addresses-Checks r.values) [
    | inl (good, none_bad) ↦ inl (good, rw none_bad refl)
    | inr bad ↦ inr bad
  ]
  field-Checks egress country r = inl (refl, refl)
  field-Checks ingress country r = inl (refl, refl)
  field-Checks egress org r = inl (refl, refl)
  field-Checks ingress org r = inl (refl, refl)

  rule-Checks :
      (d : Direction) (r : FilterRule) → Checks (rule_ok x d) (normalized_rule x) (check_rule x d) r
  unfolding check_rule
  rule-Checks d r = elim (Bool-cases (is_empty r.values)) [
    | inl empty ↦ rw empty (inr (refl, (no_values, refl)))
    | inr some_value ↦ rw some_value (field-Checks d r.field r)
  ]

  any-is_empty :
      (gs : List (List FilterRule)) → any is_empty gs ≡ not (all (λ g. not (is_empty g)) gs)
  any-is_empty [] = refl
  any-is_empty (g ∷ gs) = ground (arith, any-is_empty gs)

  groups-Checks :
      (d : Direction) (policy : List (List FilterRule) → FilterPolicy) (gs : List (List FilterRule))
      → (groups_ok x d gs ≡ true)
          × (validate_groups x d policy gs
              ≡ (policy (map (map (normalized_rule x)) gs), Option.none))
        ⊎ (groups_ok x d gs ≡ false)
          × ((e : InvalidFilter) × ((validate_groups x d policy gs).1 ≡ some e))
  unfolding validate_groups
  groups-Checks d policy gs =
      let guard : (is_empty gs || any is_empty gs) ≡ not (has_groups gs) =
        ground (arith, any-is_empty gs) in
      let each = loop-Checks _ _ _ (loop-Checks _ _ _ (rule-Checks d)) gs in
      elim (Bool-cases (has_groups gs)) [
        | inr bad ↦ rw (guard, bad) (inr (refl, (empty_group, refl)))
        | inl good ↦ elim each [
          | inl (all_good, runs) ↦ rw (guard, good) (inl (all_good, rw runs refl))
          | inr (some_bad, stops) ↦ rw (guard, good) (inr (some_bad, stops))
        ]
      ]

-- `validate` succeeds exactly on the policies that have a group, no empty group, no rule without
-- values, none on a field that the direction lacks and none with an invalid address, and then
-- leaves the policy as it was but for the country values, which are uppercased. On any other it
-- returns an error.
pub validate_iff :
    (x : Externals) (d : Direction) (p : FilterPolicy)
    → (acceptable x d p ≡ true) × (validate x d p ≡ (normalized x p, Option.none))
      ⊎ (acceptable x d p ≡ false) × ((e : InvalidFilter) × ((validate x d p).1 ≡ some e))
unfolding validate
validate_iff x d FilterPolicy.none = inl (refl, refl)
validate_iff x d (block groups) = groups-Checks x d block groups
validate_iff x d (allow groups) = groups-Checks x d allow groups
