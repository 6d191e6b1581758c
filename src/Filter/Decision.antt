-- ===== src/Filter/Decision.antt =====
-- members/nullnet-server/src/services/firewall.rs: what a filter lets pass.
use mathlib.Core.Path.{ap₂}
use nullnet.Prelude.{
  Bool, Bool-cases, List, Option, [], all, any, ap, arith, false, inl, inr, map, not, refl, some,
  sym, true, ◌&&◌, ◌>>=◌, ◌∙◌, ◌∷◌, ◌≡◌, nat_eq,
}
use nullnet.Filter.{
  Externals, Direction, FilterField, FilterCondition, FilterRule, FilterPolicy, FilterContext,
  block, allow, allows, evaluate_predicate, country, org, src_ip, dst_ip, equal, not_equal,
  contains, not_contains, is_some_and, evaluate_field, is_empty, egress, ingress,
}
use nullnet.Filter.Postfix.{PostfixLaw, matches_dnf, has_groups}
use nullnet.Filter.Validation.{
  validate, validate_iff, acceptable, normalized, normalized_rule, check_rule, check_field,
}

-- The groups are alternatives, and a group asks all of its rules.
abbrev pub any_group : Externals → FilterContext → List (List FilterRule) → Bool
any_group x c groups = any (all (evaluate_predicate x c)) groups

abbrev pub decision : Externals → FilterPolicy → FilterContext → Bool
decision x FilterPolicy.none c = true
decision x (block groups) c = not (any_group x c groups)
decision x (allow groups) c = any_group x c groups

is_empty-map : {A B : Type 0} (f : A → B) (xs : List A) → is_empty (map f xs) ≡ is_empty xs
is_empty-map f [] = refl
is_empty-map f (a ∷ xs) = refl

all-not_empty :
    (f : FilterRule → FilterRule) (gs : List (List FilterRule))
    → all (λ g. not (is_empty g)) (map (map f) gs) ≡ all (λ g. not (is_empty g)) gs
all-not_empty f [] = refl
all-not_empty f (g ∷ gs) = ap₂ (λ a b. not a && b) (is_empty-map f g) (all-not_empty f gs)

-- The policies that `allows` reads as alternatives of groups.
abbrev grouped : FilterPolicy → Bool
grouped FilterPolicy.none = true
grouped (block groups) = has_groups groups
grouped (allow groups) = has_groups groups

allows-grouped :
    (x : Externals) (p : FilterPolicy) (c : FilterContext)
    → PostfixLaw x
    → grouped p ≡ true
    → allows x p c ≡ decision x p c
unfolding allows
allows-grouped x FilterPolicy.none c law h = refl
allows-grouped x (block groups) c law h = ap not (matches_dnf x groups c law h)
allows-grouped x (allow groups) c law h = matches_dnf x groups c law h

normalized-grouped :
    (x : Externals) (d : Direction) (p : FilterPolicy)
    → acceptable x d p ≡ true
    → grouped (normalized x p) ≡ true
normalized-grouped x d FilterPolicy.none h = refl
normalized-grouped x d (block gs) h =
    ground
      (arith, h, all-not_empty (normalized_rule x) gs, is_empty-map (map (normalized_rule x)) gs)
normalized-grouped x d (allow gs) h =
    ground
      (arith, h, all-not_empty (normalized_rule x) gs, is_empty-map (map (normalized_rule x)) gs)

-- A policy as `validate` leaves it when it succeeds blocks what one of its groups matches with all
-- of its rules, or allows only that: the postfix expression built from the groups evaluates to
-- the same, given that the interpreter evaluates postfix expressions.
pub allows_dnf :
    (x : Externals) (d : Direction) (p p' : FilterPolicy) (c : FilterContext)
    → PostfixLaw x
    → validate x d p ≡ (p', Option.none)
    → allows x p' c ≡ decision x p' c
allows_dnf x d p p' c law h = elim (validate_iff x d p) [
  | inl (good, e) ↦
      let same : normalized x p ≡ p' = ap (λ r. r.0) (sym e ∙ h) in
      allows-grouped x p' c law (ap grouped (sym same) ∙ normalized-grouped x d p good)
  | inr (bad, (err, stops)) ↦
      let no_error : (validate x d p).1 ≡ Option.none = ap (λ r. r.1) h in
      absurd (ground (arith, stops, no_error))
]

-- The conditions that compare a field's value.
abbrev pub fits : FilterField → FilterCondition → Bool
fits country equal = true
fits country not_equal = true
fits org equal = true
fits org not_equal = true
fits src_ip contains = true
fits src_ip not_contains = true
fits dst_ip contains = true
fits dst_ip not_contains = true
fits _ _ = false

is_some_and-false : {A : Type 0} (o : Option A) → is_some_and o (λ a. false) ≡ false
is_some_and-false Option.none = refl
is_some_and-false (some a) = refl

unfit_field :
    (x : Externals) (c : FilterContext) (f : FilterField) (q : FilterCondition) (r : FilterRule)
    → r.condition ≡ q
    → fits f q ≡ false
    → evaluate_field x f c r ≡ false
unfit_field x c country contains r e h = rw e (is_some_and-false (c.geo >>= λ g. g.country_code))
unfit_field x c country not_contains r e h =
    rw e (is_some_and-false (c.geo >>= λ g. g.country_code))
unfit_field x c org contains r e h = rw e (is_some_and-false (c.geo >>= λ g. g.org))
unfit_field x c org not_contains r e h = rw e (is_some_and-false (c.geo >>= λ g. g.org))
unfit_field x c src_ip equal r e h = rw e refl
unfit_field x c src_ip not_equal r e h = rw e refl
unfit_field x c dst_ip equal r e h = rw e refl
unfit_field x c dst_ip not_equal r e h = rw e refl
unfit_field x c _ _ r e h = absurd (ground (arith, h))

same_error :
    (x : Externals) (d : Direction) (f : FilterField) (r : FilterRule) (other : FilterCondition)
    → (check_field x d f r).1 ≡ (check_field x d f (record r { condition = other })).1
same_error x egress src_ip r other = refl
same_error x ingress src_ip r other = refl
same_error x egress dst_ip r other = refl
same_error x ingress dst_ip r other = refl
same_error x egress country r other = refl
same_error x ingress country r other = refl
same_error x egress org r other = refl
same_error x ingress org r other = refl

-- A rule whose condition does not fit its field, `contains` on a country say, matches no traffic,
-- and `validate` reports an error for it exactly when it reports the same for the rule with any
-- other condition: it never looks at the condition.
pub unfit_rule :
    (x : Externals) (d : Direction) (c : FilterContext) (r : FilterRule) (other : FilterCondition)
    → fits r.field r.condition ≡ false
    → (evaluate_predicate x c r ≡ false)
      × ((check_rule x d r).1 ≡ (check_rule x d (record r { condition = other })).1)
unfolding evaluate_predicate check_rule
unfit_rule x d c r other h = (
  unfit_field x c r.field r.condition r refl h,
  elim (Bool-cases (is_empty r.values)) [
    | inl empty ↦ rw empty refl
    | inr some_value ↦ rw some_value (same_error x d r.field r other)
  ],
)
