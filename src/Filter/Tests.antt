-- ===== src/Filter/Tests.antt =====
-- Examples of filters: members/nullnet-server/src/services/firewall.rs.
use nullnet.Prelude.{
  Bool, List, Option, Text, [], ap, codes, false, if◌then◌else◌, leb, map, refl, some, true, ℕ,
  ◌&&◌, ◌-◌, ◌∷◌, ◌≡◌, ◌⊎◌, nat_eq,
}
use nullnet.Filter.{
  Externals, FilterField, FilterCondition, FilterRule, FilterPolicy, FilterContext, block, allow,
  allows, evaluate_predicate, Token, egress, country, org, src_ip, equal, contains,
}
use nullnet.Filter.Postfix.{PostfixLaw, run_tokens}
use nullnet.Filter.Validation.{
  InvalidFilter, validate, validate_groups, loop, check_rule, acceptable, normalized, validate_iff,
}
use nullnet.Filter.Decision.{decision, allows_dnf, unfit_rule}

-- An interpreter that runs the tokens on a stack.
abbrev top : Option (List Bool) → Bool
top (some (b ∷ [])) = b
top _ = false

abbrev upper : ℕ → ℕ
upper c = if leb 97 c && leb c 122 then c - 32 else c

abbrev crates : Externals
crates = record {
  Network = Unit;
  network_of = λ text. elim text [ [] ↦ Option.none | c ∷ s ↦ some tt ];
  is_inside = λ n ip. true;
  Expression = List Token;
  from_tokens = λ tokens. some tokens;
  evaluate = λ tokens p. top (run_tokens p tokens []);
  to_uppercase = map upper;
}

crates-law : PostfixLaw crates
crates-law tokens value h = (tokens, refl, λ p. ap top (h p))

abbrev rule : FilterField → FilterCondition → List Text → FilterRule
rule field condition values = record { field = field; condition = condition; values = values }

abbrev policy : FilterPolicy
policy =
    block ((rule country equal (codes "it" ∷ []) ∷ rule org equal (codes "Acme" ∷ []) ∷ []) ∷ [])

validate_iff_example :
    (acceptable crates egress policy ≡ true)
      × (validate crates egress policy ≡ (normalized crates policy, Option.none))
    ⊎ (acceptable crates egress policy ≡ false)
      × ((e : InvalidFilter) × ((validate crates egress policy).1 ≡ some e))
validate_iff_example = validate_iff crates egress policy

accepted : validate crates egress policy ≡ (normalized crates policy, Option.none)
unfolding validate validate_groups loop check_rule
accepted = refl

rejected :
    (validate crates egress (allow ((rule src_ip contains (codes "10.0.0.1" ∷ []) ∷ []) ∷ []))).1
    ≡ some InvalidFilter.src_ip_on_egress
unfolding validate validate_groups loop check_rule
rejected = refl

abbrev visit : FilterContext
visit = record {
  ip = record { a = 1; b = 1; c = 1; d = 1 };
  geo = some (record { country_code = some (codes "it"); org = Option.none });
}

allows_dnf_example :
    allows crates (normalized crates policy) visit
    ≡ decision crates (normalized crates policy) visit
allows_dnf_example =
    allows_dnf crates egress policy (normalized crates policy) visit crates-law accepted

unfit_rule_example :
    (evaluate_predicate crates visit (rule country contains (codes "it" ∷ [])) ≡ false)
    × ((check_rule crates egress (rule country contains (codes "it" ∷ []))).1
        ≡ (check_rule crates egress (rule country equal (codes "it" ∷ []))).1)
unfit_rule_example =
    unfit_rule crates egress visit (rule country contains (codes "it" ∷ [])) equal refl
