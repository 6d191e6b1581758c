-- ===== src/Filter.antt =====
-- members/nullnet-server/src/services/firewall.rs: the traffic filter of a service.
pub mod Postfix
pub mod Validation
pub mod Decision
mod Tests
use mathlib.Core.Option
use nullnet.Prelude.{
  Bool, List, Option, Text, [], all, any, eqb, false, if◌then◌else◌, leb, ltb, not, some, true, ℕ,
  ◌&&◌, ◌++◌, ◌+◌, ◌>>=◌, ◌∷◌, nat_eq,
}
use nullnet.Addr.{Ipv4Addr}

pub data Direction : Type 0 where
  egress ingress : Direction

pub data FilterField : Type 0 where
  country org src_ip dst_ip : FilterField

pub data FilterCondition : Type 0 where
  equal not_equal contains not_contains : FilterCondition

pub record FilterRule : Type 0 where
  pub field : FilterField
  pub condition : FilterCondition
  pub values : List Text

pub data FilterPolicy : Type 0 where
  none : FilterPolicy
  block allow : List (List FilterRule) → FilterPolicy

-- The tokens of a postfix expression.
pub data Token : Type 0 where
  predicate : FilterRule → Token
  and_op or_op : Token

-- The crates `ipnetwork` and `rpn_predicate_interpreter`, and the Unicode tables of
-- `str::to_uppercase`.
pub record Externals : Type 1 where
  pub Network : Type 0
  pub network_of : Text → Option Network
  pub is_inside : Network → Ipv4Addr → Bool
  pub Expression : Type 0
  pub from_tokens : List Token → Option Expression
  pub evaluate : Expression → (FilterRule → Bool) → Bool
  pub to_uppercase : Text → Text

-- `eq_ignore_ascii_case`.
abbrev pub ascii_lower : ℕ → ℕ
ascii_lower c = if leb 65 c && leb c 90 then c + 32 else c

pub eq_ignore_ascii_case : Text → Text → Bool
eq_ignore_ascii_case [] [] = true
eq_ignore_ascii_case (c ∷ s) (d ∷ t) =
    eqb (ascii_lower c) (ascii_lower d) && eq_ignore_ascii_case s t
eq_ignore_ascii_case _ _ = false

abbrev pub compare_str : FilterCondition → Text → List Text → Bool
compare_str FilterCondition.equal left right = any (λ v. eq_ignore_ascii_case v left) right
compare_str FilterCondition.not_equal left right =
    all (λ v. not (eq_ignore_ascii_case v left)) right
compare_str _ left right = false

-- `GeoInfo`, as far as a rule reads it.
pub record GeoInfo : Type 0 where
  pub country_code : Option Text
  pub org : Option Text

pub record FilterContext : Type 0 where
  pub ip : Ipv4Addr
  pub geo : Option GeoInfo

abbrev pub is_some_and {ℓ} : {A : Type ℓ} → Option A → (A → Bool) → Bool
is_some_and Option.none p = false
is_some_and (some a) p = p a

abbrev pub cons_some {ℓ} : {A : Type ℓ} → Option A → List A → List A
cons_some Option.none xs = xs
cons_some (some x) xs = x ∷ xs

-- The tokens of a group's rules, from the rule with this number on.
unfoldable pub group_tokens : (ri : ℕ) → List FilterRule → List Token
group_tokens ri [] = []
group_tokens ri (rule ∷ rules) =
    predicate rule ∷ (if ltb 0 ri then and_op ∷ [] else []) ++ group_tokens (ri + 1) rules

abbrev pub is_empty {ℓ} : {A : Type ℓ} → List A → Bool
is_empty [] = true
is_empty _ = false

unfoldable pub groups_tokens : (gi : ℕ) → List (List FilterRule) → Option (List Token)
groups_tokens gi [] = some []
groups_tokens gi (group ∷ groups) =
    let rest = groups_tokens (gi + 1) groups in
    if is_empty group
    then Option.none
    else rest >>= λ tokens.
        some (group_tokens 0 group ++ ((if ltb 0 gi then or_op ∷ [] else []) ++ tokens))

module _ (x : Externals) where
  -- `values.iter().filter_map(|v| IpNetwork::from_str(v).ok())`.
  pub networks : List Text → List x.Network
  networks [] = []
  networks (v ∷ vs) = cons_some (x.network_of v) (networks vs)

  abbrev pub compare_ip : FilterCondition → Ipv4Addr → List Text → Bool
  compare_ip FilterCondition.contains ip values = any (λ n. x.is_inside n ip) (networks values)
  compare_ip FilterCondition.not_contains ip values =
      all (λ n. not (x.is_inside n ip)) (networks values)
  compare_ip _ ip values = false

  abbrev pub evaluate_field : FilterField → FilterContext → FilterRule → Bool
  evaluate_field FilterField.country c rule =
      is_some_and (c.geo >>= λ g. g.country_code) (λ s. compare_str rule.condition s rule.values)
  evaluate_field FilterField.org c rule =
      is_some_and (c.geo >>= λ g. g.org) (λ s. compare_str rule.condition s rule.values)
  evaluate_field _ c rule = compare_ip rule.condition c.ip rule.values

  unfoldable pub evaluate_predicate : FilterContext → FilterRule → Bool
  evaluate_predicate c rule = evaluate_field rule.field c rule

  unfoldable pub to_postfix : List (List FilterRule) → Option x.Expression
  to_postfix groups = groups_tokens 0 groups >>= x.from_tokens

  unfoldable pub matches : List (List FilterRule) → FilterContext → Bool
  matches groups c = is_some_and (to_postfix groups) (λ e. x.evaluate e (evaluate_predicate c))

  unfoldable pub allows : FilterPolicy → FilterContext → Bool
  allows FilterPolicy.none c = true
  allows (block groups) c = not (matches groups c)
  allows (allow groups) c = matches groups c
