-- ===== src/Filter/Postfix.antt =====
-- members/nullnet-server/src/services/firewall.rs: the postfix expression of a filter.
use nullnet.Prelude.{
  Bool, List, Option, [], all, any, arith, ltb, none, not, refl, some, true, ℕ, ◌&&◌, ◌++◌, ◌+◌,
  ◌<◌, ◌>>=◌, ◌||◌, ◌∙◌, ◌∷◌, ◌≡◌, nat_eq,
}
use nullnet.Filter.{
  Externals, FilterRule, FilterContext, Token, predicate, and_op, or_op, group_tokens,
  groups_tokens, to_postfix, matches, evaluate_predicate, is_empty,
}

abbrev binary : (Bool → Bool → Bool) → List Bool → Option (List Bool)
binary f (b ∷ a ∷ stack) = some (f a b ∷ stack)
binary f _ = none

abbrev and_bool : Bool → Bool → Bool
and_bool a b = a && b

abbrev or_bool : Bool → Bool → Bool
or_bool a b = a || b

-- What a postfix expression means: a predicate pushes its value, an operator takes two values.
pub run_tokens : (FilterRule → Bool) → List Token → List Bool → Option (List Bool)
run_tokens p [] stack = some stack
run_tokens p (predicate rule ∷ tokens) stack = run_tokens p tokens (p rule ∷ stack)
run_tokens p (and_op ∷ tokens) stack = binary and_bool stack >>= run_tokens p tokens
run_tokens p (or_op ∷ tokens) stack = binary or_bool stack >>= run_tokens p tokens

-- The crate's contract: tokens that leave one value, whatever the predicates say, make an
-- expression, and it evaluates to that value.
abbrev pub PostfixLaw : Externals → Type 0
PostfixLaw x =
    (tokens : List Token) (value : (FilterRule → Bool) → Bool)
    → ((p : FilterRule → Bool) → run_tokens p tokens [] ≡ some (value p ∷ []))
    → (e : x.Expression) × (x.from_tokens tokens ≡ some e)
      × ((p : FilterRule → Bool) → x.evaluate e p ≡ value p)

-- A run over two lists is a run over one and then the other.
run-append :
    (p : FilterRule → Bool) (ts us : List Token) (stack : List Bool)
    → run_tokens p (ts ++ us) stack ≡ (run_tokens p ts stack >>= run_tokens p us)
unfolding run_tokens
run-append p [] us stack = refl
run-append p (predicate r ∷ ts) us stack = run-append p ts us (p r ∷ stack)
run-append p (and_op ∷ ts) us (b ∷ a ∷ stack) = run-append p ts us ((a && b) ∷ stack)
run-append p (and_op ∷ ts) us (b ∷ []) = refl
run-append p (and_op ∷ ts) us [] = refl
run-append p (or_op ∷ ts) us (b ∷ a ∷ stack) = run-append p ts us ((a || b) ∷ stack)
run-append p (or_op ∷ ts) us (b ∷ []) = refl
run-append p (or_op ∷ ts) us [] = refl

-- Behind the first rule, each rule is joined to the value on the stack.
run-rest :
    (p : FilterRule → Bool) (ri : ℕ) (rules : List FilterRule) (a : Bool) (stack : List Bool)
    → 0 < ri
    → run_tokens p (group_tokens ri rules) (a ∷ stack) ≡ some ((a && all p rules) ∷ stack)
unfolding run_tokens group_tokens
run-rest p ri [] a stack h = ground arith
run-rest p ri (r ∷ rules) a stack h =
    let later = run-rest p (ri + 1) rules (a && p r) stack (omega arith) in
    let yes : ltb 0 ri ≡ true = ground (arith, h) in rw yes (later ∙ ground (arith))

run-group :
    (p : FilterRule → Bool) (rule : FilterRule) (rules : List FilterRule) (stack : List Bool)
    → run_tokens p (group_tokens 0 (rule ∷ rules)) stack ≡ some (all p (rule ∷ rules) ∷ stack)
unfolding run_tokens group_tokens
run-group p r rules stack = run-rest p 1 rules (p r) stack (omega arith)

-- The groups from the second on, joined to the value on the stack.
run-groups :
    (gi : ℕ) (groups : List (List FilterRule))
    → 0 < gi
    → all (λ g. not (is_empty g)) groups ≡ true
    → (tokens : List Token) × (groups_tokens gi groups ≡ some tokens)
      × ((p : FilterRule → Bool) (a : Bool) (stack : List Bool)
          → run_tokens p tokens (a ∷ stack) ≡ some ((a || any (all p) groups) ∷ stack))
unfolding groups_tokens run_tokens
run-groups gi [] h full = ([], refl, λ p a stack. ground arith)
run-groups gi ([] ∷ groups) h full = absurd (ground arith)
run-groups gi ((r ∷ rules) ∷ groups) h full =
    let (tokens, e, runs) = run-groups (gi + 1) groups (omega arith) full in
    let yes : ltb 0 gi ≡ true = ground (arith, h) in
    (
      group_tokens 0 (r ∷ rules) ++ (or_op ∷ tokens),
      rw (yes, e) refl,
      λ p a stack.
          run-append p (group_tokens 0 (r ∷ rules)) (or_op ∷ tokens) (a ∷ stack)
          ∙ rw (run-group p r rules (a ∷ stack))
              (runs p (a || all p (r ∷ rules)) stack ∙ ground arith),
    )

-- The groups of a policy that `validate` lets pass: there is one, and none is empty.
abbrev pub has_groups : List (List FilterRule) → Bool
has_groups groups = not (is_empty groups) && all (λ g. not (is_empty g)) groups

pub matches_dnf :
    (x : Externals) (groups : List (List FilterRule)) (c : FilterContext)
    → PostfixLaw x
    → has_groups groups ≡ true
    → matches x groups c ≡ any (all (evaluate_predicate x c)) groups
unfolding matches to_postfix groups_tokens
matches_dnf x [] c law h = absurd (ground arith)
matches_dnf x ([] ∷ groups) c law h = absurd (ground arith)
matches_dnf x ((r ∷ rules) ∷ groups) c law h =
    let (tokens, e, runs) = run-groups 1 groups (omega arith) h in
    let value : (FilterRule → Bool) → Bool = λ p. any (all p) ((r ∷ rules) ∷ groups) in
    let all_tokens = group_tokens 0 (r ∷ rules) ++ tokens in
    let (expr, from, evaluates) = law all_tokens value (λ p.
      run-append p (group_tokens 0 (r ∷ rules)) tokens []
      ∙ rw (run-group p r rules []) (runs p (all p (r ∷ rules)) [])) in
    rw (e, from) (evaluates (evaluate_predicate x c))
