-- ===== src/Routes/Sorting.antt =====
-- members/nullnet-proxy/src/routes.rs: the first match in the sorted routes.
use mathlib.Core.Option.{some-injective}
use nullnet.Prelude.{
  All, Bool, Bool-cases, List, Option, Option-cases, Text, [], ap, arith, false, if◌then◌else◌, inl,
  inr, ltb, ltb→lt, none, refl, some, sym, true, ℕ, ◌∙◌, ◌∷◌, ◌≡◌, ◌≤◌, text_eq,
}
use nullnet.Routes.{
  HttpRoute, RouteMatch, Resolution, not_found, prefix_len, insert_route, sort_routes, match_route,
  or_match, first_match,
}

-- A reference: of the routes that match, one with the longest prefix, the first of them.
abbrev pub longer : HttpRoute → Option HttpRoute → Option HttpRoute
longer r none = some r
longer r (some s) = if ltb (prefix_len r) (prefix_len s) then some s else some r

abbrev pub is_match : Option RouteMatch → Bool
is_match none = false
is_match (some m) = true

unfoldable pub longest : Text → List HttpRoute → Option HttpRoute
longest path [] = none
longest path (r ∷ rs) =
    let rest = longest path rs in if is_match (match_route path r) then longer r rest else rest

abbrev pub outcome : Text → Option HttpRoute → Resolution
outcome path none = not_found
outcome path (some r) = or_match (match_route path r) not_found

-- The first match, as a route.
first : Text → List HttpRoute → Option HttpRoute
first path [] = none
first path (r ∷ rs) =
    let rest = first path rs in if is_match (match_route path r) then some r else rest

first_match-first :
    (path : Text) (rs : List HttpRoute) → first_match path rs ≡ outcome path (first path rs)
unfolding first first_match
first_match-first path [] = refl
first_match-first path (r ∷ rs) = elim (Option-cases (match_route path r)) [
  | inl skip ↦ rw skip (first_match-first path rs)
  | inr (m, hit) ↦ rw (hit, hit) refl
]

abbrev Sorted : List HttpRoute → Type 0
Sorted [] = Unit
Sorted (r ∷ rs) = All (λ s. prefix_len s ≤ prefix_len r) rs × Sorted rs

insert_route-All :
    (n : ℕ) (r : HttpRoute) (rs : List HttpRoute)
    → prefix_len r ≤ n
    → All (λ s. prefix_len s ≤ n) rs
    → All (λ s. prefix_len s ≤ n) (insert_route r rs)
unfolding insert_route
insert_route-All n r [] h k = (h, tt)
insert_route-All n r (s ∷ rs) h k = elim (Bool-cases (ltb (prefix_len r) (prefix_len s))) [
  | inl later ↦ rw later (k.0, insert_route-All n r rs h k.1)
  | inr here ↦ rw here (h, k)
]

All-weaken :
    (n m : ℕ) (rs : List HttpRoute)
    → n ≤ m
    → All (λ s. prefix_len s ≤ n) rs
    → All (λ s. prefix_len s ≤ m) rs
All-weaken n m [] h k = tt
All-weaken n m (s ∷ rs) h k = (omega (arith, k.0), All-weaken n m rs h k.1)

insert_route-Sorted : (r : HttpRoute) (rs : List HttpRoute) → Sorted rs → Sorted (insert_route r rs)
unfolding insert_route
insert_route-Sorted r [] h = (tt, tt)
insert_route-Sorted r (s ∷ rs) h = elim (Bool-cases (ltb (prefix_len r) (prefix_len s))) [
  | inl later ↦
      let lt = ltb→lt _ _ later in
      rw later
        (insert_route-All (prefix_len s) r rs (omega (arith, lt)) h.0, insert_route-Sorted r rs h.1)
  | inr here ↦
      let le : prefix_len s ≤ prefix_len r = ground (arith, here) in
      rw here ((le, All-weaken (prefix_len s) (prefix_len r) rs le h.0), h)
]

first-All :
    (path : Text) (n : ℕ) (rs : List HttpRoute) (s : HttpRoute)
    → All (λ s. prefix_len s ≤ n) rs
    → first path rs ≡ some s
    → prefix_len s ≤ n
unfolding first
first-All path n [] s h e = absurd (ground arith)
first-All path n (r ∷ rs) s h e = elim (Bool-cases (is_match (match_route path r))) [
  | inl hit ↦ let same : r ≡ s = some-injective r s (rw hit at e) in rw (sym same) h.0
  | inr skip ↦ first-All path n rs s h.1 (rw skip at e)
]

-- Where a matching route goes among sorted ones, no match before it is as short.
first-insert :
    (path : Text) (r : HttpRoute) (rs : List HttpRoute)
    → Sorted rs
    → first path (insert_route r rs)
      ≡ (if is_match (match_route path r) then longer r (first path rs) else first path rs)
unfolding insert_route first
first-insert path r [] h = refl
first-insert path r (s ∷ rs) h =
    let ih = first-insert path r rs h.1 in
    let below = first-All path (prefix_len s) rs in
    elim (Bool-cases (ltb (prefix_len r) (prefix_len s))) [
      | inl later ↦ elim (Bool-cases (is_match (match_route path s))) [
        | inl hit ↦ elim (Bool-cases (is_match (match_route path r))) [
          | inl mine ↦ rw (later, hit, mine, later) refl
          | inr other ↦ rw (later, hit, other) refl
        ]
        | inr skip ↦ rw (later, skip) ih
      ]
      | inr here ↦ elim (Bool-cases (is_match (match_route path r))) [
        | inr other ↦ rw (here, other) refl
        | inl mine ↦ elim (Bool-cases (is_match (match_route path s))) [
          | inl hit ↦ rw (here, mine, hit, here) refl
          | inr skip ↦ elim (Option-cases (first path rs)) [
            | inl nothing ↦ rw (here, mine, skip, nothing) refl
            | inr (t, found) ↦
                let le = below t h.0 found in
                let short : ltb (prefix_len r) (prefix_len t) ≡ false = ground (arith, here, le) in
                rw (here, mine, skip, found, short) refl
          ]
        ]
      ]
    ]

sort_routes-Sorted : (rs : List HttpRoute) → Sorted (sort_routes rs)
unfolding sort_routes
sort_routes-Sorted [] = tt
sort_routes-Sorted (r ∷ rs) = insert_route-Sorted r (sort_routes rs) (sort_routes-Sorted rs)

first-sort : (path : Text) (rs : List HttpRoute) → first path (sort_routes rs) ≡ longest path rs
unfolding sort_routes first longest
first-sort path [] = refl
first-sort path (r ∷ rs) =
    first-insert path r (sort_routes rs) (sort_routes-Sorted rs) ∙ rw (first-sort path rs) refl

pub first_match-sort :
    (path : Text) (rs : List HttpRoute)
    → first_match path (sort_routes rs) ≡ outcome path (longest path rs)
first_match-sort path rs =
    first_match-first path (sort_routes rs) ∙ ap (outcome path) (first-sort path rs)
