-- ===== src/Routes/Resolving.antt =====
-- members/nullnet-proxy/src/routes.rs: what a table built from a bundle resolves to.
use nullnet.Prelude.{
  ==_iff, Bool-cases, List, Option, Text, [], ap, get, get-insert, if◌then◌else◌, inl, inr, insert,
  none, refl, some, ◌++◌, ◌==◌, ◌∙◌, ◌∷◌, ◌≡◌, text_eq,
}
use nullnet.Routes.{
  HttpRoute, RouteTable, Resolution, fallback, or_empty, by_host, sort_values, sort_routes,
  from_bundle, resolve_routes, resolve,
}
use nullnet.Routes.Sorting.{longest, outcome, first_match-sort}

-- The routes of a host, in the order of the bundle.
abbrev pub of_host : Text → List HttpRoute → List HttpRoute
of_host host [] = []
of_host host (r ∷ rs) = if r.host == host then r ∷ of_host host rs else of_host host rs

-- The routes of a host that has some, with those of `rs` behind them.
abbrev appended : Option (List HttpRoute) → List HttpRoute → Option (List HttpRoute)
appended o [] = o
appended o (r ∷ rs) = some (or_empty o ++ (r ∷ rs))

append_one :
    (xs : List HttpRoute) (r s : HttpRoute) (rs : List HttpRoute)
    → (xs ++ (r ∷ [])) ++ (s ∷ rs) ≡ xs ++ (r ∷ s ∷ rs)
append_one [] r s rs = refl
append_one (x ∷ xs) r s rs = ap (λ ys. x ∷ ys) (append_one xs r s rs)

appended-push :
    (o : Option (List HttpRoute)) (r : HttpRoute) (rs : List HttpRoute)
    → appended (some (or_empty o ++ (r ∷ []))) rs ≡ appended o (r ∷ rs)
appended-push o r [] = refl
appended-push o r (s ∷ rs) = ap some (append_one (or_empty o) r s rs)

get-by_host :
    (host : Text) (rs : List HttpRoute) (table : RouteTable)
    → get host (by_host rs table) ≡ appended (get host table) (of_host host rs)
unfolding by_host
get-by_host host [] table = refl
get-by_host host (r ∷ rs) table =
    let here = or_empty (get r.host table) ++ (r ∷ []) in
    let rest = get-by_host host rs (insert r.host here table) in
    elim (Bool-cases (r.host == host)) [
      | inr other ↦
          let unchanged : get host (insert r.host here table) ≡ get host table =
            get-insert r.host host here table ∙ rw other refl in
          rest ∙ ap (λ o. appended o (of_host host rs)) unchanged ∙ rw other refl
      | inl same ↦
          let eq = (==_iff r.host host).0 same in
          let pushed : get host (insert r.host here table)
              ≡ some (or_empty (get host table) ++ (r ∷ [])) =
            get-insert r.host host here table
            ∙ rw same (ap (λ h. some (or_empty (get h table) ++ (r ∷ []))) eq) in
          rest
          ∙ ap (λ o. appended o (of_host host rs)) pushed
          ∙ appended-push (get host table) r (of_host host rs)
          ∙ rw same refl
    ]

abbrev sorted_value : Option (List HttpRoute) → Option (List HttpRoute)
sorted_value none = none
sorted_value (some rs) = some (sort_routes rs)

get-sort_values :
    (host : Text) (table : RouteTable)
    → get host (sort_values table) ≡ sorted_value (get host table)
unfolding sort_values get
get-sort_values host [] = refl
get-sort_values host ((h, rs) ∷ table) = elim (Bool-cases (h == host)) [
  | inl same ↦ rw same refl
  | inr other ↦ rw other (get-sort_values host table)
]

-- What a path resolves to among the routes of its host.
abbrev pub expected : Text → List HttpRoute → Resolution
expected path [] = fallback
expected path (r ∷ rs) = outcome path (longest path (r ∷ rs))

resolve-appended :
    (path : Text) (rs : List HttpRoute)
    → resolve_routes (sorted_value (appended none rs)) path ≡ expected path rs
resolve-appended path [] = refl
resolve-appended path (r ∷ rs) = first_match-sort path (r ∷ rs)

-- In a table built from a bundle, a host that no route of the bundle names falls back. Any other
-- path goes to the route of its host that has a target and the longest prefix of the path, the
-- first of them in the bundle when there are several, and is not found when there is none.
pub longest_prefix_wins :
    (bundle : List HttpRoute) (host path : Text)
    → resolve (from_bundle bundle) host path ≡ expected path (of_host host bundle)
unfolding resolve from_bundle get
longest_prefix_wins bundle host path =
    let table = by_host bundle [] in
    ap (λ o. resolve_routes o path)
      (get-sort_values host table ∙ ap sorted_value (get-by_host host bundle []))
    ∙ resolve-appended path (of_host host bundle)
