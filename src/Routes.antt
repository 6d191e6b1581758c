-- ===== src/Routes.antt =====
-- members/nullnet-proxy/src/routes.rs: the proxy's table of HTTP routes.
-- A text is its UTF-8 bytes, by which the source measures and strips it.
pub mod Sorting
pub mod Resolving
pub mod Redirects
mod Tests
use nullnet.Prelude.{
  Bool, List, Map, Option, Text, [], eqb, get, if◌then◌else◌, insert, length, ltb, none, some, ℕ,
  ◌++◌, ◌>>=◌, ◌^◌, ◌∷◌, text_eq,
}

pub record HttpRedirect : Type 0 where
  pub to : Text
  pub status_code : ℕ
  pub preserve_path : Bool
  pub preserve_query : Bool

pub data Target : Type 0 where
  service_name : Text → Target
  redirect : HttpRedirect → Target

pub record HttpRoute : Type 0 where
  pub host : Text
  pub path_prefix : Text
  pub strip_prefix : Bool
  pub target : Option Target

pub data RouteMatch : Type 0 where
  backend : (service forward_path : Text) → RouteMatch
  redirected :
      (to : Text)
      → (status : ℕ) → (preserve_path preserve_query : Bool) → (matched_suffix : Text) → RouteMatch

pub data Resolution : Type 0 where
  fallback : Resolution
  matched : RouteMatch → Resolution
  not_found : Resolution

-- `RouteTable`: the routes of each host, longer prefixes first.
abbrev pub RouteTable : Type 0
RouteTable = Map Text (List HttpRoute)

abbrev pub or_empty {ℓ} : {A : Type ℓ} → Option (List A) → List A
or_empty none = []
or_empty (some xs) = xs

abbrev pub prefix_len : HttpRoute → ℕ
prefix_len r = length r.path_prefix

-- `sort_by_key` with the length reversed keeps the order of routes of the same length.
unfoldable pub insert_route : HttpRoute → List HttpRoute → List HttpRoute
insert_route r [] = r ∷ []
insert_route r (s ∷ rs) =
    let rest = insert_route r rs in
    if ltb (prefix_len r) (prefix_len s) then s ∷ rest else r ∷ s ∷ rs

unfoldable pub sort_routes : List HttpRoute → List HttpRoute
sort_routes [] = []
sort_routes (r ∷ rs) = insert_route r (sort_routes rs)

-- The first loop of `from_bundle`, on the table so far.
unfoldable pub by_host : List HttpRoute → RouteTable → RouteTable
by_host [] table = table
by_host (r ∷ rs) table = by_host rs (insert r.host (or_empty (get r.host table) ++ (r ∷ [])) table)

unfoldable pub sort_values : RouteTable → RouteTable
sort_values [] = []
sort_values ((host, routes) ∷ table) = (host, sort_routes routes) ∷ sort_values table

unfoldable pub from_bundle : List HttpRoute → RouteTable
from_bundle routes = sort_values (by_host routes [])

-- `str::strip_prefix`: what follows the prefix.
unfoldable pub stripped : (prefix path : Text) → Option Text
stripped [] path = some path
stripped (c ∷ prefix) [] = none
stripped (c ∷ prefix) (d ∷ path) = if eqb c d then stripped prefix path else none

abbrev pub slash : ℕ
slash = 47

abbrev pub normalize_forward_path : Text → Text
normalize_forward_path [] = slash ∷ []
normalize_forward_path (c ∷ suffix) = if eqb c slash then c ∷ suffix else slash ∷ c ∷ suffix

-- `u16::try_from(status).unwrap_or(301)`.
abbrev pub status_of : ℕ → ℕ
status_of status = if ltb status (2 ^ 16) then status else 301

abbrev pub dispatch : (path suffix : Text) → Bool → Target → RouteMatch
dispatch path suffix strip (service_name name) =
    backend name (if strip then normalize_forward_path suffix else path)
dispatch path suffix strip (redirect r) =
    redirected r.to (status_of r.status_code) r.preserve_path r.preserve_query suffix

-- What a route makes of a path; `none` is `continue`.
unfoldable pub match_route : Text → HttpRoute → Option RouteMatch
match_route path r = do
  suffix ← stripped r.path_prefix path
  target ← r.target
  some (dispatch path suffix r.strip_prefix target)

abbrev pub or_match : Option RouteMatch → Resolution → Resolution
or_match none rest = rest
or_match (some m) rest = matched m

unfoldable pub first_match : Text → List HttpRoute → Resolution
first_match path [] = not_found
first_match path (r ∷ rs) = or_match (match_route path r) (first_match path rs)

abbrev pub resolve_routes : Option (List HttpRoute) → Text → Resolution
resolve_routes none path = fallback
resolve_routes (some routes) path = first_match path routes

unfoldable pub resolve : RouteTable → (host path : Text) → Resolution
resolve table host path = resolve_routes (get host table) path
