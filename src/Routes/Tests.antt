-- ===== src/Routes/Tests.antt =====
-- Examples of the table of routes: members/nullnet-proxy/src/routes.rs.
use nullnet.Prelude.{
  List, Text, [], codes, false, get, if◌then◌else◌, insert, not, refl, some, true, ◌&&◌, ◌++◌, ◌∷◌,
  ◌≡◌, text_eq,
}
use nullnet.Routes.{
  HttpRoute, Target, backend, matched, from_bundle, sort_values, sort_routes, insert_route, by_host,
  resolve, first_match, match_route, stripped,
}
use nullnet.Routes.Resolving.{of_host, expected, longest_prefix_wins}
use nullnet.Routes.Redirects.{
  resolve_redirect_target, split_once, contains, scheme_end, redirect_query, is_bare, target_of,
}

abbrev route : Text → Text → HttpRoute
route prefix service = record {
  host = codes "a.com";
  path_prefix = prefix;
  strip_prefix = true;
  target = some (Target.service_name service);
}

abbrev bundle : List HttpRoute
bundle = route (codes "/") (codes "web") ∷ route (codes "/api") (codes "api") ∷ []

longest_prefix_wins_example :
    resolve (from_bundle bundle) (codes "a.com") (codes "/api/x")
    ≡ expected (codes "/api/x") (of_host (codes "a.com") bundle)
longest_prefix_wins_example = longest_prefix_wins bundle (codes "a.com") (codes "/api/x")

resolved :
    resolve (from_bundle bundle) (codes "a.com") (codes "/api/x")
    ≡ matched (backend (codes "api") (codes "/x"))
unfolding resolve from_bundle sort_values sort_routes insert_route by_host first_match match_route
    stripped get insert
resolved = refl

moved :
    resolve_redirect_target
      (codes "/new?x=1")
      (codes "/a")
      true
      true
      (some (codes "y=2"))
      (codes "a.com")
      true
    ≡ codes "https://a.com/new/a?x=1&y=2"
unfolding resolve_redirect_target split_once
moved = refl

-- The kept query of the second request holds `://`: its `Location` has no scheme and no host.
lost_host :
    resolve_redirect_target
      (codes "/login")
      []
      false
      true
      (some (codes "next=http://x"))
      (codes "a.com")
      true
    ≡ codes "/login?next=http://x"
unfolding resolve_redirect_target split_once
lost_host = refl

redirect_query_example :
    let to = codes "/login" in
    let query = codes "next=http://x" in
    let host = codes "a.com" in
    let location = resolve_redirect_target to [] false true (some query) host true in
    let target = target_of to [] false true (some query) in
    ((p : Text) × (location ≡ p ++ query))
    × (location
        ≡ (if is_bare location then target else codes "https" ++ (scheme_end ++ (host ++ target))))
    × (is_bare location ≡ contains target scheme_end)
    × ((contains query scheme_end && not (is_bare location)) ≡ false)
redirect_query_example =
    redirect_query (codes "login") [] false (codes "next=http://x") (codes "a.com") true
