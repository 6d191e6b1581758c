-- ===== src/Bundles/Resolved.antt =====
-- What the proxy makes of the bundle that the server builds:
-- members/nullnet-server/src/nullnet_grpc_impl.rs and members/nullnet-proxy/src/routes.rs.
use nullnet.Prelude.{
  ==_iff, Bool, Bool-cases, List, Text, [], ap, arith, false, if◌then◌else◌, inl, inr, map, none,
  refl, some, true, ◌&&◌, ◌++◌, ◌==◌, ◌||◌, ◌∙◌, ◌∷◌, ◌≡◌, nat_eq, text_eq,
}
use nullnet.Bundles.{
  services_of, entries_of, wire_route, root_route, is_explicit, is_reachable, implicit_routes,
  build_http_route_bundle,
}
use nullnet.Config.{RouteEntry}
use nullnet.Config.Conflicts.{StackMap, RouteMap}
use nullnet.Routes.{
  HttpRoute, backend, matched, fallback, slash, match_route, resolve, from_bundle, stripped,
}
use nullnet.Routes.Resolving.{of_host, expected, longest_prefix_wins}
use nullnet.Routes.Sorting.{longest}
use nullnet.Services.Chains.{ServiceMap}

-- The declared routes of a host.
abbrev pub declared : Text → List RouteEntry → List HttpRoute
declared host entries = of_host host (map wire_route entries)

-- Some service of this name serves HTTP and is reachable.
abbrev pub is_served : Text → ServiceMap → Bool
is_served host [] = false
is_served host ((name, info) ∷ m) = is_reachable info && name == host || is_served host m

module _ (host : Text) where
  of_host-append :
      (xs ys : List HttpRoute) → of_host host (xs ++ ys) ≡ of_host host xs ++ of_host host ys
  of_host-append [] ys = refl
  of_host-append (x ∷ xs) ys = ground (arith, of_host-append xs ys)

  no_declared :
      (entries : List RouteEntry) → is_explicit host entries ≡ false → declared host entries ≡ []
  no_declared [] h = refl
  no_declared (e ∷ entries) h = ground (arith, no_declared entries)

  -- A host that a route names gets no route of its own.
  no_implicit :
      (entries : List RouteEntry) (m : ServiceMap)
      → is_explicit host entries ≡ true
      → of_host host (implicit_routes entries m) ≡ []
  unfolding implicit_routes
  no_implicit entries [] h = refl
  no_implicit entries ((name, info) ∷ m) h =
      let rest = no_implicit entries m h in
      elim (Bool-cases (name == host)) [
        | inl same ↦ ground (
          arith,
          rest,
          ap {B = Bool} (λ n. is_explicit n entries) ((==_iff name host).0 same) ∙ h,
        )
        | inr other ↦ ground (arith, rest)
      ]

  abbrev roots : ServiceMap → List HttpRoute
  roots [] = []
  roots ((name, info) ∷ m) =
      if is_reachable info && name == host then root_route host ∷ roots m else roots m

  implicit_roots :
      (entries : List RouteEntry) (m : ServiceMap)
      → is_explicit host entries ≡ false
      → of_host host (implicit_routes entries m) ≡ roots m
  unfolding implicit_routes
  implicit_roots entries [] h = refl
  implicit_roots entries ((name, info) ∷ m) h =
      let rest = implicit_roots entries m h in
      elim (Bool-cases (name == host)) [
        | inl same ↦
            let eq = (==_iff name host).0 same in
            ground (
              arith,
              rest,
              ap {B = Bool} (λ n. is_explicit n entries) eq ∙ h,
              ap {B = HttpRoute} root_route eq,
            )
        | inr other ↦ ground (arith, rest)
      ]

  module _ (path : Text) where
    root_match : match_route (slash ∷ path) (root_route host) ≡ some (backend host (slash ∷ path))
    unfolding match_route stripped
    root_match = refl

    longest-roots :
        (m : ServiceMap)
        → longest (slash ∷ path) (roots m)
          ≡ (if is_served host m then some (root_route host) else none)
    unfolding longest
    longest-roots [] = refl
    longest-roots ((name, info) ∷ m) = ground (arith, longest-roots m, root_match)

    expected-roots :
        (m : ServiceMap)
        → expected (slash ∷ path) (roots m)
          ≡ (if is_served host m then matched (backend host (slash ∷ path)) else fallback)
    unfolding longest
    expected-roots [] = refl
    expected-roots ((name, info) ∷ m) =
        ground (arith, expected-roots m, longest-roots m, root_match)

    append_none : (xs : List HttpRoute) → xs ++ [] ≡ xs
    append_none [] = refl
    append_none (x ∷ xs) = ap (λ ys. x ∷ ys) (append_none xs)

    -- A request for a host that declared routes name goes by these routes alone, to the one with the
    -- longest prefix. Any other host is the name of a service: the proxy sends the request there, path
    -- and all, if a service of that name serves HTTP and is reachable, and falls back otherwise.
    pub bundle_resolves :
        (stacks : StackMap) (routes : RouteMap)
        → resolve (from_bundle (build_http_route_bundle stacks routes)) host (slash ∷ path) ≡ (
            if is_explicit host (entries_of routes)
            then expected (slash ∷ path) (declared host (entries_of routes))
            else if is_served host (services_of stacks)
            then matched (backend host (slash ∷ path))
            else fallback)
    unfolding build_http_route_bundle
    bundle_resolves stacks routes =
        let entries = entries_of routes in
        let split =
          longest_prefix_wins (build_http_route_bundle stacks routes) host (slash ∷ path)
          ∙ ap (expected (slash ∷ path)) (
              of_host-append (map wire_route entries)
                (implicit_routes entries (services_of stacks))) in
        elim (Bool-cases (is_explicit host entries)) [
          | inl named ↦ rw named (
              split
              ∙ ap (λ xs. expected (slash ∷ path) (declared host entries ++ xs))
                  (no_implicit entries (services_of stacks) named)
              ∙ ap (expected (slash ∷ path)) (append_none (declared host entries)))
          | inr other ↦ rw other (
              split
              ∙ ap
                  (λ xs.
                    expected (slash ∷ path)
                      (xs ++ of_host host (implicit_routes entries (services_of stacks))))
                  (no_declared entries other)
              ∙ ap (expected (slash ∷ path)) (implicit_roots entries (services_of stacks) other)
              ∙ expected-roots (services_of stacks))
        ]
