-- ===== src/Bundles/Tests.antt =====
-- Runs of the bundles, and the theorems at such inputs.
use nullnet.Prelude.{
  Option, [], codes, if◌then◌else◌, none, refl, some, true, ℕ, ◌∷◌, ◌≡◌, text_eq, nat_eq,
}
use nullnet.Bundles.{
  services_of, entries_of, is_explicit, build_http_route_bundle, ingress_allow_ports, insert_number,
}
use nullnet.Bundles.Resolved.{declared, is_served, bundle_resolves}
use nullnet.Config.{to_service}
use nullnet.Config.Conflicts.{StackMap, RouteMap}
use nullnet.Filter.{FilterPolicy}
use nullnet.Routes.{backend, matched, fallback, resolve, from_bundle}
use nullnet.Routes.Resolving.{expected}
use nullnet.Services.{ServiceProtocol, http, tcp, ServiceInfo, new}

abbrev service_on : ServiceProtocol → Option ℕ → ServiceInfo
service_on p port = new [] [] (some 60) none p port FilterPolicy.none FilterPolicy.none

abbrev stacks : StackMap
stacks =
    (
      codes "prod",
      (codes "shop", service_on http none)
          ∷ (codes "api", service_on http none)
          ∷ (codes "db", service_on tcp (some 5432))
          ∷ [],
    )
    ∷ []

abbrev routes : RouteMap
routes =
    (
      codes "prod",
      (record { host = codes "shop"; path = codes "/api"; target = to_service (codes "api") true })
          ∷ [],
    )
    ∷ []

bundle_resolves_example :
    resolve (from_bundle (build_http_route_bundle stacks routes)) (codes "api") (codes "/v1") ≡ (
      if is_explicit (codes "api") (entries_of routes)
      then expected (codes "/v1") (declared (codes "api") (entries_of routes))
      else if is_served (codes "api") (services_of stacks)
      then matched (backend (codes "api") (codes "/v1"))
      else fallback)
bundle_resolves_example = bundle_resolves (codes "api") (codes "v1") stacks routes

served : is_served (codes "api") (services_of stacks) ≡ true
unfolding services_of new
served = refl

ports : ingress_allow_ports (443 ∷ 22 ∷ 443 ∷ []) [] stacks true ≡ (22 ∷ 443 ∷ 5432 ∷ [], [])
unfolding ingress_allow_ports services_of new insert_number
ports = refl
