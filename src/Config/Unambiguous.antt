-- ===== src/Config/Unambiguous.antt =====
-- What a start serves is claimed once: members/nullnet-server/src/services/input.rs.
use nullnet.Prelude.{
  All-append, Bool, Eq, List, Map, Option, Text, [], arith, get, if◌then◌else◌, none, not, refl,
  some, sym, true, ℕ, ◌++◌, ◌∙◌, ◌∷◌, ◌≡◌, ◌≤◌, pair_eq, nat_eq, text_eq,
}
use nullnet.Config.{RouteEntry}
use nullnet.Services.{ServiceProtocol, listen_port, protocol}
use nullnet.Services.Chains.{ServiceMap}
use nullnet.Config.Conflicts.{
  StackMap, MatchIndex, RouteMap, Owner, find_conflicts, claims_of, stacks_of, remove_stacks,
  sort_keys, claim_port, ports_of_stack, routes_of_stack, names_of_stack, detect_port_conflicts,
  detect_route_conflicts, detect_name_conflicts, bad_stacks, load_validated, protocol_eq,
}
use nullnet.Config.Distinct.{
  passing, claims_by, claims, later_dropped, claimed_once, weigh, weigh_congr, weigh-remove_stacks,
  weigh-sort_keys, passing-claims_of, OwnedBy, owned_kept, dropped_later, is_bad, is_bad-append,
}

abbrev keeps : List Text → Owner → Bool
keeps bad o = not (is_bad bad (o.0))

module _ {V K : Type 0} ⦃e : Eq K⦄ (f : Text → V → List (K × Owner))
    (owned : (s : Text) (v : V) → OwnedBy s (f s v)) (bad : List Text) (k : K) where
  passing-remove_stacks :
      (m : Map Text V)
      → passing (claims k) (claims_of f (remove_stacks bad m))
        ≡ weigh (λ s v. passing (claims_by (keeps bad) k) (f s v)) m
  passing-remove_stacks m =
      passing-claims_of (claims k) f (remove_stacks bad m)
      ∙ weigh-remove_stacks _ bad m
      ∙ weigh_congr _ _ m (λ s v. sym (owned_kept bad k s (f s v) (owned s v)))

  kept_once :
      (m : Map Text V)
      → later_dropped (keeps bad) (find_conflicts (claims_of f m) []) ≡ true
      → passing (claims k) (claims_of f (remove_stacks bad m)) ≤ 1
  kept_once m h =
      rw (passing-remove_stacks m, ← passing-claims_of (claims_by (keeps bad) k) f m)
        (unfold get in claimed_once (keeps bad) k (claims_of f m) [] h)

claim_port-OwnedBy :
    (p : ServiceProtocol) (owner : Owner) (o : Option ℕ)
    → OwnedBy {K = ServiceProtocol × ℕ} (owner.0) (claim_port p owner o)
claim_port-OwnedBy p owner none = tt
claim_port-OwnedBy p owner (some port) = (refl, tt)

ports-OwnedBy : (s : Text) (m : ServiceMap) → OwnedBy s (ports_of_stack s m)
unfolding ports_of_stack
ports-OwnedBy s [] = tt
ports-OwnedBy s ((n, info) ∷ m) =
    All-append _ (claim_port (protocol info) (s, n) (listen_port info)) (ports_of_stack s m)
      (claim_port-OwnedBy (protocol info) (s, n) (listen_port info)) (ports-OwnedBy s m)

routes-OwnedBy : (s : Text) (entries : List RouteEntry) → OwnedBy s (routes_of_stack s entries)
unfolding routes_of_stack
routes-OwnedBy s [] = tt
routes-OwnedBy s (r ∷ entries) = (refl, routes-OwnedBy s entries)

names-OwnedBy : (s : Text) (m : ServiceMap) → OwnedBy s (names_of_stack s m)
unfolding names_of_stack
names-OwnedBy s [] = tt
names-OwnedBy s ((n, info) ∷ m) = (refl, names-OwnedBy s m)

module _ (q : Text × Owner → Bool) where
  passing-names :
      (s : Text) (m : ServiceMap)
      → passing q (names_of_stack s m) ≡ weigh (λ n info. if q (n, (s, n)) then 1 else 0) m
  unfolding names_of_stack
  passing-names s [] = refl
  passing-names s ((n, info) ∷ m) = omega (arith, passing-names s m)

  sorted_names :
      (s : Text) (m : ServiceMap)
      → passing q (names_of_stack s (sort_keys m)) ≡ passing q (names_of_stack s m)
  sorted_names s m = passing-names s (sort_keys m) ∙ weigh-sort_keys _ m ∙ sym (passing-names s m)

  sorted_stacks :
      (m : StackMap)
      → passing q (claims_of (λ s v. names_of_stack s (sort_keys v)) (sort_keys m))
        ≡ weigh (λ s v. passing q (names_of_stack s v)) m
  sorted_stacks m =
      passing-claims_of q (λ s v. names_of_stack s (sort_keys v)) (sort_keys m)
      ∙ weigh-sort_keys _ m
      ∙ weigh_congr _ _ m sorted_names

name_kept_once :
    (bad : List Text) (n : Text) (stacks : StackMap)
    → later_dropped (keeps bad) (detect_name_conflicts stacks) ≡ true
    → passing (claims n) (claims_of names_of_stack (remove_stacks bad stacks)) ≤ 1
unfolding detect_name_conflicts
name_kept_once bad n stacks h =
    rw
      (
        passing-remove_stacks names_of_stack names-OwnedBy bad n stacks,
        ← sorted_stacks (claims_by (keeps bad) n) stacks,
      )
      (unfold get in claimed_once (keeps bad) n _ [] h)

module _ (stacks : StackMap) (routes : RouteMap) where
  module _ (s : Text) where
    bad_port :
        is_bad (stacks_of (detect_port_conflicts stacks)) s ≡ true
        → is_bad (bad_stacks stacks routes) s ≡ true
    unfolding bad_stacks
    bad_port h = ground (
      arith,
      is_bad-append (stacks_of (detect_port_conflicts stacks))
          (stacks_of (detect_route_conflicts routes) ++ stacks_of (detect_name_conflicts stacks)) s,
    )

    bad_route :
        is_bad (stacks_of (detect_route_conflicts routes)) s ≡ true
        → is_bad (bad_stacks stacks routes) s ≡ true
    unfolding bad_stacks
    bad_route h = ground (
      arith,
      is_bad-append (stacks_of (detect_port_conflicts stacks))
          (stacks_of (detect_route_conflicts routes) ++ stacks_of (detect_name_conflicts stacks)) s,
      is_bad-append (stacks_of (detect_route_conflicts routes))
          (stacks_of (detect_name_conflicts stacks)) s,
    )

    bad_name :
        is_bad (stacks_of (detect_name_conflicts stacks)) s ≡ true
        → is_bad (bad_stacks stacks routes) s ≡ true
    unfolding bad_stacks
    bad_name h = ground (
      arith,
      is_bad-append (stacks_of (detect_port_conflicts stacks))
          (stacks_of (detect_route_conflicts routes) ++ stacks_of (detect_name_conflicts stacks)) s,
      is_bad-append (stacks_of (detect_route_conflicts routes))
          (stacks_of (detect_name_conflicts stacks)) s,
    )

  ports_once :
      (k : ServiceProtocol × ℕ)
      → passing
          (claims k)
          (claims_of ports_of_stack (remove_stacks (bad_stacks stacks routes) stacks))
        ≤ 1
  ports_once k =
      kept_once ports_of_stack ports-OwnedBy (bad_stacks stacks routes) k stacks
        (unfold detect_port_conflicts in dropped_later _ (detect_port_conflicts stacks) bad_port)

  routes_once :
      (k : Text × Text)
      → passing
          (claims k)
          (claims_of routes_of_stack (remove_stacks (bad_stacks stacks routes) routes))
        ≤ 1
  routes_once k =
      kept_once routes_of_stack routes-OwnedBy (bad_stacks stacks routes) k routes
        (unfold detect_route_conflicts in dropped_later _ (detect_route_conflicts routes) bad_route)

-- Of the stacks that a start serves, each protocol and port is claimed by one service at most,
-- each host and path by one route at most, and each name of a service by one stack at most.
pub load_unambiguous :
    (stacks : StackMap) (index : MatchIndex) (routes : RouteMap)
    → let (served, matching, routed) = load_validated stacks index routes in
      ((k : ServiceProtocol × ℕ) → passing (claims k) (claims_of ports_of_stack served) ≤ 1)
      × ((k : Text × Text) → passing (claims k) (claims_of routes_of_stack routed) ≤ 1)
      × ((n : Text) → passing (claims n) (claims_of names_of_stack served) ≤ 1)
unfolding load_validated
load_unambiguous stacks index routes = (
  ports_once stacks routes,
  routes_once stacks routes,
  λ n.
      name_kept_once (bad_stacks stacks routes) n stacks
        (dropped_later _ (detect_name_conflicts stacks) (bad_name stacks routes)),
)
