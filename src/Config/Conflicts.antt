-- ===== src/Config/Conflicts.antt =====
-- What two stacks may not both claim, and the stacks that a start drops:
-- members/nullnet-server/src/services/input.rs.
use nullnet.Prelude.{
  Bool, Eq, List, Map, Option, Text, [], arith, eqb, false, get, if◌then◌else◌, insert, ltb, map,
  none, remove, some, true, ℕ, ◌&&◌, ◌++◌, ◌||◌, ◌↔◌, ◌∷◌, ◌≡◌, pair_eq, nat_eq, text_eq,
}
use nullnet.Config.{MatchEntry, RouteEntry, beq_protocol}
use nullnet.Services.{ServiceProtocol, http, tcp, udp, listen_port, protocol}
use nullnet.Services.Chains.{ServiceMap}

abbrev pub StackMap : Type 0
StackMap = Map Text ServiceMap

abbrev pub MatchIndex : Type 0
MatchIndex = Map Text (List MatchEntry)

abbrev pub RouteMap : Type 0
RouteMap = Map Text (List RouteEntry)

pub beq_protocol_iff : (a b : ServiceProtocol) → (beq_protocol a b ≡ true) ↔ (a ≡ b)
beq_protocol_iff http http = ground arith
beq_protocol_iff http tcp = ground arith
beq_protocol_iff http udp = ground arith
beq_protocol_iff tcp http = ground arith
beq_protocol_iff tcp tcp = ground arith
beq_protocol_iff tcp udp = ground arith
beq_protocol_iff udp http = ground arith
beq_protocol_iff udp tcp = ground arith
beq_protocol_iff udp udp = ground arith

instance abbrev pub protocol_eq : Eq ServiceProtocol
protocol_eq = record { beq = beq_protocol; beq_iff = beq_protocol_iff }

-- The loop of the three searches: a claim is a key and the stack and the service that claim it.
-- The first claim of a key keeps it, and each later one is a conflict with that.
module _ {K O : Type 0} ⦃e : Eq K⦄ where
  unfoldable pub find_conflicts : List (K × O) → Map K O → List (O × O × K)
  find_conflicts [] claimed = []
  find_conflicts ((k, o) ∷ claims) claimed = elim (get k claimed) [
    | some other ↦ (other, o, k) ∷ find_conflicts claims claimed
    | none ↦ find_conflicts claims (insert k o claimed)
  ]

abbrev pub Owner : Type 0
Owner = Text × Text

abbrev pub claim_port : ServiceProtocol → Owner → Option ℕ → List ((ServiceProtocol × ℕ) × Owner)
claim_port p owner none = []
claim_port p owner (some port) = ((p, port), owner) ∷ []

unfoldable pub ports_of_stack : Text → ServiceMap → List ((ServiceProtocol × ℕ) × Owner)
ports_of_stack stack [] = []
ports_of_stack stack ((name, info) ∷ services) =
    claim_port (protocol info) (stack, name) (listen_port info) ++ ports_of_stack stack services

unfoldable pub routes_of_stack : Text → List RouteEntry → List ((Text × Text) × Owner)
routes_of_stack stack entries = map (λ e. ((e.host, e.path), (stack, []))) entries

unfoldable pub names_of_stack : Text → ServiceMap → List (Text × Owner)
names_of_stack stack services = map (λ (name, info). (name, (stack, name))) services

-- The claims of every stack.
unfoldable pub claims_of :
    {V K : Type 0} → (Text → V → List (K × Owner)) → Map Text V → List (K × Owner)
claims_of f [] = []
claims_of f ((stack, v) ∷ m) = f stack v ++ claims_of f m

-- The order of `String`.
unfoldable pub less : Text → Text → Bool
less [] [] = false
less [] (d ∷ t) = true
less (c ∷ s) [] = false
less (c ∷ s) (d ∷ t) = ltb c d || eqb c d && less s t

unfoldable pub insert_sorted : {V : Type 0} → Text × V → Map Text V → Map Text V
unfolding less
insert_sorted (k, v) [] = (k, v) ∷ []
insert_sorted (k, v) ((j, w) ∷ m) =
    let rest = insert_sorted (k, v) m in if less j k then (j, w) ∷ rest else (k, v) ∷ (j, w) ∷ m

unfoldable pub sort_keys : {V : Type 0} → Map Text V → Map Text V
unfolding insert_sorted
sort_keys [] = []
sort_keys ((k, v) ∷ m) = insert_sorted (k, v) (sort_keys m)

unfoldable pub detect_port_conflicts : StackMap → List (Owner × Owner × (ServiceProtocol × ℕ))
unfolding find_conflicts claims_of ports_of_stack
detect_port_conflicts stacks = find_conflicts (claims_of ports_of_stack stacks) []

unfoldable pub detect_route_conflicts : RouteMap → List (Owner × Owner × (Text × Text))
unfolding find_conflicts claims_of routes_of_stack
detect_route_conflicts routes = find_conflicts (claims_of routes_of_stack routes) []

-- Stacks and names in their order, so that the pair which is reported is always the same.
unfoldable pub detect_name_conflicts : StackMap → List (Owner × Owner × Text)
unfolding find_conflicts claims_of names_of_stack sort_keys
detect_name_conflicts stacks =
    find_conflicts
      (claims_of (λ stack services. names_of_stack stack (sort_keys services)) (sort_keys stacks))
      []

unfoldable pub stacks_of : {K : Type 0} → List (Owner × Owner × K) → List Text
stacks_of [] = []
stacks_of ((a, b, k) ∷ conflicts) = a.0 ∷ b.0 ∷ stacks_of conflicts

unfoldable pub remove_stacks : {V : Type 0} → List Text → Map Text V → Map Text V
remove_stacks [] m = m
remove_stacks (stack ∷ stacks) m = remove_stacks stacks (remove stack m)

unfoldable pub bad_stacks : StackMap → RouteMap → List Text
unfolding stacks_of detect_port_conflicts detect_route_conflicts detect_name_conflicts
bad_stacks stacks routes =
    stacks_of (detect_port_conflicts stacks)
    ++ (stacks_of (detect_route_conflicts routes) ++ stacks_of (detect_name_conflicts stacks))

-- What a start serves of the stacks that it loaded.
unfoldable pub load_validated : StackMap → MatchIndex → RouteMap → StackMap × MatchIndex × RouteMap
unfolding bad_stacks remove_stacks
load_validated stacks index routes =
    let bad = bad_stacks stacks routes in
    (remove_stacks bad stacks, remove_stacks bad index, remove_stacks bad routes)
