-- ===== src/Config/Store.antt =====
-- The tables of the stacks: members/nullnet-server/src/db/stacks.rs, with the schema of
-- members/nullnet-server/src/db/migrations. Rows stand in the order of insertion, which is that of
-- their keys; an error leaves the tables as they were, since the writes are one transaction. A SELECT
-- without an ORDER BY answers in an order that SQLite chooses, a parameter.
use nullnet.Prelude.{
  Bool, Eq, List, Map, Option, Text, [], any, eqb, get, if◌then◌else◌, insert, leb, ltb, map, min,
  none, not, remove, some, true, ℕ, ◌&&◌, ◌++◌, ◌+◌, ◌-◌, ◌==◌, ◌>>=◌, ◌^◌, ◌||◌, ◌∷◌, nat_eq,
  text_eq,
}
use mathlib.Core.List.{Perm}
use nullnet.Config.{ServiceToml}
use nullnet.Config.Rows.{
  Json, services_from_rows, ServiceInsert, ServiceRow, ServiceTriggerRow, ServiceDependencyRow,
  RouteRow,
}
use nullnet.Services.Registry.{retain}

-- `next_id` is the counter of `AUTOINCREMENT`.
pub record Tables (D : Type 0) : Type 0 where
  pub stacks : Map Text ℕ
  pub services : List (ServiceRow D)
  pub next_id : ℕ
  pub triggers : List ServiceTriggerRow
  pub dependencies : List (ServiceDependencyRow D)
  pub routes : Map Text (List RouteRow)

-- The orders in which SQLite answers: each gives the rows that it found, and each of them once.
pub record RowOrder (D : Type 0) : Type 0 where
  pub services : List (ServiceRow D) → List (ServiceRow D)
  pub services_kept : (rows : List (ServiceRow D)) → Perm (services rows) rows
  pub triggers : List ServiceTriggerRow → List ServiceTriggerRow
  pub triggers_kept : (rows : List ServiceTriggerRow) → Perm (triggers rows) rows
  pub routes : List RouteRow → List RouteRow
  pub routes_kept : (rows : List RouteRow) → Perm (routes rows) rows

abbrev pub has_id : ℕ → List ℕ → Bool
has_id n ids = any (λ i. eqb i n) ids

-- `ORDER BY service_id, branch_index`.
abbrev pub comes_first : {D : Type 0} → ServiceDependencyRow D → ServiceDependencyRow D → Bool
comes_first a b =
    ltb a.service_id b.service_id
    || eqb a.service_id b.service_id && leb a.branch_index b.branch_index

unfoldable pub insert_ordered :
    {D : Type 0}
    → ServiceDependencyRow D
    → List (ServiceDependencyRow D)
    → List (ServiceDependencyRow D)
insert_ordered d [] = d ∷ []
insert_ordered d (e ∷ es) =
    let rest = insert_ordered d es in if comes_first d e then d ∷ e ∷ es else e ∷ rest

unfoldable pub order_rows :
    {D : Type 0} → List (ServiceDependencyRow D) → List (ServiceDependencyRow D)
unfolding insert_ordered
order_rows [] = []
order_rows (d ∷ ds) = insert_ordered d (order_rows ds)

abbrev pub trigger_row : ℕ → Text → ServiceTriggerRow
trigger_row id peer = record { service_id = id; peer = peer }

abbrev pub no_repeat : {K : Type 0} ⦃e : Eq K⦄ → List K → Bool
no_repeat [] = true
no_repeat (k ∷ ks) = not (any (λ j. j == k) ks) && no_repeat ks

abbrev same_place : RouteRow → RouteRow → Bool
same_place a b = a.host == b.host && a.path == b.path

abbrev unique_routes : List RouteRow → Bool
unique_routes [] = true
unique_routes (r ∷ rs) = not (any (same_place r) rs) && unique_routes rs

module _ {D : Type 0} where
  unfoldable pub services_for : RowOrder D → Text → Tables D → List (ServiceRow D)
  unfolding retain
  services_for o stack t = o.services (retain (λ r. r.stack == stack) t.services)

  unfoldable pub triggers_for : RowOrder D → List ℕ → Tables D → List ServiceTriggerRow
  unfolding retain
  triggers_for o ids t = o.triggers (retain (λ r. has_id r.service_id ids) t.triggers)

  unfoldable pub dependencies_for : List ℕ → Tables D → List (ServiceDependencyRow D)
  unfolding retain order_rows
  dependencies_for ids t = order_rows (retain (λ r. has_id r.service_id ids) t.dependencies)

  -- The rows of a stack go, and by the foreign keys those of its services' children.
  unfoldable pub delete_services : Text → Tables D → Tables D
  unfolding retain
  delete_services stack t =
      let ids = map (λ r. r.id) (retain (λ r. r.stack == stack) t.services) in
      record t {
        services = retain (λ r. not (r.stack == stack)) t.services;
        triggers = retain (λ r. not (has_id r.service_id ids)) t.triggers;
        dependencies = retain (λ r. not (has_id r.service_id ids)) t.dependencies;
      }

  abbrev pub row_of : Text → ℕ → ServiceInsert D → ServiceRow D
  row_of stack id s = record {
    id = id;
    stack = stack;
    name = s.name;
    docker_container = s.docker_container;
    process_path = s.process_path;
    host_ip = s.host_ip;
    pausable = s.pausable;
    port = s.port;
    timeout = s.timeout;
    max_networks = s.max_networks;
    protocol = s.protocol;
    listen_port = s.listen_port;
    egress_filter = s.egress_filter;
    ingress_filter = s.ingress_filter;
  }

  -- `i32::try_from(i).unwrap_or(i32::MAX)` of the branch's position.
  unfoldable pub branch_rows : ℕ → (position : ℕ) → List D → List (ServiceDependencyRow D)
  branch_rows id i [] = []
  branch_rows id i (chain ∷ chains) =
      record { service_id = id; branch_index = min i (2 ^ 31 - 1); chain = chain }
      ∷ branch_rows id (i + 1) chains

  abbrev pub insert_service : Text → ServiceInsert D → Tables D → Tables D
  insert_service stack s t = record t {
    services = t.services ++ (row_of stack t.next_id s ∷ []);
    next_id = t.next_id + 1;
    triggers = t.triggers ++ map (trigger_row t.next_id) s.backends;
    dependencies = t.dependencies ++ branch_rows t.next_id 0 s.dependencies;
  }

  -- `UNIQUE (stack, name)`, and the same of a service's peers.
  abbrev pub is_unique : Text → ServiceInsert D → Tables D → Bool
  is_unique stack s t =
      not (any (λ r. r.stack == stack && r.name == s.name) t.services) && no_repeat s.backends

  unfoldable pub insert_services : Text → List (ServiceInsert D) → Tables D → Option (Tables D)
  unfolding branch_rows
  insert_services stack [] t = some t
  insert_services stack (s ∷ ss) t =
      let rest = insert_services stack ss (insert_service stack s t) in
      if is_unique stack s t then rest else none

  abbrev replace_services : Text → Option (List (ServiceInsert D)) → Tables D → Option (Tables D)
  replace_services stack none t = some t
  replace_services stack (some services) t =
      insert_services stack services (delete_services stack t)

  -- The routes of a stack are replaced as a whole.
  abbrev replace_routes : Text → Option (List RouteRow) → Tables D → Option (Tables D)
  replace_routes stack none t = some t
  replace_routes stack (some routes) t =
      if unique_routes routes
      then some (record t { routes = insert stack routes t.routes })
      else none

  unfoldable pub put_configuration :
      Text
      → (now : ℕ) → Option (List (ServiceInsert D))
      → Option (List RouteRow)
      → Tables D
      → Option (Tables D)
  unfolding delete_services insert_services
  put_configuration stack now services routes t = do
    t' ← replace_services stack services (record t { stacks = insert stack now t.stacks })
    replace_routes stack routes t'

  unfoldable pub put_services : Text → ℕ → List (ServiceInsert D) → Tables D → Option (Tables D)
  unfolding put_configuration
  put_services stack now services t = put_configuration stack now (some services) none t

  unfoldable pub put_routes : Text → ℕ → List RouteRow → Tables D → Option (Tables D)
  unfolding put_configuration
  put_routes stack now routes t = put_configuration stack now none (some routes) t

  unfoldable pub routes_for : RowOrder D → Text → Tables D → List RouteRow
  routes_for o stack t = o.routes (elim (get stack t.routes) [ none ↦ [] | some routes ↦ routes ])

  -- By its foreign keys a stack goes with its services and its routes.
  unfoldable pub delete_stack : Text → Tables D → Tables D
  unfolding delete_services
  delete_stack stack t = record (delete_services stack t) {
    stacks = remove stack t.stacks;
    routes = remove stack t.routes;
  }

abbrev pub ids_of : {D : Type 0} → List (ServiceRow D) → List ℕ
ids_of rows = map (λ r. r.id) rows

-- `None` for a stack that does not exist.
unfoldable pub stack_services_from_db :
    (j : Json) → RowOrder j.Doc → Text → Tables j.Doc → Option (List ServiceToml)
unfolding services_for triggers_for dependencies_for services_from_rows
stack_services_from_db j o stack t =
    let rows = services_for o stack t in
    get stack t.stacks >>= λ updated.
    some (
      services_from_rows j rows (triggers_for o (ids_of rows) t) (dependencies_for (ids_of rows) t))
