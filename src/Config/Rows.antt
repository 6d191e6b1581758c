-- ===== src/Config/Rows.antt =====
-- The rows in which a stack is stored: members/nullnet-server/src/services/input.rs, and the types
-- of members/nullnet-server/src/db/models.rs. The keys of triggers, branches and routes are left
-- out, since nothing reads them.
use nullnet.Prelude.{
  Bool, List, Map, Option, Text, [], codes, false, get, if◌then◌else◌, insert, map, none, pos,
  remove, some, to_signed, to_unsigned, ℕ, ℤ, ◌++◌, ◌==◌, ◌>>=◌, ◌∷◌, ◌≡◌, nat_eq, text_eq,
}
use nullnet.Config.{
  ServiceToml, RouteToml, ProtocolToml, http_toml, tcp_toml, udp_toml, RouteEntry, RouteTarget,
  to_service, to_redirect,
}
use nullnet.Config.Declared.{is_unfiltered}
use nullnet.Filter.{FilterPolicy}

-- `serde_json`: what is read back of a value that was written.
pub record Json : Type 1 where
  pub Doc : Type 0
  pub empty : Doc
  pub filter_to : FilterPolicy → Option Doc
  pub filter_of : Doc → Option FilterPolicy
  pub filter_back : (p : FilterPolicy) → (filter_to p >>= filter_of) ≡ some p
  pub chain_to : List Text → Option Doc
  pub chain_of : Doc → Option (List Text)
  pub chain_back : (c : List Text) → (chain_to c >>= chain_of) ≡ some c

abbrev pub unwrap_or {ℓ} : {A : Type ℓ} → A → Option A → A
unwrap_or d none = d
unwrap_or d (some a) = a

pub record ServiceInsert (D : Type 0) : Type 0 where
  pub name : Text
  pub docker_container : Option Text
  pub process_path : Option Text
  pub host_ip : Option Text
  pub pausable : Bool
  pub port : Option ℤ
  pub timeout : Option ℤ
  pub max_networks : Option ℤ
  pub protocol : Option Text
  pub listen_port : Option ℤ
  pub egress_filter : Option D
  pub ingress_filter : Option D
  pub backends : List Text
  pub dependencies : List D

pub record ServiceRow (D : Type 0) : Type 0 where
  pub id : ℕ
  pub stack : Text
  pub name : Text
  pub docker_container : Option Text
  pub process_path : Option Text
  pub host_ip : Option Text
  pub pausable : Bool
  pub port : Option ℤ
  pub timeout : Option ℤ
  pub max_networks : Option ℤ
  pub protocol : Option Text
  pub listen_port : Option ℤ
  pub egress_filter : Option D
  pub ingress_filter : Option D

pub record ServiceTriggerRow : Type 0 where
  pub service_id : ℕ
  pub peer : Text

pub record ServiceDependencyRow (D : Type 0) : Type 0 where
  pub service_id : ℕ
  pub branch_index : ℕ
  pub chain : D

abbrev pub bind {ℓ} : {A B : Type ℓ} → Option A → (A → Option B) → Option B
bind o f = o >>= f

abbrev pub option_map {ℓ} : {A B : Type ℓ} → (A → B) → Option A → Option B
option_map f none = none
option_map f (some a) = some (f a)

abbrev pub protocol_text : ProtocolToml → Text
protocol_text http_toml = codes "http"
protocol_text tcp_toml = codes "tcp"
protocol_text udp_toml = codes "udp"

abbrev pub protocol_from : Text → ProtocolToml
protocol_from p =
    if p == codes "tcp" then tcp_toml else if p == codes "udp" then udp_toml else http_toml

-- The rows of a service's children, by the service.
unfoldable pub group : {A : Type 0} → List (ℕ × A) → Map ℕ (List A) → Map ℕ (List A)
group [] m = m
group ((id, a) ∷ rows) m = group rows (insert id (unwrap_or [] (get id m) ++ (a ∷ [])) m)

module _ (j : Json) where
  open j use {Doc, empty, filter_to, filter_of, chain_to, chain_of}

  -- A filter of none is stored as NULL.
  unfoldable pub encode_filter : FilterPolicy → Option Doc
  encode_filter policy =
      if is_unfiltered policy then none else some (unwrap_or empty (filter_to policy))

  unfoldable pub decode_filter : Option Doc → FilterPolicy
  decode_filter json = unwrap_or FilterPolicy.none (bind json filter_of)

  unfoldable pub to_insert : ServiceToml → ServiceInsert Doc
  unfolding encode_filter
  to_insert s = record {
    name = s.name;
    docker_container = s.docker_container;
    process_path = s.process_path;
    host_ip = s.host_ip;
    pausable = s.pausable;
    port = option_map pos s.port;
    timeout = bind s.timeout (to_signed 63);
    max_networks = bind s.max_networks (to_signed 31);
    protocol = option_map protocol_text s.protocol;
    listen_port = option_map pos s.listen_port;
    egress_filter = encode_filter s.egress_filter;
    ingress_filter = encode_filter s.ingress_filter;
    backends = s.backends;
    dependencies = map (λ branch. unwrap_or empty (chain_to branch)) s.proxy_dependencies;
  }

  unfoldable pub services_to_inserts : List ServiceToml → List (ServiceInsert Doc)
  unfolding to_insert
  services_to_inserts services = map to_insert services

  unfoldable pub from_row : ServiceRow Doc → List Text → List (List Text) → ServiceToml
  unfolding decode_filter
  from_row row backends dependencies = record {
    name = row.name;
    docker_container = row.docker_container;
    process_path = row.process_path;
    host_ip = row.host_ip;
    pausable = row.pausable;
    port = bind row.port (to_unsigned 16);
    timeout = bind row.timeout (to_unsigned 64);
    proxy_dependencies = dependencies;
    backends = backends;
    max_networks = bind row.max_networks (to_unsigned 32);
    protocol = option_map protocol_from row.protocol;
    listen_port = bind row.listen_port (to_unsigned 16);
    egress_filter = decode_filter row.egress_filter;
    ingress_filter = decode_filter row.ingress_filter;
  }

  unfoldable pub with_children :
      List (ServiceRow Doc) → Map ℕ (List Text) → Map ℕ (List (List Text)) → List ServiceToml
  unfolding from_row
  with_children [] triggers dependencies = []
  with_children (row ∷ rows) triggers dependencies =
      from_row row (unwrap_or [] (get row.id triggers)) (unwrap_or [] (get row.id dependencies))
      ∷ with_children rows (remove row.id triggers) (remove row.id dependencies)

  unfoldable pub services_from_rows :
      List (ServiceRow Doc)
      → List ServiceTriggerRow
      → List (ServiceDependencyRow Doc)
      → List ServiceToml
  unfolding with_children group
  services_from_rows rows triggers dependencies =
      with_children rows (group (map (λ t. (t.service_id, t.peer)) triggers) [])
        (group (map (λ d. (d.service_id, unwrap_or [] (chain_of d.chain))) dependencies) [])

-- A route's columns; `target_kind` only repeats which of the targets is there.
pub record RouteRow : Type 0 where
  pub host : Text
  pub path : Text
  pub target_kind : Text
  pub target_service : Option Text
  pub strip_prefix : Bool
  pub redirect_to : Option Text
  pub redirect_status : Option ℤ
  pub preserve_path : Bool
  pub preserve_query : Bool

unfoldable pub route_toml_from_row : RouteRow → RouteToml
route_toml_from_row row = record {
  host = row.host;
  path = row.path;
  service = row.target_service;
  strip_prefix = row.strip_prefix;
  redirect_to = row.redirect_to;
  redirect_status = bind row.redirect_status (to_unsigned 16);
  preserve_path = row.preserve_path;
  preserve_query = row.preserve_query;
}

abbrev target_row : RouteEntry → RouteTarget → RouteRow
target_row r (to_service name strip_prefix) = record {
  host = r.host;
  path = r.path;
  target_kind = codes "service";
  target_service = some name;
  strip_prefix = strip_prefix;
  redirect_to = none;
  redirect_status = none;
  preserve_path = false;
  preserve_query = false;
}
target_row r (to_redirect to status preserve_path preserve_query) = record {
  host = r.host;
  path = r.path;
  target_kind = codes "redirect";
  target_service = none;
  strip_prefix = false;
  redirect_to = some to;
  redirect_status = some (pos status);
  preserve_path = preserve_path;
  preserve_query = preserve_query;
}

unfoldable pub route_entries_to_inserts : List RouteEntry → List RouteRow
route_entries_to_inserts routes = map (λ r. target_row r r.target) routes
