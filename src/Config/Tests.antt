-- ===== src/Config/Tests.antt =====
-- Runs of the configuration of stacks, and the theorems at such inputs.
use mathlib.Core.List.{Perm, append-nil, perm_middle}
use mathlib.Core.List.Perm
use mathlib.Core.Path.{subst}
use nullnet.Prelude.{
  List, Option, Text, [], codes, false, get, insert, map, none, refl, remove, some, ℕ, ◌++◌, ◌∷◌,
  ◌≡◌, ◌≤◌, pair_eq, text_eq, nat_eq,
}
use nullnet.Addr.{parse_v4}
use nullnet.Config.{ServiceToml, tcp_toml}
use nullnet.Config.Conflicts.{
  StackMap, protocol_eq, claims_of, ports_of_stack, routes_of_stack, names_of_stack, load_validated,
}
use nullnet.Config.Distinct.{passing, claims}
use nullnet.Config.Columns.{storable}
use nullnet.Config.RoundTrip.{load-save}
use nullnet.Config.Rows.{Json, services_to_inserts}
use nullnet.Config.Orders.{AreAlike}
use nullnet.Config.Store.{Tables, RowOrder, put_services, stack_services_from_db}
use nullnet.Config.Unambiguous.{load_unambiguous}
use nullnet.Filter.{FilterPolicy}
use nullnet.Services.{ServiceProtocol, tcp, ServiceInfo, new}

parsed_address : parse_v4 (codes "10.0.0.255") ≡ some (record { a = 10; b = 0; c = 0; d = 255 })
unfolding parse_v4
parsed_address = refl

refused_address : parse_v4 (codes "10.0.0.01") ≡ none
unfolding parse_v4
refused_address = refl

abbrev tcp_service : ℕ → ServiceInfo
tcp_service port = new [] [] (some 60) none tcp (some port) FilterPolicy.none FilterPolicy.none

abbrev two_stacks : StackMap
two_stacks =
    (codes "one", (codes "db", tcp_service 5432) ∷ [])
    ∷ (codes "two", (codes "cache", tcp_service 5432) ∷ [])
    ∷ (codes "three", (codes "queue", tcp_service 5672) ∷ [])
    ∷ []

load_unambiguous_example :
    let (served, matching, routed) = load_validated two_stacks [] [] in
    ((k : ServiceProtocol × ℕ) → passing (claims k) (claims_of ports_of_stack served) ≤ 1)
    × ((k : Text × Text) → passing (claims k) (claims_of routes_of_stack routed) ≤ 1)
    × ((n : Text) → passing (claims n) (claims_of names_of_stack served) ≤ 1)
load_unambiguous_example = load_unambiguous two_stacks [] []

two_dropped :
    (load_validated two_stacks [] []).0
    ≡ (codes "three", (codes "queue", tcp_service 5672) ∷ []) ∷ []
unfolding load_validated get insert remove new
two_dropped = refl

-- Documents that hold the value that was written.
data Document : Type 0 where
  blank : Document
  policy : FilterPolicy → Document
  chain : List Text → Document

abbrev policy_in : Document → Option FilterPolicy
policy_in (policy p) = some p
policy_in _ = none

abbrev chain_in : Document → Option (List Text)
chain_in (chain c) = some c
chain_in _ = none

abbrev documents : Json
documents = record {
  Doc = Document;
  empty = blank;
  filter_to = λ p. some (policy p);
  filter_of = policy_in;
  filter_back = λ p. refl;
  chain_to = λ c. some (chain c);
  chain_of = chain_in;
  chain_back = λ c. refl;
}

abbrev database : ServiceToml
database = record {
  name = codes "db";
  docker_container = some (codes "pg");
  process_path = none;
  host_ip = none;
  pausable = false;
  port = some 5432;
  timeout = some 60;
  proxy_dependencies = (codes "disk" ∷ codes "log" ∷ []) ∷ (codes "auth" ∷ []) ∷ [];
  backends = codes "log" ∷ codes "auth" ∷ [];
  max_networks = some 3_000_000_000;
  protocol = some tcp_toml;
  listen_port = some 5432;
  egress_filter = FilterPolicy.block ([] ∷ []);
  ingress_filter = FilterPolicy.none;
}

abbrev front : ServiceToml
front = record database {
  name = codes "api";
  listen_port = none;
  backends = codes "db" ∷ codes "auth" ∷ [];
}

abbrev both : List ServiceToml
both = front ∷ database ∷ []

-- A table that answers with its first row at the end.
abbrev first_last : {A : Type 0} → List A → List A
first_last [] = []
first_last (x ∷ xs) = xs ++ (x ∷ [])

first_last_perm : {A : Type 0} (xs : List A) → Perm (first_last xs) xs
first_last_perm [] = Perm.nil
first_last_perm (x ∷ xs) =
    subst (λ l. Perm (xs ++ (x ∷ [])) (x ∷ l)) (append-nil xs) (perm_middle xs [])

abbrev answers : RowOrder Document
answers = record {
  services = first_last;
  services_kept = first_last_perm;
  triggers = first_last;
  triggers_kept = first_last_perm;
  routes = first_last;
  routes_kept = first_last_perm;
}

abbrev no_tables : Tables Document
no_tables = record {
  stacks = [];
  services = [];
  next_id = 1;
  triggers = [];
  dependencies = [];
  routes = [];
}

abbrev or_tables : Option (Tables Document) → Tables Document
or_tables none = no_tables
or_tables (some t) = t

abbrev saved : Tables Document
saved = or_tables (put_services (codes "one") 9 (services_to_inserts documents both) no_tables)

saved_once :
    put_services (codes "one") 9 (services_to_inserts documents both) no_tables ≡ some saved
unfolding put_services insert services_to_inserts
saved_once = refl

load-save_example :
    (read : List ServiceToml) × (same_peers : List ServiceToml) × (stack_services_from_db documents
        answers
        (codes "one")
        saved
      ≡ some read)
    × AreAlike read same_peers
    × Perm same_peers (map storable both)
load-save_example =
    load-save documents answers (codes "one") 9 both no_tables
      (record { services = tt; triggers = tt; dependencies = tt }) refl saved_once

limit_lost : (storable database).max_networks ≡ none
limit_lost = refl
