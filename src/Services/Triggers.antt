-- ===== src/Services/Triggers.antt =====
-- The edges of triggers, as calls that return: members/nullnet-server/src/services/changes.rs.
use nullnet.Prelude.{
  Bool, Bool-cases, List, Map, Option, Option-cases, Text, [], all, arith, get, inl, inr, map, refl,
  some, true, ℕ, ◌++◌, ◌∷◌, ◌≡◌, text_eq, nat_eq,
}
use nullnet.Backend.{Sessions, cancel_backend_build}
use nullnet.Clients.Info.{Client, new_service}
use nullnet.Services.{triggers}
use nullnet.Services.Apply.{backend_key, edges_to_release}
use nullnet.Services.Chains.{
  Identity, ServiceMap, trigger_at, trigger_edges, matching_triggers, matching_trigger_ports,
  collect_backend_chain_edges,
}
use nullnet.Services.Members.{is_some}
use nullnet.Services.Registry.{retain}
use nullnet.Services.Sound.{Returns}
use nullnet.Services.Total.{returned}

abbrev pub Any : {A : Type 0} → A → Type 0
Any a = Unit {0}

abbrev ports_of : Map ℕ Text → List ℕ
ports_of m = map (λ (port, peer). port) m

still_there :
    (j : ℕ) (v : Text) (m : Map ℕ Text) (ks : List ℕ)
    → all (λ k. is_some (get k m)) ks ≡ true
    → all (λ k. is_some (get k ((j, v) ∷ m))) ks ≡ true
unfolding get
still_there j v m [] h = refl
still_there j v m (k ∷ ks) h = ground (arith, still_there j v m ks)

-- A port that passes a filter is in the map.
all_there :
    (p : ℕ × Text → Bool) (m : Map ℕ Text)
    → all (λ k. is_some (get k m)) (ports_of (retain p m)) ≡ true
unfolding retain get
all_there p [] = refl
all_there p ((j, v) ∷ m) =
    let rest = still_there j v m (ports_of (retain p m)) (all_there p m) in
    elim (Bool-cases (p (j, v))) [
      | inl keeps ↦ rw keeps (ground (arith, rest))
      | inr drops ↦ rw drops rest
    ]

matching_there :
    (name : Text) (through : Option Text) (port : Option ℕ) (services : ServiceMap)
    → all
        (λ k. is_some (trigger_at name services k))
        (matching_trigger_ports name through port services)
      ≡ true
unfolding matching_trigger_ports matching_triggers retain
matching_there name through port services = elim (Option-cases (get name services)) [
  | inl absent ↦ rw absent refl
  | inr (si, found) ↦ rw found (all_there _ (triggers si))
]

edges-Returns :
    (client : Client) (name : Text) (services : ServiceMap) (ports : List ℕ)
    → all (λ k. is_some (trigger_at name services k)) ports ≡ true
    → Returns Any (trigger_edges client name services ports)
unfolding trigger_edges
edges-Returns client name services [] h = returned Any [] tt
edges-Returns client name services (port ∷ ports) h =
    let rest = edges-Returns client name services ports (ground arith) in
    elim (Option-cases (trigger_at name services port)) [
      | inl absent ↦ absurd (ground arith)
      | inr (peer, found) ↦ record {
        answer = (client, peer) ∷ rest.answer;
        returns = rw (found, rest.returns) refl;
        good = tt;
      }
    ]

collect-Returns :
    (name : Text) (at : Identity) (through : Option Text) (port : Option ℕ) (services : ServiceMap)
    → Returns Any (collect_backend_chain_edges name at through port services)
unfolding collect_backend_chain_edges
collect-Returns name (ip, docker) through port services =
    edges-Returns (new_service name ip docker) name services
      (matching_trigger_ports name through port services)
      (matching_there name through port services)

pub edges_to_release-Returns :
    (name : Text) (at : Identity) (through : Option Text) (ports : List ℕ) (services : ServiceMap)
    (sessions : Sessions)
    → Returns Any (edges_to_release name at through ports services sessions)
unfolding edges_to_release
edges_to_release-Returns name at through [] services sessions = returned Any (sessions, []) tt
edges_to_release-Returns name at through (port ∷ ports) services sessions =
    let (sessions', cancelled) = cancel_backend_build (backend_key name at port) sessions in
    let rest = edges_to_release-Returns name at through ports services sessions' in
    let own = collect-Returns name at through (some port) services in
    elim (Bool-cases cancelled) [
      | inl gone ↦ rw gone rest
      | inr held ↦ record {
        answer = (rest.answer.0, own.answer ++ rest.answer.1);
        returns = rw (held, own.returns, rest.returns) refl;
        good = tt;
      }
    ]
