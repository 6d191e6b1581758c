-- ===== src/Backend/Tests.antt =====
-- Runs of the sessions of backend triggers, and the theorems at such inputs.
use nullnet.Prelude.{
  Bool, Distinct, Option, [], codes, false, get, insert, none, refl, some, true, ℕ, ◌∷◌, ◌≡◌,
}
use nullnet.Addr.{v4}
use nullnet.Backend.{
  BackendKey, BackendSession, Sessions, key_eq, claim_backend_session, finish_backend_session,
  set_backend_liveness, take_due_backend_sessions,
}
use nullnet.Backend.Due.{released, kept, take_due_exact}

abbrev key : ℕ → BackendKey
key port = record {
  service = codes "api";
  ip = v4 (record { a = 10; b = 0; c = 0; d = 1 });
  docker = none;
  port = port;
}

abbrev session : Bool → Option ℕ → BackendSession
session building idle = record {
  generation = 1;
  history_id = some 4;
  building = building;
  stack = codes "prod";
  idle_since = idle;
}

-- One session is idle, one is built again and one has open connections.
abbrev sessions : Sessions
sessions =
    (key 8080, session false (some 1_000))
    ∷ (key 8081, session true (some 1_000))
    ∷ (key 8082, session false none)
    ∷ []

sessions-Distinct : Distinct sessions
unfolding get
sessions-Distinct = (refl, (refl, (refl, tt)))

claim_and_go_idle :
    set_backend_liveness
      (key 8080)
      1_000
      false
      (finish_backend_session
        (key 8080)
        9
        5
        []
        none
        ((claim_backend_session (key 8080) (codes "prod") 9 []).0)).0
    ≡ (key 8080, record (session false (some 1_000)) { generation = 9; history_id = none }) ∷ []
unfolding set_backend_liveness finish_backend_session claim_backend_session get insert
claim_and_go_idle = refl

take_due_exact_example :
    ((take_due_backend_sessions 40_000 30_000 sessions).1 ≡ released 40_000 30_000 sessions)
    × ((j : BackendKey)
        → get j ((take_due_backend_sessions 40_000 30_000 sessions).0)
          ≡ kept 40_000 30_000 (get j sessions))
    × (released 40_000 30_000 ((take_due_backend_sessions 40_000 30_000 sessions).0) ≡ [])
take_due_exact_example = take_due_exact 40_000 30_000 sessions sessions-Distinct

due_of_sessions : released 40_000 30_000 sessions ≡ (key 8080, codes "prod", some 4) ∷ []
due_of_sessions = refl
