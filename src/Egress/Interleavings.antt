-- ===== src/Egress/Interleavings.antt =====
-- All runs of triggers, builds, removals and reports: members/nullnet-server/src/orchestrator.rs.
use nullnet.Prelude.{
  Bool, Bool-cases, List, Option, Text, [], ap, arith, count, eqb, get, inl, inr, none, refl, share,
  some, true, ℕ, ◌+◌, ◌-◌, ◌/◌, ◌∙◌, ◌∷◌, ◌≡◌, pair_eq, text_eq, option_eq, nat_eq,
}
use nullnet.Addr.{Ipv4Addr, IpAddr, ip_eq, v4_eq}
use nullnet.Egress.{
  Effect, persist_edge_destinations, persisted, EgressKey, DestStat, EgressEdge, Trigger, key_of,
  dropped_edges, closed_rows, is_build, reserve_egress_edge, reserve_over, build_failed, promote,
  promote_found, net_teardown, setup_timeout, reclaimed, is_claimed, remove_egress_edges,
  teardown_egress_edges_for_node, teardown_egress_edges_for_missing_containers,
  reap_idle_egress_edges,
}
use nullnet.Egress.Balance.{Inv, start-Inv, grow-Known, removed-Inv, changed-Inv, given-Inv, is_id}
use nullnet.Egress.Accounts.{owner, reserved-Inv, unbuilt-Inv, unwound-Inv, promoted-Inv}
use nullnet.Egress.Builds.{
  persisted_at, System, start, Event, triggered, given, exhausted, failed, completed, node_left,
  containers_left, reaped, contacted, reported, step, run, drawn_trigger, with_edges, start_build,
  give, exhaust, fail, complete, finish,
}
use nullnet.Egress.Counts.{
  torn-append, closed-append, persisted-uncounted, live, building, torn, closed, torn-closed_rows,
  closed-closed_rows, held-build, weaken-AllSettled, holds,
}
use nullnet.Egress.Reports.{
  record_egress_destination, set_egress_liveness, recorded, report, stored, with_stat,
  with_liveness,
}
use nullnet.NetIdPool.{min_net_id}

module _ (s : System) (v : Inv s) where
  drawn-Inv : Inv (record s { drawn = s.drawn + 1 })
  drawn-Inv = record {
    edges = v.edges;
    builds = v.builds;
    known = grow-Known s.drawn s.builds v.known;
    settled =
        weaken-AllSettled s.builds s.builds s.drawn (s.drawn + 1) s.edges (λ e h. ground (arith, h))
          v.settled;
    allocated = v.allocated;
    built = v.built;
  }

  module _ (now : ℕ) (stack service : Text) (ip : IpAddr) (docker : Option Text)
      (proxy : IpAddr) where
    triggered-Inv :
        (o : Option EgressEdge)
        → get (ip, docker) s.edges ≡ o
        → let t = drawn_trigger s stack service ip docker proxy in
          Inv (start_build t (reserve_over now t o s.edges) s)
    triggered-Inv none found =
        reserved-Inv s v now stack service ip docker proxy []
          (λ id. ap (share (holds id) (ip, docker)) found) (λ id. (refl, refl))
    triggered-Inv (some e) found = elim (Bool-cases (is_claimed now e)) [
      | inl taken ↦ rw taken drawn-Inv
      | inr stale ↦ rw stale (
          reserved-Inv s v now stack service ip docker proxy
            (reclaimed service ip ((now - e.reserved_at) / 1000) ∷ [])
            (λ id. ground (arith, ap (share (holds id) (ip, docker)) found)) (λ id. (refl, refl)))
    ]

  module _ (g : ℕ) where
    given_at-Inv :
        (id : ℕ) (o : Option (Trigger × Option ℕ))
        → is_id (some id) ≡ true
        → get g s.builds ≡ o
        → Inv (give g id o s)
    given_at-Inv id none some_id found = v
    given_at-Inv id (some (t, none)) some_id found = given-Inv s v g id t found some_id
    given_at-Inv id (some (t, some other)) some_id found = v

    exhausted-Inv : (o : Option (Trigger × Option ℕ)) → get g s.builds ≡ o → Inv (exhaust g o s)
    unfolding build_failed remove_egress_edges
    exhausted-Inv none found = v
    exhausted-Inv (some (t, some id)) found = v
    exhausted-Inv (some (t, none)) found =
        let gone = dropped_edges (is_build t) s.edges in
        unbuilt-Inv s v g t none found (closed_rows gone) (λ id. (
          torn-closed_rows id gone,
          closed-closed_rows id gone
              ∙ held-build id t (t, none) s.builds s.drawn (owner s v g t none found) s.edges
                  v.settled,
        ))

    failed-Inv : (o : Option (Trigger × Option ℕ)) → get g s.builds ≡ o → Inv (fail g o s)
    unfolding build_failed remove_egress_edges
    failed-Inv none found = v
    failed-Inv (some (t, none)) found = v
    failed-Inv (some (t, some id)) found =
        let gone = dropped_edges (is_build t) s.edges in
        unbuilt-Inv s v g t (some id) found
          (setup_timeout id t.service
            ∷ net_teardown t.initiator_ip t.initiator_docker t.proxy_ip id
            ∷ closed_rows gone)
          (λ i. (
            ground (arith, torn-closed_rows i gone),
            omega (
              arith,
              closed-closed_rows i gone,
              held-build i t (t, some id) s.builds s.drawn (owner s v g t (some id) found) s.edges
                  v.settled,
            ),
          ))

    promoted_at-Inv :
        (now id : ℕ) (t : Trigger) (o : Option EgressEdge)
        → get g s.builds ≡ some (t, some id)
        → get (key_of t) s.edges ≡ o
        → Inv (finish g id (promote_found now t id o s.edges) s)
    promoted_at-Inv now id t none found here =
        unwound-Inv s v g t (some id) found
          (net_teardown t.initiator_ip t.initiator_docker t.proxy_ip id ∷ [])
          (λ i. (ground arith, refl))
    promoted_at-Inv now id t (some e) found here =
        elim (Bool-cases (eqb e.generation t.generation)) [
          | inl own ↦ rw own (promoted-Inv s v now g id t e found here own)
          | inr other ↦ rw other (
              unwound-Inv s v g t (some id) found
                (net_teardown t.initiator_ip t.initiator_docker t.proxy_ip id ∷ [])
                (λ i. (ground arith, refl)))
        ]

    completed-Inv :
        (now : ℕ) (o : Option (Trigger × Option ℕ)) → get g s.builds ≡ o → Inv (complete now g o s)
    unfolding promote
    completed-Inv now none found = v
    completed-Inv now (some (t, none)) found = v
    completed-Inv now (some (t, some id)) found =
        promoted_at-Inv now id t (get (key_of t) s.edges) found refl

  persisted-Inv :
      (out : List Effect)
      → ((id : ℕ) → (torn id out ≡ 0) × (closed id out ≡ 0))
      → Inv (with_edges (s.edges, out) s)
  persisted-Inv out quiet = record {
    edges = v.edges;
    builds = v.builds;
    known = v.known;
    settled = v.settled;
    allocated = λ id. omega (arith, v.allocated id, torn-append id out s.effects, (quiet id).0);
    built = λ id. omega (arith, v.built id, closed-append id out s.effects, (quiet id).1);
  }

  contacted-Inv :
      (k : EgressKey) (ip : Ipv4Addr) (stat : DestStat) (o : Option EgressEdge)
      → get k s.edges ≡ o
      → Inv (with_edges (recorded k ip stat o s.edges) s)
  contacted-Inv k ip stat none found = v
  contacted-Inv k ip stat (some e) found =
      changed-Inv s v k e (with_stat ip stat e) (stored k ip stat (with_stat ip stat e)) found refl
        refl
        (λ id. elim (Bool-cases (eqb e.net_id 0)) [
          | inl reserved ↦ rw reserved (refl, refl)
          | inr is_live ↦ rw is_live (refl, refl)
        ])

  reported-Inv :
      (now : ℕ) (k : EgressKey) (active : Bool) (o : Option EgressEdge)
      → get k s.edges ≡ o
      → Inv (record s { edges = report now k active o s.edges })
  reported-Inv now k active none found = v
  reported-Inv now k active (some e) found =
      changed-Inv s v k e (with_liveness now active e) [] found refl refl (λ id. (refl, refl))

step-Inv : (e : Event) (s : System) → Inv s → Inv (step e s)
unfolding step reserve_egress_edge teardown_egress_edges_for_node
    teardown_egress_edges_for_missing_containers reap_idle_egress_edges persist_edge_destinations
    record_egress_destination set_egress_liveness
step-Inv (triggered now stack service ip docker proxy) s v =
    triggered-Inv s v now stack service ip docker proxy (get (ip, docker) s.edges) refl
step-Inv (given g above) s v =
    given_at-Inv s v g (min_net_id + above) (get g s.builds) (ground arith) refl
step-Inv (exhausted g) s v = exhausted-Inv s v g (get g s.builds) refl
step-Inv (failed g) s v = failed-Inv s v g (get g s.builds) refl
step-Inv (completed now g) s v = completed-Inv s v g now (get g s.builds) refl
step-Inv (node_left ip) s v = removed-Inv s v _
step-Inv (containers_left ip containers) s v = removed-Inv s v _
step-Inv (reaped now debounce) s v = removed-Inv s v _
step-Inv (contacted k ip stat) s v = contacted-Inv s v k ip stat (get k s.edges) refl
step-Inv (persisted_at k) s v =
    persisted-Inv s v (persisted k (get k s.edges)) (λ id. persisted-uncounted id k (get k s.edges))
step-Inv (reported now k active) s v = reported-Inv s v now k active (get k s.edges) refl

run-Inv : (es : List Event) (s : System) → Inv s → Inv (run es s)
unfolding run
run-Inv [] s v = v
run-Inv (e ∷ es) s v = run-Inv es (step e s) (step-Inv e s v)

-- However triggers, builds, failures, removals and reports interleave, each network ID was given
-- to builds as often as it is now on a live edge, in a build under way, or was torn down; and as
-- many builds became edges as edges are live or had their rows closed. So no tunnel is left without
-- an owner, none is torn down twice, and no removed edge keeps its rows open.
pub ids_accounted :
    (es : List Event) (id : ℕ)
    → let s = run es start in
      (count id s.allocated ≡ live id s.edges + building id s.builds + torn id s.effects)
      × (count id s.built ≡ live id s.edges + closed id s.effects)
ids_accounted es id = let v = run-Inv es start start-Inv in (v.allocated id, v.built id)
