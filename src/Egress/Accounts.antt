-- ===== src/Egress/Accounts.antt =====
-- The network IDs of egress edges over all interleavings:
-- members/nullnet-server/src/orchestrator.rs.
use nullnet.Prelude.{
  All-get, All-insert, List, Option, Text, ap, arith, eqb, get, get-remove_self, if◌then◌else◌,
  insert, insert-Distinct, none, refl, remove, remove-Distinct, share, some, tally-insert,
  tally-remove, true, ℕ, ◌++◌, ◌+◌, ◌==◌, ◌∙◌, ◌∷◌, ◌≡◌, pair_eq, text_eq, option_eq, nat_eq,
}
use nullnet.Addr.{IpAddr, ip_eq, v4_eq}
use nullnet.Egress.{
  EgressEdge, Effect, Trigger, key_of, drop_edges, is_build, promoted, reservation,
}
use nullnet.Egress.Balance.{
  Inv, get-Known, get_drawn, insert-Known, remove-Known, grow-Known, end-Settled, start-Settled,
}
use nullnet.Egress.Builds.{System, drawn_trigger, start_build}
use nullnet.Egress.Counts.{
  holds, live, building, torn, closed, torn-append, closed-append, drop-live, drop-Distinct,
  Settled, drop-AllSettled, weaken-AllSettled, held-build,
}
use nullnet.Services.Members.{is_some}

module _ (s : System) (v : Inv s) where
  -- A slot is taken that no live edge has.
  pub reserved-Inv :
      (now : ℕ) (stack service : Text) (ip : IpAddr) (docker : Option Text) (proxy : IpAddr)
      (out : List Effect)
      → ((id : ℕ) → share (holds id) (ip, docker) (get (ip, docker) s.edges) ≡ 0)
      → ((id : ℕ) → (torn id out ≡ 0) × (closed id out ≡ 0))
      → let t = drawn_trigger s stack service ip docker proxy in
        Inv (start_build t (some (insert (key_of t) (reservation now t) s.edges, out)) s)
  reserved-Inv now stack service ip docker proxy out free quiet =
      let t = drawn_trigger s stack service ip docker proxy in
      let kept : (id : ℕ)
          → live id (insert (key_of t) (reservation now t) s.edges) ≡ live id s.edges =
        λ id.
          omega (arith, tally-insert (holds id) (key_of t) (reservation now t) s.edges, free id) in
      let fresh = get_drawn s.drawn s.builds v.known in
      record {
        edges = insert-Distinct (key_of t) (reservation now t) s.edges v.edges;
        builds = insert-Distinct s.drawn (t, none) s.builds v.builds;
        known =
            insert-Known (s.drawn + 1) s.drawn (t, none) s.builds (refl, omega arith, refl)
              (grow-Known s.drawn s.builds v.known);
        settled =
            All-insert (Settled (insert s.drawn (t, none) s.builds) (s.drawn + 1)) (key_of t)
              (reservation now t) s.edges
              (weaken-AllSettled s.builds (insert s.drawn (t, none) s.builds) s.drawn (s.drawn + 1)
                s.edges (λ e h. start-Settled (t, none) s.builds s.drawn e h) v.settled)
              (ground arith);
        allocated = λ id. omega (
          arith,
          v.allocated id,
          kept id,
          torn-append id out s.effects,
          (quiet id).0,
          tally-insert (λ g (t, o). o == some id) s.drawn (t, none) s.builds,
          ap (share (λ g (t, o). o == some id) s.drawn) fresh,
        );
        built =
            λ id. omega (arith, v.built id, kept id, closed-append id out s.effects, (quiet id).1);
      }

  -- A build that ends without an edge.
  module _ (g : ℕ) (t : Trigger) (o : Option ℕ) (found : get g s.builds ≡ some (t, o)) where
    pub owner : get t.generation s.builds ≡ some (t, o)
    owner = ap (λ j. get j s.builds) ((get-Known s.drawn g (t, o) s.builds v.known found).0) ∙ found

    fewer_builds :
        (id : ℕ)
        → building id (remove g s.builds) + (if o == some id then 1 else 0) ≡ building id s.builds
    fewer_builds id = omega (
      arith,
      tally-remove (λ g (t, o). o == some id) g s.builds v.builds,
      ap (share (λ g (t, o). o == some id) g) found,
    )

    pub unbuilt-Inv :
        (out : List Effect)
        → ((id : ℕ) → (torn id out ≡ (if o == some id then 1 else 0)) × (closed id out ≡ 0))
        → Inv (record s {
          edges = drop_edges (is_build t) s.edges;
          builds = remove g s.builds;
          effects = out ++ s.effects;
        })
    unbuilt-Inv out ends = record {
      edges = drop-Distinct (is_build t) s.edges v.edges;
      builds = remove-Distinct g s.builds v.builds;
      known = remove-Known s.drawn g s.builds v.known;
      settled = drop-AllSettled (is_build t) (remove g s.builds) s.drawn s.edges (
          weaken-AllSettled s.builds (remove g s.builds) s.drawn s.drawn s.edges
            (λ e h. end-Settled g s.builds s.drawn e h) v.settled);
      allocated = λ id. omega (
        arith,
        v.allocated id,
        drop-live id (is_build t) s.edges,
        fewer_builds id,
        held-build id t (t, o) s.builds s.drawn owner s.edges v.settled,
        torn-append id out s.effects,
        (ends id).0,
      );
      built = λ id. omega (
        arith,
        v.built id,
        drop-live id (is_build t) s.edges,
        held-build id t (t, o) s.builds s.drawn owner s.edges v.settled,
        closed-append id out s.effects,
        (ends id).1,
      );
    }

    pub unwound-Inv :
        (out : List Effect)
        → ((id : ℕ) → (torn id out ≡ (if o == some id then 1 else 0)) × (closed id out ≡ 0))
        → Inv (record s { builds = remove g s.builds; effects = out ++ s.effects })
    unwound-Inv out ends = record {
      edges = v.edges;
      builds = remove-Distinct g s.builds v.builds;
      known = remove-Known s.drawn g s.builds v.known;
      settled =
          weaken-AllSettled s.builds (remove g s.builds) s.drawn s.drawn s.edges
            (λ e h. end-Settled g s.builds s.drawn e h) v.settled;
      allocated = λ id.
          omega (arith, v.allocated id, fewer_builds id, torn-append id out s.effects, (ends id).0);
      built = λ id. omega (arith, v.built id, closed-append id out s.effects, (ends id).1);
    }

  pub promoted-Inv :
      (now g id : ℕ) (t : Trigger) (e : EgressEdge)
      → get g s.builds ≡ some (t, some id)
      → get (key_of t) s.edges ≡ some e
      → eqb e.generation t.generation ≡ true
      → Inv (record s {
        edges = insert (key_of t) (promoted now id e) s.edges;
        builds = remove g s.builds;
        built = id ∷ s.built;
      })
  promoted-Inv now g id t e found here own =
      let k = get-Known s.drawn g (t, some id) s.builds v.known found in
      let new = promoted now id e in
      let old_settled = All-get (Settled s.builds s.drawn) (key_of t) e s.edges v.settled here in
      let same : e.generation ≡ t.generation = ground arith in
      let gone : get e.generation (remove g s.builds) ≡ none =
        rw (same, k.0) (get-remove_self g s.builds) in
      let none_yet : eqb e.net_id 0 ≡ true = ground (
        arith,
        old_settled,
        ap is_some (ap (λ j. get j s.builds) same ∙ owner g t (some id) found),
      ) in
      let more : (i : ℕ)
          → live i (insert (key_of t) new s.edges) ≡ live i s.edges + (if eqb id i then 1 else 0) =
        λ i. ground (
          arith,
          k.2,
          none_yet,
          tally-insert (holds i) (key_of t) new s.edges,
          ap (share (holds i) (key_of t)) here,
        ) in
      record {
        edges = insert-Distinct (key_of t) new s.edges v.edges;
        builds = remove-Distinct g s.builds v.builds;
        known = remove-Known s.drawn g s.builds v.known;
        settled =
            All-insert (Settled (remove g s.builds) s.drawn) (key_of t) new s.edges
              (weaken-AllSettled s.builds (remove g s.builds) s.drawn s.drawn s.edges
                (λ e h. end-Settled g s.builds s.drawn e h) v.settled)
              (ground (arith, old_settled, ap is_some gone));
        allocated = λ i. ground (arith, v.allocated i, more i, fewer_builds g t (some id) found i);
        built = λ i. ground (arith, v.built i, more i);
      }
