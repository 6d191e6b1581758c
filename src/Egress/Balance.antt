-- ===== src/Egress/Balance.antt =====
-- What becomes of the network IDs of egress edges: members/nullnet-server/src/orchestrator.rs.
use nullnet.Prelude.{
  ==_iff, All-get, All-insert, Bool, Bool-cases, Distinct, List, Map, Option, [], ap, arith, count,
  eqb, get, get-insert, get-remove, if◌then◌else◌, inl, inr, insert, insert-Distinct, ltb, none,
  not, refl, remove, share, some, sym, tally, tally-insert, true, ℕ, ◌&&◌, ◌++◌, ◌+◌, ◌<◌, ◌==◌,
  ◌∙◌, ◌∷◌, ◌≡◌, pair_eq, text_eq, option_eq, nat_eq,
}
use mathlib.Core.Option.{some-injective}
use nullnet.Addr.{ip_eq, v4_eq}
use nullnet.Egress.{
  EgressKey, EgressEdge, Effect, Trigger, dropped_edges, closed_rows, teardowns, teardown_where,
  remove_egress_edges,
}
use nullnet.Egress.Builds.{System, start}
use nullnet.Egress.Counts.{
  holds, live, building, torn, closed, torn-append, closed-append, torn-closed_rows,
  closed-closed_rows, torn-teardowns, closed-teardowns, drop-live, drop-Distinct, Settled,
  AllSettled, drop-AllSettled, weaken-AllSettled,
}
use nullnet.Services.Members.{is_some}

abbrev pub is_id : Option ℕ → Bool
is_id none = true
is_id (some id) = ltb 0 id

abbrev pub Known : ℕ → ℕ → Trigger × Option ℕ → Type 0
Known drawn g b = (b.0.generation ≡ g) × (g < drawn) × (is_id b.1 ≡ true)

abbrev pub AllKnown : ℕ → Map ℕ (Trigger × Option ℕ) → Type 0
AllKnown drawn [] = Unit
AllKnown drawn ((g, b) ∷ m) = Known drawn g b × AllKnown drawn m

-- Every ID that was given is on a live edge, in a build, or in a teardown that was sent; every
-- edge that was built is live or has its rows closed.
pub record Inv (s : System) : Type 0 where
  pub edges : Distinct s.edges
  pub builds : Distinct s.builds
  pub known : AllKnown s.drawn s.builds
  pub settled : AllSettled s.builds s.drawn s.edges
  pub allocated :
      (id : ℕ) → count id s.allocated ≡ live id s.edges + building id s.builds + torn id s.effects
  pub built : (id : ℕ) → count id s.built ≡ live id s.edges + closed id s.effects

pub start-Inv : Inv start
unfolding tally
start-Inv = record {
  edges = tt;
  builds = tt;
  known = tt;
  settled = tt;
  allocated = λ id. refl;
  built = λ id. refl;
}

module _ (s : System) (v : Inv s) where
  -- Edges leave, with their rows and their tunnels.
  pub removed-Inv :
      (p : EgressKey → EgressEdge → Bool)
      → Inv (record s {
        edges = (teardown_where p s.edges).0;
        effects = (teardown_where p s.edges).1 ++ s.effects;
      })
  unfolding teardown_where remove_egress_edges
  removed-Inv p =
      let gone = dropped_edges p s.edges in
      record {
        edges = drop-Distinct p s.edges v.edges;
        builds = v.builds;
        known = v.known;
        settled = drop-AllSettled p s.builds s.drawn s.edges v.settled;
        allocated = λ id. omega (
          arith,
          v.allocated id,
          drop-live id p s.edges,
          torn-append id (closed_rows gone ++ teardowns gone) s.effects,
          torn-append id (closed_rows gone) (teardowns gone),
          torn-closed_rows id gone,
          torn-teardowns id gone,
        );
        built = λ id. omega (
          arith,
          v.built id,
          drop-live id p s.edges,
          closed-append id (closed_rows gone ++ teardowns gone) s.effects,
          closed-append id (closed_rows gone) (teardowns gone),
          closed-closed_rows id gone,
          closed-teardowns id gone,
        );
      }

abbrev pub Builds : Type 0
Builds = Map ℕ (Trigger × Option ℕ)

module _ (drawn : ℕ) where
  pub get-Known :
      (g : ℕ) (b : Trigger × Option ℕ) (m : Builds)
      → AllKnown drawn m
      → get g m ≡ some b
      → Known drawn g b
  unfolding get
  get-Known g b [] a e = cc
  get-Known g b ((j, c) ∷ m) (h, a) e = elim (Bool-cases (eqb j g)) [
    | inl here ↦
        let same : c ≡ b = some-injective c b (ground arith) in
        (
          ap {B = ℕ} (λ c. c.0.generation) (sym same) ∙ h.0 ∙ ground arith,
          omega (arith, h.1, (==_iff j g).0 here),
          ap {B = Bool} (λ c. is_id c.1) (sym same) ∙ h.2,
        )
    | inr there ↦ get-Known g b m a (ground arith)
  ]

  pub get_drawn : (m : Builds) → AllKnown drawn m → get drawn m ≡ none
  unfolding get
  get_drawn [] a = refl
  get_drawn ((j, c) ∷ m) (h, a) = ground (arith, get_drawn m a, h.1)

  pub insert-Known :
      (g : ℕ) (b : Trigger × Option ℕ) (m : Builds)
      → Known drawn g b
      → AllKnown drawn m
      → AllKnown drawn (insert g b m)
  unfolding insert
  insert-Known g b [] h a = (h, tt)
  insert-Known g b ((j, c) ∷ m) h (k, a) = elim (Bool-cases (eqb j g)) [
    | inl here ↦ rw here ((h.0 ∙ ground arith, k.1, h.2), a)
    | inr there ↦ rw there (k, insert-Known g b m h a)
  ]

  pub remove-Known : (g : ℕ) (m : Builds) → AllKnown drawn m → AllKnown drawn (remove g m)
  unfolding remove
  remove-Known g [] a = tt
  remove-Known g ((j, c) ∷ m) (k, a) = elim (Bool-cases (eqb j g)) [
    | inl here ↦ rw here (remove-Known g m a)
    | inr there ↦ rw there (k, remove-Known g m a)
  ]

pub grow-Known : (n : ℕ) (m : Builds) → AllKnown n m → AllKnown (n + 1) m
grow-Known n [] a = tt
grow-Known n ((g, b) ∷ m) (h, a) = ((h.0, omega (arith, h.1), h.2), grow-Known n m a)

pub put-Settled :
    (g : ℕ) (old b : Trigger × Option ℕ) (m : Builds) (drawn : ℕ) (e : EgressEdge)
    → get g m ≡ some old
    → Settled m drawn e
    → Settled (insert g b m) drawn e
put-Settled g old b m drawn e found h = elim (Bool-cases (g == e.generation)) [
  | inl here ↦ ground (
    arith,
    h,
    get-insert g e.generation b m,
    ap is_some found,
    ap {B = Bool} (λ j. is_some (get j m)) ((==_iff g e.generation).0 here),
  )
  | inr there ↦ ground (arith, h, get-insert g e.generation b m)
]

pub end-Settled :
    (g : ℕ) (m : Builds) (drawn : ℕ) (e : EgressEdge)
    → Settled m drawn e
    → Settled (remove g m) drawn e
end-Settled g m drawn e h = ground (arith, h, get-remove g e.generation m)

pub start-Settled :
    (b : Trigger × Option ℕ) (m : Builds) (drawn : ℕ) (e : EgressEdge)
    → Settled m drawn e
    → Settled (insert drawn b m) (drawn + 1) e
start-Settled b m drawn e h = ground (arith, h, get-insert drawn e.generation b m)

module _ (s : System) (v : Inv s) where
  -- An edge changes, but for its ID and its generation.
  pub changed-Inv :
      (k : EgressKey) (old new : EgressEdge) (out : List Effect)
      → get k s.edges ≡ some old
      → new.net_id ≡ old.net_id
      → new.generation ≡ old.generation
      → ((id : ℕ) → (torn id out ≡ 0) × (closed id out ≡ 0))
      → Inv (record s { edges = insert k new s.edges; effects = out ++ s.effects })
  changed-Inv k old new out found same same_gen quiet =
      let kept : (id : ℕ) → live id (insert k new s.edges) ≡ live id s.edges = λ id. omega (
        arith,
        tally-insert (holds id) k new s.edges,
        ap (share (holds id) k) found,
        ap {B = ℕ} (λ n. if not (eqb n 0) && eqb n id then 1 else 0) same,
      ) in
      record {
        edges = insert-Distinct k new s.edges v.edges;
        builds = v.builds;
        known = v.known;
        settled = All-insert (Settled s.builds s.drawn) k new s.edges v.settled (
            ground (
              arith,
              All-get (Settled s.builds s.drawn) k old s.edges v.settled found,
              same,
              same_gen,
              ap {B = Bool} (λ g. is_some (get g s.builds)) same_gen,
            ));
        allocated = λ id.
            omega (arith, v.allocated id, kept id, torn-append id out s.effects, (quiet id).0);
        built =
            λ id. omega (arith, v.built id, kept id, closed-append id out s.effects, (quiet id).1);
      }

  pub given-Inv :
      (g id : ℕ) (t : Trigger)
      → get g s.builds ≡ some (t, none)
      → is_id (some id) ≡ true
      → Inv (record s { builds = insert g (t, some id) s.builds; allocated = id ∷ s.allocated })
  given-Inv g id t found some_id = record {
    edges = v.edges;
    builds = insert-Distinct g (t, some id) s.builds v.builds;
    known =
        insert-Known s.drawn g (t, some id) s.builds
          (let k = get-Known s.drawn g (t, none) s.builds v.known found in (k.0, k.1, some_id))
          v.known;
    settled =
        weaken-AllSettled s.builds (insert g (t, some id) s.builds) s.drawn s.drawn s.edges
          (λ e h. put-Settled g (t, none) (t, some id) s.builds s.drawn e found h) v.settled;
    allocated = λ i. omega (
      arith,
      v.allocated i,
      tally-insert (λ g (t, o). o == some i) g (t, some id) s.builds,
      ap (share (λ g (t, o). o == some i) g) found,
    );
    built = v.built;
  }
