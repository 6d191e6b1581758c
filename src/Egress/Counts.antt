-- ===== src/Egress/Counts.antt =====
-- How often a network ID is on an edge, in a build and among the effects:
-- members/nullnet-server/src/orchestrator.rs.
use nullnet.Prelude.{
  All, Bool, Bool-cases, Distinct, List, Map, Option, [], ap, arith, eqb, get, if◌then◌else◌, inl,
  inr, ltb, map, none, not, refl, some, tally, true, ℕ, ◌&&◌, ◌++◌, ◌+◌, ◌==◌, ◌||◌, ◌∙◌, ◌∷◌, ◌≡◌,
  pair_eq, text_eq, option_eq, nat_eq,
}
use nullnet.Addr.{Ipv4Addr, ip_eq, v4_eq}
use nullnet.Egress.{
  EgressKey, DestStat, EgressEdge, Edges, Effect, destination, Trigger, drop_edges, dropped_edges,
  closed_rows, teardowns, is_build, persisted,
}
use nullnet.Services.Members.{is_some}

abbrev pub holds : ℕ → EgressKey → EgressEdge → Bool
holds id k e = not (eqb e.net_id 0) && eqb e.net_id id

-- The live edges of an ID.
abbrev pub live : ℕ → Edges → ℕ
live id m = tally (holds id) m

abbrev pub building : ℕ → Map ℕ (Trigger × Option ℕ) → ℕ
building id builds = tally (λ g (t, o). o == some id) builds

abbrev sum : (Effect → ℕ) → List Effect → ℕ
sum f [] = 0
sum f (x ∷ xs) = f x + sum f xs

abbrev torn_by : ℕ → Effect → ℕ
torn_by id (Effect.net_teardown ip docker proxy n) = if eqb n id then 1 else 0
torn_by id _ = 0

abbrev closed_by : ℕ → Effect → ℕ
closed_by id (Effect.close_edge n) = if eqb n id then 1 else 0
closed_by id _ = 0

-- The teardowns that were sent for an ID, and the rows that were closed.
abbrev pub torn : ℕ → List Effect → ℕ
torn id out = sum (torn_by id) out

abbrev pub closed : ℕ → List Effect → ℕ
closed id out = sum (closed_by id) out

sum-append : (f : Effect → ℕ) (xs ys : List Effect) → sum f (xs ++ ys) ≡ sum f xs + sum f ys
sum-append f [] ys = omega arith
sum-append f (x ∷ xs) ys = omega (arith, sum-append f xs ys)

module _ (id : ℕ) where
  pub torn-append : (xs ys : List Effect) → torn id (xs ++ ys) ≡ torn id xs + torn id ys
  torn-append xs ys = sum-append (torn_by id) xs ys

  pub closed-append : (xs ys : List Effect) → closed id (xs ++ ys) ≡ closed id xs + closed id ys
  closed-append xs ys = sum-append (closed_by id) xs ys

  abbrev pub held : List EgressEdge → ℕ
  held [] = 0
  held (e ∷ es) = (if not (eqb e.net_id 0) && eqb e.net_id id then 1 else 0) + held es

  pub torn-closed_rows : (es : List EgressEdge) → torn id (closed_rows es) ≡ 0
  unfolding closed_rows
  torn-closed_rows [] = refl
  torn-closed_rows (e ∷ es) = ground (arith, torn-closed_rows es)

  pub closed-closed_rows : (es : List EgressEdge) → closed id (closed_rows es) ≡ held es
  unfolding closed_rows
  closed-closed_rows [] = refl
  closed-closed_rows (e ∷ es) = ground (arith, closed-closed_rows es)

  pub torn-teardowns : (es : List EgressEdge) → torn id (teardowns es) ≡ held es
  unfolding teardowns
  torn-teardowns [] = refl
  torn-teardowns (e ∷ es) = ground (arith, torn-teardowns es)

  pub closed-teardowns : (es : List EgressEdge) → closed id (teardowns es) ≡ 0
  unfolding teardowns
  closed-teardowns [] = refl
  closed-teardowns (e ∷ es) = ground (arith, closed-teardowns es)

  stored-uncounted :
      (k : EgressKey) (e : EgressEdge) (m : Map Ipv4Addr DestStat)
      → (torn id (map (λ (ip, stat). destination e k ip stat) m) ≡ 0)
        × (closed id (map (λ (ip, stat). destination e k ip stat) m) ≡ 0)
  stored-uncounted k e [] = (refl, refl)
  stored-uncounted k e ((ip, stat) ∷ m) =
      let (t, c) = stored-uncounted k e m in (omega (arith, t), omega (arith, c))

  pub persisted-uncounted :
      (k : EgressKey) (o : Option EgressEdge)
      → (torn id (persisted k o) ≡ 0) × (closed id (persisted k o) ≡ 0)
  persisted-uncounted k none = (refl, refl)
  persisted-uncounted k (some e) = elim (Bool-cases (eqb e.net_id 0)) [
    | inl reserved ↦ rw reserved (refl, refl)
    | inr is_live ↦ rw is_live (stored-uncounted k e e.destinations)
  ]

  module _ (p : EgressKey → EgressEdge → Bool) where
    pub drop-live : (m : Edges) → live id m ≡ live id (drop_edges p m) + held (dropped_edges p m)
    unfolding tally drop_edges dropped_edges
    drop-live [] = refl
    drop-live ((k, e) ∷ m) = ground (arith, drop-live m)

module _ (p : EgressKey → EgressEdge → Bool) where
  get-drop : (k : EgressKey) (m : Edges) → get k m ≡ none → get k (drop_edges p m) ≡ none
  unfolding get drop_edges
  get-drop k [] h = refl
  get-drop k ((j, e) ∷ m) h = ground (arith, get-drop k m)

  pub drop-Distinct : (m : Edges) → Distinct m → Distinct (drop_edges p m)
  unfolding drop_edges
  drop-Distinct [] d = tt
  drop-Distinct ((k, e) ∷ m) d = ground (arith, drop-Distinct m d.1, get-drop k m d.0)

-- A live edge whose build is over, of a generation that was drawn.
abbrev pub settled : Map ℕ (Trigger × Option ℕ) → (drawn : ℕ) → EgressEdge → Bool
settled builds drawn e =
    ltb e.generation drawn && (eqb e.net_id 0 || not (is_some (get e.generation builds)))

abbrev pub Settled : Map ℕ (Trigger × Option ℕ) → (drawn : ℕ) → EgressEdge → Type 0
Settled builds drawn e = settled builds drawn e ≡ true

abbrev pub AllSettled : Map ℕ (Trigger × Option ℕ) → (drawn : ℕ) → Edges → Type 0
AllSettled builds drawn m = All (λ x. Settled builds drawn (x.1)) m

pub drop-AllSettled :
    (p : EgressKey → EgressEdge → Bool) (builds : Map ℕ (Trigger × Option ℕ)) (drawn : ℕ)
    (m : Edges)
    → AllSettled builds drawn m
    → AllSettled builds drawn (drop_edges p m)
unfolding drop_edges
drop-AllSettled p builds drawn [] a = tt
drop-AllSettled p builds drawn ((k, e) ∷ m) (h, a) = elim (Bool-cases (p k e)) [
  | inl goes ↦ rw goes (drop-AllSettled p builds drawn m a)
  | inr stays ↦ rw stays (h, drop-AllSettled p builds drawn m a)
]

pub weaken-AllSettled :
    (bs cs : Map ℕ (Trigger × Option ℕ)) (n n' : ℕ) (m : Edges)
    → ((e : EgressEdge) → Settled bs n e → Settled cs n' e)
    → AllSettled bs n m
    → AllSettled cs n' m
weaken-AllSettled bs cs n n' [] f a = tt
weaken-AllSettled bs cs n n' ((k, e) ∷ m) f (h, a) = (f e h, weaken-AllSettled bs cs n n' m f a)

-- What a build leaves behind has no ID.
pub held-build :
    (id : ℕ) (t : Trigger) (b : Trigger × Option ℕ) (builds : Map ℕ (Trigger × Option ℕ))
    (drawn : ℕ)
    → get t.generation builds ≡ some b
    → (m : Edges) → AllSettled builds drawn m
    → held id (dropped_edges (is_build t) m) ≡ 0
unfolding dropped_edges
held-build id t b builds drawn e [] a = refl
held-build id t b builds drawn e ((k, edge) ∷ m) (h, a) =
    let rest = held-build id t b builds drawn e m a in
    elim (Bool-cases (is_build t k edge)) [
      | inl own ↦
          let same : edge.generation ≡ t.generation = ground arith in
          let found = ap (λ g. get g builds) same ∙ e in ground (arith, rest, ap is_some found)
      | inr other ↦ rw other rest
    ]
