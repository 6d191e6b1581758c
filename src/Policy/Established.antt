-- ===== src/Policy/Established.antt =====
-- ebpf/src/policy.rs: which TCP segments pass, over a sequence of packets in which the client may
-- change its policies at any time.
use mathlib.Core.Path.{subst}
use mathlib.Core.Option.{some-injective}
use nullnet.Prelude.{
  ==_iff, Bool, Bool-cases, List, Option, [], any, arith, eqb, false, if◌then◌else◌, inl, inr, none,
  refl, some, true, ℕ, ◌&&◌, ◌==◌, ◌∷◌, ◌≡◌, ◌⊎◌, nat_eq, option_eq,
}
use nullnet.Policy.Layout.{Kernel, Policies, FlowKey, Rule, Segment, Checked}
use nullnet.Policy.{
  tcp, segment, track, track_tcp, flow, check, emit, with_flows, forward_checked, forward,
}

-- A packet, its direction, and the policies at that time.
pub record Event (x : Kernel) : Type 0 where
  pub incoming : Bool
  pub policies : Policies
  pub packet : x.Packet

abbrev pub beq_key : FlowKey → FlowKey → Bool
beq_key k l =
    eqb k.interface l.interface
    && eqb k.peer l.peer
    && eqb k.local_port l.local_port
    && eqb k.remote_port l.remote_port

-- The LRU map of flows gains nothing but what is inserted.
abbrev pub AddsNoFlow : Kernel → Type 0
AddsNoFlow x =
    (flows flows' : x.Flows) (k j : FlowKey) (g h : ℕ)
    → x.flow_insert flows k g ≡ some flows'
    → x.flow_generation flows' j ≡ some h
    → ((j ≡ k) × (h ≡ g)) ⊎ (x.flow_generation flows j ≡ some h)

abbrev paired : Rule → Option Segment → Option (Rule × Segment)
paired rule none = none
paired rule (some s) = some (rule, s)

module _ (x : Kernel) where
  -- The TCP segment of a packet that passed the guards, and the rule for it.
  abbrev tcp_of : Bool → x.Packet → Option Checked → Option (Rule × Segment)
  tcp_of incoming packet none = none
  tcp_of incoming packet (some c) =
      if eqb c.proto tcp
      then paired c.rule (segment x c.rule c.interface c.len incoming packet)
      else none

  abbrev pub tcp_segment : Event x → Option (Rule × Segment)
  tcp_segment e = tcp_of e.incoming e.packet (check x e.incoming e.policies e.packet)

  abbrev is_opening : FlowKey → ℕ → Option (Rule × Segment) → Bool
  is_opening k g none = false
  is_opening k g (some (rule, s)) = s.syn && beq_key s.key k && eqb rule.generation g

  -- A SYN of this flow under a rule of this generation.
  abbrev pub opens : FlowKey → ℕ → Event x → Bool
  opens k g e = is_opening k g (tcp_segment e)

  abbrev step : Event x → x.Flows → Option (ℕ × x.Packet) × x.Flows
  step e flows = forward x e.incoming e.policies e.packet flows

  unfoldable pub run : List (Event x) → x.Flows → x.Flows
  run [] flows = flows
  run (e ∷ es) flows = run es (step e flows).1

  track-generation :
      (rule : Rule) (s : Segment) (flows flows' : x.Flows) (k : FlowKey) (g : ℕ)
      → AddsNoFlow x
      → track x rule s flows ≡ some flows'
      → x.flow_generation flows' k ≡ some g
      → (x.flow_generation flows k ≡ some g)
        ⊎ ((s.syn && beq_key s.key k && eqb rule.generation g) ≡ true)
  track-generation rule s flows flows' k g adds e h = elim (Bool-cases s.syn) [
    | inl syn ↦ elim (adds flows flows' s.key k rule.generation g (rw syn at e) h) [
      | inl (same, at) ↦ inr (ground (arith, syn, same, at))
      | inr old ↦ inl old
    ]
    | inr plain ↦ elim (Bool-cases (x.flow_generation flows s.key == some rule.generation)) [
      | inl known ↦
          let unchanged : flows ≡ flows' = some-injective flows flows' (rw (plain, known) at e) in
          inl (rw unchanged h)
      | inr unknown ↦ absurd (ground (arith, rw (plain, unknown) at e))
    ]
  ]

  step-generation :
      (e : Event x) (flows : x.Flows) (k : FlowKey) (g : ℕ)
      → AddsNoFlow x
      → x.flow_generation (step e flows).1 k ≡ some g
      → (x.flow_generation flows k ≡ some g) ⊎ (opens k g e ≡ true)
  unfolding forward flow
  step-generation e flows k g adds h = of_check (check x e.incoming e.policies e.packet) h
    where
      of_track :
          (c : Checked) (s : Segment) (o : Option x.Flows) (sent : Option (ℕ × x.Packet))
          → track x c.rule s flows ≡ o
          → x.flow_generation (with_flows x o flows sent).1 k ≡ some g
          → (x.flow_generation flows k ≡ some g)
            ⊎ ((s.syn && beq_key s.key k && eqb c.rule.generation g) ≡ true)
      of_track c s none sent t h = inl h
      of_track c s (some flows') sent t h = track-generation c.rule s flows flows' k g adds t h

      of_segment :
          (c : Checked) (o : Option Segment) (sent : Option (ℕ × x.Packet))
          → x.flow_generation (with_flows x (track_tcp x c.rule o flows) flows sent).1 k ≡ some g
          → (x.flow_generation flows k ≡ some g) ⊎ (is_opening k g (paired c.rule o) ≡ true)
      of_segment c none sent h = inl h
      of_segment c (some s) sent h = of_track c s (track x c.rule s flows) sent refl h

      of_check :
          (o : Option Checked)
          → x.flow_generation (forward_checked x e.incoming o e.packet flows).1 k ≡ some g
          → (x.flow_generation flows k ≡ some g)
            ⊎ (is_opening k g (tcp_of e.incoming e.packet o) ≡ true)
      of_check none h = inl h
      of_check (some c) h = elim (Bool-cases (eqb c.proto tcp)) [
        | inl is_tcp ↦ rw is_tcp (
            of_segment c (segment x c.rule c.interface c.len e.incoming e.packet)
              (emit x e.incoming c e.packet) (rw is_tcp at h))
        | inr other ↦ inl (rw other at h)
      ]

  run-generation :
      (k : FlowKey) (g : ℕ) (es : List (Event x)) (flows : x.Flows)
      → AddsNoFlow x
      → x.flow_generation (run es flows) k ≡ some g
      → (x.flow_generation flows k ≡ some g) ⊎ (any (opens k g) es ≡ true)
  unfolding run
  run-generation k g [] flows adds h = inl h
  run-generation k g (e ∷ es) flows adds h = elim (run-generation k g es _ adds h) [
    | inr later ↦ inr (ground (arith, later))
    | inl before ↦ elim (step-generation e flows k g adds before) [
      | inl old ↦ inl old
      | inr now ↦ inr (rw now refl)
    ]
  ]

  sent-tracked :
      (e : Event x) (flows : x.Flows) (rule : Rule) (s : Segment) (sent : ℕ × x.Packet)
      → tcp_segment e ≡ some (rule, s)
      → (step e flows).0 ≡ some sent
      → (s.syn ≡ true) ⊎ (x.flow_generation flows s.key ≡ some rule.generation)
  unfolding forward flow
  sent-tracked e flows rule s sent seg h = of_check (check x e.incoming e.policies e.packet) seg h
    where
      of_track :
          (c : Rule) (t : Segment) (o : Option x.Flows) (p : Option (ℕ × x.Packet))
          → track x c t flows ≡ o
          → (with_flows x o flows p).0 ≡ some sent
          → (t.syn ≡ true) ⊎ (x.flow_generation flows t.key ≡ some c.generation)
      of_track c t none p e h = absurd (ground (arith, h))
      of_track c t (some flows') p e h = elim (Bool-cases t.syn) [
        | inl syn ↦ inl syn
        | inr plain ↦ elim (Bool-cases (x.flow_generation flows t.key == some c.generation)) [
          | inl known ↦ inr ((==_iff (x.flow_generation flows t.key) (some c.generation)).0 known)
          | inr unknown ↦ absurd (ground (arith, rw (plain, unknown) at e))
        ]
      ]

      of_segment :
          (c : Checked) (o : Option Segment) (p : Option (ℕ × x.Packet))
          → paired c.rule o ≡ some (rule, s)
          → (with_flows x (track_tcp x c.rule o flows) flows p).0 ≡ some sent
          → (s.syn ≡ true) ⊎ (x.flow_generation flows s.key ≡ some rule.generation)
      of_segment c none p seg h = absurd (ground (arith, seg))
      of_segment c (some t) p seg h =
          let same : (c.rule, t) ≡ (rule, s) = some-injective _ _ seg in
          subst (λ q. (q.1.syn ≡ true) ⊎ (x.flow_generation flows q.1.key ≡ some q.0.generation))
            same (of_track c.rule t (track x c.rule t flows) p refl h)

      of_check :
          (o : Option Checked)
          → tcp_of e.incoming e.packet o ≡ some (rule, s)
          → (forward_checked x e.incoming o e.packet flows).0 ≡ some sent
          → (s.syn ≡ true) ⊎ (x.flow_generation flows s.key ≡ some rule.generation)
      of_check none seg h = absurd (ground (arith, seg))
      of_check (some c) seg h = elim (Bool-cases (eqb c.proto tcp)) [
        | inl is_tcp ↦
            of_segment c (segment x c.rule c.interface c.len e.incoming e.packet)
              (emit x e.incoming c e.packet) (rw is_tcp at seg) (rw is_tcp at h)
        | inr other ↦ absurd (ground (arith, rw other at seg))
      ]

-- From a table without flows that gains none but those inserted, and whatever the client does to
-- its policies meanwhile: a TCP segment is forwarded only if it is a SYN, or if an earlier SYN of
-- the same flow, in one of the two directions, passed the guards under a rule of the generation
-- that the segment's rule has now. A rule of a new generation cuts off the flows of the old one.
pub established_only :
    (x : Kernel) (es : List (Event x)) (e : Event x) (flows : x.Flows) (rule : Rule) (s : Segment)
    (sent : ℕ × x.Packet)
    → AddsNoFlow x
    → ((k : FlowKey) → x.flow_generation flows k ≡ none)
    → tcp_segment x e ≡ some (rule, s)
    → (forward x e.incoming e.policies e.packet (run x es flows)).0 ≡ some sent
    → (s.syn ≡ true) ⊎ (any (opens x s.key rule.generation) es ≡ true)
established_only x es e flows rule s sent adds empty seg h =
    elim (sent-tracked x e (run x es flows) rule s sent seg h) [
      | inl syn ↦ inl syn
      | inr known ↦ elim (run-generation x s.key rule.generation es flows adds known) [
        | inl old ↦ absurd (ground (arith, old, empty s.key))
        | inr opened ↦ inr opened
      ]
    ]
