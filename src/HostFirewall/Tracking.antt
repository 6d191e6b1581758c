-- ===== src/HostFirewall/Tracking.antt =====
-- ebpf/src/main.rs: what the connection tracking lets pass over a sequence of packets.
use nullnet.Prelude.{
  ==_refl, Bool, Bool-cases, List, Option, [], any, arith, false, inl, inr, none, refl, some, true,
  ◌&&◌, ◌==◌, ◌||◌, ◌∷◌, ◌≡◌, ◌⊎◌, nat_eq,
}
use nullnet.HostFirewall.Flows.{CtKey, ct_eq, ct_key_eq_iff}
use nullnet.HostFirewall.{
  Externals, Config, Frame, Flow, Action, Parsed, decide, pass, drop, base_allow, key_of, parse,
  admit, firewall, is_in, act,
}

-- An LRU map makes room by dropping other entries: the entry inserted is there afterwards.
abbrev pub KeepsNewest : Externals → Type 0
KeepsNewest x = (k : CtKey) (ct : List CtKey) → is_in k (x.lru_insert k ct) ≡ true

-- It adds no other entry.
abbrev pub AddsNoOther : Externals → Type 0
AddsNoOther x =
    (k j : CtKey) (ct : List CtKey)
    → is_in j (x.lru_insert k ct) ≡ true
    → (j ≡ k) ⊎ (is_in j ct ≡ true)

-- The flow of a reply.
abbrev pub reverse : Flow → Flow
reverse f = record f { src = f.dst; dst = f.src; src_port = f.dst_port; dst_port = f.src_port }

abbrev beq_action : Action → Bool
beq_action Action.ok = true
beq_action Action.shot = false

reverse-key : (f : Flow) → key_of (reverse f) ≡ key_of f
reverse-key f =
    (ct_key_eq_iff f.dst f.src f.dst_port f.src_port f.proto f.src f.dst f.src_port f.dst_port
        f.proto).1
      (refl, inr (refl, refl, refl, refl))

-- When the tracking map keeps the newest entry, the reply to a packet that was admitted, in either
-- direction, is admitted right after it, whatever the configuration says of the reply itself.
pub reply_admitted :
    (x : Externals) (g : Config) (is_egress reply_egress : Bool) (f : Flow) (ct : List CtKey)
    → KeepsNewest x
    → (admit x g is_egress f ct).0 ≡ Action.ok
    → (admit x g reply_egress (reverse f) (admit x g is_egress f ct).1).0 ≡ Action.ok
unfolding admit
reply_admitted x g e e' f ct keeps h = elim (Bool-cases (is_in (key_of f) ct || base_allow g e f)) [
  | inl allowed ↦ rw (allowed, reverse-key f, keeps (key_of f) ct) refl
  | inr denied ↦ absurd (ground arith)
]

abbrev pub Packet : Type 0
Packet = Bool × Frame

-- The entries after a sequence of packets, each with its direction.
unfoldable pub run : Externals → Config → List Packet → List CtKey → List CtKey
run x g [] ct = ct
run x g ((is_egress, frame) ∷ packets) ct = run x g packets (firewall x g is_egress frame ct).1

abbrev opens_parsed : Config → CtKey → Bool → Option Parsed → Bool
opens_parsed g k is_egress (some (decide f)) = base_allow g is_egress f && key_of f == k
opens_parsed g k is_egress _ = false

-- A packet that the configuration allows by itself, of the flow with this key.
abbrev pub opens : Externals → Config → CtKey → Packet → Bool
opens x g k (is_egress, frame) = opens_parsed g k is_egress (parse x frame)

module _ (x : Externals) (g : Config) (adds : AddsNoOther x) where
  admit-in :
      (k : CtKey) (e : Bool) (f : Flow) (ct : List CtKey)
      → is_in k (admit x g e f ct).1 ≡ true
      → (is_in k ct ≡ true) ⊎ ((base_allow g e f && key_of f == k) ≡ true)
  unfolding admit
  admit-in k e f ct h = elim (Bool-cases (is_in (key_of f) ct)) [
    | inl hit ↦ elim (adds (key_of f) k ct (rw hit at h)) [
      | inl same ↦ inl (rw same hit)
      | inr old ↦ inl old
    ]
    | inr miss ↦ elim (Bool-cases (base_allow g e f)) [
      | inl allowed ↦ elim (adds (key_of f) k ct (rw (miss, allowed) at h)) [
        | inl same ↦ inr (rw (allowed, same) (==_refl (key_of f)))
        | inr old ↦ inl old
      ]
      | inr denied ↦ inl (rw (miss, denied) at h)
    ]
  ]

  firewall-in :
      (k : CtKey) (p : Packet) (ct : List CtKey)
      → is_in k (firewall x g p.0 p.1 ct).1 ≡ true
      → (is_in k ct ≡ true) ⊎ (opens x g k p ≡ true)
  unfolding firewall
  firewall-in k (e, frame) ct h = of_parsed (parse x frame) h
    where
      of_parsed :
          (o : Option Parsed)
          → is_in k (act x g e ct o).1 ≡ true
          → (is_in k ct ≡ true) ⊎ (opens_parsed g k e o ≡ true)
      of_parsed none h = inl h
      of_parsed (some pass) h = inl h
      of_parsed (some drop) h = inl h
      of_parsed (some (decide f)) h = admit-in k e f ct h

  run-in :
      (k : CtKey) (ps : List Packet) (ct : List CtKey)
      → is_in k (run x g ps ct) ≡ true
      → (is_in k ct ≡ true) ⊎ (any (opens x g k) ps ≡ true)
  unfolding run
  run-in k [] ct h = inl h
  run-in k ((e, frame) ∷ ps) ct h =
      let step = firewall-in k (e, frame) ct in
      elim (run-in k ps _ h) [
        | inr later ↦ inr (or_true _ _ later)
        | inl here ↦ elim (step here) [ inl old ↦ inl old | inr now ↦ inr (rw now refl) ]
      ]
    where
      or_true : (a b : Bool) → b ≡ true → (a || b) ≡ true
      or_true a b h = ground arith

-- From an empty tracking map that gains no entry but those inserted: when a packet with ports, or
-- of ESP, passes after any sequence of packets, the configuration allows it by itself, or allowed
-- by itself an earlier packet of the same flow, in one of the two directions. No flow is opened
-- otherwise.
pub flow_opened :
    (x : Externals) (g : Config) (packets : List Packet) (is_egress : Bool) (frame : Frame)
    (f : Flow)
    → AddsNoOther x
    → parse x frame ≡ some (decide f)
    → (firewall x g is_egress frame (run x g packets [])).0 ≡ Action.ok
    → (base_allow g is_egress f ≡ true) ⊎ (any (opens x g (key_of f)) packets ≡ true)
unfolding firewall admit
flow_opened x g packets e frame f adds parsed h =
    elim (Bool-cases (is_in (key_of f) (run x g packets []))) [
      | inl hit ↦ elim (run-in x g adds (key_of f) packets [] hit) [
        | inl nowhere ↦ absurd (ground arith)
        | inr opened ↦ inr opened
      ]
      | inr miss ↦ elim (Bool-cases (base_allow g e f)) [
        | inl allowed ↦ inl allowed
        | inr denied ↦ absurd (ground (arith, rw (parsed, miss, denied) at h))
      ]
    ]
