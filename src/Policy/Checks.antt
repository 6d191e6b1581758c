-- ===== src/Policy/Checks.antt =====
-- ebpf/src/policy.rs: what holds of every packet that is forwarded.
use mathlib.Core.Option.{some-injective}
use nullnet.Prelude.{
  Bool, Bool-cases, Option, Option-cases, ap, arith, eqb, false, if◌then◌else◌, inl, inr, none,
  refl, some, sym, true, ℕ, ◌>>=◌, ◌∙◌, ◌≡◌, ◌≢◌, ◌⊎◌, nat_eq,
}
use nullnet.Policy.Layout.{Kernel, Policies, Rule, Tunnel, Checked, app_ip}
use nullnet.Policy.{
  alive, header, flow, check_out, check_in, is_tunnel, emit, emit_out, emit_in, forward_checked,
  forward, translate,
}

bind-some {ℓ κ} :
    {A : Type ℓ} {B : Type κ} (o : Option A) (k : A → Option B) (b : B)
    → (o >>= k) ≡ some b
    → (a : A) × (o ≡ some a) × (k a ≡ some b)
bind-some none k b h = absurd (ground (arith, h))
bind-some (some a) k b h = (a, refl, h)

if-some {ℓ} :
    {A : Type ℓ} (c : Bool) (a b : A) → (if c then some a else none) ≡ some b → (c ≡ true) × (a ≡ b)
if-some true a b h = (refl, some-injective a b h)
if-some false a b h = absurd (ground (arith, h))

-- What `outgoing` has asked of a packet before its flow: the client's lease is running, the packet
-- is the application's, and a rule for its interface and its target is enabled.
pub record IsOutgoing (x : Kernel) (g : Policies) (packet : x.Packet) (rule : Rule) : Type 0 where
  pub peer : ℕ
  pub source : x.load packet 26 4 ≡ some app_ip
  pub target : x.load packet 30 4 ≡ some peer
  pub found : g.policy_out (record { interface = x.ifindex packet; peer = peer }) ≡ some rule
  pub enabled : rule.enabled ≢ 0
  pub leased : alive g ≡ true

-- What `incoming` has asked: the lease is running, a rule for the target, its mark and its peer,
-- and a tunnel from the rule's remote host with its VNI and its carrier's number.
pub record IsIncoming (x : Kernel) (g : Policies) (packet : x.Packet) (rule : Rule) : Type 0 where
  pub local : ℕ
  pub tunnel : Tunnel
  pub option : ℕ
  pub target : x.load packet 30 4 ≡ some local
  pub found : g.policy_in local ≡ some rule
  pub source : x.load packet 26 4 ≡ some rule.peer
  pub mark : x.mark packet ≡ rule.mark
  pub key : x.get_tunnel_key packet ≡ some tunnel
  pub number : x.get_tunnel_opt packet ≡ some option
  pub matching : is_tunnel x rule tunnel option ≡ true
  pub leased : alive g ≡ true

module _ (x : Kernel) (g : Policies) (packet : x.Packet) where
  out-IsOutgoing : (c : Checked) → check_out x g packet ≡ some c → IsOutgoing x g packet c.rule
  unfolding check_out
  out-IsOutgoing c h =
      let (hd, _, h1) = bind-some (header x packet) _ c h in
      let (source, at26, h2) = bind-some (x.load packet 26 4) _ c h1 in
      let (peer, at30, h3) = bind-some (x.load packet 30 4) _ c h2 in
      let (rule, found, h4) =
        bind-some (g.policy_out (record { interface = x.ifindex packet; peer = peer })) _ c h3 in
      let (guards, made) = if-some _ _ c h4 in
      let same : rule ≡ c.rule = ap (λ d. d.rule) made in
      record {
        peer = peer;
        source = at26 ∙ ap some (ground (arith, guards));
        target = at30;
        found = found ∙ ap some same;
        enabled = λ e. absurd (ground (arith, guards, same, e));
        leased = ground (arith, guards);
      }

  in-IsIncoming : (c : Checked) → check_in x g packet ≡ some c → IsIncoming x g packet c.rule
  unfolding check_in
  in-IsIncoming c h =
      let (hd, _, h1) = bind-some (header x packet) _ c h in
      let (target, at30, h2) = bind-some (x.load packet 30 4) _ c h1 in
      let (rule, found, h3) = bind-some (g.policy_in target) _ c h2 in
      let (source, at26, h4) = bind-some (x.load packet 26 4) _ c h3 in
      let (t, key, h5) = bind-some (x.get_tunnel_key packet) _ c h4 in
      let (option, number, h6) = bind-some (x.get_tunnel_opt packet) _ c h5 in
      let (guards, made) = if-some _ _ c h6 in
      let same : rule ≡ c.rule = ap (λ d. d.rule) made in
      rw (sym same) (record {
        local = target;
        tunnel = t;
        option = option;
        target = at30;
        found = found;
        source = at26 ∙ ap some (ground (arith, guards));
        mark = ground (arith, guards);
        key = key;
        number = number;
        matching = ground (arith, guards);
        leased = ground (arith, guards);
      })

  -- A packet that is forwarded has passed the guards, and its flow is tracked.
  forwarded :
      (incoming : Bool) (flows : x.Flows) (o : Option Checked) (sent : ℕ × x.Packet)
      → (forward_checked x incoming o packet flows).0 ≡ some sent
      → (c : Checked) × (o ≡ some c) × (emit x incoming c packet ≡ some sent)
  forwarded incoming flows none sent h = absurd (ground (arith, h))
  forwarded incoming flows (some c) sent h = elim (Option-cases (flow x c incoming packet flows)) [
    | inl dropped ↦ absurd (ground (arith, rw dropped at h))
    | inr (flows', tracked) ↦ (c, refl, (rw tracked at h))
  ]

  out-to :
      (c : Checked) (sent : ℕ × x.Packet)
      → emit_out x c packet ≡ some sent
      → (c.rule.underlay_local ≡ c.rule.underlay_remote) × (sent.0 ≡ c.rule.output)
        ⊎ (c.rule.underlay_local ≢ c.rule.underlay_remote) × (sent.0 ≡ c.rule.transport)
  unfolding emit_out
  out-to c sent h =
      let (p, _, h1) = bind-some (translate x packet 26 c.rule.local_ip c.len c.proto) _ sent h in
      elim (Bool-cases (eqb c.rule.underlay_local c.rule.underlay_remote)) [
        | inl here ↦
            let (p1, _, h2) =
              bind-some (translate x p 30 app_ip c.len c.proto) _ sent (rw here at h1) in
            let (p2, _, h3) = bind-some (x.store_mac p1 c.rule.mac) _ sent h2 in
            inl (ground (arith, here), ap (λ q. q.0) (sym (some-injective _ _ h3)))
        | inr away ↦
            let (p1, _, h2) = bind-some (x.set_tunnel_key p _) _ sent (rw away at h1) in
            let (p2, _, h3) = bind-some (x.set_tunnel_opt p1 _) _ sent h2 in
            inr (ground (arith, away), ap (λ q. q.0) (sym (some-injective _ _ h3)))
      ]

  in-to :
      (c : Checked) (sent : ℕ × x.Packet) → emit_in x c packet ≡ some sent → sent.0 ≡ c.rule.output
  unfolding emit_in
  in-to c sent h =
      let (p1, _, h1) = bind-some (translate x packet 30 app_ip c.len c.proto) _ sent h in
      let (p2, _, h2) = bind-some (x.store_mac p1 c.rule.mac) _ sent h1 in
      ap (λ q. q.0) (sym (some-injective _ _ h2))

-- A packet is forwarded out only while the client's lease runs, only if its source is the
-- application's address, and only by an enabled rule for its interface and its target: to the
-- rule's own interface when both ends are on one host, and to its transport otherwise.
pub forward-IsOutgoing :
    (x : Kernel) (g : Policies) (packet : x.Packet) (flows : x.Flows) (sent : ℕ × x.Packet)
    → (forward x false g packet flows).0 ≡ some sent
    → (rule : Rule) × IsOutgoing x g packet rule
      × ((rule.underlay_local ≡ rule.underlay_remote) × (sent.0 ≡ rule.output)
          ⊎ (rule.underlay_local ≢ rule.underlay_remote) × (sent.0 ≡ rule.transport))
unfolding forward
forward-IsOutgoing x g packet flows sent h =
    let (c, checked, emitted) = forwarded x g packet false flows (check_out x g packet) sent h in
    (c.rule, out-IsOutgoing x g packet c checked, out-to x g packet c sent emitted)

-- A packet is forwarded in only while the client's lease runs, and only by the rule for its
-- target, with that rule's mark and from its peer, out of a tunnel from the rule's remote host with
-- its VNI and its carrier's number; it goes to the rule's interface.
pub forward-IsIncoming :
    (x : Kernel) (g : Policies) (packet : x.Packet) (flows : x.Flows) (sent : ℕ × x.Packet)
    → (forward x true g packet flows).0 ≡ some sent
    → (rule : Rule) × IsIncoming x g packet rule × (sent.0 ≡ rule.output)
unfolding forward
forward-IsIncoming x g packet flows sent h =
    let (c, checked, emitted) = forwarded x g packet true flows (check_in x g packet) sent h in
    (c.rule, in-IsIncoming x g packet c checked, in-to x g packet c sent emitted)
