-- ===== src/Policy/Tests.antt =====
-- Examples of policy forwarding: ebpf/src/policy.rs.
use mathlib.Core.Path.{subst}
use mathlib.Core.Option.{some-injective}
use nullnet.Prelude.{
  Bool, Bool-cases, Option, [], any, arith, eqb, false, if◌then◌else◌, inl, inr, none, refl, some,
  sym, true, ℕ, ◌+◌, ◌^◌, ◌∷◌, ◌≡◌, ◌≢◌, ◌⊎◌, nat_eq,
}
use nullnet.Policy.Layout.{Kernel, Policies, Rule, FlowKey, Segment, app_ip}
use nullnet.Policy.{
  forward, flow, segment, check_out, check_in, header, translate, emit_out, emit_in,
}
use nullnet.Policy.Established.{
  Event, AddsNoFlow, beq_key, tcp_segment, opens, run, established_only,
}
use nullnet.Policy.Checks.{IsOutgoing, IsIncoming, forward-IsOutgoing, forward-IsIncoming}

-- A packet answers a load by its offset; the helpers leave it as it is.
abbrev kernel : Kernel
kernel = record {
  Packet = ℕ → ℕ;
  load = λ p offset bytes. some (p offset);
  l3_csum_replace = λ p offset old new. some p;
  l4_csum_replace = λ p offset old new flags. some p;
  store = λ p offset value. some p;
  store_mac = λ p mac. some p;
  ifindex = λ p. 3;
  mark = λ p. 8;
  set_mark = λ p mark. p;
  get_tunnel_key =
      λ p. some (record { tunnel_id = 101; tunnel_ttl = 64; remote_ipv4 = 20; local_ipv4 = 10 });
  get_tunnel_opt = λ p. some 1;
  set_tunnel_key = λ p t. some p;
  set_tunnel_opt = λ p option. some p;
  Flows = FlowKey → Option ℕ;
  flow_generation = λ flows k. flows k;
  flow_insert = λ flows k g. some (λ j. if beq_key j k then some g else flows j);
}

beq_key-eq : (j k : FlowKey) → beq_key j k ≡ true → j ≡ k
beq_key-eq j k h = ground arith

kernel-AddsNoFlow : AddsNoFlow kernel
kernel-AddsNoFlow flows flows' k j g h e found =
    let same = some-injective _ flows' e in
    let held : (if beq_key j k then some g else flows j) ≡ some h =
      subst (λ f. f j ≡ some h) (sym same) found in
    elim (Bool-cases (beq_key j k)) [
      | inl mine ↦ inl (beq_key-eq j k mine, sym (some-injective g h (rw mine at held)))
      | inr other ↦ inr (rw other at held)
    ]

abbrev rule : Rule
rule = record {
  generation = 2 ^ 24 + 4;
  vni = 101;
  local_ip = 30;
  peer = 40;
  underlay_local = 10;
  underlay_remote = 20;
  transport = 7;
  mark = 8;
  output = 3;
  enabled = 1;
  mac = [];
}

abbrev policies : Policies
policies = record {
  policy_out = λ k. if eqb k.peer 40 then some rule else none;
  policy_in = λ target. if eqb target 30 then some rule else none;
  deadline = some 100;
  now = 50;
}

-- A TCP segment from a source to a target, with its flags.
abbrev packet : (source target flags : ℕ) → ℕ → ℕ
packet source target flags offset =
    if eqb offset 12
    then 2048
    else if eqb offset 14
    then 69
    else if eqb offset 23
    then 6
    else if eqb offset 26
    then source
    else if eqb offset 30
    then target
    else if eqb offset 47
    then flags
    else 0

abbrev no_flows : FlowKey → Option ℕ
no_flows k = none

abbrev Sent : Bool → (ℕ → ℕ) → (FlowKey → Option ℕ) → Type 0
Sent incoming p flows = (s : ℕ × (ℕ → ℕ)) × ((forward kernel incoming policies p flows).0 ≡ some s)

syn_sent : Sent false (packet app_ip 40 2) no_flows
unfolding forward flow segment check_out header translate emit_out
syn_sent = (_, refl)

abbrev opening : Event kernel
opening = record { incoming = false; policies = policies; packet = packet app_ip 40 2 }

abbrev later : Event kernel
later = record { incoming = false; policies = policies; packet = packet app_ip 40 16 }

stray : (forward kernel false policies (packet app_ip 40 16) no_flows).0 ≡ none
unfolding forward flow segment check_out header translate emit_out
stray = refl

later_sent : Sent false (packet app_ip 40 16) (run kernel (opening ∷ []) no_flows)
unfolding forward flow segment check_out header translate emit_out run
later_sent = (_, refl)

read : (p : Rule × Segment) × (tcp_segment kernel later ≡ some p)
unfolding segment check_out header
read = (_, refl)

established_only_example :
    (read.0.1.syn ≡ true)
    ⊎ (any (opens kernel read.0.1.key read.0.0.generation) (opening ∷ []) ≡ true)
established_only_example =
    established_only kernel (opening ∷ []) later no_flows read.0.0 read.0.1 later_sent.0
      kernel-AddsNoFlow (λ k. refl) read.1 later_sent.1

forward-IsOutgoing_example :
    (r : Rule) × IsOutgoing kernel policies (packet app_ip 40 2) r
    × ((r.underlay_local ≡ r.underlay_remote) × (syn_sent.0.0 ≡ r.output)
        ⊎ (r.underlay_local ≢ r.underlay_remote) × (syn_sent.0.0 ≡ r.transport))
forward-IsOutgoing_example =
    forward-IsOutgoing kernel policies (packet app_ip 40 2) no_flows syn_sent.0 syn_sent.1

syn_received : Sent true (packet 40 30 2) no_flows
unfolding forward flow segment check_in header translate emit_in
syn_received = (_, refl)

forward-IsIncoming_example :
    (r : Rule) × IsIncoming kernel policies (packet 40 30 2) r × (syn_received.0.0 ≡ r.output)
forward-IsIncoming_example =
    forward-IsIncoming kernel policies (packet 40 30 2) no_flows syn_received.0 syn_received.1
