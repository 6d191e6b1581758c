-- ===== src/HostFirewall/Flows.antt =====
-- ebpf/src/main.rs: the key of a flow in the connection tracking.
use nullnet.Prelude.{
  Bool, Eq, arith, eqb, if◌then◌else◌, leb, ltb, true, ℕ, ◌&&◌, ◌↔◌, ◌≡◌, ◌⊎◌, nat_eq,
}

-- The padding of the source's record is always zero.
pub record CtKey : Type 0 where
  pub ip_a : ℕ
  pub ip_b : ℕ
  pub port_a : ℕ
  pub port_b : ℕ
  pub proto : ℕ

abbrev pub beq_ct : CtKey → CtKey → Bool
beq_ct k l =
    eqb k.ip_a l.ip_a
    && eqb k.ip_b l.ip_b
    && eqb k.port_a l.port_a
    && eqb k.port_b l.port_b
    && eqb k.proto l.proto

pub beq_ct_iff : (k l : CtKey) → (beq_ct k l ≡ true) ↔ (k ≡ l)
beq_ct_iff k l = ground arith

instance abbrev pub ct_eq : Eq CtKey
ct_eq = record { beq = beq_ct; beq_iff = beq_ct_iff }

-- `(src, src_port) <= (dst, dst_port)`.
abbrev pub le_endpoint : (ip port ip' port' : ℕ) → Bool
le_endpoint ip port ip' port' = if eqb ip ip' then leb port port' else ltb ip ip'

unfoldable pub ct_key : (src dst src_port dst_port proto : ℕ) → CtKey
ct_key src dst src_port dst_port proto =
    if le_endpoint src src_port dst dst_port
    then record { ip_a = src; ip_b = dst; port_a = src_port; port_b = dst_port; proto = proto }
    else record { ip_a = dst; ip_b = src; port_a = dst_port; port_b = src_port; proto = proto }

-- Two packets have the same key exactly when they are of the same protocol and go between the same
-- two endpoints, in the same direction or in the opposite ones.
pub ct_key_eq_iff :
    (s d sp dp p s' d' sp' dp' p' : ℕ)
    → (ct_key s d sp dp p ≡ ct_key s' d' sp' dp' p')
      ↔ (p ≡ p')
        × ((s ≡ s') × (sp ≡ sp') × (d ≡ d') × (dp ≡ dp')
            ⊎ (s ≡ d') × (sp ≡ dp') × (d ≡ s') × (dp ≡ sp'))
unfolding ct_key
ct_key_eq_iff s d sp dp p s' d' sp' dp' p' = ground arith
