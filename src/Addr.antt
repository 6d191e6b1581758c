-- ===== src/Addr.antt =====
-- Addresses of the standard library (`Ipv4Addr`, `IpAddr`), as the server uses them.
use nullnet.Prelude.{
  Bool, Eq, Option, Text, [], arith, eqb, false, if◌then◌else◌, leb, length, ltb, none, not, read,
  show, some, true, ℕ, ◌&&◌, ◌*◌, ◌++◌, ◌+◌, ◌-◌, ◌>>=◌, ◌^◌, ◌↔◌, ◌∷◌, ◌≡◌,
}

pub record Ipv4Addr : Type 0 where
  pub a : ℕ
  pub b : ℕ
  pub c : ℕ
  pub d : ℕ

-- An IPv6 address is its 128 bits.
pub data IpAddr : Type 0 where
  v4 : Ipv4Addr → IpAddr
  v6 : ℕ → IpAddr

abbrev pub beq_v4 : Ipv4Addr → Ipv4Addr → Bool
beq_v4 x y = eqb x.a y.a && eqb x.b y.b && eqb x.c y.c && eqb x.d y.d

abbrev pub beq_ip : IpAddr → IpAddr → Bool
beq_ip (v4 x) (v4 y) = beq_v4 x y
beq_ip (v6 x) (v6 y) = eqb x y
beq_ip _ _ = false

pub beq_v4_iff : (x y : Ipv4Addr) → (beq_v4 x y ≡ true) ↔ (x ≡ y)
beq_v4_iff x y = ground arith

pub beq_ip_iff : (x y : IpAddr) → (beq_ip x y ≡ true) ↔ (x ≡ y)
beq_ip_iff (v4 x) (v4 y) = ground (arith, beq_v4_iff x y)
beq_ip_iff (v6 x) (v6 y) = ground arith
beq_ip_iff (v4 x) (v6 y) = ground arith
beq_ip_iff (v6 x) (v4 y) = ground arith

instance abbrev pub v4_eq : Eq Ipv4Addr
v4_eq = record { beq = beq_v4; beq_iff = beq_v4_iff }

instance abbrev pub ip_eq : Eq IpAddr
ip_eq = record { beq = beq_ip; beq_iff = beq_ip_iff }

pub show_v4 : Ipv4Addr → Text
show_v4 x = show x.a ++ (b'.' ∷ (show x.b ++ (b'.' ∷ (show x.c ++ (b'.' ∷ show x.d)))))

-- The address as a number, its first octet the highest.
abbrev pub bits : Ipv4Addr → ℕ
bits x = x.a * 2 ^ 24 + x.b * 2 ^ 16 + x.c * 2 ^ 8 + x.d

-- `Ipv4Addr::from_str`: an octet has three digits at most, and none in front of it is a zero.
abbrev octet : Text → Option (ℕ × Text)
octet [] = none
octet (c ∷ s) =
    let (v, rest) = read 0 (c ∷ s) in
    let digits = length (c ∷ s) - length rest in
    if ltb 0 digits && leb digits 3 && leb v 255 && not (eqb c 48 && ltb 1 digits)
    then some (v, rest)
    else none

abbrev dot : Text → Option Text
dot [] = none
dot (c ∷ s) = if eqb c 46 then some s else none

abbrev ended : Ipv4Addr → Text → Option Ipv4Addr
ended addr [] = some addr
ended addr (c ∷ s) = none

unfoldable pub parse_v4 : Text → Option Ipv4Addr
unfolding read
parse_v4 s0 = do
  (a, s1) ← octet s0
  s2 ← dot s1
  (b, s3) ← octet s2
  s4 ← dot s3
  (c, s5) ← octet s4
  s6 ← dot s5
  (d, s7) ← octet s6
  ended (record { a = a; b = b; c = c; d = d }) s7
