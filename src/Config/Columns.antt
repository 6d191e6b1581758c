-- ===== src/Config/Columns.antt =====
-- A declaration in the columns of its row, and back: members/nullnet-server/src/services/input.rs.
use nullnet.Prelude.{
  Bool, List, Option, Text, [], all, ap, arith, if◌then◌else◌, ltb, map, none, pos, refl, some,
  to_signed, to_unsigned, true, ℕ, ◌&&◌, ◌>>=◌, ◌^◌, ◌∷◌, ◌≡◌, ◌≤◌, nat_eq, text_eq,
}
use nullnet.Config.{ServiceToml, ProtocolToml, http_toml, tcp_toml, udp_toml}
use nullnet.Config.Rows.{
  Json, unwrap_or, bind, option_map, protocol_text, protocol_from, encode_filter, decode_filter,
  to_insert, services_to_inserts, from_row,
}
use nullnet.Config.Saved.{restored}
use nullnet.Filter.{FilterPolicy, block, allow}

abbrev fits : (bits : ℕ) → Option ℕ → Option ℕ
fits bits o = bind o (λ n. if ltb n (2 ^ bits) then some n else none)

-- What the columns hold of a declaration: a timeout or a limit that is too large for a signed
-- column is lost.
abbrev pub storable : ServiceToml → ServiceToml
storable s = record s { timeout = fits 63 s.timeout; max_networks = fits 31 s.max_networks }

abbrev is_port : Option ℕ → Bool
is_port none = true
is_port (some n) = ltb n (2 ^ 16)

-- The ports of a declaration are 16-bit numbers.
abbrev pub has_ports : ServiceToml → Bool
has_ports s = is_port s.port && is_port s.listen_port

port_back : (o : Option ℕ) → is_port o ≡ true → bind (option_map pos o) (to_unsigned 16) ≡ o
port_back none h = refl
port_back (some n) h = ground arith

wide_back :
    (signed unsigned : ℕ) (o : Option ℕ)
    → 2 ^ signed ≤ 2 ^ unsigned
    → bind (bind o (to_signed signed)) (to_unsigned unsigned) ≡ fits signed o
wide_back signed unsigned none h = refl
wide_back signed unsigned (some n) h = ground arith

protocol_back :
    (o : Option ProtocolToml) → option_map protocol_from (option_map protocol_text o) ≡ o
protocol_back none = refl
protocol_back (some http_toml) = refl
protocol_back (some tcp_toml) = refl
protocol_back (some udp_toml) = refl

module _ {A D : Type 0} where
  -- A value is read back of the document that was written, whatever stands for a failure.
  back_of :
      (of : D → Option A) (written : Option D) (empty : D) (a : A)
      → (written >>= of) ≡ some a
      → of (unwrap_or empty written) ≡ some a
  back_of of none empty a h = cc
  back_of of (some d) empty a h = h

module _ (j : Json) where
  filter_back : (p : FilterPolicy) → decode_filter j (encode_filter j p) ≡ p
  unfolding decode_filter encode_filter
  filter_back FilterPolicy.none = refl
  filter_back (block groups) =
      ap (unwrap_or FilterPolicy.none)
        (back_of j.filter_of _ j.empty (block groups) (j.filter_back (block groups)))
  filter_back (allow groups) =
      ap (unwrap_or FilterPolicy.none)
        (back_of j.filter_of _ j.empty (allow groups) (j.filter_back (allow groups)))

  chains_back :
      (branches : List (List Text))
      → map
          (λ c. unwrap_or [] (j.chain_of c))
          (map (λ b. unwrap_or j.empty (j.chain_to b)) branches)
        ≡ branches
  chains_back [] = refl
  chains_back (b ∷ branches) =
      rw (back_of j.chain_of (j.chain_to b) j.empty b (j.chain_back b), chains_back branches)

  service_back : (s : ServiceToml) → has_ports s ≡ true → restored j (to_insert j s) ≡ storable s
  unfolding to_insert from_row
  service_back s h = ground (
    arith,
    port_back s.port,
    port_back s.listen_port,
    wide_back 63 64 s.timeout,
    wide_back 31 32 s.max_networks,
    protocol_back s.protocol,
    filter_back s.egress_filter,
    filter_back s.ingress_filter,
    chains_back s.proxy_dependencies,
  )

  pub services_back :
      (services : List ServiceToml)
      → all has_ports services ≡ true
      → map (restored j) (services_to_inserts j services) ≡ map storable services
  unfolding services_to_inserts
  services_back [] h = refl
  services_back (s ∷ services) h =
      rw (service_back s (ground arith), services_back services (ground arith))
