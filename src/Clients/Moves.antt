-- ===== src/Clients/Moves.antt =====
-- What a change of a client's carrier does to the counts of the index:
-- members/nullnet-server/src/services/clients.rs.
use nullnet.Prelude.{
  ==_iff, ==_refl, Bool, Option, ap, arith, eqb, if◌then◌else◌, none, refl, some, true, ℕ, ◌+◌, ◌-◌,
  ◌<◌, ◌^◌, ◌∙◌, ◌≡◌, ◌≤◌, nat_eq,
}
use nullnet.Addr.{IpAddr, ip_eq}
use nullnet.Clients.Info.{Client, ClientInfo, client_eq}
use nullnet.Clients.{
  carrier_of, same_carrier, add_group_carrier, remove_group_carrier, move_carrier,
}
use nullnet.Clients.Carriers.{Index, lookup, Filled, lookup-add, add-Filled, remove-Removed}

abbrev pub nonzero : ℕ → Option ℕ
nonzero n = if eqb n 0 then none else some n

-- Whether a client's edge is counted for a proxy and a carrier.
abbrev pub uses : IpAddr → ℕ → Client → ClientInfo → Bool
uses p c client info = same_carrier (carrier_of client info) (some (p, c))

abbrev pub hit : Option (IpAddr × ℕ) → IpAddr → ℕ → ℕ
hit o p c = if same_carrier o (some (p, c)) then 1 else 0

-- What a change of carrier leaves of an index that counts `n`.
pub record Moved (old new : Option (IpAddr × ℕ)) (m : Index) (n : IpAddr → ℕ → ℕ) (r : Option Index)
    : Type 0 where
  pub after : Index
  pub moved : r ≡ some after
  pub entries :
      (q : IpAddr) (d : ℕ) → lookup q d after ≡ nonzero (n q d + hit new q d - hit old q d)
  pub filled : Filled after

module _ (m : Index) (n : IpAddr → ℕ → ℕ) (f : Filled m)
    (counts : (q : IpAddr) (d : ℕ) → lookup q d m ≡ nonzero (n q d))
    (small : (q : IpAddr) (d : ℕ) → n q d + 1 < 2 ^ 64) where
  pub same_Moved :
      (old new : Option (IpAddr × ℕ)) → same_carrier old new ≡ true → Moved old new m n (some m)
  same_Moved none none e = record {
    after = m;
    moved = refl;
    entries = λ q d. ground (arith, counts q d);
    filled = f;
  }
  same_Moved (some (p, c)) (some (q, d)) e = record {
    after = m;
    moved = refl;
    entries = λ i j. ground (arith, counts i j, ==_iff p q);
    filled = f;
  }
  same_Moved none (some _) e = cc
  same_Moved (some _) none e = cc

  add_Moved : (p : IpAddr) (c : ℕ) → Moved none (some (p, c)) m n (some (add_group_carrier p c m))
  add_Moved p c = record {
    after = add_group_carrier p c m;
    moved = refl;
    entries =
        λ q d. ground (arith, counts q d, counts p c, small q d, lookup-add p q c d m, ==_iff p q);
    filled = add-Filled p c m f;
  }

  remove_Moved :
      (p : IpAddr) (c : ℕ) → 0 < n p c → Moved (some (p, c)) none m n (remove_group_carrier p c m)
  remove_Moved p c h =
      let r = remove-Removed p c (n p c) m (ground (arith, counts p c)) h in
      record {
        after = r.after;
        moved = r.removed;
        entries = λ q d. ground (arith, counts q d, r.entries q d, ==_iff p q);
        filled = r.filled f;
      }

module _ (m : Index) (n : IpAddr → ℕ → ℕ) (f : Filled m)
    (counts : (q : IpAddr) (d : ℕ) → lookup q d m ≡ nonzero (n q d))
    (small : (q : IpAddr) (d : ℕ) → n q d + 1 < 2 ^ 64) where
  pub move_Moved :
      (old new : Option (IpAddr × ℕ))
      → ((q : IpAddr) (d : ℕ) → hit old q d ≤ n q d)
      → Moved old new m n (move_carrier old new m)
  unfolding move_carrier
  move_Moved none none h = record {
    after = m;
    moved = refl;
    entries = λ q d. ground (arith, counts q d);
    filled = f;
  }
  move_Moved none (some (p, c)) h = add_Moved m n f counts small p c
  move_Moved (some (p, c)) none h =
      remove_Moved m n f counts small p c (ground (arith, h p c, ==_refl p))
  move_Moved (some (p, c)) (some (p', c')) h =
      let r = remove_Moved m n f counts small p c (ground (arith, h p c, ==_refl p)) in
      let k : IpAddr → ℕ → ℕ = λ q d. n q d + 0 - hit (some (p, c)) q d in
      let a = add_Moved r.after k r.filled r.entries (λ q d. omega (arith, small q d)) p' c' in
      record {
        after = a.after;
        moved = rw r.moved a.moved;
        entries = λ q d. a.entries q d ∙ ap nonzero (omega (arith, h q d));
        filled = a.filled;
      }
