-- ===== src/Clients/Carriers.antt =====
-- The index of group carriers, by its entries: members/nullnet-server/src/services/clients.rs.
use nullnet.Prelude.{
  ==_iff, Eq, Map, Option, Option-cases, [], arith, eqb, get, get-insert, get-remove, if◌then◌else◌,
  inl, inr, insert, none, refl, remove, some, ℕ, ◌%◌, ◌&&◌, ◌+◌, ◌-◌, ◌<◌, ◌==◌, ◌>>=◌, ◌^◌, ◌∷◌,
  ◌≡◌, ◌≢◌, nat_eq,
}
use nullnet.Addr.{IpAddr, ip_eq}
use nullnet.Clients.{or_default, or_zero, add_group_carrier, remove_group_carrier, store_carriers}

abbrev pub Index : Type 0
Index = Map IpAddr (Map ℕ ℕ)

-- The users that are counted for a proxy and a carrier.
unfoldable pub lookup : IpAddr → ℕ → Index → Option ℕ
lookup p c m = get p m >>= get c

-- No proxy is listed with no carrier.
abbrev pub Filled : Index → Type 0
Filled m = (p : IpAddr) → get p m ≢ some []

get-or_default : (c : ℕ) (o : Option (Map ℕ ℕ)) → get c (or_default o) ≡ (o >>= get c)
unfolding get
get-or_default c none = refl
get-or_default c (some m) = refl

pub lookup-add :
    (p q : IpAddr) (c d : ℕ) (m : Index)
    → lookup q d (add_group_carrier p c m)
      ≡ (if p == q && eqb c d then some ((or_zero (lookup p c m) + 1) % 2 ^ 64) else lookup q d m)
unfolding lookup add_group_carrier
lookup-add p q c d m = ground (
  arith,
  get-insert p q
      (insert c ((or_zero (get c (or_default (get p m))) + 1) % 2 ^ 64) (or_default (get p m))) m,
  get-insert c d ((or_zero (get c (or_default (get p m))) + 1) % 2 ^ 64) (or_default (get p m)),
  get-or_default c (get p m),
  get-or_default d (get p m),
  ==_iff p q,
)

insert-ne-nil {ℓ} : {K V : Type ℓ} ⦃e : Eq K⦄ (k : K) (v : V) (m : Map K V) → insert k v m ≢ []
unfolding insert
insert-ne-nil k v [] = cc
insert-ne-nil k v ((j, w) ∷ m) = ground arith

pub add-Filled : (p : IpAddr) (c : ℕ) (m : Index) → Filled m → Filled (add_group_carrier p c m)
unfolding add_group_carrier
add-Filled p c m f q =
    let cs = or_default (get p m) in
    let n = (or_zero (get c cs) + 1) % 2 ^ 64 in
    ground (arith, f q, get-insert p q (insert c n cs) m, insert-ne-nil c n cs)

lookup-store :
    (p q : IpAddr) (d : ℕ) (cs : Map ℕ ℕ) (m : Index)
    → lookup q d (store_carriers p cs m) ≡ (if p == q then get d cs else lookup q d m)
unfolding lookup store_carriers get
lookup-store p q d [] m = ground (arith, get-remove p q m)
lookup-store p q d (e ∷ cs) m = ground (arith, get-insert p q (e ∷ cs) m)

store-Filled : (p : IpAddr) (cs : Map ℕ ℕ) (m : Index) → Filled m → Filled (store_carriers p cs m)
unfolding store_carriers
store-Filled p [] m f q = ground (arith, f q, get-remove p q m)
store-Filled p (e ∷ cs) m f q = ground (arith, f q, get-insert p q (e ∷ cs) m)

-- What the removal of one of `n` users leaves.
pub record Removed (p : IpAddr) (c n : ℕ) (m : Index) : Type 0 where
  pub after : Index
  pub removed : remove_group_carrier p c m ≡ some after
  pub entries :
      (q : IpAddr) (d : ℕ)
      → lookup q d after
        ≡ (if p == q && eqb c d then (if eqb n 1 then none else some (n - 1)) else lookup q d m)
  pub filled : Filled m → Filled after

module _ (p : IpAddr) (c n : ℕ) (m : Index) where
  pub remove-Removed : lookup p c m ≡ some n → 0 < n → Removed p c n m
  unfolding lookup remove_group_carrier
  remove-Removed h pos = elim (Option-cases (get p m)) [
    | inl absent ↦ absurd (ground arith)
    | inr (cs, found) ↦
        let cs' = if eqb (n - 1) 0 then remove c cs else insert c (n - 1) cs in
        record {
          after = store_carriers p cs' m;
          removed = ground arith;
          entries = λ q d. ground (
            arith,
            lookup-store p q d cs' m,
            get-remove c d cs,
            get-insert c d (n - 1) cs,
            ==_iff p q,
          );
          filled = store-Filled p cs' m;
        }
  ]
