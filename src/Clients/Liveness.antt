-- ===== src/Clients/Liveness.antt =====
-- When an edge may be reaped: members/nullnet-server/src/services/clients.rs.
use nullnet.Prelude.{List, [], arith, false, refl, suc, true, ℕ, ◌+◌, ◌<◌, ◌^◌, ◌∷◌, ◌≡◌, ◌≤◌}
use nullnet.Clients.Info.{
  ClientInfo, is_pending, open_connection, close_connection, add_active_chain, remove_active_chains,
  set_latest_now, idle_expired,
}

-- What happens to an edge's entry, with the time.
pub data Event : Type 0 where
  opened closed chained touched : ℕ → Event
  released : ℕ → Event

abbrev pub apply : Event → ClientInfo → ClientInfo
apply (opened now) c = open_connection now c
apply (closed now) c = close_connection now c
apply (chained now) c = add_active_chain now c
apply (touched now) c = set_latest_now now c
apply (released chains) c = remove_active_chains chains c

abbrev pub apply_all : List Event → ClientInfo → ClientInfo
apply_all [] c = c
apply_all (e ∷ es) c = apply_all es (apply e c)

abbrev pub opens : List Event → ℕ
opens [] = 0
opens (opened _ ∷ es) = suc (opens es)
opens (_ ∷ es) = opens es

abbrev pub closes : List Event → ℕ
closes [] = 0
closes (closed _ ∷ es) = suc (closes es)
closes (_ ∷ es) = closes es

-- The time of the last event that renews the grace, or `t`.
abbrev pub last_use : ℕ → List Event → ℕ
last_use t [] = t
last_use t (opened now ∷ es) = last_use now es
last_use t (closed now ∷ es) = last_use now es
last_use t (chained now ∷ es) = last_use now es
last_use t (touched now ∷ es) = last_use now es
last_use t (released _ ∷ es) = last_use t es

open_bound :
    (es : List Event) (c : ClientInfo)
    → c.open_connections + opens es < 2 ^ 64
    → (c.open_connections + opens es ≤ (apply_all es c).open_connections + closes es)
      × ((apply_all es c).latest ≡ last_use c.latest es)
      × (is_pending (apply_all es c) ≡ is_pending c)
unfolding open_connection close_connection add_active_chain remove_active_chains set_latest_now
open_bound [] c h = (omega arith, refl, refl)
open_bound (opened now ∷ es) c h = ground (arith, open_bound es (open_connection now c))
open_bound (closed now ∷ es) c h = ground (arith, open_bound es (close_connection now c))
open_bound (chained now ∷ es) c h = ground (arith, open_bound es (add_active_chain now c))
open_bound (touched now ∷ es) c h = ground (arith, open_bound es (set_latest_now now c))
open_bound (released n ∷ es) c h = ground (arith, open_bound es (remove_active_chains n c))

-- An entry that counts as idle is built; at least as many closes were reported as connections were
-- open at first or opened since; and the last open, close, new chain or renewal lies the whole
-- timeout back. An event is an open, a close, a new chain, a renewal or the release of chains.
pub idle_expired_sound :
    (es : List Event) (c : ClientInfo) (now timeout : ℕ)
    → c.open_connections + opens es < 2 ^ 64
    → last_use c.latest es ≤ now
    → idle_expired now timeout (apply_all es c) ≡ true
    → (is_pending c ≡ false)
      × (c.open_connections + opens es ≤ closes es)
      × (last_use c.latest es + timeout ≤ now)
unfolding idle_expired
idle_expired_sound es c now timeout h past e = ground (arith, open_bound es c h)
