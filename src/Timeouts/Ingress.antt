-- ===== src/Timeouts/Ingress.antt =====
-- When the clients of proxies are timed out: members/nullnet-server/src/timeout.rs.
use nullnet.Prelude.{
  Bool, Bool-cases, List, Option, Option-cases, Text, [], any, ap, arith, eqb, false, inl, inr, leb,
  length, ltb, map, none, not, refl, some, sym, true, ℕ, ◌&&◌, ◌*◌, ◌+◌, ◌-◌, ◌∙◌, ◌∷◌, ◌≡◌, ◌≤◌,
}
use nullnet.Backend.{key_eq}
use nullnet.Backend.Wakes.{woken, woken-least}
use nullnet.Clients.Info.{Client, ClientInfo, idle_expired, is_pending}
use nullnet.Services.{
  Replica, RegisteredServiceInfo, ServiceInfo, unregistered, registered, timeout,
}
use nullnet.Services.Chains.{ServiceMap}
use nullnet.Services.Registry.{retain}
use nullnet.Services.Views.{entries, is_proxy, nearest_proxy_expiry, expired_proxy_clients}
use nullnet.Timeouts.{
  StackMap, max_poll_interval, nearest_with, nearest_from, nearest_timeout, ingress_sleep,
  timed_out_with, timed_out_from, collect_timed_out_clients,
}

-- A client of a proxy that is to be removed.
abbrev pub ingress_due : (t : ℕ) → StackMap → Bool
ingress_due t stacks = any (λ (stack, m). ltb 0 (length (collect_timed_out_clients t m))) stacks

module _ (now t : ℕ) (le : now ≤ t) where
  abbrev Entry : Type 0
  Entry = Client × ClientInfo × Replica

  none_expired :
      (timeout : ℕ) (es : List Entry)
      → any
          (λ x. leb (now + x) t)
          (map
            (λ ((c, ci, r) : Entry). timeout - (now - ci.latest))
            (retain
              (λ ((c, ci, r) : Entry).
                is_proxy c && not (is_pending ci) && eqb ci.open_connections 0)
              es))
        ≡ false
      → retain (λ ((c, ci, r) : Entry). is_proxy c && idle_expired t timeout ci) es ≡ []
  unfolding retain idle_expired
  none_expired timeout [] h = refl
  none_expired timeout ((c, ci, r) ∷ es) h = ground (arith, none_expired timeout es)

  reg_expires_late :
      (timeout : ℕ) (reg : RegisteredServiceInfo)
      → woken now t (nearest_proxy_expiry now timeout reg) ≡ false
      → expired_proxy_clients t timeout reg ≡ []
  unfolding nearest_proxy_expiry expired_proxy_clients
  reg_expires_late timeout reg h =
      ap (map (λ ((c, ci, r) : Entry). c))
        (none_expired timeout (entries reg.replicas) (sym (woken-least now t _) ∙ h))

  service_late :
      (n : ℕ) (name : Text) (si : ServiceInfo) (limit : Option ℕ) (m : ServiceMap)
      → ltb t (now + nearest_with now n si limit) ≡ true
      → timed_out_with t name si limit m ≡ []
  unfolding retain
  service_late n name si none m h = refl
  service_late n name (unregistered u) (some l) m h = ground arith
  service_late n name (registered reg) (some l) m h = elim (Bool-cases (eqb l 0)) [
    | inl off ↦ rw off refl
    | inr on ↦ elim (Option-cases (nearest_proxy_expiry now (l * 1000) reg)) [
      | inl never ↦ rw (on, reg_expires_late (l * 1000) reg (rw never refl)) refl
      | inr (d, found) ↦ rw (on, reg_expires_late (l * 1000) reg (ground arith)) refl
    ]
  ]

  nearest_with-le : (n : ℕ) (si : ServiceInfo) (limit : Option ℕ) → nearest_with now n si limit ≤ n
  nearest_with-le n si none = omega arith
  nearest_with-le n (unregistered u) (some l) = ground arith
  nearest_with-le n (registered reg) (some l) =
      elim (Option-cases (nearest_proxy_expiry now (l * 1000) reg)) [
        | inl never ↦ rw never (ground arith)
        | inr (d, found) ↦ rw found (ground arith)
      ]

  nearest_from-le : (n : ℕ) (m : ServiceMap) → nearest_from now n m ≤ n
  unfolding nearest_from
  nearest_from-le n [] = omega arith
  nearest_from-le n ((name, si) ∷ m) = omega (
    arith,
    nearest_from-le (nearest_with now n si (timeout si)) m,
    nearest_with-le n si (timeout si),
  )

  stack_late :
      (n : ℕ) (rest m : ServiceMap)
      → ltb t (now + nearest_from now n rest) ≡ true
      → timed_out_from t rest m ≡ []
  unfolding nearest_from timed_out_from
  stack_late n [] m h = refl
  stack_late n ((name, si) ∷ rest) m h =
      let n' = nearest_with now n si (timeout si) in
      rw
        (
          service_late n name si (timeout si) m (ground (arith, nearest_from-le n' rest)),
          stack_late n' rest m h,
        )
        refl

  stacks_late :
      (stacks : StackMap)
      → any (λ x. leb (now + x) t) (map (λ (stack, m). nearest_timeout now m) stacks) ≡ false
      → ingress_due t stacks ≡ false
  stacks_late [] h = refl
  stacks_late ((stack, m) ∷ stacks) h =
      rw (stack_late max_poll_interval m m (ground arith)) (stacks_late stacks (ground arith))

  pub ingress_late :
      (stacks : StackMap)
      → ltb t (now + ingress_sleep now stacks) ≡ true
      → ingress_due t stacks ≡ false
  ingress_late [] h = refl
  ingress_late ((stack, m) ∷ stacks) h =
      let waits =
        map (λ ((s, n) : Text × ServiceMap). nearest_timeout now n) ((stack, m) ∷ stacks) in
      stacks_late ((stack, m) ∷ stacks) (sym (woken-least now t waits) ∙ ground arith)

pub ingress-le : (now : ℕ) (stacks : StackMap) → ingress_sleep now stacks ≤ max_poll_interval
ingress-le now [] = omega arith
ingress-le now ((stack, m) ∷ stacks) =
    let waits = map (λ ((s, n) : Text × ServiceMap). nearest_timeout now n) ((stack, m) ∷ stacks) in
    let t = now + max_poll_interval in
    ground (arith, woken-least now t waits, nearest_from-le now t (omega arith) max_poll_interval m)
