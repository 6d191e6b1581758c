-- ===== src/Backend/Wakes.antt =====
-- The nearest expiry of the sessions of backend triggers:
-- members/nullnet-server/src/orchestrator.rs.
use nullnet.Prelude.{
  Bool, Distinct, List, Option, [], all, any, ap, arith, false, leb, length, ltb, none, refl, some,
  sym, true, ℕ, ◌++◌, ◌+◌, ◌||◌, ◌∙◌, ◌∷◌, ◌≡◌, ◌≤◌,
}
use nullnet.Backend.{
  BackendSession, Sessions, key_eq, is_due, take_due_backend_sessions, waits, backend_waits,
  nearest_backend_expiry,
}
use nullnet.Backend.Due.{released, take_due_exact}
use nullnet.Services.Views.{least, min_by}

-- Whether a wait that starts at `now` is over by `t`.
abbrev pub woken : (now t : ℕ) → Option ℕ → Bool
woken now t none = false
woken now t (some d) = leb (now + d) t

-- No session went idle after `now`.
abbrev pub started : ℕ → BackendSession → Bool
started now s = elim s.idle_since [ none ↦ true | some since ↦ leb since now ]

module _ (now t : ℕ) where
  min_by_woken :
      (best : ℕ) (xs : List ℕ)
      → leb (now + min_by ltb best xs) t ≡ (leb (now + best) t || any (λ x. leb (now + x) t) xs)
  unfolding min_by
  min_by_woken best [] = ground arith
  min_by_woken best (x ∷ xs) = ground (arith, min_by_woken best xs, min_by_woken x xs)

  pub woken-least : (xs : List ℕ) → woken now t (least ltb xs) ≡ any (λ x. leb (now + x) t) xs
  woken-least [] = refl
  woken-least (x ∷ xs) = min_by_woken x xs

  pub any-append : (p : ℕ → Bool) (xs ys : List ℕ) → any p (xs ++ ys) ≡ (any p xs || any p ys)
  any-append p [] ys = refl
  any-append p (x ∷ xs) ys = ground (arith, any-append p xs ys)

  waits_woken :
      (debounce : ℕ) (s : BackendSession)
      → now ≤ t
      → started now s ≡ true
      → any (λ x. leb (now + x) t) (waits now debounce s) ≡ is_due t debounce s
  waits_woken debounce s le h = ground arith

  all_woken :
      (debounce : ℕ) (m : Sessions)
      → now ≤ t
      → all (λ (k, s). started now s) m ≡ true
      → any (λ x. leb (now + x) t) (backend_waits now debounce m)
        ≡ ltb 0 (length (released t debounce m))
  unfolding backend_waits
  all_woken debounce [] le h = refl
  all_woken debounce ((k, s) ∷ m) le h = ground (
    arith,
    any-append (λ x. leb (now + x) t) (waits now debounce s) (backend_waits now debounce m),
    waits_woken debounce s le,
    all_woken debounce m le,
  )

-- The nearest expiry is over exactly when a reap takes a session.
pub nearest_wakes :
    (now debounce t : ℕ) (m : Sessions)
    → Distinct m
    → all (λ (k, s). started now s) m ≡ true
    → now ≤ t
    → ltb 0 (length ((take_due_backend_sessions t debounce m).1))
      ≡ woken now t (nearest_backend_expiry now debounce m)
unfolding nearest_backend_expiry
nearest_wakes now debounce t m d h le =
    ap (λ xs. ltb 0 (length xs)) ((take_due_exact t debounce m d).0)
    ∙ sym (all_woken now t debounce m le h)
    ∙ sym (woken-least now t (backend_waits now debounce m))
