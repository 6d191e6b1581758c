-- ===== src/Backend/Due.antt =====
-- Which sessions are released:
-- members/nullnet-server/src/orchestrator.rs.
use nullnet.Prelude.{
  ==_iff, ==_refl, Bool, Distinct, List, Option, Text, [], any, arith, false, get, get-remove,
  if◌then◌else◌, leb, none, refl, remove, remove-Distinct, some, sym, ℕ, ◌++◌, ◌-◌, ◌==◌, ◌∙◌, ◌∷◌,
  ◌≡◌,
}
use nullnet.Backend.{
  BackendKey, BackendSession, Sessions, key_eq, is_due, due_keys, taken, take_keys,
  take_due_backend_sessions,
}

abbrev has : BackendKey → List BackendKey → Bool
has j ks = any (λ k. k == j) ks

module _ (j : BackendKey) where
  get-take_keys :
      (ks : List BackendKey) (m : Sessions)
      → get j ((take_keys ks m).0) ≡ (if has j ks then none else get j m)
  unfolding take_keys
  get-take_keys [] m = refl
  get-take_keys (k ∷ ks) m = ground (arith, get-take_keys ks (remove k m), get-remove k j m)

-- What is taken of the map as it was.
abbrev all_taken : List BackendKey → Sessions → List (BackendKey × Text × Option ℕ)
all_taken [] m = []
all_taken (k ∷ ks) m = taken k (get k m) ++ all_taken ks m

abbrev NoRepeat : List BackendKey → Type 0
NoRepeat [] = Unit
NoRepeat (k ∷ ks) = (has k ks ≡ false) × NoRepeat ks

all_taken-remove :
    (k : BackendKey) (ks : List BackendKey) (m : Sessions)
    → has k ks ≡ false
    → all_taken ks (remove k m) ≡ all_taken ks m
all_taken-remove k [] m h = refl
all_taken-remove k (j ∷ ks) m h =
    ground (arith, all_taken-remove k ks m, get-remove k j m, ==_iff k j, ==_iff j k)

take_keys-taken :
    (ks : List BackendKey) (m : Sessions) → NoRepeat ks → (take_keys ks m).1 ≡ all_taken ks m
unfolding take_keys
take_keys-taken [] m h = refl
take_keys-taken (k ∷ ks) m h =
    ground (arith, take_keys-taken ks (remove k m), all_taken-remove k ks m)

take-Distinct : (ks : List BackendKey) (m : Sessions) → Distinct m → Distinct ((take_keys ks m).0)
unfolding take_keys
take-Distinct [] m d = d
take-Distinct (k ∷ ks) m d = take-Distinct ks (remove k m) (remove-Distinct k m d)

module _ (now debounce : ℕ) where
  -- Built, with no connection open, and so for the debounce.
  abbrev pub is_overdue : BackendSession → Bool
  is_overdue s = elim s.idle_since [
    | none ↦ false
    | some since ↦ if s.building then false else leb debounce (now - since)
  ]

  due-overdue : (s : BackendSession) → is_due now debounce s ≡ is_overdue s
  due-overdue s = ground arith

  -- The sessions that are due, in order.
  abbrev pub released : Sessions → List (BackendKey × Text × Option ℕ)
  released [] = []
  released ((k, s) ∷ m) =
      if is_overdue s then (k, s.stack, s.history_id) ∷ released m else released m

  abbrev pub kept : Option BackendSession → Option BackendSession
  kept none = none
  kept (some s) = if is_overdue s then none else some s

  kept_not_due :
      (o : Option BackendSession) (s : BackendSession) → kept o ≡ some s → is_overdue s ≡ false
  kept_not_due none s e = cc
  kept_not_due (some r) s e = ground arith

  due_absent :
      (j : BackendKey) (m : Sessions) → get j m ≡ none → has j (due_keys now debounce m) ≡ false
  unfolding get due_keys
  due_absent j [] h = refl
  due_absent j ((k, s) ∷ m) h = ground (arith, due_absent j m)

  due-NoRepeat : (m : Sessions) → Distinct m → NoRepeat (due_keys now debounce m)
  unfolding due_keys
  due-NoRepeat [] d = tt
  due-NoRepeat ((k, s) ∷ m) d = ground (arith, due-NoRepeat m d.1, due_absent k m d.0)

  all_taken-skip :
      (k : BackendKey) (s : BackendSession) (ks : List BackendKey) (m : Sessions)
      → has k ks ≡ false
      → all_taken ks ((k, s) ∷ m) ≡ all_taken ks m
  unfolding get
  all_taken-skip k s [] m h = refl
  all_taken-skip k s (j ∷ ks) m h = ground (arith, all_taken-skip k s ks m, ==_iff k j, ==_iff j k)

  due-released : (m : Sessions) → Distinct m → all_taken (due_keys now debounce m) m ≡ released m
  unfolding due_keys get
  due-released [] d = refl
  due-released ((k, s) ∷ m) d = ground (
    arith,
    ==_refl k,
    due-released m d.1,
    due-overdue s,
    due_absent k m d.0,
    all_taken-skip k s (due_keys now debounce m) m,
  )

  kept-due :
      (j : BackendKey) (m : Sessions)
      → Distinct m
      → (if has j (due_keys now debounce m) then none else get j m) ≡ kept (get j m)
  unfolding get due_keys
  kept-due j [] d = refl
  kept-due j ((k, s) ∷ m) d =
      ground (arith, kept-due j m d.1, due_absent k m d.0, ==_iff k j, due-overdue s)

  not_due :
      (m : Sessions)
      → Distinct m
      → ((j : BackendKey) (s : BackendSession) → get j m ≡ some s → is_overdue s ≡ false)
      → released m ≡ []
  unfolding get
  not_due [] d h = refl
  not_due ((k, s) ∷ m) d h =
      rw (h k s (ground (arith, ==_refl k)))
        (not_due m d.1 (λ j r e. h j r (ground (arith, ==_iff k j, d.0))))

  -- A reap takes exactly the sessions that are built and have been idle for the debounce, with
  -- their stacks and history rows; each other session stays as it is, and a second reap at the
  -- same time takes nothing.
  pub take_due_exact :
      (m : Sessions)
      → Distinct m
      → ((take_due_backend_sessions now debounce m).1 ≡ released m)
        × ((j : BackendKey) → get j ((take_due_backend_sessions now debounce m).0) ≡ kept (get j m))
        × (released ((take_due_backend_sessions now debounce m).0) ≡ [])
  unfolding take_due_backend_sessions
  take_due_exact m d = (
    take_keys-taken (due_keys now debounce m) m (due-NoRepeat m d) ∙ due-released m d,
    λ j. get-take_keys j (due_keys now debounce m) m ∙ kept-due j m d,
    not_due _ (take-Distinct (due_keys now debounce m) m d) (λ j s e.
        kept_not_due (get j m) s
          (sym (get-take_keys j (due_keys now debounce m) m ∙ kept-due j m d) ∙ e)),
  )
