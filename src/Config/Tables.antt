-- ===== src/Config/Tables.antt =====
-- The rows of one stack among those of all: members/nullnet-server/src/db/stacks.rs.
use mathlib.Core.List.{append-nil, append_assoc}
use nullnet.Prelude.{
  All, Bool, Bool-cases, List, Text, [], ap, arith, false, inl, inr, map, none, not, refl, some,
  sym, true, ◌++◌, ◌<◌, ◌∙◌, ◌∷◌, ◌≡◌, nat_eq, text_eq,
}
use nullnet.Config.Loaded.{triggers_from, branches_from}
use nullnet.Config.Rows.{ServiceInsert, ServiceRow, ServiceTriggerRow, ServiceDependencyRow}
use nullnet.Config.Saved.{rows_from}
use nullnet.Config.Store.{
  Tables, row_of, trigger_row, branch_rows, insert_service, insert_services, is_unique,
}
use nullnet.Services.Registry.{retain}

-- Every key that is in use was drawn before.
pub record IsNumbered {D : Type 0} (t : Tables D) : Type 0 where
  pub services : All (λ (r : ServiceRow D). r.id < t.next_id) t.services
  pub triggers : All (λ (r : ServiceTriggerRow). r.service_id < t.next_id) t.triggers
  pub dependencies : All (λ (r : ServiceDependencyRow D). r.service_id < t.next_id) t.dependencies

module _ {A : Type 0} where
  pub retain-append :
      (p : A → Bool) (xs ys : List A) → retain p (xs ++ ys) ≡ retain p xs ++ retain p ys
  unfolding retain
  retain-append p [] ys = refl
  retain-append p (x ∷ xs) ys = ground (arith, retain-append p xs ys)

  pub retain_none : (p : A → Bool) (xs : List A) → All (λ x. p x ≡ false) xs → retain p xs ≡ []
  unfolding retain
  retain_none p [] h = refl
  retain_none p (x ∷ xs) h = rw (h.0) (retain_none p xs h.1)

  pub retain_all : (p : A → Bool) (xs : List A) → All (λ x. p x ≡ true) xs → retain p xs ≡ xs
  unfolding retain
  retain_all p [] h = refl
  retain_all p (x ∷ xs) h = rw (h.0) (ap (λ l. x ∷ l) (retain_all p xs h.1))

  pub All-map_under {κ λ'} :
      (P : A → Type κ) (Q : A → Type λ') (xs : List A) → ((x : A) → P x → Q x) → All P xs → All Q xs
  All-map_under P Q [] f h = tt
  All-map_under P Q (x ∷ xs) f h = (f x h.0, All-map_under P Q xs f h.1)

  pub All-retain {κ} :
      (P : A → Type κ) (p : A → Bool) (xs : List A) → All P xs → All P (retain p xs)
  unfolding retain
  All-retain P p [] h = tt
  All-retain P p (x ∷ xs) h = elim (Bool-cases (p x)) [
    | inl e ↦ rw e (h.0, All-retain P p xs h.1)
    | inr e ↦ rw e (All-retain P p xs h.1)
  ]

  -- What passes a test that only the others pass is none.
  pub retain_rest : (p : A → Bool) (xs : List A) → retain p (retain (λ x. not (p x)) xs) ≡ []
  unfolding retain
  retain_rest p [] = refl
  retain_rest p (x ∷ xs) = ground (arith, retain_rest p xs)

module _ {D : Type 0} where
  -- The tables after services were added.
  pub record Added (stack : Text) (ss : List (ServiceInsert D)) (t t' : Tables D) : Type 0 where
    pub stacks : t'.stacks ≡ t.stacks
    pub services : t'.services ≡ t.services ++ rows_from stack t.next_id ss
    pub triggers : t'.triggers ≡ t.triggers ++ triggers_from t.next_id ss
    pub dependencies : t'.dependencies ≡ t.dependencies ++ branches_from t.next_id ss

  refused : {t : Tables D} → ¬ (none ≡ some t)
  refused e = cc

  pub insert_services-Added :
      (stack : Text) (ss : List (ServiceInsert D)) (t : Tables D) {t' : Tables D}
      → insert_services stack ss t ≡ some t'
      → Added stack ss t t'
  unfolding insert_services
  insert_services-Added stack [] t {t'} e =
      let same : t' ≡ t = cc in
      record {
        stacks = ap (λ u. u.stacks) same;
        services = ap (λ u. u.services) same ∙ sym (append-nil t.services);
        triggers = ap (λ u. u.triggers) same ∙ sym (append-nil t.triggers);
        dependencies = ap (λ u. u.dependencies) same ∙ sym (append-nil t.dependencies);
      }
  insert_services-Added stack (s ∷ ss) t e = elim (Bool-cases (is_unique stack s t)) [
    | inl u ↦
        let rest = insert_services-Added stack ss (insert_service stack s t) (rw u at e) in
        record {
          stacks = rest.stacks;
          services = rest.services ∙ append_assoc t.services (row_of stack t.next_id s ∷ []) _;
          triggers =
              rest.triggers ∙ append_assoc t.triggers (map (trigger_row t.next_id) s.backends) _;
          dependencies =
              rest.dependencies
              ∙ append_assoc t.dependencies (branch_rows t.next_id 0 s.dependencies) _;
        }
    | inr u ↦ absurd (refused (rw u at e))
  ]
